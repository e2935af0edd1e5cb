-- ===== src/Decoder/Report.antt =====
-- A report of a state: the attributes that `decode_state_field` knows, each with the text of its value.
pub mod Reread
use realflight_bridge.Base.{
  ℕ, zero, suc, ◌+◌, ◌<◌, ◌≡◌, refl, sym, ap, ◌∙◌, Bool, true, false, not, ◌&&◌, Option, none, some,
  List, [], ◌∷◌, ◌++◌, map, all, set, get_elem?, ◌==◌, if◌then◌else◌, arith,
}
use realflight_bridge.Outcome.{Result, ok, ◌>>=◌, >>=_returns}
use realflight_bridge.Text.{Text, codes, text_eq, lacks}
use realflight_bridge.Text.Number.{parse_bool_text}
use realflight_bridge.Types.{
  F32, FloatText, IsFloatText, BridgeError, ControlInputs, SimulatorState, default_state,
  default_control,
}
use realflight_bridge.Decoder.Fields.{
  Field, field_names, find_in, find_field, parse_f32, parse_bool,
}
use realflight_bridge.Decoder.Row.{Value, real, flag, words, row, column, name_of, read_value}
use realflight_bridge.Decoder.Document.{decode_elements, is_tag}
use realflight_bridge.Decoder.Table.{
  Table, view, view_injective, write_element, write_elements, view-decode_elements,
}
use realflight_bridge.Encoder.RoundTrip.{IsNumber}

-- A value that its text stands for: a number and not NaN, or a text that is free of `<`.
abbrev pub IsReadable : Value → Type 0
IsReadable (real v) = IsNumber v
IsReadable (flag b) = Unit
IsReadable (words t) = lacks b'<' t ≡ true

abbrev pub AreReadable : List Value → Type 0
AreReadable [] = Unit
AreReadable (v ∷ vs) = IsReadable v × AreReadable vs

abbrev pub cell_at : List Value → ℕ → Value
cell_at [] i = words []
cell_at (v ∷ vs) zero = v
cell_at (v ∷ vs) (suc i) = cell_at vs i

pub AreReadable-cell : (vs : List Value) (i : ℕ) → AreReadable vs → IsReadable (cell_at vs i)
AreReadable-cell [] i h = refl
AreReadable-cell (v ∷ vs) zero h = h.0
AreReadable-cell (v ∷ vs) (suc i) h = AreReadable-cell vs i h.1

abbrev pub cell : SimulatorState → Field → Value
cell s f = cell_at (row s) (column f)

abbrev pub all_fields : List Field
all_fields = map (λ e. e.1) field_names

find_field-name_of : (f : Field) → find_field (name_of f) ≡ some f
unfolding find_field text_eq
find_field-name_of f = ground arith

not_item : (f : Field) → text_eq (name_of f) (codes "item") ≡ false
unfolding text_eq
not_item f = ground arith

pub tag_of_field : (f : Field) → (is_tag (name_of f) && lacks b'>' (name_of f)) ≡ true
tag_of_field f = ground arith

module _ (ft : FloatText) where
  abbrev pub text_of : Value → Text
  text_of (real v) = ft.show_float v
  text_of (flag true) = codes "true"
  text_of (flag false) = codes "false"
  text_of (words t) = t

  abbrev pub entry : SimulatorState → Field → Text × Text
  entry s f = (name_of f, text_of (cell s f))

  abbrev pub report : SimulatorState → List (Text × Text)
  report s = map (entry s) all_fields

  module _ (law : IsFloatText ft) where
    read_real :
        (v : F32) (name : Text)
        → IsNumber v
        → (do a ← parse_f32 ft name (ft.show_float v); ok (real a)) ≡ ok (real v)
    unfolding parse_f32
    read_real v name h = rw (law.parse-show v h.0 h.1) refl

    read_flag :
        (b : Bool) (name : Text)
        → (do a ← parse_bool name (text_of (flag b)); ok (flag a)) ≡ ok (flag b)
    unfolding parse_bool parse_bool_text text_eq
    read_flag true name = refl
    read_flag false name = refl

    -- The text of a field's value is read as that value.
    read_value-cell :
        (s : SimulatorState) (f : Field) (name : Text)
        → IsReadable (cell s f)
        → read_value ft f name (text_of (cell s f)) ≡ ok (cell s f)
    unfolding read_value
    read_value-cell s Field.is_locked name h = read_flag s.is_locked name
    read_value-cell s Field.has_lost_components name h = read_flag s.has_lost_components name
    read_value-cell s Field.an_engine_is_running name h = read_flag s.an_engine_is_running name
    read_value-cell s Field.is_touching_ground name h = read_flag s.is_touching_ground name
    read_value-cell s Field.flight_axis_controller_is_active name h =
        read_flag s.flight_axis_controller_is_active name
    read_value-cell s Field.current_aircraft_status name h = refl
    read_value-cell s Field.reset_button_has_been_pressed name h =
        read_flag s.reset_button_has_been_pressed name
    read_value-cell s _ name h = read_real _ name h

    write_element-entry :
        (s : SimulatorState) (f : Field) (i : ℕ) (cells : List Value) (inputs : ControlInputs)
        → IsReadable (cell s f)
        → write_element ft (name_of f) (text_of (cell s f)) (i, (cells, inputs))
          ≡ ok (i, (set cells (column f) (cell s f), inputs))
    unfolding write_element
    write_element-entry s f i cells inputs h =
        rw (not_item f, find_field-name_of f, read_value-cell s f (name_of f) h) refl

    -- The cells after the fields of a list are written.
    abbrev fill : SimulatorState → List Field → List Value → List Value
    fill s [] cells = cells
    fill s (f ∷ fs) cells = fill s fs (set cells (column f) (cell s f))

    write_elements-entries :
        (s : SimulatorState) (fs : List Field) (i : ℕ) (cells : List Value) (inputs : ControlInputs)
        → AreReadable (row s)
        → write_elements ft (map (entry s) fs) (i, (cells, inputs))
          ≡ ok (i, (fill s fs cells, inputs))
    unfolding write_elements
    write_elements-entries s [] i cells inputs h = refl
    write_elements-entries s (f ∷ fs) i cells inputs h =
        rw
          (
            write_element-entry s f i cells inputs (AreReadable-cell (row s) (column f) h),
            write_elements-entries s fs i (set cells (column f) (cell s f)) inputs h,
          )
          refl

    -- Every cell is written.
    fill-row : (s old : SimulatorState) → fill s all_fields (row old) ≡ row s
    fill-row s old = refl

    -- Decoding the report of a state gives the state, whatever it is decoded upon; the channels are
    -- not in the report.
    pub decode-report :
        (s old : SimulatorState) (i : ℕ)
        → AreReadable (row s)
        → decode_elements ft (report s) (i, old)
          ≡ ok (i, record s { previous_inputs = old.previous_inputs })
    decode-report s old i h =
        let (r, e, a) = >>=_returns _ (decode_elements ft (report s) (i, old)) (
          view-decode_elements ft (report s) (i, old)
          ∙ write_elements-entries s all_fields i (row old) old.previous_inputs h) in
        a ∙ ap ok (view_injective r (i, record s { previous_inputs = old.previous_inputs }) cc)
