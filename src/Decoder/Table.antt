-- ===== src/Decoder/Table.antt =====
-- The decoding of elements as writes into a table: the next channel's number, the row of the values,
-- and the channels.
use realflight_bridge.Base.{
  ℕ, ◌+◌, ◌≡◌, refl, sym, ap, ◌∙◌, inl, inr, Bool, false, Option, none, some, List, [], ◌∷◌, ◌++◌,
  length, set, get_elem?, ltb, if◌then◌else◌, Bool-cases, arith,
}
use realflight_bridge.Outcome.{
  Result, ok, err, panic, spin, ◌>>=◌, >>=_assoc, >>=_congr, map_err, of_sum,
}
use realflight_bridge.Text.{Text, codes, text_eq}
use realflight_bridge.Text.Number.{show_nat}
use realflight_bridge.Types.{F32, FloatText, BridgeError, ControlInputs, SimulatorState}
use realflight_bridge.Decoder.{set_channel, decode_item, decode_element}
use realflight_bridge.Decoder.Fields.{Field, find_field, decode_state_field}
use realflight_bridge.Decoder.Row.{
  Value, real, flag, words, contents, column, read_value, after_attribute, row-decode_state_field,
}
use realflight_bridge.Decoder.Document.{decode_elements}

abbrev pub Table : Type 0
Table = ℕ × (List Value × ControlInputs)

abbrev pub view : ℕ × SimulatorState → Table
view (i, s) = (i, contents s)

-- A cell's value as a number, a truth value or a text, where it is one.
abbrev as_real : Option Value → F32
as_real (some (real v)) = v
as_real _ = 0

abbrev as_flag : Option Value → Bool
as_flag (some (flag b)) = b
as_flag _ = false

abbrev as_words : Option Value → Text
as_words (some (words t)) = t
as_words _ = []

-- The state that a row and its channels come from.
abbrev from_contents : List Value × ControlInputs → SimulatorState
from_contents (row, inputs) = record {
  previous_inputs = inputs;
  airspeed = as_real (get_elem? row 0);
  altitude_asl = as_real (get_elem? row 1);
  altitude_agl = as_real (get_elem? row 2);
  groundspeed = as_real (get_elem? row 3);
  pitch_rate = as_real (get_elem? row 4);
  roll_rate = as_real (get_elem? row 5);
  yaw_rate = as_real (get_elem? row 6);
  azimuth = as_real (get_elem? row 7);
  inclination = as_real (get_elem? row 8);
  roll = as_real (get_elem? row 9);
  aircraft_position_x = as_real (get_elem? row 10);
  aircraft_position_y = as_real (get_elem? row 11);
  velocity_world_u = as_real (get_elem? row 12);
  velocity_world_v = as_real (get_elem? row 13);
  velocity_world_w = as_real (get_elem? row 14);
  velocity_body_u = as_real (get_elem? row 15);
  velocity_body_v = as_real (get_elem? row 16);
  velocity_body_w = as_real (get_elem? row 17);
  acceleration_world_ax = as_real (get_elem? row 18);
  acceleration_world_ay = as_real (get_elem? row 19);
  acceleration_world_az = as_real (get_elem? row 20);
  acceleration_body_ax = as_real (get_elem? row 21);
  acceleration_body_ay = as_real (get_elem? row 22);
  acceleration_body_az = as_real (get_elem? row 23);
  wind_x = as_real (get_elem? row 24);
  wind_y = as_real (get_elem? row 25);
  wind_z = as_real (get_elem? row 26);
  prop_rpm = as_real (get_elem? row 27);
  heli_main_rotor_rpm = as_real (get_elem? row 28);
  battery_voltage = as_real (get_elem? row 29);
  battery_current_draw = as_real (get_elem? row 30);
  battery_remaining_capacity = as_real (get_elem? row 31);
  fuel_remaining = as_real (get_elem? row 32);
  is_locked = as_flag (get_elem? row 33);
  has_lost_components = as_flag (get_elem? row 34);
  an_engine_is_running = as_flag (get_elem? row 35);
  is_touching_ground = as_flag (get_elem? row 36);
  current_aircraft_status = as_words (get_elem? row 37);
  current_physics_time = as_real (get_elem? row 38);
  current_physics_speed_multiplier = as_real (get_elem? row 39);
  orientation_quaternion_x = as_real (get_elem? row 40);
  orientation_quaternion_y = as_real (get_elem? row 41);
  orientation_quaternion_z = as_real (get_elem? row 42);
  orientation_quaternion_w = as_real (get_elem? row 43);
  flight_axis_controller_is_active = as_flag (get_elem? row 44);
  reset_button_has_been_pressed = as_flag (get_elem? row 45);
}

-- Tables tell states apart.
pub view_injective : (r r' : ℕ × SimulatorState) → view r ≡ view r' → r ≡ r'
view_injective r r' e = ap (λ t. (t.0, from_contents t.1)) e

-- The write of one attribute: a cell and its value, or nothing for an unknown attribute.
abbrev pub Edit : Type 0
Edit = Option (ℕ × Value)

abbrev pub apply : Edit → List Value → List Value
apply none row = row
apply (some (c, v)) row = set row c v

-- The table after a write.
abbrev pub with_row : List Value → ℕ × ControlInputs → Table
with_row row p = (p.0, (row, p.1))

abbrev pub edited : ℕ → List Value → ControlInputs → Edit → Table
edited i row inputs e = (i, (apply e row, inputs))

abbrev at_index : ℕ → List Value × ControlInputs → Table
at_index i c = (i, c)

abbrev pub put : ControlInputs → ℕ → F32 → Result BridgeError ControlInputs
put inputs i v =
    if ltb i (length inputs.channels)
    then ok (record { channels = set inputs.channels i v })
    else panic

module _ (ft : FloatText) where
  abbrev pub edit_of : Option Field → Text → Text → Result BridgeError Edit
  edit_of none name value = ok none
  edit_of (some f) name value = do v ← read_value ft f name value; ok (some (column f, v))

  -- The next channel.
  abbrev pub next_channel : Text → ℕ × ControlInputs → Result BridgeError (ℕ × ControlInputs)
  next_channel text (i, inputs) = do
    v ←
        map_err (BridgeError.parse (codes "channel[" ++ (show_nat i ++ codes "]")))
          (of_sum (ft.parse_float text))
    inputs' ← put inputs i v
    ok (i + 1, inputs')

  -- An item writes the next channel, any other element a cell of the row.
  abbrev pub write_item : Text → Table → Result BridgeError Table
  write_item text (i, (row, inputs)) = do p ← next_channel text (i, inputs); ok (with_row row p)

  abbrev pub write_attribute : Text → Text → Table → Result BridgeError Table
  write_attribute tag text (i, (row, inputs)) = do
    e ← edit_of (find_field tag) tag text
    ok (edited i row inputs e)

  unfoldable pub write_element : Text → Text → Table → Result BridgeError Table
  write_element tag text t =
      if text_eq tag (codes "item") then write_item text t else write_attribute tag text t

  unfoldable pub write_elements : List (Text × Text) → Table → Result BridgeError Table
  write_elements [] t = ok t
  write_elements ((tag, text) ∷ es) t = do t' ← write_element tag text t; write_elements es t'

  -- The channel that is set in the state is set in the table.
  view-set_channel :
      (i : ℕ) (s : SimulatorState) (parsed : Result BridgeError F32)
      → (do r ← (do v ← parsed; s' ← set_channel s i v; ok (i + 1, s')); ok (view r)) ≡ (do
        p ← (do v ← parsed; inputs' ← put s.previous_inputs i v; ok (i + 1, inputs'))
        ok (with_row (contents s).0 p))
  unfolding set_channel
  view-set_channel i s (ok v) = ground arith
  view-set_channel i s (err e) = refl
  view-set_channel i s panic = refl
  view-set_channel i s spin = refl

  view-decode_item :
      (i : ℕ) (text : Text) (s : SimulatorState)
      → (do r ← decode_item ft i text s; ok (view r)) ≡ write_item text (view (i, s))
  unfolding decode_item
  view-decode_item i text s = view-set_channel i s _

  attribute-after :
      (o : Option Field) (i : ℕ) (s : SimulatorState) (name value : Text)
      → (do c ← after_attribute ft o s name value; ok (at_index i c))
        ≡ (do e ← edit_of o name value; ok (edited i (contents s).0 s.previous_inputs e))
  unfolding after_attribute
  attribute-after none i s name value = refl
  attribute-after (some f) i s name value = ground arith

  view-decode_element :
      (tag text : Text) (r : ℕ × SimulatorState)
      → (do r' ← decode_element ft tag text r; ok (view r')) ≡ write_element tag text (view r)
  unfolding decode_element write_element
  view-decode_element tag text (i, s) = elim (Bool-cases (text_eq tag (codes "item"))) [
    | inl e ↦ rw e (view-decode_item i text s)
    | inr e ↦ rw e (
        >>=_assoc (decode_state_field ft s tag text) _ _
        ∙ sym (
            >>=_assoc (decode_state_field ft s tag text) (λ s'. ok (contents s'))
              (λ c. ok (at_index i c)))
        ∙ ap (λ m. m >>= λ c. ok (at_index i c)) (row-decode_state_field ft s tag text)
        ∙ attribute-after (find_field tag) i s tag text)
  ]

  -- Decoding elements in turn is writing them into the table in turn, failures included.
  pub view-decode_elements :
      (es : List (Text × Text)) (r : ℕ × SimulatorState)
      → (do r' ← decode_elements ft es r; ok (view r')) ≡ write_elements es (view r)
  unfolding decode_elements write_elements
  view-decode_elements [] r = refl
  view-decode_elements ((tag, text) ∷ es) r =
      >>=_assoc (decode_element ft tag text r) _ _
      ∙ >>=_congr (decode_element ft tag text r) _ _ (λ r'. view-decode_elements es r')
      ∙ sym
          (>>=_assoc (decode_element ft tag text r) (λ r'. ok (view r')) (λ t. write_elements es t))
      ∙ ap (λ m. m >>= λ t. write_elements es t) (view-decode_element tag text r)
