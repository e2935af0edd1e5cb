-- ===== src/Decoder/InUnits.antt =====
-- The decoder in a build with the feature `uom`, against the decoder in the build without it.
pub mod Quantities
pub use Quantities.{HasZeros}
use realflight_bridge.Base.{
  ℕ, ◌+◌, ◌≡◌, refl, sym, ap, ◌∙◌, Bool-cases, inl, inr, Option, none, some, [], ◌∷◌, ◌==◌, arith,
}
use realflight_bridge.Outcome.{Result, ok, err, panic, spin, ◌>>=◌, >>=_assoc, >>=-ok, >>=_congr}
use realflight_bridge.Text.{Text, codes, text_eq}
use realflight_bridge.Units.{
  F32, Features, default_features, uom, Volume, to_volume, ounces_per_liter, to_velocity, to_length,
  to_angular_velocity, to_angle, to_acceleration, to_electric_potential, to_electric_current,
  to_electric_charge, to_time, no_velocity, no_length, no_angular_velocity, no_angle,
  no_acceleration, no_electric_potential, no_electric_current, no_electric_charge, no_time,
  no_volume,
}
use realflight_bridge.Types.{
  FloatText, BridgeError, StateIn, SimulatorState, default_state, default_state_in,
}
use realflight_bridge.Decoder.Fields.{
  Field, find_field, parse_with, parse_f32, parse_fuel, parse_bool, decode_arm, decode_found,
  decode_state_field,
}
use realflight_bridge.Decoder.{
  DecoderIn, Decoder, ParseState, close_tag, set_channel, decode_item, decode_element, close,
  closed, step_in, run, initial_in, decode_simulator_state, decode_simulator_state_in,
}
use Quantities.{fuel_volume, in_units, in_units-default}

-- What the converters make of an outcome.
abbrev pub result_in :
    (f : Features) → Result BridgeError SimulatorState → Result BridgeError (StateIn f)
result_in f r = do s ← r; ok (in_units f s)

module _ (ft : FloatText) where
  parse_fuel-units :
      (f : Features) (name value : Text)
      → parse_fuel ft f name value
        ≡ (do v ← parse_fuel ft default_features name value; ok (fuel_volume f v))
  unfolding parse_fuel parse_with parse_f32
  parse_fuel-units default_features name value = sym (>>=-ok (parse_f32 ft name value))
  parse_fuel-units (uom q divide) name value = ground arith

  decode_arm-units :
      (f : Features) (a : Field) (s : SimulatorState) (name value : Text)
      → decode_arm ft a (in_units f s) name value ≡ result_in f (decode_arm ft a s name value)
  unfolding decode_arm parse_with parse_f32 parse_bool
  decode_arm-units f Field.fuel_remaining s name value =
      rw (parse_fuel-units f name value)
        (>>=_assoc (parse_f32 ft name value) _ _ ∙ sym (>>=_assoc (parse_f32 ft name value) _ _))
  decode_arm-units f _ s name value = ground arith

  decode_found-units :
      (f : Features) (o : Option Field) (s : SimulatorState) (name value : Text)
      → decode_found ft o (in_units f s) name value ≡ result_in f (decode_found ft o s name value)
  unfolding decode_found
  decode_found-units f none s name value = refl
  decode_found-units f (some a) s name value = decode_arm-units f a s name value

  decode_state_field-units :
      (f : Features) (s : SimulatorState) (name value : Text)
      → decode_state_field ft (in_units f s) name value
        ≡ result_in f (decode_state_field ft s name value)
  unfolding decode_state_field
  decode_state_field-units f s name value = decode_found-units f (find_field name) s name value

  -- The same with the channels' index.
  abbrev indexed :
      (f : Features) → Result BridgeError (ℕ × SimulatorState) → Result BridgeError (ℕ × StateIn f)
  indexed f r = do (i, s) ← r; ok (i, in_units f s)

  with_index :
      (f : Features) (i : ℕ) (r : Result BridgeError SimulatorState)
      → (do s ← result_in f r; ok (i, s)) ≡ indexed f (do s ← r; ok (i, s))
  with_index f i (ok s) = refl
  with_index f i (err e) = refl
  with_index f i panic = refl
  with_index f i spin = refl

  set_channel-units :
      (f : Features) (s : SimulatorState) (i : ℕ) (v : F32)
      → set_channel (in_units f s) i v ≡ result_in f (set_channel s i v)
  unfolding set_channel
  set_channel-units f s i v = ground arith

  channel_set :
      (f : Features) (i : ℕ) (s : SimulatorState) (r : Result BridgeError F32)
      → (do v ← r; s' ← set_channel (in_units f s) i v; ok (i + 1, s'))
        ≡ indexed f (do v ← r; s' ← set_channel s i v; ok (i + 1, s'))
  channel_set f i s (ok v) =
      rw (set_channel-units f s i v) (with_index f (i + 1) (set_channel s i v))
  channel_set f i s (err e) = refl
  channel_set f i s panic = refl
  channel_set f i s spin = refl

  decode_item-units :
      (f : Features) (i : ℕ) (text : Text) (s : SimulatorState)
      → decode_item ft i text (in_units f s) ≡ indexed f (decode_item ft i text s)
  unfolding decode_item
  decode_item-units f i text s = channel_set f i s _

  decode_element-units :
      (f : Features) (tag text : Text) (i : ℕ) (s : SimulatorState)
      → decode_element ft tag text (i, in_units f s) ≡ indexed f (decode_element ft tag text (i, s))
  unfolding decode_element
  decode_element-units f tag text i s = elim (Bool-cases (text_eq tag (codes "item"))) [
    | inl e ↦ rw e (decode_item-units f i text s)
    | inr e ↦
        rw (e, decode_state_field-units f s tag text)
          (with_index f i (decode_state_field ft s tag text))
  ]

  abbrev decoder_in : (f : Features) → Decoder → DecoderIn f
  decoder_in f d = record {
    state = d.state;
    key = d.key;
    open_tag = d.open_tag;
    content = d.content;
    channel_ndx = d.channel_ndx;
    result = in_units f d.result;
  }

  close-units : (f : Features) (d : Decoder) → close ft (decoder_in f d) ≡ indexed f (close ft d)
  unfolding close
  close-units f d = elim (Bool-cases (text_eq d.open_tag d.key)) [
    | inl e ↦ rw e (decode_element-units f d.open_tag d.content d.channel_ndx d.result)
    | inr e ↦ rw e refl
  ]

  closed-units :
      (f : Features) (d : Decoder) (r : Result BridgeError (ℕ × SimulatorState))
      → (do r' ← indexed f r; ok (closed ft (decoder_in f d) r'))
        ≡ (do d' ← (do r' ← r; ok (closed ft d r')); ok (decoder_in f d'))
  closed-units f d (ok (i, s)) = refl
  closed-units f d (err e) = refl
  closed-units f d panic = refl
  closed-units f d spin = refl

  step_in-units :
      (f : Features) (m : ParseState) (d : Decoder) (ch : ℕ)
      → step_in ft m (decoder_in f d) ch ≡ (do d' ← step_in ft m d ch; ok (decoder_in f d'))
  unfolding step_in
  step_in-units f close_tag d ch = elim (Bool-cases (ch == b'>')) [
    | inl e ↦ rw (e, close-units f d) (closed-units f d (close ft d))
    | inr e ↦ rw e refl
  ]
  step_in-units f _ d ch = ground arith

  run-units :
      (f : Features) (d : Decoder) (xml : Text)
      → run ft (decoder_in f d) xml ≡ result_in f (run ft d xml)
  unfolding run
  run-units f d [] = refl
  run-units f d (ch ∷ xml) = rw (step_in-units f d.state d ch) (
      >>=_assoc (step_in ft d.state d ch) _ _
      ∙ >>=_congr (step_in ft d.state d ch) _ _ (λ d'. run-units f d' xml)
      ∙ sym (>>=_assoc (step_in ft d.state d ch) _ _))

-- With any features `decode_simulator_state` gives what it gives without them, each number as a
-- quantity in the unit that its attribute is named by, the ounces of fuel as liters; it fails,
-- or panics, exactly where the other build does.
pub decode-units :
    (f : Features) (ft : FloatText) (xml : Text)
    → HasZeros f
    → decode_simulator_state_in f ft xml ≡ result_in f (decode_simulator_state ft xml)
unfolding decode_simulator_state
decode-units f ft xml z =
    ap (λ s. run ft (record (initial_in f) { result = s }) xml) (sym (in_units-default f z))
    ∙ run-units ft f (initial_in default_features) xml
