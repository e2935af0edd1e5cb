-- ===== src/Decoder/Row.antt =====
-- The simulator state as the row of its values, and what decoding one attribute does to the row.
use realflight_bridge.Base.{
  ℕ, ◌≡◌, refl, Bool, Option, none, some, List, [], ◌∷◌, set, arith, ◌==◌, if◌then◌else◌,
}
use realflight_bridge.Outcome.{Result, ok, ◌>>=◌}
use realflight_bridge.Text.{Text}
use realflight_bridge.Types.{F32, FloatText, BridgeError, ControlInputs, SimulatorState}
use realflight_bridge.Decoder.Fields.{
  Field, field_names, find_field, parse_f32, parse_bool, decode_arm, decode_found,
  decode_state_field,
}

pub data Value : Type 0 where
  real : F32 → Value
  flag : Bool → Value
  words : Text → Value

-- The fields in the order of their declaration in src/lib.rs.
abbrev pub row : SimulatorState → List Value
row s =
    real s.airspeed
    ∷ real s.altitude_asl
    ∷ real s.altitude_agl
    ∷ real s.groundspeed
    ∷ real s.pitch_rate
    ∷ real s.roll_rate
    ∷ real s.yaw_rate
    ∷ real s.azimuth
    ∷ real s.inclination
    ∷ real s.roll
    ∷ real s.aircraft_position_x
    ∷ real s.aircraft_position_y
    ∷ real s.velocity_world_u
    ∷ real s.velocity_world_v
    ∷ real s.velocity_world_w
    ∷ real s.velocity_body_u
    ∷ real s.velocity_body_v
    ∷ real s.velocity_body_w
    ∷ real s.acceleration_world_ax
    ∷ real s.acceleration_world_ay
    ∷ real s.acceleration_world_az
    ∷ real s.acceleration_body_ax
    ∷ real s.acceleration_body_ay
    ∷ real s.acceleration_body_az
    ∷ real s.wind_x
    ∷ real s.wind_y
    ∷ real s.wind_z
    ∷ real s.prop_rpm
    ∷ real s.heli_main_rotor_rpm
    ∷ real s.battery_voltage
    ∷ real s.battery_current_draw
    ∷ real s.battery_remaining_capacity
    ∷ real s.fuel_remaining
    ∷ flag s.is_locked
    ∷ flag s.has_lost_components
    ∷ flag s.an_engine_is_running
    ∷ flag s.is_touching_ground
    ∷ words s.current_aircraft_status
    ∷ real s.current_physics_time
    ∷ real s.current_physics_speed_multiplier
    ∷ real s.orientation_quaternion_x
    ∷ real s.orientation_quaternion_y
    ∷ real s.orientation_quaternion_z
    ∷ real s.orientation_quaternion_w
    ∷ flag s.flight_axis_controller_is_active
    ∷ flag s.reset_button_has_been_pressed
    ∷ []

-- All that a state holds.
abbrev pub contents : SimulatorState → List Value × ControlInputs
contents s = (row s, s.previous_inputs)

abbrev pub column : Field → ℕ
column Field.current_physics_time = 38
column Field.current_physics_speed_multiplier = 39
column Field.airspeed = 0
column Field.altitude_asl = 1
column Field.altitude_agl = 2
column Field.groundspeed = 3
column Field.pitch_rate = 4
column Field.roll_rate = 5
column Field.yaw_rate = 6
column Field.azimuth = 7
column Field.inclination = 8
column Field.roll = 9
column Field.orientation_quaternion_x = 40
column Field.orientation_quaternion_y = 41
column Field.orientation_quaternion_z = 42
column Field.orientation_quaternion_w = 43
column Field.aircraft_position_x = 10
column Field.aircraft_position_y = 11
column Field.velocity_world_u = 12
column Field.velocity_world_v = 13
column Field.velocity_world_w = 14
column Field.velocity_body_u = 15
column Field.velocity_body_v = 16
column Field.velocity_body_w = 17
column Field.acceleration_world_ax = 18
column Field.acceleration_world_ay = 19
column Field.acceleration_world_az = 20
column Field.acceleration_body_ax = 21
column Field.acceleration_body_ay = 22
column Field.acceleration_body_az = 23
column Field.wind_x = 24
column Field.wind_y = 25
column Field.wind_z = 26
column Field.prop_rpm = 27
column Field.heli_main_rotor_rpm = 28
column Field.battery_voltage = 29
column Field.battery_current_draw = 30
column Field.battery_remaining_capacity = 31
column Field.fuel_remaining = 32
column Field.is_locked = 33
column Field.has_lost_components = 34
column Field.an_engine_is_running = 35
column Field.is_touching_ground = 36
column Field.flight_axis_controller_is_active = 44
column Field.current_aircraft_status = 37
column Field.reset_button_has_been_pressed = 45

-- The name of the attribute that is matched for a column, among some names.
abbrev pub name_in : List (Text × Field) → ℕ → Text
name_in [] c = []
name_in ((n, f) ∷ es) c = if column f == c then n else name_in es c

abbrev pub name_of : Field → Text
name_of f = name_in field_names (column f)

-- The contents after a write of one column.
abbrev pub written : SimulatorState → Field → Value → List Value × ControlInputs
written s f v = (set (row s) (column f) v, s.previous_inputs)

abbrev map_value : {A : Type 0} → (A → Value) → Result BridgeError A → Result BridgeError Value
map_value g r = do a ← r; ok (g a)

module _ (ft : FloatText) where
  -- What the text of an attribute stands for: a number, a truth value, or itself.
  unfoldable pub read_value : Field → Text → Text → Result BridgeError Value
  read_value Field.is_locked name value = map_value flag (parse_bool name value)
  read_value Field.has_lost_components name value = map_value flag (parse_bool name value)
  read_value Field.an_engine_is_running name value = map_value flag (parse_bool name value)
  read_value Field.is_touching_ground name value = map_value flag (parse_bool name value)
  read_value Field.flight_axis_controller_is_active name value =
      map_value flag (parse_bool name value)
  read_value Field.current_aircraft_status name value = ok (words value)
  read_value Field.reset_button_has_been_pressed name value = map_value flag (parse_bool name value)
  read_value _ name value = map_value real (parse_f32 ft name value)

  -- Decoding an attribute writes its value into its column and leaves the others alone; where the
  -- text cannot be read, it fails as reading it does.
  pub row-decode_arm :
      (f : Field) (s : SimulatorState) (name value : Text)
      → (do s' ← decode_arm ft f s name value; ok (contents s'))
        ≡ (do v ← read_value f name value; ok (written s f v))
  unfolding decode_arm read_value
  row-decode_arm Field.is_locked s name value = ground arith
  row-decode_arm _ s name value = ground arith

  -- What decoding an attribute has to leave: a known one is written, an unknown one is ignored.
  unfoldable pub after_attribute :
      Option Field → SimulatorState → Text → Text → Result BridgeError (List Value × ControlInputs)
  after_attribute none s name value = ok (contents s)
  after_attribute (some f) s name value = do v ← read_value f name value; ok (written s f v)

  row-decode_found :
      (o : Option Field) (s : SimulatorState) (name value : Text)
      → (do s' ← decode_found ft o s name value; ok (contents s')) ≡ after_attribute o s name value
  unfolding decode_found after_attribute
  row-decode_found none s name value = refl
  row-decode_found (some f) s name value = row-decode_arm f s name value

  -- `decode_state_field` reads the text of a known attribute by the attribute's type and writes the
  -- value into the attribute's column and nowhere else; it fails exactly where the text cannot be
  -- read; an unknown attribute leaves the state as it is.
  pub row-decode_state_field :
      (s : SimulatorState) (name value : Text)
      → (do s' ← decode_state_field ft s name value; ok (contents s'))
        ≡ after_attribute (find_field name) s name value
  unfolding decode_state_field
  row-decode_state_field s name value = row-decode_found (find_field name) s name value
