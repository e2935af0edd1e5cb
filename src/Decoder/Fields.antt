-- ===== src/Decoder/Fields.antt =====
-- src/decoders/mod.rs: `decode_state_field`. The source matches on the attribute's name; here the name
-- is looked up among the names of the match arms, in their order, and the arm is chosen by the field
-- that it writes.
pub mod Names
pub mod Values
unfoldable pub use Names.*
unfoldable pub use Values.*
use realflight_bridge.Base.{Option, none, some}
use realflight_bridge.Outcome.{Result, ok, ◌>>=◌}
use realflight_bridge.Text.{Text}
use realflight_bridge.Units.{
  Features, to_velocity, to_length, to_angular_velocity, to_angle, to_acceleration,
  to_electric_potential, to_electric_current, to_electric_charge, to_time,
}
use realflight_bridge.Types.{FloatText, BridgeError, StateIn}

module _ {f : Features} (ft : FloatText) where
  -- The arm of the match.
  unfoldable pub decode_arm : Field → StateIn f → Text → Text → Result BridgeError (StateIn f)
  unfolding parse_with parse_f32 parse_fuel parse_bool
  decode_arm Field.current_physics_time state name value = do
    v ← parse_with ft name value (to_time f)
    ok (record state { current_physics_time = v })
  decode_arm Field.current_physics_speed_multiplier state name value = do
    v ← parse_f32 ft name value
    ok (record state { current_physics_speed_multiplier = v })
  decode_arm Field.airspeed state name value = do
    v ← parse_with ft name value (to_velocity f)
    ok (record state { airspeed = v })
  decode_arm Field.altitude_asl state name value = do
    v ← parse_with ft name value (to_length f)
    ok (record state { altitude_asl = v })
  decode_arm Field.altitude_agl state name value = do
    v ← parse_with ft name value (to_length f)
    ok (record state { altitude_agl = v })
  decode_arm Field.groundspeed state name value = do
    v ← parse_with ft name value (to_velocity f)
    ok (record state { groundspeed = v })
  decode_arm Field.pitch_rate state name value = do
    v ← parse_with ft name value (to_angular_velocity f)
    ok (record state { pitch_rate = v })
  decode_arm Field.roll_rate state name value = do
    v ← parse_with ft name value (to_angular_velocity f)
    ok (record state { roll_rate = v })
  decode_arm Field.yaw_rate state name value = do
    v ← parse_with ft name value (to_angular_velocity f)
    ok (record state { yaw_rate = v })
  decode_arm Field.azimuth state name value = do
    v ← parse_with ft name value (to_angle f)
    ok (record state { azimuth = v })
  decode_arm Field.inclination state name value = do
    v ← parse_with ft name value (to_angle f)
    ok (record state { inclination = v })
  decode_arm Field.roll state name value = do
    v ← parse_with ft name value (to_angle f)
    ok (record state { roll = v })
  decode_arm Field.orientation_quaternion_x state name value = do
    v ← parse_f32 ft name value
    ok (record state { orientation_quaternion_x = v })
  decode_arm Field.orientation_quaternion_y state name value = do
    v ← parse_f32 ft name value
    ok (record state { orientation_quaternion_y = v })
  decode_arm Field.orientation_quaternion_z state name value = do
    v ← parse_f32 ft name value
    ok (record state { orientation_quaternion_z = v })
  decode_arm Field.orientation_quaternion_w state name value = do
    v ← parse_f32 ft name value
    ok (record state { orientation_quaternion_w = v })
  decode_arm Field.aircraft_position_x state name value = do
    v ← parse_with ft name value (to_length f)
    ok (record state { aircraft_position_x = v })
  decode_arm Field.aircraft_position_y state name value = do
    v ← parse_with ft name value (to_length f)
    ok (record state { aircraft_position_y = v })
  decode_arm Field.velocity_world_u state name value = do
    v ← parse_with ft name value (to_velocity f)
    ok (record state { velocity_world_u = v })
  decode_arm Field.velocity_world_v state name value = do
    v ← parse_with ft name value (to_velocity f)
    ok (record state { velocity_world_v = v })
  decode_arm Field.velocity_world_w state name value = do
    v ← parse_with ft name value (to_velocity f)
    ok (record state { velocity_world_w = v })
  decode_arm Field.velocity_body_u state name value = do
    v ← parse_with ft name value (to_velocity f)
    ok (record state { velocity_body_u = v })
  decode_arm Field.velocity_body_v state name value = do
    v ← parse_with ft name value (to_velocity f)
    ok (record state { velocity_body_v = v })
  decode_arm Field.velocity_body_w state name value = do
    v ← parse_with ft name value (to_velocity f)
    ok (record state { velocity_body_w = v })
  decode_arm Field.acceleration_world_ax state name value = do
    v ← parse_with ft name value (to_acceleration f)
    ok (record state { acceleration_world_ax = v })
  decode_arm Field.acceleration_world_ay state name value = do
    v ← parse_with ft name value (to_acceleration f)
    ok (record state { acceleration_world_ay = v })
  decode_arm Field.acceleration_world_az state name value = do
    v ← parse_with ft name value (to_acceleration f)
    ok (record state { acceleration_world_az = v })
  decode_arm Field.acceleration_body_ax state name value = do
    v ← parse_with ft name value (to_acceleration f)
    ok (record state { acceleration_body_ax = v })
  decode_arm Field.acceleration_body_ay state name value = do
    v ← parse_with ft name value (to_acceleration f)
    ok (record state { acceleration_body_ay = v })
  decode_arm Field.acceleration_body_az state name value = do
    v ← parse_with ft name value (to_acceleration f)
    ok (record state { acceleration_body_az = v })
  decode_arm Field.wind_x state name value = do
    v ← parse_with ft name value (to_velocity f)
    ok (record state { wind_x = v })
  decode_arm Field.wind_y state name value = do
    v ← parse_with ft name value (to_velocity f)
    ok (record state { wind_y = v })
  decode_arm Field.wind_z state name value = do
    v ← parse_with ft name value (to_velocity f)
    ok (record state { wind_z = v })
  decode_arm Field.prop_rpm state name value = do
    v ← parse_f32 ft name value
    ok (record state { prop_rpm = v })
  decode_arm Field.heli_main_rotor_rpm state name value = do
    v ← parse_f32 ft name value
    ok (record state { heli_main_rotor_rpm = v })
  decode_arm Field.battery_voltage state name value = do
    v ← parse_with ft name value (to_electric_potential f)
    ok (record state { battery_voltage = v })
  decode_arm Field.battery_current_draw state name value = do
    v ← parse_with ft name value (to_electric_current f)
    ok (record state { battery_current_draw = v })
  decode_arm Field.battery_remaining_capacity state name value = do
    v ← parse_with ft name value (to_electric_charge f)
    ok (record state { battery_remaining_capacity = v })
  decode_arm Field.fuel_remaining state name value = do
    v ← parse_fuel ft f name value
    ok (record state { fuel_remaining = v })
  decode_arm Field.is_locked state name value = do
    v ← parse_bool name value
    ok (record state { is_locked = v })
  decode_arm Field.has_lost_components state name value = do
    v ← parse_bool name value
    ok (record state { has_lost_components = v })
  decode_arm Field.an_engine_is_running state name value = do
    v ← parse_bool name value
    ok (record state { an_engine_is_running = v })
  decode_arm Field.is_touching_ground state name value = do
    v ← parse_bool name value
    ok (record state { is_touching_ground = v })
  decode_arm Field.flight_axis_controller_is_active state name value = do
    v ← parse_bool name value
    ok (record state { flight_axis_controller_is_active = v })
  decode_arm Field.current_aircraft_status state name value =
      ok (record state { current_aircraft_status = value })
  decode_arm Field.reset_button_has_been_pressed state name value = do
    v ← parse_bool name value
    ok (record state { reset_button_has_been_pressed = v })

  unfoldable pub decode_found :
      Option Field → StateIn f → Text → Text → Result BridgeError (StateIn f)
  decode_found none state name value = ok state
  decode_found (some a) state name value = decode_arm a state name value

  -- An attribute with another name is ignored.
  unfoldable pub decode_state_field : StateIn f → Text → Text → Result BridgeError (StateIn f)
  decode_state_field state name value = decode_found (find_field name) state name value
