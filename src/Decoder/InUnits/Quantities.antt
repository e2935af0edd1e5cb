-- ===== src/Decoder/InUnits/Quantities.antt =====
-- The state of a build with any features that holds the numbers of a raw state.
use realflight_bridge.Base.{◌≡◌, refl}
use realflight_bridge.Units.{
  F32, Features, default_features, uom, Volume, to_volume, ounces_per_liter, to_velocity, to_length,
  to_angular_velocity, to_angle, to_acceleration, to_electric_potential, to_electric_current,
  to_electric_charge, to_time, no_velocity, no_length, no_angular_velocity, no_angle,
  no_acceleration, no_electric_potential, no_electric_current, no_electric_charge, no_time,
  no_volume,
}
use realflight_bridge.Types.{StateIn, SimulatorState, default_state, default_state_in}

-- The volume for a number of ounces.
abbrev pub fuel_volume : (f : Features) → F32 → Volume f
fuel_volume default_features v = v
fuel_volume (uom q divide) v = to_volume q (divide v ounces_per_liter)

-- The state whose quantities are the numbers of a raw state, each in the unit that the name of its
-- attribute says; what is no quantity is kept.
abbrev pub in_units : (f : Features) → SimulatorState → StateIn f
in_units f s = record {
  previous_inputs = s.previous_inputs;
  airspeed = to_velocity f s.airspeed;
  altitude_asl = to_length f s.altitude_asl;
  altitude_agl = to_length f s.altitude_agl;
  groundspeed = to_velocity f s.groundspeed;
  pitch_rate = to_angular_velocity f s.pitch_rate;
  roll_rate = to_angular_velocity f s.roll_rate;
  yaw_rate = to_angular_velocity f s.yaw_rate;
  azimuth = to_angle f s.azimuth;
  inclination = to_angle f s.inclination;
  roll = to_angle f s.roll;
  aircraft_position_x = to_length f s.aircraft_position_x;
  aircraft_position_y = to_length f s.aircraft_position_y;
  velocity_world_u = to_velocity f s.velocity_world_u;
  velocity_world_v = to_velocity f s.velocity_world_v;
  velocity_world_w = to_velocity f s.velocity_world_w;
  velocity_body_u = to_velocity f s.velocity_body_u;
  velocity_body_v = to_velocity f s.velocity_body_v;
  velocity_body_w = to_velocity f s.velocity_body_w;
  acceleration_world_ax = to_acceleration f s.acceleration_world_ax;
  acceleration_world_ay = to_acceleration f s.acceleration_world_ay;
  acceleration_world_az = to_acceleration f s.acceleration_world_az;
  acceleration_body_ax = to_acceleration f s.acceleration_body_ax;
  acceleration_body_ay = to_acceleration f s.acceleration_body_ay;
  acceleration_body_az = to_acceleration f s.acceleration_body_az;
  wind_x = to_velocity f s.wind_x;
  wind_y = to_velocity f s.wind_y;
  wind_z = to_velocity f s.wind_z;
  prop_rpm = s.prop_rpm;
  heli_main_rotor_rpm = s.heli_main_rotor_rpm;
  battery_voltage = to_electric_potential f s.battery_voltage;
  battery_current_draw = to_electric_current f s.battery_current_draw;
  battery_remaining_capacity = to_electric_charge f s.battery_remaining_capacity;
  fuel_remaining = fuel_volume f s.fuel_remaining;
  is_locked = s.is_locked;
  has_lost_components = s.has_lost_components;
  an_engine_is_running = s.an_engine_is_running;
  is_touching_ground = s.is_touching_ground;
  current_aircraft_status = s.current_aircraft_status;
  current_physics_time = to_time f s.current_physics_time;
  current_physics_speed_multiplier = s.current_physics_speed_multiplier;
  orientation_quaternion_x = s.orientation_quaternion_x;
  orientation_quaternion_y = s.orientation_quaternion_y;
  orientation_quaternion_z = s.orientation_quaternion_z;
  orientation_quaternion_w = s.orientation_quaternion_w;
  flight_axis_controller_is_active = s.flight_axis_controller_is_active;
  reset_button_has_been_pressed = s.reset_button_has_been_pressed;
}

-- The number 0 of each unit is the quantity by `Default`.
pub record HasZeros (f : Features) : Type 0 where
  pub to_velocity-zero : to_velocity f 0 ≡ no_velocity f
  pub to_length-zero : to_length f 0 ≡ no_length f
  pub to_angular_velocity-zero : to_angular_velocity f 0 ≡ no_angular_velocity f
  pub to_angle-zero : to_angle f 0 ≡ no_angle f
  pub to_acceleration-zero : to_acceleration f 0 ≡ no_acceleration f
  pub to_electric_potential-zero : to_electric_potential f 0 ≡ no_electric_potential f
  pub to_electric_current-zero : to_electric_current f 0 ≡ no_electric_current f
  pub to_electric_charge-zero : to_electric_charge f 0 ≡ no_electric_charge f
  pub to_time-zero : to_time f 0 ≡ no_time f
  pub fuel_volume-zero : fuel_volume f 0 ≡ no_volume f

pub in_units-default : (f : Features) → HasZeros f → in_units f default_state ≡ default_state_in f
in_units-default f z =
    rw
      (
        z.to_velocity-zero, z.to_length-zero, z.to_angular_velocity-zero, z.to_angle-zero,
        z.to_acceleration-zero, z.to_electric_potential-zero, z.to_electric_current-zero,
        z.to_electric_charge-zero, z.to_time-zero, z.fuel_volume-zero,
      )
      refl
