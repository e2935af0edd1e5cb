-- ===== src/Types.antt =====
-- src/lib.rs and the Configuration of src/bridge/local/mod.rs. The state of the simulator depends on
-- the feature `uom`; where no features are named, the build has none, and every quantity is a raw f32.
-- The text of an f32 is the standard library's, and is a parameter.
use realflight_bridge.Base.{
  ℕ, ◌≡◌, ◌⊎◌, inr, ◌<◌, ◌/◌, ◌%◌, ◌^◌, ◌==◌, ◌&&◌, not, Bool, true, false, List, [], length,
  replicate,
}
use realflight_bridge.Text.{Text, codes, lacks}
pub use realflight_bridge.Units.{F32}
use realflight_bridge.Units.{
  Features, default_features, Velocity, Length, AngularVelocity, Angle, Acceleration,
  ElectricPotential, ElectricCurrent, ElectricCharge, Volume, Time, no_velocity, no_length,
  no_angular_velocity, no_angle, no_acceleration, no_electric_potential, no_electric_current,
  no_electric_charge, no_volume, no_time,
}

-- A duration in microseconds.
abbrev pub Duration : Type 0
Duration = ℕ

-- `FromStr`, with the message of its error, and `Display` of f32.
pub record FloatText : Type 0 where
  pub parse_float : Text → Text ⊎ F32
  pub show_float : F32 → Text

-- `std::io::Error`: its kind and its message.
pub data IoKind : Type 0 where
  unexpected_eof invalid_data invalid_input timed_out other : IoKind

pub record IoError : Type 0 where
  pub kind : IoKind
  pub message : Text

pub data BridgeError : Type 0 where
  connection : IoError → BridgeError
  initialization : Text → BridgeError
  soap_fault : Text → BridgeError
  parse : (field message : Text) → BridgeError

pub record ControlInputs : Type 0 where
  pub channels : List F32

-- The array holds twelve values.
abbrev pub IsControl : ControlInputs → Type 0
IsControl c = length c.channels ≡ 12

-- The state in a build with the features `f`.
pub record StateIn (f : Features) : Type 0 where
  pub previous_inputs : ControlInputs
  pub airspeed : Velocity f
  pub altitude_asl : Length f
  pub altitude_agl : Length f
  pub groundspeed : Velocity f
  pub pitch_rate : AngularVelocity f
  pub roll_rate : AngularVelocity f
  pub yaw_rate : AngularVelocity f
  pub azimuth : Angle f
  pub inclination : Angle f
  pub roll : Angle f
  pub aircraft_position_x : Length f
  pub aircraft_position_y : Length f
  pub velocity_world_u : Velocity f
  pub velocity_world_v : Velocity f
  pub velocity_world_w : Velocity f
  pub velocity_body_u : Velocity f
  pub velocity_body_v : Velocity f
  pub velocity_body_w : Velocity f
  pub acceleration_world_ax : Acceleration f
  pub acceleration_world_ay : Acceleration f
  pub acceleration_world_az : Acceleration f
  pub acceleration_body_ax : Acceleration f
  pub acceleration_body_ay : Acceleration f
  pub acceleration_body_az : Acceleration f
  pub wind_x : Velocity f
  pub wind_y : Velocity f
  pub wind_z : Velocity f
  pub prop_rpm : F32
  pub heli_main_rotor_rpm : F32
  pub battery_voltage : ElectricPotential f
  pub battery_current_draw : ElectricCurrent f
  pub battery_remaining_capacity : ElectricCharge f
  pub fuel_remaining : Volume f
  pub is_locked : Bool
  pub has_lost_components : Bool
  pub an_engine_is_running : Bool
  pub is_touching_ground : Bool
  pub current_aircraft_status : Text
  pub current_physics_time : Time f
  pub current_physics_speed_multiplier : F32
  pub orientation_quaternion_x : F32
  pub orientation_quaternion_y : F32
  pub orientation_quaternion_z : F32
  pub orientation_quaternion_w : F32
  pub flight_axis_controller_is_active : Bool
  pub reset_button_has_been_pressed : Bool

abbrev pub SimulatorState : Type 0
SimulatorState = StateIn default_features

abbrev pub default_control : ControlInputs
default_control = record { channels = replicate 12 0 }

abbrev pub default_state_in : (f : Features) → StateIn f
default_state_in f = record {
  previous_inputs = default_control;
  airspeed = no_velocity f;
  altitude_asl = no_length f;
  altitude_agl = no_length f;
  groundspeed = no_velocity f;
  pitch_rate = no_angular_velocity f;
  roll_rate = no_angular_velocity f;
  yaw_rate = no_angular_velocity f;
  azimuth = no_angle f;
  inclination = no_angle f;
  roll = no_angle f;
  aircraft_position_x = no_length f;
  aircraft_position_y = no_length f;
  velocity_world_u = no_velocity f;
  velocity_world_v = no_velocity f;
  velocity_world_w = no_velocity f;
  velocity_body_u = no_velocity f;
  velocity_body_v = no_velocity f;
  velocity_body_w = no_velocity f;
  acceleration_world_ax = no_acceleration f;
  acceleration_world_ay = no_acceleration f;
  acceleration_world_az = no_acceleration f;
  acceleration_body_ax = no_acceleration f;
  acceleration_body_ay = no_acceleration f;
  acceleration_body_az = no_acceleration f;
  wind_x = no_velocity f;
  wind_y = no_velocity f;
  wind_z = no_velocity f;
  prop_rpm = 0;
  heli_main_rotor_rpm = 0;
  battery_voltage = no_electric_potential f;
  battery_current_draw = no_electric_current f;
  battery_remaining_capacity = no_electric_charge f;
  fuel_remaining = no_volume f;
  is_locked = false;
  has_lost_components = false;
  an_engine_is_running = false;
  is_touching_ground = false;
  current_aircraft_status = [];
  current_physics_time = no_time f;
  current_physics_speed_multiplier = 0;
  orientation_quaternion_x = 0;
  orientation_quaternion_y = 0;
  orientation_quaternion_z = 0;
  orientation_quaternion_w = 0;
  flight_axis_controller_is_active = false;
  reset_button_has_been_pressed = false;
}

abbrev pub default_state : SimulatorState
default_state = default_state_in default_features

pub record Configuration : Type 0 where
  pub simulator_host : Text
  pub connect_timeout : Duration
  pub pool_size : ℕ

-- `DEFAULT_SIMULATOR_HOST`.
abbrev pub default_simulator_host : Text
default_simulator_host = codes "127.0.0.1:18083"

abbrev pub default_configuration : Configuration
default_configuration = record {
  simulator_host = default_simulator_host;
  connect_timeout = 5000;
  pool_size = 1;
}

-- An f32 whose exponent is all ones and whose mantissa is not zero.
abbrev pub is_nan : F32 → Bool
is_nan v = v / 0x800000 % 256 == 255 && not (v % 0x800000 == 0)

-- What is documented of the text of an f32: a number is read back from its text, bit by bit, and the
-- text consists of digits, letters, `-` and `.`.
pub record IsFloatText (ft : FloatText) : Type 0 where
  pub parse-show :
      (v : F32) → v < 2 ^ 32 → is_nan v ≡ false → ft.parse_float (ft.show_float v) ≡ inr v
  pub lacks-show : (v : F32) → lacks b'<' (ft.show_float v) ≡ true
