-- ===== src/Decoder/Fields/Names.antt =====
-- src/decoders/mod.rs: the names of the attributes that `decode_state_field` matches.
use realflight_bridge.Base.{Option, none, some, List, [], ◌∷◌, if◌then◌else◌}
use realflight_bridge.Text.{Text, codes, text_eq}

-- The attributes that a match arm names, in the arms' order.
pub data Field : Type 0 where
  current_physics_time current_physics_speed_multiplier airspeed altitude_asl altitude_agl : Field
  groundspeed pitch_rate roll_rate yaw_rate azimuth inclination roll : Field
  orientation_quaternion_x orientation_quaternion_y orientation_quaternion_z : Field
  orientation_quaternion_w aircraft_position_x aircraft_position_y velocity_world_u : Field
  velocity_world_v velocity_world_w velocity_body_u velocity_body_v velocity_body_w : Field
  acceleration_world_ax acceleration_world_ay acceleration_world_az acceleration_body_ax : Field
  acceleration_body_ay acceleration_body_az wind_x wind_y wind_z prop_rpm : Field
  heli_main_rotor_rpm battery_voltage battery_current_draw battery_remaining_capacity : Field
  fuel_remaining is_locked has_lost_components an_engine_is_running is_touching_ground : Field
  flight_axis_controller_is_active current_aircraft_status reset_button_has_been_pressed : Field

abbrev pub field_names : List (Text × Field)
field_names =
    (codes "m-currentPhysicsTime-SEC", Field.current_physics_time)
    ∷ (codes "m-currentPhysicsSpeedMultiplier", Field.current_physics_speed_multiplier)
    ∷ (codes "m-airspeed-MPS", Field.airspeed)
    ∷ (codes "m-altitudeASL-MTR", Field.altitude_asl)
    ∷ (codes "m-altitudeAGL-MTR", Field.altitude_agl)
    ∷ (codes "m-groundspeed-MPS", Field.groundspeed)
    ∷ (codes "m-pitchRate-DEGpSEC", Field.pitch_rate)
    ∷ (codes "m-rollRate-DEGpSEC", Field.roll_rate)
    ∷ (codes "m-yawRate-DEGpSEC", Field.yaw_rate)
    ∷ (codes "m-azimuth-DEG", Field.azimuth)
    ∷ (codes "m-inclination-DEG", Field.inclination)
    ∷ (codes "m-roll-DEG", Field.roll)
    ∷ (codes "m-orientationQuaternion-X", Field.orientation_quaternion_x)
    ∷ (codes "m-orientationQuaternion-Y", Field.orientation_quaternion_y)
    ∷ (codes "m-orientationQuaternion-Z", Field.orientation_quaternion_z)
    ∷ (codes "m-orientationQuaternion-W", Field.orientation_quaternion_w)
    ∷ (codes "m-aircraftPositionX-MTR", Field.aircraft_position_x)
    ∷ (codes "m-aircraftPositionY-MTR", Field.aircraft_position_y)
    ∷ (codes "m-velocityWorldU-MPS", Field.velocity_world_u)
    ∷ (codes "m-velocityWorldV-MPS", Field.velocity_world_v)
    ∷ (codes "m-velocityWorldW-MPS", Field.velocity_world_w)
    ∷ (codes "m-velocityBodyU-MPS", Field.velocity_body_u)
    ∷ (codes "m-velocityBodyV-MPS", Field.velocity_body_v)
    ∷ (codes "m-velocityBodyW-MPS", Field.velocity_body_w)
    ∷ (codes "m-accelerationWorldAX-MPS2", Field.acceleration_world_ax)
    ∷ (codes "m-accelerationWorldAY-MPS2", Field.acceleration_world_ay)
    ∷ (codes "m-accelerationWorldAZ-MPS2", Field.acceleration_world_az)
    ∷ (codes "m-accelerationBodyAX-MPS2", Field.acceleration_body_ax)
    ∷ (codes "m-accelerationBodyAY-MPS2", Field.acceleration_body_ay)
    ∷ (codes "m-accelerationBodyAZ-MPS2", Field.acceleration_body_az)
    ∷ (codes "m-windX-MPS", Field.wind_x)
    ∷ (codes "m-windY-MPS", Field.wind_y)
    ∷ (codes "m-windZ-MPS", Field.wind_z)
    ∷ (codes "m-propRPM", Field.prop_rpm)
    ∷ (codes "m-heliMainRotorRPM", Field.heli_main_rotor_rpm)
    ∷ (codes "m-batteryVoltage-VOLTS", Field.battery_voltage)
    ∷ (codes "m-batteryCurrentDraw-AMPS", Field.battery_current_draw)
    ∷ (codes "m-batteryRemainingCapacity-MAH", Field.battery_remaining_capacity)
    ∷ (codes "m-fuelRemaining-OZ", Field.fuel_remaining)
    ∷ (codes "m-isLocked", Field.is_locked)
    ∷ (codes "m-hasLostComponents", Field.has_lost_components)
    ∷ (codes "m-anEngineIsRunning", Field.an_engine_is_running)
    ∷ (codes "m-isTouchingGround", Field.is_touching_ground)
    ∷ (codes "m-flightAxisControllerIsActive", Field.flight_axis_controller_is_active)
    ∷ (codes "m-currentAircraftStatus", Field.current_aircraft_status)
    ∷ (codes "m-resetButtonHasBeenPressed", Field.reset_button_has_been_pressed)
    ∷ []

unfoldable pub find_in : List (Text × Field) → Text → Option Field
unfolding text_eq
find_in [] name = none
find_in ((n, f) ∷ rest) name = if text_eq n name then some f else find_in rest name

unfoldable pub find_field : Text → Option Field
unfolding find_in
find_field name = find_in field_names name
