-- ===== src/Tests/Wire.antt =====
-- A codec in the place of postcard's that reads back what it wrote. It refuses a state with a status
-- text, which the samples do not have.
use realflight_bridge.Base.{
  ℕ, ◌≡◌, refl, ap, ◌⊎◌, inl, inr, Bool, true, false, Option, none, some, [], ◌∷◌, ◌==◌,
  if◌then◌else◌, sym, ◌∙◌,
}
use realflight_bridge.Text.{Text, codes}
use realflight_bridge.Text.Utf8.{Bytes}
use realflight_bridge.Types.{ControlInputs, SimulatorState}
use realflight_bridge.Bridge.Wire.{
  RequestType, Request, ResponseStatus, success, error, Response, Codec,
}
use realflight_bridge.Bridge.Proxy.EndToEnd.{RoundTrips}

abbrev pub of_type : RequestType → ℕ
of_type RequestType.enable_rc = 0
of_type RequestType.disable_rc = 1
of_type RequestType.reset_aircraft = 2
of_type RequestType.exchange_data = 3

abbrev pub to_type : ℕ → RequestType
to_type n =
    if n == 0
    then RequestType.enable_rc
    else if n == 1
    then RequestType.disable_rc
    else if n == 2
    then RequestType.reset_aircraft
    else RequestType.exchange_data

abbrev pub write_payload : Option ControlInputs → Bytes
write_payload none = []
write_payload (some c) = 1 ∷ c.channels

abbrev pub read_payload : Bytes → Option ControlInputs
read_payload [] = none
read_payload (_ ∷ cs) = some (record { channels = cs })

abbrev pub read_request : Bytes → Text ⊎ Request
read_request [] = inl (codes "end of input")
read_request (t ∷ bs) = inr (record { request_type = to_type t; payload = read_payload bs })

abbrev pub of_status : ResponseStatus → ℕ
of_status success = 0
of_status error = 1

abbrev pub to_status : ℕ → ResponseStatus
to_status n = if n == 0 then success else error

abbrev pub of_bool : Bool → ℕ
of_bool true = 1
of_bool false = 0

abbrev pub to_bool : ℕ → Bool
to_bool n = n == 1

abbrev pub write_state : SimulatorState → Bytes
write_state s =
    s.airspeed
    ∷ s.altitude_asl
    ∷ s.altitude_agl
    ∷ s.groundspeed
    ∷ s.pitch_rate
    ∷ s.roll_rate
    ∷ s.yaw_rate
    ∷ s.azimuth
    ∷ s.inclination
    ∷ s.roll
    ∷ s.aircraft_position_x
    ∷ s.aircraft_position_y
    ∷ s.velocity_world_u
    ∷ s.velocity_world_v
    ∷ s.velocity_world_w
    ∷ s.velocity_body_u
    ∷ s.velocity_body_v
    ∷ s.velocity_body_w
    ∷ s.acceleration_world_ax
    ∷ s.acceleration_world_ay
    ∷ s.acceleration_world_az
    ∷ s.acceleration_body_ax
    ∷ s.acceleration_body_ay
    ∷ s.acceleration_body_az
    ∷ s.wind_x
    ∷ s.wind_y
    ∷ s.wind_z
    ∷ s.prop_rpm
    ∷ s.heli_main_rotor_rpm
    ∷ s.battery_voltage
    ∷ s.battery_current_draw
    ∷ s.battery_remaining_capacity
    ∷ s.fuel_remaining
    ∷ s.current_physics_time
    ∷ s.current_physics_speed_multiplier
    ∷ s.orientation_quaternion_x
    ∷ s.orientation_quaternion_y
    ∷ s.orientation_quaternion_z
    ∷ s.orientation_quaternion_w
    ∷ of_bool s.is_locked
    ∷ of_bool s.has_lost_components
    ∷ of_bool s.an_engine_is_running
    ∷ of_bool s.is_touching_ground
    ∷ of_bool s.flight_axis_controller_is_active
    ∷ of_bool s.reset_button_has_been_pressed
    ∷ s.previous_inputs.channels

abbrev pub read_state : Bytes → Option SimulatorState
read_state
      (x0 ∷ x1 ∷ x2 ∷ x3 ∷ x4 ∷ x5 ∷ x6 ∷ x7 ∷ x8 ∷ x9 ∷ x10 ∷ x11 ∷ x12 ∷ x13 ∷ x14 ∷ x15 ∷ x16
        ∷ x17 ∷ x18 ∷ x19 ∷ x20 ∷ x21 ∷ x22 ∷ x23 ∷ x24 ∷ x25 ∷ x26 ∷ x27 ∷ x28 ∷ x29 ∷ x30 ∷ x31
        ∷ x32 ∷ x33 ∷ x34 ∷ x35 ∷ x36 ∷ x37 ∷ x38 ∷ x39 ∷ x40 ∷ x41 ∷ x42 ∷ x43 ∷ x44 ∷ cs) =
    some (record {
      previous_inputs = record { channels = cs };
      current_aircraft_status = [];
      airspeed = x0;
      altitude_asl = x1;
      altitude_agl = x2;
      groundspeed = x3;
      pitch_rate = x4;
      roll_rate = x5;
      yaw_rate = x6;
      azimuth = x7;
      inclination = x8;
      roll = x9;
      aircraft_position_x = x10;
      aircraft_position_y = x11;
      velocity_world_u = x12;
      velocity_world_v = x13;
      velocity_world_w = x14;
      velocity_body_u = x15;
      velocity_body_v = x16;
      velocity_body_w = x17;
      acceleration_world_ax = x18;
      acceleration_world_ay = x19;
      acceleration_world_az = x20;
      acceleration_body_ax = x21;
      acceleration_body_ay = x22;
      acceleration_body_az = x23;
      wind_x = x24;
      wind_y = x25;
      wind_z = x26;
      prop_rpm = x27;
      heli_main_rotor_rpm = x28;
      battery_voltage = x29;
      battery_current_draw = x30;
      battery_remaining_capacity = x31;
      fuel_remaining = x32;
      current_physics_time = x33;
      current_physics_speed_multiplier = x34;
      orientation_quaternion_x = x35;
      orientation_quaternion_y = x36;
      orientation_quaternion_z = x37;
      orientation_quaternion_w = x38;
      is_locked = to_bool x39;
      has_lost_components = to_bool x40;
      an_engine_is_running = to_bool x41;
      is_touching_ground = to_bool x42;
      flight_axis_controller_is_active = to_bool x43;
      reset_button_has_been_pressed = to_bool x44;
    })
read_state _ = none

to_bool-of_bool : (b : Bool) → to_bool (of_bool b) ≡ b
to_bool-of_bool true = refl
to_bool-of_bool false = refl

read-write_state :
    (s : SimulatorState) → s.current_aircraft_status ≡ [] → read_state (write_state s) ≡ some s
read-write_state s e =
    rw
      (
        to_bool-of_bool s.is_locked,
        to_bool-of_bool s.has_lost_components,
        to_bool-of_bool s.an_engine_is_running,
        to_bool-of_bool s.is_touching_ground,
        to_bool-of_bool s.flight_axis_controller_is_active,
        to_bool-of_bool s.reset_button_has_been_pressed,
      )
      (ap (λ t. some (record s { current_aircraft_status = t })) (sym e))

abbrev pub refuse : Text → Bytes → Text ⊎ Bytes
refuse [] bs = inr bs
refuse (_ ∷ _) bs = inl (codes "unsupported")

abbrev pub write_parts : ResponseStatus → Option SimulatorState → Text ⊎ Bytes
write_parts t none = inr (of_status t ∷ [])
write_parts t (some s) = refuse s.current_aircraft_status (of_status t ∷ write_state s)

abbrev pub with_state : ResponseStatus → Option SimulatorState → Text ⊎ Response
with_state t none = inl (codes "end of input")
with_state t (some s) = inr (record { status = t; payload = some s })

abbrev pub read_response : Bytes → Text ⊎ Response
read_response [] = inl (codes "end of input")
read_response (t ∷ []) = inr (record { status = to_status t; payload = none })
read_response (t ∷ b ∷ bs) = with_state (to_status t) (read_state (b ∷ bs))

abbrev pub list_codec : Codec
list_codec = record {
  request_to_stdvec = λ q. inr (of_type q.request_type ∷ write_payload q.payload);
  request_from_bytes = read_request;
  response_to_stdvec = λ r. write_parts r.status r.payload;
  response_from_bytes = read_response;
}

read-write_request :
    (t : RequestType) (p : Option ControlInputs)
    → read_request (of_type t ∷ write_payload p) ≡ inr (record { request_type = t; payload = p })
read-write_request RequestType.enable_rc none = refl
read-write_request RequestType.enable_rc (some c) = refl
read-write_request RequestType.disable_rc none = refl
read-write_request RequestType.disable_rc (some c) = refl
read-write_request RequestType.reset_aircraft none = refl
read-write_request RequestType.reset_aircraft (some c) = refl
read-write_request RequestType.exchange_data none = refl
read-write_request RequestType.exchange_data (some c) = refl

to_status-of_status : (t : ResponseStatus) → to_status (of_status t) ≡ t
to_status-of_status success = refl
to_status-of_status error = refl

read-write_state_of :
    (t : ResponseStatus) (s : SimulatorState) (w : Text) (bs : Bytes)
    → s.current_aircraft_status ≡ w
    → refuse w (of_status t ∷ write_state s) ≡ inr bs
    → read_response bs ≡ inr (record { status = t; payload = some s })
read-write_state_of t s (_ ∷ _) bs e h = cc
read-write_state_of t s [] bs e h =
    let same : of_status t ∷ write_state s ≡ bs = cc in
    ap read_response (sym same) ∙ rw (read-write_state s e) (rw (to_status-of_status t))

read-write_response :
    (t : ResponseStatus) (p : Option SimulatorState) (bs : Bytes)
    → write_parts t p ≡ inr bs
    → read_response bs ≡ inr (record { status = t; payload = p })
read-write_response t none bs h =
    let same : of_status t ∷ [] ≡ bs = cc in
    ap read_response (sym same) ∙ rw (to_status-of_status t)
read-write_response t (some s) bs h = read-write_state_of t s s.current_aircraft_status bs refl h

pub list_codec-RoundTrips : RoundTrips list_codec
list_codec-RoundTrips = (
  λ q bs h.
      let same : of_type q.request_type ∷ write_payload q.payload ≡ bs = cc in
      ap read_request (sym same) ∙ read-write_request q.request_type q.payload,
  λ r bs h. read-write_response r.status r.payload bs h,
)
