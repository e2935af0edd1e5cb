-- ===== src/Tests/Units.antt =====
-- A crate of quantities that names the unit of each number, and decoding with it.
use realflight_bridge.Base.{◌≡◌, refl}
use realflight_bridge.Units.{F32, Uom, Features, uom}
use realflight_bridge.Decoder.{decode_simulator_state, decode_simulator_state_in}
use realflight_bridge.Decoder.Document.{render}
use realflight_bridge.Decoder.InUnits.{HasZeros, result_in, decode-units}
use realflight_bridge.Tests.Samples.{pattern_text, small_root}

-- A number and its unit.
data Measure : Type 0 where
  mps m degps deg mps2 v a mah l s : F32 → Measure

abbrev measures : Uom
measures = record {
  Velocity = Measure;
  Length = Measure;
  AngularVelocity = Measure;
  Angle = Measure;
  Acceleration = Measure;
  ElectricPotential = Measure;
  ElectricCurrent = Measure;
  ElectricCharge = Measure;
  Volume = Measure;
  Time = Measure;
  no_velocity = mps 0;
  no_length = m 0;
  no_angular_velocity = degps 0;
  no_angle = deg 0;
  no_acceleration = mps2 0;
  no_electric_potential = v 0;
  no_electric_current = a 0;
  no_electric_charge = mah 0;
  no_volume = l 0;
  no_time = s 0;
  meter_per_second = mps;
  meter = m;
  degree_per_second = degps;
  degree = deg;
  meter_per_second_squared = mps2;
  volt = v;
  ampere = a;
  milliampere_hour = mah;
  liter = l;
  second = s;
}

-- Zero by anything is zero, and all else is left as it is.
abbrev measured : Features
measured = uom measures (λ x y. x)

measured-HasZeros : HasZeros measured
measured-HasZeros = record {
  to_velocity-zero = refl;
  to_length-zero = refl;
  to_angular_velocity-zero = refl;
  to_angle-zero = refl;
  to_acceleration-zero = refl;
  to_electric_potential-zero = refl;
  to_electric_current-zero = refl;
  to_electric_charge-zero = refl;
  to_time-zero = refl;
  fuel_volume-zero = refl;
}

decode-units_example :
    decode_simulator_state_in measured pattern_text (render small_root)
    ≡ result_in measured (decode_simulator_state pattern_text (render small_root))
decode-units_example = decode-units measured pattern_text (render small_root) measured-HasZeros
