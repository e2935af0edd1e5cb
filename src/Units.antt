-- ===== src/Units.antt =====
-- The quantities of src/lib.rs and the converters of src/decoders/mod.rs, with the feature `uom` and
-- without it.
use realflight_bridge.Base.{ℕ}

-- The bit pattern of an f32; the pattern 0 is 0.0.
abbrev pub F32 : Type 0
F32 = ℕ

-- What the library uses of the crate uom: the types of the quantities, their values by `Default`, and
-- for each of them the one unit in which the simulator sends it.
pub record Uom : Type 1 where
  pub Velocity : Type 0
  pub Length : Type 0
  pub AngularVelocity : Type 0
  pub Angle : Type 0
  pub Acceleration : Type 0
  pub ElectricPotential : Type 0
  pub ElectricCurrent : Type 0
  pub ElectricCharge : Type 0
  pub Volume : Type 0
  pub Time : Type 0
  pub no_velocity : Velocity
  pub no_length : Length
  pub no_angular_velocity : AngularVelocity
  pub no_angle : Angle
  pub no_acceleration : Acceleration
  pub no_electric_potential : ElectricPotential
  pub no_electric_current : ElectricCurrent
  pub no_electric_charge : ElectricCharge
  pub no_volume : Volume
  pub no_time : Time
  pub meter_per_second : F32 → Velocity
  pub meter : F32 → Length
  pub degree_per_second : F32 → AngularVelocity
  pub degree : F32 → Angle
  pub meter_per_second_squared : F32 → Acceleration
  pub volt : F32 → ElectricPotential
  pub ampere : F32 → ElectricCurrent
  pub milliampere_hour : F32 → ElectricCharge
  pub liter : F32 → Volume
  pub second : F32 → Time

-- The features that the library is built with. The crate comes with the division of f32 values, which
-- only that build uses.
pub data Features : Type 1 where
  default_features : Features
  uom : Uom → (F32 → F32 → F32) → Features

abbrev pub Velocity : Features → Type 0
Velocity default_features = F32
Velocity (uom q _) = q.Velocity

abbrev pub Length : Features → Type 0
Length default_features = F32
Length (uom q _) = q.Length

abbrev pub AngularVelocity : Features → Type 0
AngularVelocity default_features = F32
AngularVelocity (uom q _) = q.AngularVelocity

abbrev pub Angle : Features → Type 0
Angle default_features = F32
Angle (uom q _) = q.Angle

abbrev pub Acceleration : Features → Type 0
Acceleration default_features = F32
Acceleration (uom q _) = q.Acceleration

abbrev pub ElectricPotential : Features → Type 0
ElectricPotential default_features = F32
ElectricPotential (uom q _) = q.ElectricPotential

abbrev pub ElectricCurrent : Features → Type 0
ElectricCurrent default_features = F32
ElectricCurrent (uom q _) = q.ElectricCurrent

abbrev pub ElectricCharge : Features → Type 0
ElectricCharge default_features = F32
ElectricCharge (uom q _) = q.ElectricCharge

abbrev pub Volume : Features → Type 0
Volume default_features = F32
Volume (uom q _) = q.Volume

abbrev pub Time : Features → Type 0
Time default_features = F32
Time (uom q _) = q.Time

-- The values by `Default`.
abbrev pub no_velocity : (f : Features) → Velocity f
no_velocity default_features = 0
no_velocity (uom q _) = q.no_velocity

abbrev pub no_length : (f : Features) → Length f
no_length default_features = 0
no_length (uom q _) = q.no_length

abbrev pub no_angular_velocity : (f : Features) → AngularVelocity f
no_angular_velocity default_features = 0
no_angular_velocity (uom q _) = q.no_angular_velocity

abbrev pub no_angle : (f : Features) → Angle f
no_angle default_features = 0
no_angle (uom q _) = q.no_angle

abbrev pub no_acceleration : (f : Features) → Acceleration f
no_acceleration default_features = 0
no_acceleration (uom q _) = q.no_acceleration

abbrev pub no_electric_potential : (f : Features) → ElectricPotential f
no_electric_potential default_features = 0
no_electric_potential (uom q _) = q.no_electric_potential

abbrev pub no_electric_current : (f : Features) → ElectricCurrent f
no_electric_current default_features = 0
no_electric_current (uom q _) = q.no_electric_current

abbrev pub no_electric_charge : (f : Features) → ElectricCharge f
no_electric_charge default_features = 0
no_electric_charge (uom q _) = q.no_electric_charge

abbrev pub no_volume : (f : Features) → Volume f
no_volume default_features = 0
no_volume (uom q _) = q.no_volume

abbrev pub no_time : (f : Features) → Time f
no_time default_features = 0
no_time (uom q _) = q.no_time

-- The converters.
abbrev pub to_velocity : (f : Features) → F32 → Velocity f
to_velocity default_features v = v
to_velocity (uom q _) v = q.meter_per_second v

abbrev pub to_length : (f : Features) → F32 → Length f
to_length default_features v = v
to_length (uom q _) v = q.meter v

abbrev pub to_angular_velocity : (f : Features) → F32 → AngularVelocity f
to_angular_velocity default_features v = v
to_angular_velocity (uom q _) v = q.degree_per_second v

abbrev pub to_angle : (f : Features) → F32 → Angle f
to_angle default_features v = v
to_angle (uom q _) v = q.degree v

abbrev pub to_acceleration : (f : Features) → F32 → Acceleration f
to_acceleration default_features v = v
to_acceleration (uom q _) v = q.meter_per_second_squared v

abbrev pub to_electric_potential : (f : Features) → F32 → ElectricPotential f
to_electric_potential default_features v = v
to_electric_potential (uom q _) v = q.volt v

abbrev pub to_electric_current : (f : Features) → F32 → ElectricCurrent f
to_electric_current default_features v = v
to_electric_current (uom q _) v = q.ampere v

abbrev pub to_electric_charge : (f : Features) → F32 → ElectricCharge f
to_electric_charge default_features v = v
to_electric_charge (uom q _) v = q.milliampere_hour v

abbrev pub to_time : (f : Features) → F32 → Time f
to_time default_features v = v
to_time (uom q _) v = q.second v

abbrev pub to_volume : (q : Uom) → F32 → q.Volume
to_volume q v = q.liter v

-- 33.814.
abbrev pub ounces_per_liter : F32
ounces_per_liter = 0x42074189
