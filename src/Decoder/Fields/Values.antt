-- ===== src/Decoder/Fields/Values.antt =====
-- src/decoders/mod.rs: the parsers of single values.
use realflight_bridge.Base.{Bool}
use realflight_bridge.Outcome.{Result, ok, ◌>>=◌, map_err, of_sum}
use realflight_bridge.Text.{Text}
use realflight_bridge.Text.Number.{parse_bool_text}
use realflight_bridge.Units.{
  F32, Features, default_features, uom, Volume, to_volume, ounces_per_liter,
}
use realflight_bridge.Types.{FloatText, BridgeError}

module _ (ft : FloatText) where
  open ft use {parse_float}

  unfoldable pub parse_with : {T : Type 0} → Text → Text → (F32 → T) → Result BridgeError T
  parse_with name value convert = do
    v ← map_err (BridgeError.parse name) (of_sum (parse_float value))
    ok (convert v)

  unfoldable pub parse_f32 : Text → Text → Result BridgeError F32
  parse_f32 name value = map_err (BridgeError.parse name) (of_sum (parse_float value))

  -- With the feature `uom` the ounces become liters; without it they are kept.
  unfoldable pub parse_fuel : (f : Features) → Text → Text → Result BridgeError (Volume f)
  unfolding parse_f32 parse_with
  parse_fuel default_features name value = parse_f32 name value
  parse_fuel (uom q divide) name value =
      parse_with name value (λ v. to_volume q (divide v ounces_per_liter))

unfoldable pub parse_bool : Text → Text → Result BridgeError Bool
unfolding parse_bool_text
parse_bool name value = map_err (BridgeError.parse name) (parse_bool_text value)
