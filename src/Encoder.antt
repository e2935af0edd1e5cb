-- ===== src/Encoder.antt =====
-- src/encoders/mod.rs: `encode_control_inputs`, with the text appended piece by piece.
pub mod RoundTrip
use realflight_bridge.Base.{List, [], ◌∷◌, ◌++◌}
use realflight_bridge.Text.{Text, codes}
use realflight_bridge.Types.{F32, FloatText, ControlInputs}

module _ (ft : FloatText) where
  open ft use {show_float}

  -- The loop over the channels.
  unfoldable pub write_items : List F32 → Text
  write_items [] = []
  write_items (num ∷ nums) =
      codes "<item>" ++ (show_float num ++ (codes "</item>" ++ write_items nums))

  unfoldable pub encode_control_inputs : ControlInputs → Text
  unfolding write_items
  encode_control_inputs inputs =
      codes "<pControlInputs>"
      ++ (codes "<m-selectedChannels>4095</m-selectedChannels>"
          ++ (codes "<m-channelValues-0to1>"
              ++ (write_items inputs.channels
                  ++ (codes "</m-channelValues-0to1>" ++ codes "</pControlInputs>"))))
