-- ===== src/Tests/Decoding.antt =====
-- Decoding and encoding at concrete texts.
use realflight_bridge.Base.{ℕ, ◌≡◌, ◌≢◌, refl, some, [], ◌++◌, arith, replicate}
use realflight_bridge.Outcome.{ok, panic, ◌>>=◌}
use realflight_bridge.Text.{Text, codes, text_eq, str_len, char_len}
use realflight_bridge.Text.Search.{absent, starts_with}
use realflight_bridge.Text.Number.{parse_uint}
use realflight_bridge.Types.{default_state}
use realflight_bridge.Decoder.{decode_simulator_state, decode_element, decode_item, set_channel}
use realflight_bridge.Decoder.Document.{Node, element, well_formed, data_elements, decode_elements}
use realflight_bridge.Decoder.Document.Decode.{document, decode-document}
use realflight_bridge.Decoder.Extract.{extract_element, extract_element_first, start_tag, end_tag}
use realflight_bridge.Decoder.Channels.{decode_no_panic, decode_overflow}
use realflight_bridge.Encoder.{encode_control_inputs}
use realflight_bridge.Encoder.RoundTrip.{AreNumbers, decode-encode}
use realflight_bridge.Tests.Samples.{
  pattern_text, pattern_text-IsFloatText, sticks, small_root, many_items,
}

decode-document_example :
    decode_simulator_state pattern_text (document (codes "xml?>") small_root (codes "\n"))
    ≡ (do r ← decode_elements pattern_text (data_elements small_root) (0, default_state); ok r.1)
unfolding well_formed
decode-document_example =
    decode-document pattern_text (codes "xml?>") small_root (codes "\n") refl refl refl

AreNumbers-sticks : AreNumbers sticks.channels
AreNumbers-sticks = ground arith

decode-encode_example :
    decode_simulator_state pattern_text (encode_control_inputs pattern_text sticks)
    ≡ ok (record default_state { previous_inputs = sticks })
decode-encode_example =
    decode-encode pattern_text pattern_text-IsFloatText sticks refl AreNumbers-sticks

-- Thirteen items, and eleven.
abbrev items_root : ℕ → Node
items_root n = element (codes "a") (codes "a") (many_items n)

decode_no_panic_example :
    decode_simulator_state pattern_text (document (codes "xml?>") (items_root 12) []) ≢ panic
unfolding well_formed
decode_no_panic_example =
    decode_no_panic pattern_text (codes "xml?>") (items_root 12) [] refl refl refl
      (unfold data_elements text_eq in ground arith)

abbrev item_five : Text × Text
item_five = (codes "item", codes "5")

twelve_items :
    decode_elements pattern_text (replicate 12 item_five) (0, default_state)
    ≡ ok (12, record default_state { previous_inputs = record { channels = replicate 12 5 } })
unfolding decode_elements decode_element decode_item set_channel text_eq parse_uint
twelve_items = refl

decode_overflow_example :
    decode_simulator_state pattern_text (document (codes "xml?>") (items_root 13) []) ≡ panic
unfolding well_formed data_elements text_eq parse_uint
decode_overflow_example =
    decode_overflow pattern_text (codes "xml?>") (items_root 13) [] refl refl refl
      (replicate 12 item_five) [] (codes "5") 5
      (12, record default_state { previous_inputs = record { channels = replicate 12 5 } }) refl
      refl twelve_items refl

extract_element_first_example :
    extract_element (codes "b") (
      codes "<a>"
      ++ (start_tag (codes "b") ++ (codes "x" ++ (end_tag (codes "b") ++ codes "<b>y</b>"))))
    ≡ ok (some (codes "x"))
unfolding starts_with str_len char_len absent
extract_element_first_example =
    extract_element_first (codes "b") (codes "<a>") (codes "x") (codes "<b>y</b>") (ground arith)
      refl refl
