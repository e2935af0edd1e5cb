-- ===== src/Tests/Reports.antt =====
-- Documents in another order, and the report of a state.
use realflight_bridge.Base.{true, ◌≡◌, refl, [], ◌∷◌, arith, replicate}
use realflight_bridge.Outcome.{ok}
use realflight_bridge.Text.{Text, codes, text_eq}
use realflight_bridge.Text.Number.{parse_uint}
use realflight_bridge.Types.{SimulatorState, default_state}
use realflight_bridge.Decoder.{
  run, step_in, close, decode_simulator_state, decode_element, decode_item, set_channel,
}
use realflight_bridge.Decoder.Fields.{decode_found, decode_arm, find_field, decode_state_field}
use realflight_bridge.Decoder.Order.{Reordered, kept, swapped, followed, decode_reordered}
use realflight_bridge.Decoder.Document.{
  render, child, end, Node, element, well_formed, data_elements,
}
use realflight_bridge.Decoder.Document.Decode.{document}
use realflight_bridge.Decoder.Row.{row}
use realflight_bridge.Decoder.Report.{AreReadable}
use realflight_bridge.Decoder.Report.Reread.{report_element, decode-report_element}
use realflight_bridge.Tests.Samples.{pattern_text, pattern_text-IsFloatText, sticks, small_root}

abbrev reversed_root : Node
reversed_root = element (codes "b") (codes "c") (
    child [] (element (codes "m-airspeed-MPS") (codes "m-airspeed-MPS") (end (codes "7"))) (
      child [] (element (codes "b") (codes "b") (end (codes "x")))
        (child [] (element (codes "item") (codes "item") (end (codes "5"))) (end []))))

abbrev in_flight : SimulatorState
in_flight = record default_state {
  airspeed = 7;
  previous_inputs = record { channels = 5 ∷ replicate 11 0 };
}

reversed-Reordered : Reordered (data_elements small_root) (data_elements reversed_root)
unfolding data_elements text_eq
reversed-Reordered =
    let item : Text × Text = (codes "item", codes "5") in
    let airspeed : Text × Text = (codes "m-airspeed-MPS", codes "7") in
    let other : Text × Text = (codes "b", codes "x") in
    followed (item ∷ airspeed ∷ other ∷ []) (airspeed ∷ item ∷ other ∷ [])
      (airspeed ∷ other ∷ item ∷ []) (swapped item airspeed (other ∷ []) (λ e. cc))
      (kept airspeed (item ∷ other ∷ []) (other ∷ item ∷ []) (swapped item other [] (λ e. cc)))

decode_reordered_example :
    decode_simulator_state pattern_text (document [] reversed_root []) ≡ ok in_flight
unfolding text_eq well_formed decode_simulator_state run step_in render close decode_element
    decode_item parse_uint set_channel decode_state_field decode_found find_field decode_arm
decode_reordered_example =
    decode_reordered pattern_text (codes "xml?>") [] small_root reversed_root (codes "\n") []
      in_flight refl refl refl refl refl refl reversed-Reordered refl

abbrev landed : SimulatorState
landed = record default_state {
  previous_inputs = sticks;
  airspeed = 7;
  is_locked = true;
  current_aircraft_status = codes "CAS-WAITINGTOLAUNCH";
}

landed-AreReadable : AreReadable (row landed)
landed-AreReadable = ground arith

decode-report_element_example :
    decode_simulator_state pattern_text
      (document (codes "xml?>") (report_element pattern_text landed) [])
    ≡ ok landed
decode-report_element_example =
    decode-report_element pattern_text pattern_text-IsFloatText landed (codes "xml?>") []
      landed-AreReadable refl (ground arith) refl refl
