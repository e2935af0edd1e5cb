-- ===== src/Decoder.antt =====
-- src/decoders/mod.rs: the character machine of `decode_simulator_state`.
pub mod Fields
pub mod InUnits
pub mod Table
pub mod Order
pub mod Report
pub mod Row
pub mod Extract
pub mod Document
pub mod Total
pub mod Channels
use realflight_bridge.Base.{
  ℕ, ◌+◌, Bool, true, false, List, [], ◌∷◌, ◌++◌, ltb, ◌==◌, if◌then◌else◌, length, set,
}
use realflight_bridge.Outcome.{Result, ok, panic, ◌>>=◌, map_err, of_sum}
use realflight_bridge.Text.{Text, codes, text_eq}
use realflight_bridge.Text.Number.{show_nat}
use realflight_bridge.Units.{F32, Features, default_features}
use realflight_bridge.Types.{FloatText, BridgeError, StateIn, SimulatorState, default_state_in}
use Fields.{decode_state_field}

pub data ParseState : Type 0 where
  find_tag maybe_tag content open_tag close_tag : ParseState

-- The local variables of `decode_simulator_state`.
pub record DecoderIn (f : Features) : Type 0 where
  pub state : ParseState
  pub key : Text
  pub open_tag : Text
  pub content : Text
  pub channel_ndx : ℕ
  pub result : StateIn f

abbrev pub Decoder : Type 0
Decoder = DecoderIn default_features

-- `channels[i] = v` panics out of bounds.
unfoldable pub set_channel : {f : Features} → StateIn f → ℕ → F32 → Result BridgeError (StateIn f)
set_channel s i v =
    if ltb i (length s.previous_inputs.channels)
    then ok (record s {
      previous_inputs = record (s.previous_inputs) {
        channels = set s.previous_inputs.channels i v;
      };
    })
    else panic

module _ {f : Features} (ft : FloatText) where
  -- The branch for `item`.
  unfoldable pub decode_item : ℕ → Text → StateIn f → Result BridgeError (ℕ × StateIn f)
  unfolding show_nat
  decode_item i text s = do
    v ←
        map_err (BridgeError.parse (codes "channel[" ++ (show_nat i ++ codes "]")))
          (of_sum (ft.parse_float text))
    s' ← set_channel s i v
    ok (i + 1, s')

  -- A closed element whose tags match.
  unfoldable pub decode_element : Text → Text → ℕ × StateIn f → Result BridgeError (ℕ × StateIn f)
  decode_element tag text (i, s) =
      if text_eq tag (codes "item")
      then decode_item i text s
      else do s' ← decode_state_field ft s tag text; ok (i, s')

  unfoldable pub close : DecoderIn f → Result BridgeError (ℕ × StateIn f)
  close d =
      if text_eq d.open_tag d.key
      then decode_element d.open_tag d.content (d.channel_ndx, d.result)
      else ok (d.channel_ndx, d.result)

  abbrev pub closed : DecoderIn f → ℕ × StateIn f → DecoderIn f
  closed d (i, s) = record d {
    state = find_tag;
    key = [];
    content = [];
    channel_ndx = i;
    result = s;
  }

  -- One round of the loop, by the parse state.
  unfoldable pub step_in : ParseState → DecoderIn f → ℕ → Result BridgeError (DecoderIn f)
  step_in find_tag d ch = ok (if ch == b'<' then record d { key = []; state = maybe_tag } else d)
  step_in maybe_tag d ch = ok (
      if ch == b'?'
      then record d { state = find_tag }
      else if ch == b'/'
      then record d { key = []; state = close_tag }
      else record d { key = ch ∷ []; state = open_tag })
  step_in open_tag d ch = ok (
      if ch == b'>'
      then record d { open_tag = d.key; key = []; content = []; state = content }
      else record d { key = d.key ++ ch ∷ [] })
  step_in content d ch = ok (
      if ch == b'<'
      then record d { state = maybe_tag }
      else record d { content = d.content ++ ch ∷ [] })
  step_in close_tag d ch =
      if ch == b'>'
      then (do r ← close d; ok (closed d r))
      else ok (record d { key = d.key ++ ch ∷ [] })

  abbrev pub step : DecoderIn f → ℕ → Result BridgeError (DecoderIn f)
  step d = step_in d.state d

  -- The loop over the characters, from any of its rounds.
  unfoldable pub run : DecoderIn f → Text → Result BridgeError (StateIn f)
  run d [] = ok d.result
  run d (ch ∷ xml) = do d' ← step d ch; run d' xml

abbrev pub initial_in : (f : Features) → DecoderIn f
initial_in f = record {
  state = find_tag;
  key = [];
  open_tag = [];
  content = [];
  channel_ndx = 0;
  result = default_state_in f;
}

abbrev pub initial : Decoder
initial = initial_in default_features

-- In a build with the features `f`.
abbrev pub decode_simulator_state_in :
    (f : Features) → FloatText → Text → Result BridgeError (StateIn f)
decode_simulator_state_in f ft xml = run ft (initial_in f) xml

unfoldable pub decode_simulator_state : FloatText → Text → Result BridgeError SimulatorState
decode_simulator_state = decode_simulator_state_in default_features
