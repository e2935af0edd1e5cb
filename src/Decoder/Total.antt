-- ===== src/Decoder/Total.antt =====
-- What `decode_simulator_state` can end in, for any text.
use realflight_bridge.Base.{
  ℕ, ◌+◌, ◌≡◌, refl, ◌∙◌, ◌⊎◌, inl, inr, Option, none, some, [], ◌∷◌, arith, length, length-set,
  ltb, ◌==◌, Bool-cases,
}
use realflight_bridge.Outcome.{Result, ok, err, panic, spin, ◌>>=◌}
use realflight_bridge.Text.{Text, codes, text_eq}
use realflight_bridge.Types.{F32, FloatText, BridgeError, SimulatorState, IsControl}
use realflight_bridge.Decoder.Fields.{
  Field, find_field, decode_arm, decode_found, decode_state_field,
}
use realflight_bridge.Decoder.{
  ParseState, close_tag, Decoder, set_channel, decode_item, decode_element, close, closed, step_in,
  step, run, initial, decode_simulator_state,
}

-- The array of channels keeps its twelve places.
abbrev pub HasChannels : SimulatorState → Type 0
HasChannels s = IsControl s.previous_inputs

-- A state with twelve channels, an error of parsing, or a panic; no other error, and no loop.
abbrev pub Decoded : Result BridgeError SimulatorState → Type 0
Decoded (ok s) = HasChannels s
Decoded (err e) = (field : Text) × (message : Text) × (e ≡ BridgeError.parse field message)
Decoded panic = Unit
Decoded spin = ⊥

-- The same without a panic, and with the inputs untouched.
abbrev pub Kept : SimulatorState → Result BridgeError SimulatorState → Type 0
Kept s (ok s') = s'.previous_inputs ≡ s.previous_inputs
Kept s (err e) = (field : Text) × (message : Text) × (e ≡ BridgeError.parse field message)
Kept s panic = ⊥
Kept s spin = ⊥

module _ (ft : FloatText) where
  Kept-arm :
      (f : Field) (s : SimulatorState) (name value : Text) → Kept s (decode_arm ft f s name value)
  unfolding decode_arm
  Kept-arm Field.is_locked s name value = ground arith
  Kept-arm _ s name value = ground arith

  Kept-found :
      (o : Option Field) (s : SimulatorState) (name value : Text)
      → Kept s (decode_found ft o s name value)
  unfolding decode_found
  Kept-found none s name value = refl
  Kept-found (some f) s name value = Kept-arm f s name value

  pub Kept-state_field :
      (s : SimulatorState) (name value : Text) → Kept s (decode_state_field ft s name value)
  unfolding decode_state_field
  Kept-state_field s name value = Kept-found (find_field name) s name value

-- The number of channels read so far, and the state.
abbrev pub Held : Result BridgeError (ℕ × SimulatorState) → Type 0
Held (ok (i, s)) = HasChannels s
Held (err e) = (field : Text) × (message : Text) × (e ≡ BridgeError.parse field message)
Held panic = Unit
Held spin = ⊥

Held-of_Kept :
    (i : ℕ) (s : SimulatorState) (r : Result BridgeError SimulatorState)
    → HasChannels s
    → Kept s r
    → Held (r >>= λ s'. ok (i, s'))
Held-of_Kept i s (ok s') h k = rw k h
Held-of_Kept i s (err e) h k = k
Held-of_Kept i s panic h k = tt
Held-of_Kept i s spin h k = k

module _ (ft : FloatText) where
  set_channel-Held :
      (i : ℕ) (v : F32) (s : SimulatorState)
      → HasChannels s
      → Held (set_channel s i v >>= λ s'. ok (i + 1, s'))
  unfolding set_channel
  set_channel-Held i v s h = elim (Bool-cases (ltb i (length s.previous_inputs.channels))) [
    | inl room ↦ rw room (length-set s.previous_inputs.channels i v ∙ h)
    | inr full ↦ rw full tt
  ]

  decode_item-Held :
      (i : ℕ) (text : Text) (s : SimulatorState) → HasChannels s → Held (decode_item ft i text s)
  unfolding decode_item
  decode_item-Held i text s h = parsed (ft.parse_float text) refl
    where
      parsed : (p : Text ⊎ F32) → ft.parse_float text ≡ p → Held (decode_item ft i text s)
      parsed (inl m) e = rw e (_, _, refl)
      parsed (inr v) e = rw e (set_channel-Held i v s h)

  pub decode_element-Held :
      (tag text : Text) (i : ℕ) (s : SimulatorState)
      → HasChannels s
      → Held (decode_element ft tag text (i, s))
  unfolding decode_element
  decode_element-Held tag text i s h = elim (Bool-cases (text_eq tag (codes "item"))) [
    | inl item ↦ rw item (decode_item-Held i text s h)
    | inr other ↦
        rw other
          (Held-of_Kept i s (decode_state_field ft s tag text) h (Kept-state_field ft s tag text))
  ]

  close-Held : (d : Decoder) → HasChannels d.result → Held (close ft d)
  unfolding close
  close-Held d h = elim (Bool-cases (text_eq d.open_tag d.key)) [
    | inl same ↦ rw same (decode_element-Held d.open_tag d.content d.channel_ndx d.result h)
    | inr other ↦ rw other h
  ]

-- What one round of the loop leaves.
abbrev Stepped : Result BridgeError Decoder → Type 0
Stepped (ok d) = HasChannels d.result
Stepped (err e) = (field : Text) × (message : Text) × (e ≡ BridgeError.parse field message)
Stepped panic = Unit
Stepped spin = ⊥

Stepped-closed :
    (ft : FloatText) (d : Decoder) (r : Result BridgeError (ℕ × SimulatorState))
    → Held r
    → Stepped (r >>= λ r'. ok (closed ft d r'))
Stepped-closed ft d (ok (i, s)) h = h
Stepped-closed ft d (err e) h = h
Stepped-closed ft d panic h = tt
Stepped-closed ft d spin h = h

Decoded-step :
    (r : Result BridgeError Decoder) (k : Decoder → Result BridgeError SimulatorState)
    → Stepped r
    → ((d : Decoder) → HasChannels d.result → Decoded (k d))
    → Decoded (r >>= k)
Decoded-step (ok d) k h go = go d h
Decoded-step (err e) k h go = h
Decoded-step panic k h go = tt
Decoded-step spin k h go = h

module _ (ft : FloatText) where
  step_in-Stepped :
      (m : ParseState) (d : Decoder) (ch : ℕ) → HasChannels d.result → Stepped (step_in ft m d ch)
  unfolding step_in
  step_in-Stepped close_tag d ch h = elim (Bool-cases (ch == b'>')) [
    | inl shut ↦ rw shut (Stepped-closed ft d (close ft d) (close-Held ft d h))
    | inr more ↦ rw more h
  ]
  step_in-Stepped _ d ch h = ground arith

  run-Decoded : (xml : Text) (d : Decoder) → HasChannels d.result → Decoded (run ft d xml)
  unfolding run
  run-Decoded [] d h = h
  run-Decoded (ch ∷ xml) d h =
      Decoded-step (step ft d ch) (λ d'. run ft d' xml) (step_in-Stepped d.state d ch h)
        (λ d' h'. run-Decoded xml d' h')

  -- Whatever the text, decoding ends: in a state with exactly twelve channels, in a parse error, or in
  -- a panic. No other error is returned.
  pub decode-Decoded : (xml : Text) → Decoded (decode_simulator_state ft xml)
  unfolding decode_simulator_state
  decode-Decoded xml = run-Decoded xml initial refl
