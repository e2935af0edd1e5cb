-- ===== src/Decoder/Channels.antt =====
-- How many `item` elements a document may hold: the array of channels has twelve places, and the
-- index is not checked before the write.
use realflight_bridge.Base.{
  ℕ, ◌+◌, ◌≤◌, ◌<◌, ◌≡◌, ◌≢◌, refl, ap, ◌∙◌, ◌⊎◌, inl, inr, true, false, List, [], ◌∷◌, ◌++◌, arith,
  length, ltb, lt→ltb, if◌then◌else◌, Bool-cases, length-set,
}
use realflight_bridge.Outcome.{Result, ok, err, panic, spin, ◌>>=◌}
use realflight_bridge.Text.{Text, codes, text_eq, lacks}
use realflight_bridge.Types.{F32, FloatText, BridgeError, SimulatorState, default_state}
use realflight_bridge.Decoder.Fields.{decode_state_field}
use realflight_bridge.Decoder.{set_channel, decode_item, decode_element, decode_simulator_state}
use realflight_bridge.Decoder.Total.{HasChannels, Kept, Kept-state_field}
use realflight_bridge.Decoder.Document.{Node, data_elements, well_formed, decode_elements}
use realflight_bridge.Decoder.Document.Decode.{document, decode-document, decode_elements-append}

-- The number of `item` elements.
abbrev pub is_item : Text → ℕ
is_item tag = if text_eq tag (codes "item") then 1 else 0

abbrev pub count_items : List (Text × Text) → ℕ
count_items [] = 0
count_items ((tag, text) ∷ es) = is_item tag + count_items es

-- Every success has counted `n` items and kept the twelve places; nothing panicked.
abbrev Counted : ℕ → Result BridgeError (ℕ × SimulatorState) → Type 0
Counted n (ok (i, s)) = (i ≡ n) × HasChannels s
Counted n (err e) = Unit
Counted n panic = ⊥
Counted n spin = ⊥

Counted-bind :
    (m n : ℕ) (r : Result BridgeError (ℕ × SimulatorState))
    (k : ℕ × SimulatorState → Result BridgeError (ℕ × SimulatorState))
    → Counted m r
    → ((s : SimulatorState) → HasChannels s → Counted n (k (m, s)))
    → Counted n (r >>= k)
Counted-bind m n (ok (i, s)) k h go = rw h.0 (go s h.1)
Counted-bind m n (err e) k h go = tt
Counted-bind m n panic k h go = h
Counted-bind m n spin k h go = h

Counted-of_Kept :
    (i : ℕ) (s : SimulatorState) (r : Result BridgeError SimulatorState)
    → HasChannels s
    → Kept s r
    → Counted i (r >>= λ s'. ok (i, s'))
Counted-of_Kept i s (ok s') h k = (refl, rw k h)
Counted-of_Kept i s (err e) h k = tt
Counted-of_Kept i s panic h k = k
Counted-of_Kept i s spin h k = k

module _ (ft : FloatText) where
  decode_item-Counted :
      (i : ℕ) (text : Text) (s : SimulatorState)
      → HasChannels s
      → i < 12
      → Counted (i + 1) (decode_item ft i text s)
  unfolding decode_item set_channel
  decode_item-Counted i text s h l = parsed (ft.parse_float text) refl
    where
      room : ltb i (length s.previous_inputs.channels) ≡ true
      room = lt→ltb _ _ (omega arith)

      parsed :
          (p : Text ⊎ F32) → ft.parse_float text ≡ p → Counted (i + 1) (decode_item ft i text s)
      parsed (inl m) e = rw e tt
      parsed (inr v) e = rw (e, room) (refl, length-set s.previous_inputs.channels i v ∙ h)

  decode_element-Counted :
      (tag text : Text) (i : ℕ) (s : SimulatorState)
      → HasChannels s
      → i + is_item tag ≤ 12
      → Counted (i + is_item tag) (decode_element ft tag text (i, s))
  unfolding decode_element
  decode_element-Counted tag text i s h l = elim (Bool-cases (text_eq tag (codes "item"))) [
    | inl item ↦ rw item (decode_item-Counted i text s h (small item))
    | inr other ↦ rw other (
        let e : i + 0 ≡ i = omega arith in
        rw e (
          Counted-of_Kept i s (decode_state_field ft s tag text) h
            (Kept-state_field ft s tag text)))
  ]
    where
      small : text_eq tag (codes "item") ≡ true → i < 12
      small e = ground arith

  decode_elements-Counted :
      (es : List (Text × Text)) (i : ℕ) (s : SimulatorState)
      → HasChannels s
      → i + count_items es ≤ 12
      → Counted (i + count_items es) (decode_elements ft es (i, s))
  unfolding decode_elements
  decode_elements-Counted [] i s h l = (omega arith, h)
  decode_elements-Counted ((tag, text) ∷ es) i s h l =
      let e : i + (is_item tag + count_items es) ≡ (i + is_item tag) + count_items es =
        omega arith in
      rw e (
        Counted-bind (i + is_item tag) _ (decode_element ft tag text (i, s)) (decode_elements ft es)
          (decode_element-Counted tag text i s h (omega arith))
          (λ s' h'. decode_elements-Counted es (i + is_item tag) s' h' (omega arith)))

  overflow :
      (i : ℕ) (v : F32) (text : Text) (s : SimulatorState)
      → 12 ≤ i
      → HasChannels s
      → ft.parse_float text ≡ inr v
      → decode_item ft i text s ≡ panic
  unfolding decode_item set_channel
  overflow i v text s l h e =
      let full : ltb i (length s.previous_inputs.channels) ≡ false = ground arith in rw (e, full)

-- The result of a document whose decoding has counted its items.
abbrev finish : ℕ × SimulatorState → Result BridgeError SimulatorState
finish r = ok r.1

decode_thirteenth :
    (ft : FloatText) (i : ℕ) (v : F32) (text : Text) (s : SimulatorState)
    (back : List (Text × Text))
    → 12 ≤ i
    → HasChannels s
    → ft.parse_float text ≡ inr v
    → (decode_elements ft ((codes "item", text) ∷ back) (i, s) >>= finish) ≡ panic
unfolding decode_elements decode_element text_eq
decode_thirteenth ft i v text s back l h f = rw (overflow ft i v text s l h f)

Counted-finish :
    (n : ℕ) (r : Result BridgeError (ℕ × SimulatorState)) → Counted n r → (r >>= finish) ≢ panic
Counted-finish n (ok r) h = λ e. cc
Counted-finish n (err e) h = λ e. cc
Counted-finish n panic h = absurd h
Counted-finish n spin h = absurd h

module _ (ft : FloatText) (prolog : Text) (root : Node) (tail : Text) (p : lacks b'<' prolog ≡ true)
    (w : well_formed root ≡ true) (t : lacks b'<' tail ≡ true) where
  -- A well-formed document with at most twelve `item` data elements is decoded without a panic.
  pub decode_no_panic :
      count_items (data_elements root) ≤ 12
      → decode_simulator_state ft (document prolog root tail) ≢ panic
  decode_no_panic l = rw (decode-document ft prolog root tail p w t) (
      Counted-finish (0 + count_items (data_elements root)) _
        (decode_elements-Counted ft (data_elements root) 0 default_state refl (omega arith)))

  -- The thirteenth `item`: where twelve `item` elements and any others have been decoded, one more
  -- `item` with a number in it makes the decoder panic, whatever follows.
  pub decode_overflow :
      (front back : List (Text × Text)) (text : Text) (v : F32) (r : ℕ × SimulatorState)
      → data_elements root ≡ front ++ ((codes "item", text) ∷ back)
      → count_items front ≡ 12
      → decode_elements ft front (0, default_state) ≡ ok r
      → ft.parse_float text ≡ inr v
      → decode_simulator_state ft (document prolog root tail) ≡ panic
  decode_overflow front back text v r e n d f =
      decode-document ft prolog root tail p w t
      ∙ ap (λ es. decode_elements ft es (0, default_state) >>= finish) e
      ∙ ap (λ m. m >>= finish) (decode_elements-append ft front _ (0, default_state))
      ∙ ap (λ m. (m >>= decode_elements ft ((codes "item", text) ∷ back)) >>= finish) d
      ∙ stop (rw d at (decode_elements-Counted ft front 0 default_state refl (omega arith)))
    where
      stop :
          Counted (0 + count_items front) (ok r)
          → (decode_elements ft ((codes "item", text) ∷ back) r >>= finish) ≡ panic
      stop h = decode_thirteenth ft r.0 v text r.1 back (omega arith) h.1 f
