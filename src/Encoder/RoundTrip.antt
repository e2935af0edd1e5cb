-- ===== src/Encoder/RoundTrip.antt =====
-- What `encode_control_inputs` writes is a well-formed element, and `decode_simulator_state` reads the
-- channels back from it.
use realflight_bridge.Base.{
  ℕ, suc, ◌+◌, ◌<◌, ◌^◌, ◌≡◌, refl, sym, ap, ◌∙◌, true, false, List, [], ◌∷◌, ◌++◌, arith, length,
  length-append, set-append, replicate, ltb, lt→ltb, append_assoc, append-nil,
}
use realflight_bridge.Outcome.{ok, ◌>>=◌}
use realflight_bridge.Text.{Text, codes, text_eq}
use realflight_bridge.Types.{
  F32, FloatText, IsFloatText, is_nan, ControlInputs, IsControl, SimulatorState, default_state,
}
use realflight_bridge.Decoder.{set_channel, decode_item, decode_element, decode_simulator_state}
use realflight_bridge.Decoder.Fields.{find_field, decode_found, decode_state_field}
use realflight_bridge.Decoder.Document.{
  Node, element, Nodes, end, child, render, render_nodes, data_elements, data_of_nodes, well_formed,
  well_formed_nodes, last_of_nodes, decode_elements,
}
use realflight_bridge.Decoder.Document.Decode.{decode-render}
use realflight_bridge.Encoder.{write_items, encode_control_inputs}

-- A 32-bit pattern that is a number.
abbrev pub IsNumber : F32 → Type 0
IsNumber v = (v < 2 ^ 32) × (is_nan v ≡ false)

abbrev pub AreNumbers : List F32 → Type 0
AreNumbers [] = Unit {0}
AreNumbers (v ∷ vs) = IsNumber v × AreNumbers vs

abbrev with_channels : SimulatorState → List F32 → SimulatorState
with_channels s cs = record s { previous_inputs = record { channels = cs } }

module _ (ft : FloatText) where
  abbrev item : F32 → Node
  item v = element (codes "item") (codes "item") (end (ft.show_float v))

  items : List F32 → Nodes
  items [] = end []
  items (v ∷ vs) = child [] (item v) (items vs)

  abbrev selected : Node
  selected = element (codes "m-selectedChannels") (codes "m-selectedChannels") (end (codes "4095"))

  abbrev control_element : List F32 → Node
  control_element cs = element (codes "pControlInputs") (codes "pControlInputs") (
      child [] selected (
        child [] (element (codes "m-channelValues-0to1") (codes "m-channelValues-0to1") (items cs))
          (end [])))

  render-items : (cs : List F32) → render_nodes (items cs) ≡ write_items ft cs
  unfolding items render render_nodes write_items
  render-items [] = refl
  render-items (v ∷ cs) = simp (append_assoc, render-items cs)

  -- The encoder writes that element.
  encode-render :
      (c : ControlInputs) → encode_control_inputs ft c ≡ render (control_element c.channels)
  unfolding encode_control_inputs render render_nodes
  encode-render c = rw (render-items c.channels) (simp append_assoc)

  last-items : (cs : List F32) → last_of_nodes (codes "item") (items cs) ≡ codes "item"
  unfolding items last_of_nodes
  last-items [] = refl
  last-items (v ∷ cs) = last-items cs

  -- The data elements of the items.
  unfoldable pub item_elements : List F32 → List (Text × Text)
  item_elements [] = []
  item_elements (v ∷ cs) = (codes "item", ft.show_float v) ∷ item_elements cs

  data_elements-items : (cs : List F32) → data_of_nodes (items cs) ≡ item_elements cs
  unfolding items data_elements data_of_nodes item_elements
  data_elements-items [] = refl
  data_elements-items (v ∷ cs) = ap (◌∷◌ (codes "item", ft.show_float v)) (data_elements-items cs)

  data_elements-control :
      (v : F32) (cs : List F32)
      → data_elements (control_element (v ∷ cs))
        ≡ (codes "m-selectedChannels", codes "4095") ∷ (item_elements (v ∷ cs) ++ [])
  unfolding data_elements data_of_nodes
  data_elements-control v cs = unfold items item_elements in rw (data_elements-items cs)

module _ (ft : FloatText) (law : IsFloatText ft) where
  well_formed-items : (cs : List F32) → well_formed_nodes (items ft cs) ≡ true
  unfolding items well_formed
  well_formed-items [] = refl
  well_formed-items (v ∷ cs) = rw (law.lacks-show v, well_formed-items cs)

  well_formed-control : (v : F32) (cs : List F32) → well_formed (control_element ft (v ∷ cs)) ≡ true
  unfolding items well_formed
  well_formed-control v cs = rw (law.lacks-show v, well_formed-items cs, last-items ft cs)

  decode-item :
      (v y : F32) (done ys : List F32) (s : SimulatorState)
      → IsNumber v
      → decode_element ft
          (codes "item")
          (ft.show_float v)
          (length done, with_channels s (done ++ y ∷ ys))
        ≡ ok (length done + 1, with_channels s (done ++ v ∷ ys))
  unfolding decode_element decode_item set_channel text_eq
  decode-item v y done ys s n =
      let room : ltb (length done) (length (done ++ y ∷ ys)) ≡ true =
        lt→ltb _ _ (omega (arith, length-append done (y ∷ ys))) in
      rw (law.parse-show v n.0 n.1) (rw room (rw set-append))

  pub decode-items :
      (vs olds done : List F32) (s : SimulatorState)
      → length olds ≡ length vs
      → AreNumbers vs
      → decode_elements ft (item_elements ft vs) (length done, with_channels s (done ++ olds))
        ≡ ok (length done + length vs, with_channels s (done ++ vs))
  unfolding decode_elements item_elements
  decode-items [] [] done s e n = ap (λ (k : ℕ). ok (k, with_channels s (done ++ []))) (omega arith)
  decode-items [] (y ∷ ys) done s e n = absurd (omega arith)
  decode-items (v ∷ vs) [] done s e n = absurd (omega arith)
  decode-items (v ∷ vs) (y ∷ ys) done s e n =
      rw (decode-item v y done ys s n.0)
        (next (decode-items vs ys (done ++ v ∷ []) s (omega arith) n.1))
    where
      count : length (done ++ v ∷ []) ≡ length done + 1
      count = length-append done (v ∷ []) ∙ omega arith

      next :
          decode_elements ft
              (item_elements ft vs)
              (length (done ++ v ∷ []), with_channels s ((done ++ v ∷ []) ++ ys))
            ≡ ok (length (done ++ v ∷ []) + length vs, with_channels s ((done ++ v ∷ []) ++ vs))
          → decode_elements ft
              (item_elements ft vs)
              (length done + 1, with_channels s (done ++ v ∷ ys))
            ≡ ok (length done + suc (length vs), with_channels s (done ++ v ∷ vs))
      next h =
          rw (append_assoc done (v ∷ []) ys, append_assoc done (v ∷ []) vs, count) at h
          ∙ ap (λ (k : ℕ). ok (k, with_channels s (done ++ v ∷ vs))) (omega arith)

  decode-all_items :
      (cs : List F32)
      → length cs ≡ 12
      → AreNumbers cs
      → decode_elements ft (item_elements ft cs ++ []) (0, default_state)
        ≡ ok (0 + length cs, with_channels default_state cs)
  decode-all_items cs e n =
      rw (append-nil (item_elements ft cs))
        (decode-items cs (replicate 12 0) [] default_state (sym e) n)

  decode-selected :
      (es : List (Text × Text))
      → decode_elements ft ((codes "m-selectedChannels", codes "4095") ∷ es) (0, default_state)
        ≡ decode_elements ft es (0, default_state)
  unfolding decode_elements decode_element decode_state_field decode_found find_field text_eq
  decode-selected es = refl

  decode-channels :
      (cs : List F32)
      → length cs ≡ 12
      → AreNumbers cs
      → decode_simulator_state ft (render (control_element ft cs))
        ≡ ok (with_channels default_state cs)
  decode-channels [] e n = absurd (omega arith)
  decode-channels (v ∷ cs) e n =
      decode-render ft (control_element ft (v ∷ cs)) (well_formed-control v cs)
      ∙ ap (λ es. decode_elements ft es (0, default_state) >>= λ r. ok r.1)
          (data_elements-control ft v cs)
      ∙ ap (λ m. m >>= λ r. ok r.1)
          (decode-selected (item_elements ft (v ∷ cs) ++ []) ∙ decode-all_items (v ∷ cs) e n)

  -- Decoding the encoded control inputs gives back the twelve channels, in their order, and leaves
  -- the rest of the state at its default. The channels are numbers, not NaN.
  pub decode-encode :
      (c : ControlInputs)
      → IsControl c
      → AreNumbers c.channels
      → decode_simulator_state ft (encode_control_inputs ft c)
        ≡ ok (record default_state { previous_inputs = c })
  decode-encode c e n =
      ap (decode_simulator_state ft) (encode-render ft c) ∙ decode-channels c.channels e n
