-- ===== src/Decoder/Order.antt =====
-- Documents whose data elements stand in another order.
pub mod Swaps
use realflight_bridge.Base.{
  ◌↔◌, ℕ, ◌+◌, ◌≡◌, ◌≢◌, refl, sym, ap, ◌∙◌, inl, inr, Bool, true, false, Option, none, some, List,
  [], ◌∷◌, ◌++◌, set, set_comm, all, ◌==◌, ==_iff, if◌then◌else◌, Bool-cases, arith,
}
use realflight_bridge.Outcome.{Result, ok, err, panic, spin, ◌>>=◌, >>=_assoc, >>=_returns}
use realflight_bridge.Text.{Text, codes, text_eq, text_eq_iff, lacks}
use realflight_bridge.Types.{FloatText, BridgeError, ControlInputs, SimulatorState, default_state}
use realflight_bridge.Decoder.{decode_simulator_state}
use realflight_bridge.Decoder.Fields.{Field, field_names, find_in, find_field}
use realflight_bridge.Decoder.Row.{Value, column, read_value}
use realflight_bridge.Decoder.Document.{Node, well_formed, data_elements, decode_elements}
use realflight_bridge.Decoder.Document.Decode.{document, decode-document}
use realflight_bridge.Decoder.Table.{
  Table, view, view_injective, Edit, apply, edit_of, edited, with_row, next_channel, write_item,
  write_attribute, write_element, write_elements, view-decode_elements,
}
use Swaps.{swap_elements}

-- The elements of the second list are those of the first, and elements of one name stand in the same
-- order in both.
pub data Reordered : List (Text × Text) → List (Text × Text) → Type 0 where
  no_more : Reordered [] []
  kept :
      (e : Text × Text) (es es' : List (Text × Text))
      → Reordered es es'
      → Reordered (e ∷ es) (e ∷ es')
  swapped :
      (e e' : Text × Text) (es : List (Text × Text))
      → e.0 ≢ e'.0
      → Reordered (e ∷ e' ∷ es) (e' ∷ e ∷ es)
  followed :
      (es es' es'' : List (Text × Text)) → Reordered es es' → Reordered es' es'' → Reordered es es''

module _ (ft : FloatText) where
  write_elements-Reordered :
      (es es' : List (Text × Text)) (t u : Table)
      → Reordered es es'
      → write_elements ft es t ≡ ok u
      → write_elements ft es' t ≡ ok u
  unfolding write_elements
  write_elements-Reordered [] [] t u no_more k = k
  write_elements-Reordered _ _ t u (kept (tag, text) es es' h) k =
      let (m, k₁, a) = >>=_returns _ (write_element ft tag text t) k in
      rw a (write_elements-Reordered es es' m u h k₁)
  write_elements-Reordered _ _ t u (swapped (tag, text) (tag', text') es d) k =
      let w = write_element ft tag text t in
      let w' = write_element ft tag' text' t in
      let (m, k₁, a) =
        >>=_returns (write_elements ft es) (w >>= write_element ft tag' text')
          (>>=_assoc w (write_element ft tag' text') (write_elements ft es) ∙ k) in
      sym (>>=_assoc w' (write_element ft tag text) (write_elements ft es))
      ∙ rw (swap_elements ft tag text tag' text' t m d a) k₁
  write_elements-Reordered es es'' t u (followed _ es' _ h h') k =
      write_elements-Reordered es' es'' t u h' (write_elements-Reordered es es' t u h k)

  decode_elements-Reordered :
      (es es' : List (Text × Text)) (r r' : ℕ × SimulatorState)
      → Reordered es es'
      → decode_elements ft es r ≡ ok r'
      → decode_elements ft es' r ≡ ok r'
  decode_elements-Reordered es es' r r' h k =
      let (r'', e, a) = >>=_returns _ (decode_elements ft es' r) (
        view-decode_elements ft es' r
        ∙ write_elements-Reordered es es' (view r) (view r') h
            (sym (view-decode_elements ft es r) ∙ ap (λ m. m >>= λ q. ok (view q)) k)) in
      a ∙ ap ok (view_injective r'' r' cc)

-- Where a well-formed document decodes to a state, so does every well-formed document with the same
-- data elements in another order, as long as elements of one name, the items above all, keep theirs;
-- the two documents may differ in all else.
pub decode_reordered :
    (ft : FloatText) (prolog prolog' : Text) (root root' : Node) (tail tail' : Text)
    (s : SimulatorState)
    → lacks b'<' prolog ≡ true
    → lacks b'<' prolog' ≡ true
    → well_formed root ≡ true
    → well_formed root' ≡ true
    → lacks b'<' tail ≡ true
    → lacks b'<' tail' ≡ true
    → Reordered (data_elements root) (data_elements root')
    → decode_simulator_state ft (document prolog root tail) ≡ ok s
    → decode_simulator_state ft (document prolog' root' tail') ≡ ok s
decode_reordered ft prolog prolog' root root' tail tail' s p p' w w' t t' h k =
    let (r, e, a) =
      >>=_returns _ (decode_elements ft (data_elements root) (0, default_state))
        (sym (decode-document ft prolog root tail p w t) ∙ k) in
    decode-document ft prolog' root' tail' p' w' t'
    ∙ ap (λ m. m >>= λ q. ok q.1)
        (decode_elements-Reordered ft (data_elements root) (data_elements root') (0, default_state)
          r h a)
    ∙ e
