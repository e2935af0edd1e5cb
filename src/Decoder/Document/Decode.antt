-- ===== src/Decoder/Document/Decode.antt =====
-- `decode_simulator_state` on a well-formed document is the decoding of its data elements in turn.
use realflight_bridge.Base.{
  ℕ, ◌≡◌, refl, sym, ap, ◌∙◌, inl, inr, Bool, true, false, not, ◌&&◌, List, [], ◌∷◌, ◌++◌, arith,
  append_assoc, append-nil, Bool-cases,
}
use realflight_bridge.Outcome.{Result, ok, ◌>>=◌, >>=_assoc, >>=_congr, >>=-ok}
use realflight_bridge.Text.{Text, text_eq, lacks}
use realflight_bridge.Types.{FloatText, BridgeError, SimulatorState, default_state}
use realflight_bridge.Decoder.{
  ParseState, step_in, find_tag, content, close_tag, decode_element, close, run, initial,
  decode_simulator_state,
}
use realflight_bridge.Decoder.Document.{
  Node, element, Nodes, end, child, render, render_nodes, data_elements, data_of_nodes, last_tag,
  last_of_nodes, is_tag, separate, well_formed, well_formed_nodes, decode_elements,
}
use realflight_bridge.Decoder.Document.Machine.{
  at, Between, run_text, run-open, run-close, run-find_tag,
}

pub decode_elements-append :
    (ft : FloatText) (xs ys : List (Text × Text)) (r : ℕ × SimulatorState)
    → decode_elements ft (xs ++ ys) r ≡ (do r' ← decode_elements ft xs r; decode_elements ft ys r')
unfolding decode_elements
decode_elements-append ft [] ys r = refl
decode_elements-append ft ((tag, text) ∷ xs) ys r =
    >>=_congr (decode_element ft tag text r) _ _ (λ r'. decode_elements-append ft xs ys r')
    ∙ sym (>>=_assoc (decode_element ft tag text r) (decode_elements ft xs) (decode_elements ft ys))

and_parts :
    {a b c d : Bool}
    → (a && (b && (c && d))) ≡ true
    → (a ≡ true) × (b ≡ true) × (c ≡ true) × (d ≡ true)
and_parts h = ground arith

-- The closing tag, with what follows it.
abbrev closing : Text → Text → Text
closing name rest = b'<' ∷ b'/' ∷ (name ++ (b'>' ∷ rest))

render-element :
    (tag name : Text) (kids : Nodes) (rest : Text)
    → render (element tag name kids) ++ rest
      ≡ b'<' ∷ (tag ++ (b'>' ∷ (render_nodes kids ++ closing name rest)))
unfolding render
render-element tag name kids rest = simp append_assoc

render-child :
    (text : Text) (node : Node) (kids : Nodes) (rest : Text)
    → render_nodes (child text node kids) ++ rest
      ≡ text ++ (render node ++ (render_nodes kids ++ rest))
unfolding render_nodes
render-child text node kids rest = simp append_assoc

-- A matching close decodes the element, any other does nothing.
close_end :
    (ft : FloatText) (tag name text : Text) (r : ℕ × SimulatorState)
    → close ft (at close_tag name tag text r)
      ≡ decode_elements ft (data_elements (element tag name (end text))) r
unfolding close data_elements decode_elements
close_end ft tag name text r = elim (Bool-cases (text_eq tag name)) [
  | inl same ↦ rw same (sym (>>=-ok (decode_element ft tag text r)))
  | inr other ↦ rw other
]

close_separate :
    (ft : FloatText) (tag name text : Text) (r : ℕ × SimulatorState)
    → not (text_eq tag name) ≡ true
    → close ft (at close_tag name tag text r) ≡ ok r
unfolding close
close_separate ft tag name text r h = let e : text_eq tag name ≡ false = ground arith in rw e

module _ (ft : FloatText) where
  -- What the machine does from a node to the text behind it.
  abbrev After :
      List (Text × Text) → Text → ℕ × SimulatorState → Text → Result BridgeError SimulatorState
  After es tag r rest = do r' ← decode_elements ft es r; run ft (at find_tag [] tag [] r') rest

  After-append :
      (xs ys : List (Text × Text)) (tag : Text) (r : ℕ × SimulatorState) (rest : Text)
      → (do r' ← decode_elements ft xs r; After ys tag r' rest) ≡ After (xs ++ ys) tag r rest
  After-append xs ys tag r rest =
      sym (>>=_assoc (decode_elements ft xs r) (decode_elements ft ys) _)
      ∙ ap (λ m. m >>= λ r'. run ft (at find_tag [] tag [] r') rest)
          (sym (decode_elements-append ft xs ys r))

  After-closing :
      (es : List (Text × Text)) (tag name : Text) (r : ℕ × SimulatorState) (rest : Text)
      → not (text_eq tag name) ≡ true
      → lacks b'>' name ≡ true
      → After es tag r (closing name rest) ≡ After es tag r rest
  After-closing es tag name r rest h l = >>=_congr (decode_elements ft es r) _ _ λ r'.
      run-close ft find_tag [] tag [] r' name rest (inl refl) l
      ∙ ap (λ m. m >>= λ r'. run ft (at find_tag [] tag [] r') rest)
          (close_separate ft tag name [] r' h)

module _ (tag name : Text) (kids : Nodes) (w : well_formed (element tag name kids) ≡ true) where
  well_formed-element :
      (is_tag tag ≡ true)
      × (lacks b'>' name ≡ true)
      × (well_formed_nodes kids ≡ true)
      × (separate tag name kids ≡ true)
  well_formed-element = and_parts (unfold well_formed in w)

well_formed-child :
    (text : Text) (node : Node) (kids : Nodes)
    → well_formed_nodes (child text node kids) ≡ true
    → (lacks b'<' text ≡ true) × (well_formed node ≡ true) × (well_formed_nodes kids ≡ true)
unfolding well_formed_nodes
well_formed-child text node kids w = ground arith

well_formed-end : (text : Text) → well_formed_nodes (end text) ≡ true → lacks b'<' text ≡ true
unfolding well_formed_nodes
well_formed-end text w = w

separate-child :
    (tag name text : Text) (node : Node) (kids : Nodes)
    → separate tag name (child text node kids) ≡ true
    → not (text_eq (last_of_nodes (last_tag node) kids) name) ≡ true
unfolding separate
separate-child tag name text node kids h = h

module _ (ft : FloatText) where
  run-text_nodes :
      (text : Text) (tag : Text) (r : ℕ × SimulatorState) (rest : Text)
      → lacks b'<' text ≡ true
      → run ft (at find_tag [] tag [] r) (render_nodes (end text) ++ rest)
        ≡ After ft (data_of_nodes (end text)) (last_of_nodes tag (end text)) r rest
  unfolding render_nodes data_of_nodes last_of_nodes decode_elements
  run-text_nodes text tag r rest h = run_text ft find_tag [] tag [] r text rest (inl refl) h

  run-leaf :
      (tag name text : Text) (m : ParseState) (k o c : Text) (r : ℕ × SimulatorState) (rest : Text)
      → Between m
      → well_formed (element tag name (end text)) ≡ true
      → run ft (at m k o c r) (render (element tag name (end text)) ++ rest)
        ≡ After ft (data_elements (element tag name (end text))) tag r rest
  unfolding render_nodes
  run-leaf tag name text m k o c r rest b w =
      let p = well_formed-element tag name (end text) w in
      ap (run ft (at m k o c r)) (render-element tag name (end text) rest)
      ∙ run-open ft m k o c r tag _ b p.0
      ∙ run_text ft content [] tag [] r text _ (inr refl) (well_formed-end text p.2)
      ∙ run-close ft content [] tag text r name rest (inr refl) p.1
      ∙ ap (λ m. m >>= λ r'. run ft (at find_tag [] tag [] r') rest) (close_end ft tag name text r)

mutual
  unfolding data_elements data_of_nodes last_tag last_of_nodes

  run-node :
      (ft : FloatText) (node : Node) (m : ParseState) (k o c : Text) (r : ℕ × SimulatorState)
      (rest : Text)
      → Between m
      → well_formed node ≡ true
      → run ft (at m k o c r) (render node ++ rest)
        ≡ After ft (data_elements node) (last_tag node) r rest
  run-node ft (element tag name (end text)) m k o c r rest b w =
      run-leaf ft tag name text m k o c r rest b w
  run-node ft (element tag name (child text node kids)) m k o c r rest b w =
      let p = well_formed-element tag name (child text node kids) w in
      let q = well_formed-child text node kids p.2 in
      let last = last_of_nodes (last_tag node) kids in
      ap (run ft (at m k o c r)) (render-element tag name (child text node kids) rest)
      ∙ run-open ft m k o c r tag _ b p.0
      ∙ ap (run ft (at content [] tag [] r)) (render-child text node kids (closing name rest))
      ∙ run_text ft content [] tag [] r text _ (inr refl) q.0
      ∙ run-node ft node content [] tag text r _ (inr refl) q.1
      ∙ >>=_congr (decode_elements ft (data_elements node) r) _ _
          (λ r'. run-nodes ft kids (last_tag node) r' (closing name rest) q.2)
      ∙ After-append ft (data_elements node) (data_of_nodes kids) last r (closing name rest)
      ∙ After-closing ft (data_elements node ++ data_of_nodes kids) last name r rest
          (separate-child tag name text node kids p.3) p.1

  run-nodes :
      (ft : FloatText) (kids : Nodes) (tag : Text) (r : ℕ × SimulatorState) (rest : Text)
      → well_formed_nodes kids ≡ true
      → run ft (at find_tag [] tag [] r) (render_nodes kids ++ rest)
        ≡ After ft (data_of_nodes kids) (last_of_nodes tag kids) r rest
  run-nodes ft (end text) tag r rest w = run-text_nodes ft text tag r rest (well_formed-end text w)
  run-nodes ft (child text node kids) tag r rest w =
      let q = well_formed-child text node kids w in
      ap (run ft (at find_tag [] tag [] r)) (render-child text node kids rest)
      ∙ run_text ft find_tag [] tag [] r text _ (inl refl) q.0
      ∙ run-node ft node find_tag [] tag [] r _ (inl refl) q.1
      ∙ >>=_congr (decode_elements ft (data_elements node) r) _ _
          (λ r'. run-nodes ft kids (last_tag node) r' rest q.2)
      ∙ After-append ft (data_elements node) (data_of_nodes kids)
          (last_of_nodes (last_tag node) kids) r rest

-- A document: a prolog, the root element, and what is behind it.
abbrev pub document : Text → Node → Text → Text
document prolog root tail = b'<' ∷ b'?' ∷ (prolog ++ (render root ++ tail))

run-prolog :
    (ft : FloatText) (prolog rest : Text)
    → lacks b'<' prolog ≡ true
    → run ft initial (b'<' ∷ b'?' ∷ (prolog ++ rest)) ≡ run ft initial rest
unfolding run step_in
run-prolog ft prolog rest h = run-find_tag ft [] [] [] (0, default_state) prolog rest h

run-tail :
    (ft : FloatText) (tag tail : Text) (r : ℕ × SimulatorState)
    → lacks b'<' tail ≡ true
    → run ft (at find_tag [] tag [] r) tail ≡ ok r.1
unfolding run
run-tail ft tag tail r h =
    ap (run ft (at find_tag [] tag [] r)) (sym (append-nil tail))
    ∙ run-find_tag ft tag [] [] r tail [] h

-- A document whose elements are well formed decodes to what its data elements give when they are
-- decoded one after the other in document order, from the default state and channel 0. Elements
-- with attributes or with elements inside, and all other character data, change nothing.
pub decode-document :
    (ft : FloatText) (prolog : Text) (root : Node) (tail : Text)
    → lacks b'<' prolog ≡ true
    → well_formed root ≡ true
    → lacks b'<' tail ≡ true
    → decode_simulator_state ft (document prolog root tail)
      ≡ (do r ← decode_elements ft (data_elements root) (0, default_state); ok r.1)
unfolding decode_simulator_state
decode-document ft prolog root tail p w t =
    run-prolog ft prolog (render root ++ tail) p
    ∙ run-node ft root find_tag [] [] [] (0, default_state) tail (inl refl) w
    ∙ >>=_congr (decode_elements ft (data_elements root) (0, default_state)) _ _
        (λ r. run-tail ft (last_tag root) tail r t)

-- The same for an element with no prolog, as the encoder of the control inputs writes.
pub decode-render :
    (ft : FloatText) (root : Node)
    → well_formed root ≡ true
    → decode_simulator_state ft (render root)
      ≡ (do r ← decode_elements ft (data_elements root) (0, default_state); ok r.1)
unfolding decode_simulator_state
decode-render ft root w =
    ap (run ft initial) (sym (append-nil (render root)))
    ∙ run-node ft root find_tag [] [] [] (0, default_state) [] (inl refl) w
    ∙ >>=_congr (decode_elements ft (data_elements root) (0, default_state)) _ _
        (λ r. run-tail ft (last_tag root) [] r refl)
