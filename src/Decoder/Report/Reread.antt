-- ===== src/Decoder/Report/Reread.antt =====
-- A document that holds the report of a state and its channels, and decoding it.
use realflight_bridge.Base.{
  ◌+◌, ◌≡◌, ◌≢◌, refl, sym, ap, ◌∙◌, Bool, true, false, not, ◌&&◌, List, [], ◌∷◌, ◌++◌, map, all,
  length, replicate, arith,
}
use realflight_bridge.Outcome.{ok}
use realflight_bridge.Text.{Text, codes, text_eq, text_eq_refl, lacks}
use realflight_bridge.Types.{F32, FloatText, IsFloatText, IsControl, SimulatorState, default_state}
use realflight_bridge.Decoder.{decode_simulator_state}
use realflight_bridge.Decoder.Fields.{Field}
use realflight_bridge.Decoder.Row.{name_of, column, Value, real, flag, words, row}
use realflight_bridge.Decoder.Document.{
  Node, element, Nodes, end, child, data_elements, data_of_nodes, well_formed, well_formed_nodes,
  separate, last_of_nodes, last_tag, is_tag, decode_elements,
}
use realflight_bridge.Decoder.Document.Decode.{document, decode-document, decode_elements-append}
use realflight_bridge.Decoder.Report.{
  IsReadable, AreReadable, AreReadable-cell, cell, all_fields, tag_of_field, text_of, entry, report,
  decode-report,
}
use realflight_bridge.Encoder.RoundTrip.{AreNumbers, item_elements, decode-items}

-- Elements side by side.
abbrev leaves : List (Text × Text) → Nodes
leaves [] = end []
leaves ((t, x) ∷ es) = child [] (element t t (end x)) (leaves es)

data_of_nodes-leaves : (es : List (Text × Text)) → data_of_nodes (leaves es) ≡ es
unfolding data_elements data_of_nodes
data_of_nodes-leaves [] = refl
data_of_nodes-leaves ((t, x) ∷ es) = rw (text_eq_refl t) (ap (◌∷◌ (t, x)) (data_of_nodes-leaves es))

abbrev root_name : Text
root_name = codes "ReturnData"

-- An element that may stand below the root.
abbrev is_plain : Text × Text → Bool
is_plain (t, x) = (is_tag t && lacks b'>' t) && (lacks b'<' x && not (text_eq t root_name))

well_formed-leaves :
    (es : List (Text × Text)) → all is_plain es ≡ true → well_formed_nodes (leaves es) ≡ true
unfolding well_formed separate
well_formed-leaves [] h = refl
well_formed-leaves ((t, x) ∷ es) h = ground (arith, well_formed-leaves es)

last-leaves :
    (t : Text) (es : List (Text × Text))
    → text_eq t root_name ≡ false
    → all is_plain es ≡ true
    → text_eq (last_of_nodes t (leaves es)) root_name ≡ false
unfolding last_of_nodes
last-leaves t [] h k = h
last-leaves t ((t', x) ∷ es) h k = last-leaves t' es (ground arith) (ground arith)

abbrev root : List (Text × Text) → Node
root es = element root_name root_name (leaves es)

well_formed-root :
    (es : List (Text × Text)) → es ≢ [] → all is_plain es ≡ true → well_formed (root es) ≡ true
unfolding well_formed separate last_tag
well_formed-root [] n h = elim (n refl) [ ]
well_formed-root ((t, x) ∷ es) n h =
    let last : text_eq (last_of_nodes t (leaves es)) root_name ≡ false =
      last-leaves t es (ground arith) (ground arith) in
    rw last (ground (arith, well_formed-leaves es))

data_elements-root : (es : List (Text × Text)) → es ≢ [] → data_elements (root es) ≡ es
unfolding data_elements
data_elements-root [] n = elim (n refl) [ ]
data_elements-root (e ∷ es) n = data_of_nodes-leaves (e ∷ es)

plain-append :
    (xs ys : List (Text × Text))
    → all is_plain xs ≡ true
    → all is_plain ys ≡ true
    → all is_plain (xs ++ ys) ≡ true
plain-append [] ys h k = k
plain-append (x ∷ xs) ys h k = ground (arith, plain-append xs ys)

not_root : (f : Field) → text_eq (name_of f) root_name ≡ false
unfolding text_eq
not_root f = ground arith

module _ (ft : FloatText) where
  abbrev pub parts : SimulatorState → List (Text × Text)
  parts s = report ft s ++ item_elements ft s.previous_inputs.channels

  abbrev pub report_element : SimulatorState → Node
  report_element s = root (parts s)

module _ (ft : FloatText) (law : IsFloatText ft) where
  text_lacks : (v : Value) → IsReadable v → lacks b'<' (text_of ft v) ≡ true
  text_lacks (real v) h = law.lacks-show v
  text_lacks (flag true) h = refl
  text_lacks (flag false) h = refl
  text_lacks (words t) h = h

  plain-entries :
      (s : SimulatorState) (fs : List Field)
      → AreReadable (row s)
      → all is_plain (map (entry ft s) fs) ≡ true
  plain-entries s [] h = refl
  plain-entries s (f ∷ fs) h =
      rw
        (
          tag_of_field f,
          text_lacks (cell s f) (AreReadable-cell (row s) (column f) h),
          not_root f,
          plain-entries s fs h,
        )
        refl

  plain-items : (cs : List F32) → all is_plain (item_elements ft cs) ≡ true
  unfolding item_elements text_eq
  plain-items [] = refl
  plain-items (v ∷ cs) = rw (law.lacks-show v, plain-items cs) refl

  plain-parts : (s : SimulatorState) → AreReadable (row s) → all is_plain (parts ft s) ≡ true
  plain-parts s h =
      plain-append (report ft s) (item_elements ft s.previous_inputs.channels)
        (plain-entries s all_fields h) (plain-items s.previous_inputs.channels)

  well_formed-report :
      (s : SimulatorState) → AreReadable (row s) → well_formed (report_element ft s) ≡ true
  well_formed-report s h = well_formed-root (parts ft s) (λ e. cc) (plain-parts s h)

  data_elements-report : (s : SimulatorState) → data_elements (report_element ft s) ≡ parts ft s
  data_elements-report s = data_elements-root (parts ft s) (λ e. cc)

  decode-parts :
      (s : SimulatorState)
      → AreReadable (row s)
      → IsControl s.previous_inputs
      → AreNumbers s.previous_inputs.channels
      → decode_elements ft (parts ft s) (0, default_state)
        ≡ ok (0 + length s.previous_inputs.channels, s)
  decode-parts s h c n =
      decode_elements-append ft (report ft s) _ (0, default_state)
      ∙ rw (decode-report ft law s default_state 0 h)
          (decode-items ft law s.previous_inputs.channels (replicate 12 0) [] s (sym c) n)

  -- Every state with twelve channels, whose numbers are no NaN and whose status is free of `<`, is what
  -- a document decodes to: the one that lists its values under the names of their attributes, and its
  -- channels as items. No field is lost, and no two are mixed up.
  pub decode-report_element :
      (s : SimulatorState) (prolog tail : Text)
      → AreReadable (row s)
      → IsControl s.previous_inputs
      → AreNumbers s.previous_inputs.channels
      → lacks b'<' prolog ≡ true
      → lacks b'<' tail ≡ true
      → decode_simulator_state ft (document prolog (report_element ft s) tail) ≡ ok s
  decode-report_element s prolog tail h c n p t =
      decode-document ft prolog (report_element ft s) tail p (well_formed-report s h) t
      ∙ rw (data_elements-report s, decode-parts s h c n) refl
