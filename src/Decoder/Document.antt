-- ===== src/Decoder/Document.antt =====
-- XML documents of elements and character data, and their data elements in document order.
pub mod Machine
pub mod Decode
use realflight_bridge.Base.{
  ℕ, ◌+◌, ◌≡◌, refl, sym, ap, ◌∙◌, ◌⊎◌, inl, inr, Bool, true, false, not, ◌&&◌, List, [], ◌∷◌, ◌++◌,
  arith, ◌==◌, if◌then◌else◌, append_assoc, append-nil, all, Bool-cases,
}
use realflight_bridge.Outcome.{Result, ok, err, panic, spin, ◌>>=◌, >>=_assoc, >>=_congr, >>=-ok}
use realflight_bridge.Text.{Text, codes, text_eq, text_eq_iff, text_eq_refl, lacks}
use realflight_bridge.Types.{FloatText, BridgeError, SimulatorState, default_state}
use realflight_bridge.Decoder.{
  ParseState, find_tag, maybe_tag, content, open_tag, close_tag, Decoder, decode_element, close,
  step_in, run, initial, decode_simulator_state,
}

-- An element has the text of its opening tag, attributes included, and the name in its closing tag.
-- Before each child, and before the closing tag, stands some character data.
mutual
  pub data Node : Type 0 where
    element : (tag name : Text) → Nodes → Node

  pub data Nodes : Type 0 where
    end : Text → Nodes
    child : Text → Node → Nodes → Nodes

unfoldable mutual
  pub render : Node → Text
  render (element tag name kids) =
      b'<' ∷ (tag ++ (b'>' ∷ (render_nodes kids ++ (b'<' ∷ b'/' ∷ (name ++ (b'>' ∷ []))))))

  pub render_nodes : Nodes → Text
  render_nodes (end text) = text
  render_nodes (child text node rest) = text ++ (render node ++ render_nodes rest)

-- The data elements, in document order: those with no element inside and no attributes.
unfoldable mutual
  unfolding text_eq

  pub data_elements : Node → List (Text × Text)
  data_elements (element tag name (end text)) = if text_eq tag name then (tag, text) ∷ [] else []
  data_elements (element tag name (child text node rest)) = data_elements node ++ data_of_nodes rest

  pub data_of_nodes : Nodes → List (Text × Text)
  data_of_nodes (end text) = []
  data_of_nodes (child text node rest) = data_elements node ++ data_of_nodes rest

-- The tag that was opened last when the element closes.
unfoldable mutual
  pub last_tag : Node → Text
  last_tag (element tag name kids) = last_of_nodes tag kids

  pub last_of_nodes : Text → Nodes → Text
  last_of_nodes tag (end text) = tag
  last_of_nodes tag (child text node rest) = last_of_nodes (last_tag node) rest

-- A tag's text: no processing instruction, no closing tag, and free of `>`.
abbrev pub is_tag : Text → Bool
is_tag [] = false
is_tag (c ∷ t) = not (c == b'?') && (not (c == b'/') && lacks b'>' (c ∷ t))

-- No element closes by the name of the tag that was opened last inside it.
unfoldable pub separate : Text → Text → Nodes → Bool
unfolding last_of_nodes text_eq
separate tag name (end text) = true
separate tag name (child text node rest) = not (text_eq (last_of_nodes (last_tag node) rest) name)

unfoldable mutual
  unfolding separate

  pub well_formed : Node → Bool
  well_formed (element tag name kids) =
      is_tag tag && (lacks b'>' name && (well_formed_nodes kids && separate tag name kids))

  pub well_formed_nodes : Nodes → Bool
  well_formed_nodes (end text) = lacks b'<' text
  well_formed_nodes (child text node rest) =
      lacks b'<' text && (well_formed node && well_formed_nodes rest)

-- Decoding of data elements in turn, with no text in between.
unfoldable pub decode_elements :
    FloatText → List (Text × Text) → ℕ × SimulatorState → Result BridgeError (ℕ × SimulatorState)
decode_elements ft [] r = ok r
decode_elements ft ((tag, text) ∷ es) r = do
  r' ← decode_element ft tag text r
  decode_elements ft es r'
