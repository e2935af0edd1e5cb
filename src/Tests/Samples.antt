-- ===== src/Tests/Samples.antt =====
-- A text of f32 that has the documented property: the bit pattern in decimal.
use realflight_bridge.Base.{
  ℕ, zero, suc, ◌-◌, ◌^◌, ◌≡◌, ◌⊎◌, inl, inr, true, [], ◌∷◌, arith, all, ap,
}
use realflight_bridge.Outcome.{Result, ok}
use realflight_bridge.Text.{Text, codes, lacks}
use realflight_bridge.Text.Number.{
  ParseIntError, show_nat, parse_uint, is_digit, parse_uint-show_nat, show_nat-IsNumeral,
}
use realflight_bridge.Types.{F32, FloatText, IsFloatText, ControlInputs}
use realflight_bridge.Decoder.Document.{Node, element, Nodes, end, child}

abbrev to_sum : Result ParseIntError F32 → Text ⊎ F32
to_sum (ok v) = inr v
to_sum _ = inl (codes "invalid float literal")

abbrev pub pattern_text : FloatText
pattern_text = record {
  parse_float = λ s. to_sum (parse_uint (2 ^ 32 - 1) s);
  show_float = show_nat;
}

lacks-digits : (s : Text) → all is_digit s ≡ true → lacks b'<' s ≡ true
lacks-digits [] h = ground arith
lacks-digits (c ∷ s) h = ground (arith, lacks-digits s)

pub pattern_text-IsFloatText : IsFloatText pattern_text
pattern_text-IsFloatText = record {
  parse-show = λ v h n. ap to_sum (parse_uint-show_nat (2 ^ 32 - 1) v (omega arith));
  lacks-show = λ v. lacks-digits (show_nat v) (show_nat-IsNumeral v).0;
}

abbrev pub sticks : ControlInputs
sticks = record { channels = 1 ∷ 2 ∷ 3 ∷ 4 ∷ 5 ∷ 6 ∷ 7 ∷ 8 ∷ 9 ∷ 10 ∷ 11 ∷ 12 ∷ [] }

abbrev pub leaf : Text → Text → Node
leaf tag text = element tag tag (end text)

-- `<a><item>5</item> <m-airspeed-MPS>7</m-airspeed-MPS><b>x</b></a>`
abbrev pub small_root : Node
small_root = element (codes "a") (codes "a") (
    child [] (leaf (codes "item") (codes "5")) (
      child (codes " ") (leaf (codes "m-airspeed-MPS") (codes "7"))
        (child [] (leaf (codes "b") (codes "x")) (end []))))

abbrev pub many_items : ℕ → Nodes
many_items zero = end []
many_items (suc n) = child [] (leaf (codes "item") (codes "5")) (many_items n)
