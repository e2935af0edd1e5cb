-- ===== src/Text/Number.antt =====
-- Decimal numbers: `Display` and `FromStr` of the unsigned integer types, and `bool`'s `FromStr`.
use realflight_bridge.Base.{
  ℕ, zero, suc, ◌+◌, ◌-◌, ◌*◌, ◌/◌, ◌%◌, ◌<◌, ◌≤◌, ◌≡◌, sym, ap, ◌∙◌, inl, inr, Bool, true, false,
  not, ◌&&◌, [], ◌∷◌, ◌++◌, arith, ltb, leb, ◌==◌, if◌then◌else◌, Bool-cases, all, append_assoc,
  append-nil, ltb→lt,
}
use realflight_bridge.Outcome.{Result, ok, err}
use realflight_bridge.Text.{Text, codes, text_eq}

-- The fuel is above the number, so it is above the number of digits.
show_digits : ℕ → ℕ → Text
show_digits zero n = []
show_digits (suc f) n =
    let front = show_digits f (n / 10) in
    if ltb n 10 then (48 + n) ∷ [] else front ++ ((48 + n % 10) ∷ [])

-- `format!("{}", n)`.
unfoldable pub show_nat : ℕ → Text
unfolding show_digits
show_nat n = show_digits (suc n) n

pub data ParseIntError : Type 0 where
  empty invalid_digit pos_overflow : ParseIntError

unfoldable pub int_message : ParseIntError → Text
int_message empty = codes "cannot parse integer from empty string"
int_message invalid_digit = codes "invalid digit found in string"
int_message pos_overflow = codes "number too large to fit in target type"

abbrev pub is_digit : ℕ → Bool
is_digit c = leb b'0' c && leb c b'9'

-- `max` is the type's greatest value.
unfoldable pub parse_digits : ℕ → ℕ → Text → Result ParseIntError ℕ
parse_digits max acc [] = ok acc
parse_digits max acc (c ∷ s) =
    let acc' = acc * 10 + (c - b'0') in
    let rest = parse_digits max acc' s in
    if not (is_digit c) then err invalid_digit else if ltb max acc' then err pos_overflow else rest

abbrev is_empty : Text → Bool
is_empty [] = true
is_empty (_ ∷ _) = false

-- `str::parse` into an unsigned type: one leading `+` is accepted.
unfoldable pub parse_uint : ℕ → Text → Result ParseIntError ℕ
unfolding parse_digits
parse_uint max [] = err empty
parse_uint max (c ∷ s) =
    if c == b'+' && not (is_empty s) then parse_digits max 0 s else parse_digits max 0 (c ∷ s)

-- `str::parse` into a `bool`.
unfoldable pub parse_bool_text : Text → Result Text Bool
unfolding text_eq
parse_bool_text s =
    if text_eq s (codes "true")
    then ok true
    else if text_eq s (codes "false")
    then ok false
    else err (codes "provided string was not `true` or `false`")

digit_step :
    (max acc d : ℕ) (rest : Text)
    → d < 10
    → acc * 10 + d ≤ max
    → parse_digits max acc ((48 + d) ∷ rest) ≡ parse_digits max (acc * 10 + d) rest
unfolding parse_digits
digit_step max acc d rest h k = let e : 48 + d - 48 ≡ d = omega arith in rw e (ground arith)

parse-show_digits :
    (f max n : ℕ) (rest : Text)
    → n < f
    → n ≤ max
    → parse_digits max 0 (show_digits f n ++ rest) ≡ parse_digits max n rest
unfolding show_digits
parse-show_digits zero max n rest h k = elim h [ ]
parse-show_digits (suc f) max n rest h k = elim (Bool-cases (ltb n 10)) [
  | inl small ↦ rw small (
      digit_step max 0 n rest (ltb→lt n 10 small) (omega arith)
      ∙ ap (λ (v : ℕ). parse_digits max v rest) (omega arith))
  | inr large ↦ rw large (
      rw append_assoc (
        parse-show_digits f max (n / 10) ((48 + n % 10) ∷ rest) (ground arith) (omega arith)
        ∙ digit_step max (n / 10) (n % 10) rest (omega arith) (omega arith)
        ∙ ap (λ (v : ℕ). parse_digits max v rest) (omega arith)))
]

-- A text of digits, with at least one.
abbrev pub IsNumeral : Text → Type 0
IsNumeral s = (all is_digit s ≡ true) × (is_empty s ≡ false)

IsNumeral-concat :
    (s : Text) (d : ℕ) → all is_digit s ≡ true → d < 10 → IsNumeral (s ++ ((48 + d) ∷ []))
IsNumeral-concat [] d h k = ground arith
IsNumeral-concat (c ∷ s) d h k = ground (arith, IsNumeral-concat s d)

show_digits-IsNumeral : (f n : ℕ) → n < f → IsNumeral (show_digits f n)
unfolding show_digits
show_digits-IsNumeral zero n h = elim h [ ]
show_digits-IsNumeral (suc f) n h = elim (Bool-cases (ltb n 10)) [
  | inl small ↦ rw small (ground arith)
  | inr large ↦ rw large (
      IsNumeral-concat (show_digits f (n / 10)) (n % 10)
        (show_digits-IsNumeral f (n / 10) (ground arith)).0 (omega arith))
]

pub show_nat-IsNumeral : (n : ℕ) → IsNumeral (show_nat n)
unfolding show_nat
show_nat-IsNumeral n = show_digits-IsNumeral (suc n) n (omega arith)

parse_uint-digits : (max : ℕ) (s : Text) → IsNumeral s → parse_uint max s ≡ parse_digits max 0 s
unfolding parse_uint
parse_uint-digits max [] h = cc
parse_uint-digits max (c ∷ s) h = ground arith

parse-show_nat : (max n : ℕ) → n ≤ max → parse_digits max 0 (show_nat n) ≡ ok n
unfolding show_nat parse_digits
parse-show_nat max n h =
    ap (parse_digits max 0) (sym (append-nil (show_digits (suc n) n)))
    ∙ parse-show_digits (suc n) max n [] (omega arith) h

-- A number in range is read back from its decimal digits.
pub parse_uint-show_nat : (max n : ℕ) → n ≤ max → parse_uint max (show_nat n) ≡ ok n
parse_uint-show_nat max n h =
    parse_uint-digits max (show_nat n) (show_nat-IsNumeral n) ∙ parse-show_nat max n h
