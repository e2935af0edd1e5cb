-- ===== src/Text.antt =====
-- Rust's `String` and `&str` as lists of Unicode scalar values, and the operations of the standard
-- library that the sources use on them. Byte offsets are those of the UTF-8 encoding.
pub mod Ascii
pub mod Utf8
pub mod Search
pub mod Number
pub mod Split
pub mod Parts
use Prim.Native.Char.{code}
use Prim.Native.String.{String}
use realflight_bridge.Base.{
  ℕ, zero, suc, ◌+◌, ◌-◌, ◌≤◌, ◌<◌, ◌≡◌, refl, ap, ◌∙◌, ◌↔◌, Bool, true, false, not, ◌&&◌, ◌||◌,
  Option, none, some, List, [], ◌∷◌, ◌++◌, arith, ltb, leb, le→leb, ◌==◌, if◌then◌else◌, all,
}

abbrev pub Text : Type 0
Text = List ℕ

-- A string literal.
abbrev pub codes : String → Text
codes String.[] = []
codes (String.◌∷◌ c s) = code c ∷ codes s

-- `a == b` on strings.
unfoldable pub text_eq : Text → Text → Bool
text_eq [] [] = true
text_eq (x ∷ xs) (y ∷ ys) = x == y && text_eq xs ys
text_eq _ _ = false

pub text_eq_iff : (a b : Text) → (text_eq a b ≡ true) ↔ (a ≡ b)
unfolding text_eq
text_eq_iff (x ∷ a) (y ∷ b) = ground (arith, text_eq_iff a b)
text_eq_iff _ _ = ground arith

pub text_eq_refl : (a : Text) → text_eq a a ≡ true
text_eq_refl a = (text_eq_iff a a).1 refl

-- No character of the text is `c`.
abbrev pub lacks : ℕ → Text → Bool
lacks c = all (λ x. not (x == c))

pub lacks-append :
    (c : ℕ) (s t : Text) → lacks c s ≡ true → lacks c t ≡ true → lacks c (s ++ t) ≡ true
lacks-append c [] t h k = k
lacks-append c (x ∷ s) t h k = ground (arith, lacks-append c s t)

-- `char::len_utf8`.
unfoldable pub char_len : ℕ → ℕ
char_len c = if ltb c 0x80 then 1 else if ltb c 0x800 then 2 else if ltb c 0x10000 then 3 else 4

-- `str::len`, in bytes.
unfoldable pub str_len : Text → ℕ
str_len [] = 0
str_len (c ∷ s) = char_len c + str_len s

pub str_len-append : (s t : Text) → str_len (s ++ t) ≡ str_len s + str_len t
unfolding str_len
str_len-append [] t = omega arith
str_len-append (c ∷ s) t = omega (arith, str_len-append s t)

abbrev pub prepend : ℕ → Option (Text × Text) → Option (Text × Text)
prepend c none = none
prepend c (some (a, b)) = some (c ∷ a, b)

-- `str::split_at` at a byte offset; none where the source panics: past the end, or not on a
-- character boundary.
unfoldable pub split_at : Text → ℕ → Option (Text × Text)
split_at s zero = some ([], s)
split_at [] (suc n) = none
split_at (c ∷ s) (suc n) =
    if leb (char_len c) (suc n) then prepend c (split_at s (suc n - char_len c)) else none

pub char_len-pos : (c : ℕ) → 1 ≤ char_len c
unfolding char_len
char_len-pos c = ground arith

pub split_at-suc :
    (c : ℕ) (s : Text) (k n : ℕ)
    → char_len c + k ≡ suc n
    → split_at (c ∷ s) (suc n) ≡ prepend c (split_at s k)
unfolding split_at
split_at-suc c s k n e =
    let h : suc n - char_len c ≡ k = omega arith in
    rw (h, le→leb (char_len c) (suc n) (omega arith))

split_at-cons :
    (c : ℕ) (s : Text) (k : ℕ) → split_at (c ∷ s) (char_len c + k) ≡ prepend c (split_at s k)
split_at-cons c s k = go (char_len c + k) (char_len-pos c) refl
  where
    go :
        (n : ℕ)
        → 1 ≤ char_len c
        → char_len c + k ≡ n
        → split_at (c ∷ s) n ≡ prepend c (split_at s k)
    go zero p e = absurd (omega arith)
    go (suc n) p e = split_at-suc c s k n e

-- Splitting where one text ends and another begins.
pub split_at-append : (s t : Text) → split_at (s ++ t) (str_len s) ≡ some (s, t)
unfolding str_len
split_at-append [] t = unfold split_at in refl
split_at-append (c ∷ s) t =
    split_at-cons c (s ++ t) (str_len s) ∙ ap (prepend c) (split_at-append s t)

split_at_short : (c : ℕ) (s : Text) (k : ℕ) → 1 ≤ k → k < char_len c → split_at (c ∷ s) k ≡ none
unfolding split_at
split_at_short c s zero p l = absurd (omega arith)
split_at_short c s (suc k) p l = ground arith

-- An offset strictly inside a character is no place to split.
pub split_at_inside :
    (front : Text) (c : ℕ) (rest : Text) (k : ℕ)
    → str_len front < k
    → k < str_len front + char_len c
    → split_at (front ++ c ∷ rest) k ≡ none
unfolding str_len
split_at_inside [] c rest k l u = split_at_short c rest k (omega arith) (omega arith)
split_at_inside (x ∷ front) c rest k l u =
    let e : k ≡ char_len x + (k - char_len x) = omega arith in
    ap (split_at (x ∷ (front ++ c ∷ rest))) e
    ∙ split_at-cons x (front ++ c ∷ rest) (k - char_len x)
    ∙ ap (prepend x) (split_at_inside front c rest (k - char_len x) (omega arith) (omega arith))
