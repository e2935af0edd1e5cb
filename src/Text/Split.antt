-- ===== src/Text/Split.antt =====
-- `str::split_whitespace`, `str::trim` and the ASCII case test.
use mathlib.Core.List.{reverse, reverse-reverse, reverse_aux}
use realflight_bridge.Base.{
  ℕ, ◌+◌, ◌≡◌, refl, ◌∙◌, inl, inr, Bool, true, not, ◌&&◌, ◌||◌, List, [], ◌∷◌, ◌++◌, map, arith,
  leb, ◌==◌, if◌then◌else◌, Bool-cases, all, append_assoc, append-nil,
}
use realflight_bridge.Text.{Text, text_eq}

-- `char::is_whitespace`: the characters with the property White_Space.
unfoldable pub is_whitespace : ℕ → Bool
is_whitespace c =
    (leb 0x09 c && leb c 0x0d)
    || c == 0x20
    || c == 0x85
    || c == 0xa0
    || c == 0x1680
    || (leb 0x2000 c && leb c 0x200a)
    || c == 0x2028
    || c == 0x2029
    || c == 0x202f
    || c == 0x205f
    || c == 0x3000

-- Empty pieces are left out.
abbrev piece : Text → List Text → List Text
piece [] ps = ps
piece (c ∷ w) ps = (c ∷ w) ∷ ps

split_from : Text → Text → List Text
split_from cur [] = piece cur []
split_from cur (c ∷ s) =
    let closed = split_from [] s in
    let longer = split_from (cur ++ c ∷ []) s in
    if is_whitespace c then piece cur closed else longer

unfoldable pub split_whitespace : Text → List Text
unfolding split_from is_whitespace
split_whitespace s = split_from [] s

unfoldable pub trim_start : Text → Text
trim_start [] = []
trim_start (c ∷ s) = if is_whitespace c then trim_start s else c ∷ s

unfoldable pub trim : Text → Text
trim s = reverse (trim_start (reverse (trim_start s)))

unfoldable pub to_ascii_lowercase : ℕ → ℕ
to_ascii_lowercase c = if leb b'A' c && leb c b'Z' then c + 32 else c

-- `str::eq_ignore_ascii_case`.
unfoldable pub eq_ignore_ascii_case : Text → Text → Bool
unfolding to_ascii_lowercase text_eq
eq_ignore_ascii_case a b = text_eq (map to_ascii_lowercase a) (map to_ascii_lowercase b)

-- A non-empty text without white space.
abbrev pub IsWord : Text → Type 0
IsWord [] = ⊥
IsWord (c ∷ w) = all (λ x. not (is_whitespace x)) (c ∷ w) ≡ true

split_from-word :
    (w cur : Text) (c : ℕ) (rest : Text)
    → all (λ x. not (is_whitespace x)) w ≡ true
    → is_whitespace c ≡ true
    → split_from cur (w ++ c ∷ rest) ≡ piece (cur ++ w) (split_from [] rest)
unfolding split_from
split_from-word [] cur c rest h k = rw (k, append-nil)
split_from-word (x ∷ w) cur c rest h k = elim (Bool-cases (is_whitespace x)) [
  | inl white ↦ absurd (ground arith)
  | inr black ↦
      rw black (split_from-word w (cur ++ x ∷ []) c rest (ground arith) k ∙ rw append_assoc)
]

-- A first word with white space behind it is the first piece.
pub split_whitespace-word :
    (w : Text) (c : ℕ) (rest : Text)
    → IsWord w
    → is_whitespace c ≡ true
    → split_whitespace (w ++ c ∷ rest) ≡ w ∷ split_whitespace rest
split_whitespace-word [] c rest h k = absurd h
split_whitespace-word (x ∷ w) c rest h k =
    unfold split_whitespace in split_from-word (x ∷ w) [] c rest h k

all-reverse_aux :
    (p : ℕ → Bool) (s t : Text) → all p s ≡ true → all p t ≡ true → all p (reverse_aux s t) ≡ true
all-reverse_aux p [] t h k = k
all-reverse_aux p (c ∷ s) t h k = all-reverse_aux p s (c ∷ t) (ground arith) (ground arith)

trim_start-all : (s : Text) → all (λ x. not (is_whitespace x)) s ≡ true → trim_start s ≡ s
unfolding trim_start
trim_start-all [] h = refl
trim_start-all (c ∷ s) h = ground arith

-- A text without white space is left as it is.
pub trim-all : (s : Text) → all (λ x. not (is_whitespace x)) s ≡ true → trim s ≡ s
unfolding trim
trim-all s h =
    rw (trim_start-all s h)
      (rw (trim_start-all (reverse s) (all-reverse_aux _ s [] h refl)) (reverse-reverse s))
