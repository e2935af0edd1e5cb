-- ===== src/Text/Search.antt =====
-- `str::starts_with`, `str::find` and slicing between two byte offsets.
use realflight_bridge.Base.{
  not, ℕ, ◌+◌, ◌-◌, ◌≤◌, ◌≡◌, ◌≢◌, refl, ap, Bool, true, false, ◌&&◌, Option, none, some, [], ◌∷◌,
  ◌++◌, arith, ltb, ◌==◌, if◌then◌else◌, Bool-cases, inl, inr,
}
use realflight_bridge.Text.{
  Text, char_len, char_len-pos, str_len, str_len-append, split_at, split_at-append,
}

unfoldable pub starts_with : Text → Text → Bool
starts_with s [] = true
starts_with [] (p ∷ ps) = false
starts_with (c ∷ s) (p ∷ ps) = c == p && starts_with s ps

abbrev later : ℕ → Option ℕ → Option ℕ
later k none = none
later k (some i) = some (k + i)

-- The byte offset of the first occurrence.
unfoldable pub find : Text → Text → Option ℕ
unfolding starts_with char_len
find [] pat = if starts_with [] pat then some 0 else none
find (c ∷ s) pat = if starts_with (c ∷ s) pat then some 0 else later (char_len c) (find s pat)

abbrev first_part : Option (Text × Text) → Option Text
first_part none = none
first_part (some (a, _)) = some a

abbrev part_after : Option (Text × Text) → ℕ → Option Text
part_after none n = none
part_after (some (_, rest)) n = first_part (split_at rest n)

-- `&s[a..b]`; none where it panics.
unfoldable pub slice : Text → ℕ → ℕ → Option Text
slice s a b = if ltb b a then none else part_after (split_at s a) (b - a)

pub starts_with-append : (pat t : Text) → starts_with (pat ++ t) pat ≡ true
unfolding starts_with
starts_with-append [] t = refl
starts_with-append (p ∷ pat) t = ground (arith, starts_with-append pat t)

pub starts_with-rest : (s pat : Text) → starts_with s pat ≡ true → (t : Text) × (s ≡ pat ++ t)
unfolding starts_with
starts_with-rest s [] h = (s, refl)
starts_with-rest [] (p ∷ ps) h = cc
starts_with-rest (c ∷ s) (p ∷ ps) h =
    let (t, e) = starts_with-rest s ps (ground arith) in (t, ground arith)

find_here : (s pat : Text) → starts_with s pat ≡ true → find s pat ≡ some 0
unfolding find
find_here [] pat h = rw h
find_here (c ∷ s) pat h = rw h

some_injective : {i j : ℕ} → ◌≡◌ {A = Option ℕ} (some i) (some j) → i ≡ j
some_injective e = cc

none≢some : {i : ℕ} → ◌≡◌ {A = Option ℕ} none (some i) → ⊥
none≢some e = cc

-- An occurrence of `pat` in `s` at the byte offset `i`.
abbrev pub Occurs : Text → Text → ℕ → Type 0
Occurs s pat i =
    (before : Text) × (after : Text) × (s ≡ before ++ (pat ++ after)) × (str_len before ≡ i)

Occurs-later :
    (c : ℕ) (s pat : Text) (o : Option ℕ) {i : ℕ}
    → ((j : ℕ) → o ≡ some j → Occurs s pat j)
    → later (char_len c) o ≡ some i
    → Occurs (c ∷ s) pat i
unfolding str_len
Occurs-later c s pat none at h = cc
Occurs-later c s pat (some j) at h =
    let (before, after, q, len) = at j refl in (c ∷ before, after, ap (◌∷◌ c) q, ground arith)

Occurs-here : (s pat : Text) {i : ℕ} → starts_with s pat ≡ true → 0 ≡ i → Occurs s pat i
unfolding str_len
Occurs-here s pat h e = let (t, q) = starts_with-rest s pat h in ([], t, q, e)

-- `find` gives the offset of an occurrence.
pub find-Occurs : (s pat : Text) (i : ℕ) → find s pat ≡ some i → Occurs s pat i
unfolding find
find-Occurs [] pat i h = elim (Bool-cases (starts_with [] pat)) [
  | inl e ↦ Occurs-here [] pat e (some_injective (rw e at h))
  | inr e ↦ absurd (none≢some (rw e at h))
]
find-Occurs (c ∷ s) pat i h = elim (Bool-cases (starts_with (c ∷ s) pat)) [
  | inl e ↦ Occurs-here (c ∷ s) pat e (some_injective (rw e at h))
  | inr e ↦ Occurs-later c s pat (find s pat) (find-Occurs s pat) (rw e at h)
]

-- No occurrence starts in `s` where `after` follows it.
unfoldable pub absent : Text → Text → Text → Bool
absent pat [] after = true
absent pat (c ∷ s) after = not (starts_with (c ∷ (s ++ after)) pat) && absent pat s after

-- `find` gives the first occurrence.
pub find-first :
    (s pat after : Text)
    → absent pat s (pat ++ after) ≡ true
    → find (s ++ (pat ++ after)) pat ≡ some (str_len s)
unfolding find absent str_len
find-first [] pat after h = find_here (pat ++ after) pat (starts_with-append pat after)
find-first (c ∷ s) pat after h = ground (arith, find-first s pat after)

-- Two ways to cut a text: the shorter first part begins the longer one.
pub cut-shorter :
    (a b c d : Text)
    → a ++ b ≡ c ++ d
    → str_len a ≤ str_len c
    → (e : Text) × (c ≡ a ++ e) × (b ≡ e ++ d)
unfolding str_len
cut-shorter [] b c d h l = (c, refl, h)
cut-shorter (x ∷ a) b [] d h l = absurd (omega (arith, char_len-pos x))
cut-shorter (x ∷ a) b (y ∷ c) d h l =
    let same : x ≡ y = ground arith in
    let (e, p, q) = cut-shorter a b c d (ground arith) (omega (arith, ap char_len same)) in
    (e, ground arith, q)

cut_order : (i j : ℕ) → i ≤ j → ltb j i ≡ false
cut_order i j h = ground arith

cut_len : (a b : Text) (j : ℕ) → str_len (a ++ b) ≡ j → j - str_len a ≡ str_len b
cut_len a b j q = omega (arith, str_len-append a b)

-- Slicing a middle part out of three.
pub slice-middle :
    (a b c : Text) (i j : ℕ)
    → str_len a ≡ i
    → str_len (a ++ b) ≡ j
    → slice (a ++ (b ++ c)) i j ≡ some b
unfolding slice
slice-middle a b c i j p q =
    rw (cut_order i j (omega (arith, str_len-append a b)))
      (rw (← p, split_at-append a (b ++ c)) (rw (cut_len a b j q) (rw (split_at-append b c))))

-- A slice from the start, up to an offset inside a character.
pub slice-none : (s : Text) (k : ℕ) → split_at s k ≡ none → slice s 0 k ≡ none
unfolding slice split_at
slice-none s k h =
    let order : ltb k 0 ≡ false = ground arith in
    let len : k - 0 ≡ k = omega arith in rw (order, len) (rw h)

-- A slice from the start, up to an offset at which the text can be split.
pub slice-some : (s : Text) (k : ℕ) → split_at s k ≢ none → slice s 0 k ≢ none
unfolding slice split_at
slice-some s k h =
    let order : ltb k 0 ≡ false = ground arith in
    let len : k - 0 ≡ k = omega arith in rw (order, len) (first (split_at s k) h)
  where
    first : (o : Option (Text × Text)) → o ≢ none → first_part o ≢ none
    first none h = absurd (h refl)
    first (some _) h = λ e. cc
