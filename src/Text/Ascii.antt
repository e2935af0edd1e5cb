-- ===== src/Text/Ascii.antt =====
-- Bytes and texts of ASCII: one byte for a character, and every offset between two characters.
use realflight_bridge.Base.{
  ℕ, zero, suc, ◌+◌, ◌≤◌, ◌≡◌, ◌≢◌, refl, Bool, true, Option, none, some, List, [], ◌∷◌, all, ltb,
  arith,
}
use realflight_bridge.Text.{Text, char_len, str_len, prepend, split_at, split_at-suc}
use realflight_bridge.Text.Search.{slice, slice-some}
use realflight_bridge.Text.Utf8.{
  Bytes, IsText, is_scalar, encode_char, utf8, from_utf8, from_utf8-utf8,
}

abbrev pub is_ascii : List ℕ → Bool
is_ascii cs = all (λ c. ltb c 0x80) cs

char_len-is_ascii : (c : ℕ) → ltb c 0x80 ≡ true → char_len c ≡ 1
unfolding char_len
char_len-is_ascii c h = rw h refl

prepend-some :
    (c : ℕ) (s : Text) (k n : ℕ)
    → char_len c + k ≡ suc n
    → split_at s k ≢ none
    → split_at (c ∷ s) (suc n) ≢ none
prepend-some c s k n e h = rw (split_at-suc c s k n e) (go (split_at s k) h)
  where
    go : (o : Option (Text × Text)) → o ≢ none → prepend c o ≢ none
    go none h = absurd (h refl)
    go (some _) h = λ e. cc

split_at-is_ascii : (s : Text) (k : ℕ) → is_ascii s ≡ true → k ≤ str_len s → split_at s k ≢ none
unfolding str_len
split_at-is_ascii s zero a l = unfold split_at in λ e. cc
split_at-is_ascii [] (suc n) a l = absurd (omega arith)
split_at-is_ascii (c ∷ s) (suc n) a l =
    let one : char_len c ≡ 1 = char_len-is_ascii c (ground arith) in
    prepend-some c s n n (omega arith) (split_at-is_ascii s n (ground arith) (omega arith))

-- An ASCII text can be cut anywhere.
pub slice-is_ascii : (s : Text) (k : ℕ) → is_ascii s ≡ true → k ≤ str_len s → slice s 0 k ≢ none
slice-is_ascii s k a l = slice-some s k (split_at-is_ascii s k a l)

utf8-is_ascii : (s : Text) → is_ascii s ≡ true → (utf8 s ≡ s) × IsText s
unfolding utf8 encode_char is_scalar
utf8-is_ascii [] a = (refl, refl)
utf8-is_ascii (c ∷ s) a =
    let (e, t) = utf8-is_ascii s (ground arith) in (ground arith, ground arith)

-- ASCII bytes are the text of the same numbers.
pub from_utf8-is_ascii :
    (bs : Bytes) (t : Text) → is_ascii bs ≡ true → from_utf8 bs ≡ some t → is_ascii t ≡ true
from_utf8-is_ascii bs t a e =
    let (same, text) = utf8-is_ascii bs a in
    let own : from_utf8 bs ≡ some bs = rw same at (from_utf8-utf8 bs text) in
    let eq : bs ≡ t = cc in rw (← eq) a
