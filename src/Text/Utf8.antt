-- ===== src/Text/Utf8.antt =====
-- `str::as_bytes`, `String::from_utf8` and `String::from_utf8_lossy` of the standard library: UTF-8
-- with its ranges for the byte that follows a lead byte.
use realflight_bridge.Base.{
  ℕ, ◌+◌, ◌-◌, ◌*◌, ◌/◌, ◌%◌, ◌<◌, ◌≤◌, ◌≡◌, refl, ap, ◌∙◌, inl, inr, Bool, true, ◌&&◌, ◌||◌,
  Option, none, some, List, [], ◌∷◌, ◌++◌, map, arith, ltb, leb, ◌==◌, if◌then◌else◌, all,
  Bool-cases, append_assoc, ltb→lt,
}
use realflight_bridge.Text.{Text}

abbrev pub Bytes : Type 0
Bytes = List ℕ

-- A Unicode scalar value: what a `char` can hold.
unfoldable pub is_scalar : ℕ → Bool
is_scalar c = ltb c 0xd800 || (leb 0xe000 c && ltb c 0x110000)

abbrev pub IsText : Text → Type 0
IsText s = all is_scalar s ≡ true

unfoldable pub encode_char : ℕ → Bytes
encode_char c =
    if ltb c 0x80
    then c ∷ []
    else if ltb c 0x800
    then (0xc0 + c / 64) ∷ (0x80 + c % 64) ∷ []
    else if ltb c 0x10000
    then (0xe0 + c / 4096) ∷ (0x80 + c / 64 % 64) ∷ (0x80 + c % 64) ∷ []
    else (0xf0 + c / 262144) ∷ (0x80 + c / 4096 % 64) ∷ (0x80 + c / 64 % 64) ∷ (0x80 + c % 64) ∷ []

-- `str::as_bytes`.
unfoldable pub utf8 : Text → Bytes
unfolding encode_char
utf8 [] = []
utf8 (c ∷ s) = encode_char c ++ utf8 s

pub utf8-append : (s t : Text) → utf8 (s ++ t) ≡ utf8 s ++ utf8 t
unfolding utf8
utf8-append [] t = refl
utf8-append (c ∷ s) t = rw (utf8-append s t, append_assoc)

-- Where a decoder stands: at a character's start, or with `need` bytes to come, the next of them
-- between `lo` and `hi`.
pub data Pending : Type 0 where
  idle : Pending
  wait : (need lo hi acc : ℕ) → Pending

-- `none` stands for an invalid sequence.
abbrev pub Step : Type 0
Step = List (Option ℕ) × Pending

pub lead : ℕ → Step
lead b =
    if ltb b 0x80
    then (some b ∷ [], idle)
    else if ltb b 0xc2
    then (none ∷ [], idle)
    else if ltb b 0xe0
    then ([], wait 1 0x80 0xbf (b - 0xc0))
    else if b == 0xe0
    then ([], wait 2 0xa0 0xbf 0)
    else if b == 0xed
    then ([], wait 2 0x80 0x9f 13)
    else if ltb b 0xf0
    then ([], wait 2 0x80 0xbf (b - 0xe0))
    else if b == 0xf0
    then ([], wait 3 0x90 0xbf 0)
    else if ltb b 0xf4
    then ([], wait 3 0x80 0xbf (b - 0xf0))
    else if b == 0xf4
    then ([], wait 3 0x80 0x8f 4)
    else (none ∷ [], idle)

abbrev pub invalid_then : Step → Step
invalid_then (out, p) = (none ∷ out, p)

pub step : Pending → ℕ → Step
step idle b = lead b
step (wait need lo hi acc) b =
    if leb lo b && leb b hi
    then if need == 1
      then (some (acc * 64 + (b - 0x80)) ∷ [], idle)
      else ([], wait (need - 1) 0x80 0xbf (acc * 64 + (b - 0x80)))
    else invalid_then (lead b)

unfoldable pub scan : Pending → Bytes → List (Option ℕ)
unfolding step lead
scan idle [] = []
scan (wait _ _ _ _) [] = none ∷ []
scan p (b ∷ bs) = let (out, q) = step p b in out ++ scan q bs

abbrev all_some : List (Option ℕ) → Option Text
all_some [] = some []
all_some (none ∷ cs) = none
all_some (some c ∷ cs) = elim (all_some cs) [ none ↦ none | some s ↦ some (c ∷ s) ]

abbrev or_replacement : Option ℕ → ℕ
or_replacement none = 0xfffd
or_replacement (some c) = c

-- `String::from_utf8`.
unfoldable pub from_utf8 : Bytes → Option Text
unfolding scan step lead
from_utf8 bs = all_some (scan idle bs)

-- `String::from_utf8_lossy`.
unfoldable pub from_utf8_lossy : Bytes → Text
unfolding scan step lead
from_utf8_lossy bs = map or_replacement (scan idle bs)

module _ (c : ℕ) (rest : Bytes) where
  scan-char1 : c < 0x80 → scan idle (c ∷ rest) ≡ some c ∷ scan idle rest
  unfolding scan step lead
  scan-char1 h = ground arith

  scan-char2 :
      0x80 ≤ c
      → c < 0x800
      → scan idle ((0xc0 + c / 64) ∷ (0x80 + c % 64) ∷ rest) ≡ some c ∷ scan idle rest
  unfolding scan step lead
  scan-char2 h k = ground arith

  scan-char3 :
      0x800 ≤ c
      → c < 0x10000
      → is_scalar c ≡ true
      → scan idle ((0xe0 + c / 4096) ∷ (0x80 + c / 64 % 64) ∷ (0x80 + c % 64) ∷ rest)
        ≡ some c ∷ scan idle rest
  unfolding scan step is_scalar lead
  scan-char3 h k v = ground arith

  -- The first two of four bytes, by lead byte.
  scan_lead4_low :
      0x10000 ≤ c
      → c < 0x40000
      → scan idle ((0xf0 + c / 262144) ∷ (0x80 + c / 4096 % 64) ∷ rest)
        ≡ scan (wait 2 0x80 0xbf (c / 4096)) rest
  unfolding scan step lead
  scan_lead4_low h k = ground arith

  scan_lead4_mid :
      0x40000 ≤ c
      → c < 0x100000
      → scan idle ((0xf0 + c / 262144) ∷ (0x80 + c / 4096 % 64) ∷ rest)
        ≡ scan (wait 2 0x80 0xbf (c / 4096)) rest
  unfolding scan step lead
  scan_lead4_mid h k = ground arith

  scan_lead4_high :
      0x100000 ≤ c
      → c < 0x110000
      → scan idle ((0xf0 + c / 262144) ∷ (0x80 + c / 4096 % 64) ∷ rest)
        ≡ scan (wait 2 0x80 0xbf (c / 4096)) rest
  unfolding scan step lead
  scan_lead4_high h k = ground arith

  scan_tail4 :
      scan (wait 2 0x80 0xbf (c / 4096)) ((0x80 + c / 64 % 64) ∷ (0x80 + c % 64) ∷ rest)
      ≡ some c ∷ scan idle rest
  unfolding scan step
  scan_tail4 = ground arith

scan_lead4 :
    (c : ℕ) (rest : Bytes)
    → 0x10000 ≤ c
    → is_scalar c ≡ true
    → scan idle ((0xf0 + c / 262144) ∷ (0x80 + c / 4096 % 64) ∷ rest)
      ≡ scan (wait 2 0x80 0xbf (c / 4096)) rest
unfolding is_scalar
scan_lead4 c rest h v = elim (Bool-cases (ltb c 0x40000)) [
  | inl low ↦ scan_lead4_low c rest h (ltb→lt _ _ low)
  | inr high ↦ elim (Bool-cases (ltb c 0x100000)) [
    | inl mid ↦ scan_lead4_mid c rest (ground arith) (ltb→lt _ _ mid)
    | inr top ↦ scan_lead4_high c rest (ground arith) (ground arith)
  ]
]

module _ (c : ℕ) (rest : Bytes) where
  scan-char4 :
      0x10000 ≤ c
      → is_scalar c ≡ true
      → scan idle (
          (0xf0 + c / 262144)
          ∷ (0x80 + c / 4096 % 64)
          ∷ (0x80 + c / 64 % 64)
          ∷ (0x80 + c % 64)
          ∷ rest)
        ≡ some c ∷ scan idle rest
  scan-char4 h v = scan_lead4 c _ h v ∙ scan_tail4 c rest

  scan-encode_char :
      is_scalar c ≡ true → scan idle (encode_char c ++ rest) ≡ some c ∷ scan idle rest
  unfolding encode_char
  scan-encode_char v =
      ground (arith, scan-char1 c rest, scan-char2 c rest, scan-char3 c rest, scan-char4)

pub scan-utf8 : (s : Text) → IsText s → scan idle (utf8 s) ≡ map some s
unfolding utf8 scan
scan-utf8 [] v = refl
scan-utf8 (c ∷ s) v =
    scan-encode_char c (utf8 s) (ground arith) ∙ ap (◌∷◌ (some c)) (scan-utf8 s (ground arith))

all_some-map : (s : Text) → all_some (map some s) ≡ some s
all_some-map [] = refl
all_some-map (c ∷ s) = rw (all_some-map s)

map-or_replacement : (s : Text) → map or_replacement (map some s) ≡ s
map-or_replacement [] = refl
map-or_replacement (c ∷ s) = ap (◌∷◌ c) (map-or_replacement s)

pub from_utf8-utf8 : (s : Text) → IsText s → from_utf8 (utf8 s) ≡ some s
unfolding from_utf8
from_utf8-utf8 s v = rw (scan-utf8 s v) (all_some-map s)

pub from_utf8_lossy-utf8 : (s : Text) → IsText s → from_utf8_lossy (utf8 s) ≡ s
unfolding from_utf8_lossy
from_utf8_lossy-utf8 s v = rw (scan-utf8 s v) (map-or_replacement s)
