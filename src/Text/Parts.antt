-- ===== src/Text/Parts.antt =====
-- `str::split` at a character, and the last part.
use realflight_bridge.Base.{
  ℕ, ◌≡◌, refl, true, Option, none, some, List, [], ◌∷◌, ◌++◌, ◌==◌, if◌then◌else◌, if_both, arith,
}
use realflight_bridge.Text.{Text, lacks}

-- A character at the front of the first part.
abbrev onto : ℕ → List Text → List Text
onto x [] = (x ∷ []) ∷ []
onto x (p ∷ ps) = (x ∷ p) ∷ ps

-- `str::split` at a character.
unfoldable pub split : ℕ → Text → List Text
split c [] = [] ∷ []
split c (x ∷ s) = let rest = split c s in if x == c then [] ∷ rest else onto x rest

-- `Iterator::last`.
unfoldable pub last : List Text → Option Text
last [] = none
last (p ∷ []) = some p
last (_ ∷ p ∷ ps) = last (p ∷ ps)

-- Behind the first part stand others, of which `w` is the last.
abbrev EndsWith : Text → List Text → Type 0
EndsWith w [] = ⊥
EndsWith w (p ∷ ps) = last ps ≡ some w

EndsWith-last : (w : Text) (ps : List Text) → EndsWith w ps → last ps ≡ some w
unfolding last
EndsWith-last w [] h = elim h [ ]
EndsWith-last w (p ∷ []) h = cc
EndsWith-last w (p ∷ q ∷ ps) h = h

EndsWith-onto : (w : Text) (x : ℕ) (ps : List Text) → EndsWith w ps → EndsWith w (onto x ps)
EndsWith-onto w x [] h = elim h [ ]
EndsWith-onto w x (p ∷ ps) h = h

EndsWith-split_suc :
    (w : Text) (c x : ℕ) (s : Text) → EndsWith w (split c s) → EndsWith w (split c (x ∷ s))
unfolding split
EndsWith-split_suc w c x s h =
    if_both (EndsWith w) (x == c) ([] ∷ split c s) (onto x (split c s))
      (EndsWith-last w (split c s) h) (EndsWith-onto w x (split c s) h)

split-lacks : (c : ℕ) (w : Text) → lacks c w ≡ true → split c w ≡ w ∷ []
unfolding split
split-lacks c [] h = refl
split-lacks c (x ∷ w) h = rw (split-lacks c w (ground arith)) (ground arith)

EndsWith-split : (c : ℕ) (p w : Text) → lacks c w ≡ true → EndsWith w (split c (p ++ (c ∷ w)))
unfolding split last
EndsWith-split c [] w h = rw (split-lacks c w h) (ground arith)
EndsWith-split c (x ∷ p) w h = EndsWith-split_suc w c x (p ++ (c ∷ w)) (EndsWith-split c p w h)

-- What stands behind the last occurrence of the character is the last part.
pub last-split : (c : ℕ) (p w : Text) → lacks c w ≡ true → last (split c (p ++ (c ∷ w))) ≡ some w
last-split c p w h = EndsWith-last w (split c (p ++ (c ∷ w))) (EndsWith-split c p w h)
