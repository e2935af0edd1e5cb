-- ===== src/Pool/Order.antt =====
-- Connections that are handed out in the order of their numbers.
use realflight_bridge.Base.{
  ℕ, zero, suc, ◌+◌, ◌≡◌, refl, sym, ap, ◌∙◌, List, [], ◌∷◌, ◌++◌, length, arith,
}
use realflight_bridge.Pool.Invariant.{count_up}

-- The numbers from `a` on.
up_from : ℕ → ℕ → List ℕ
up_from a zero = []
up_from a (suc n) = a ∷ up_from (suc a) n

up_from-suc : (n a : ℕ) → up_from a (suc n) ≡ up_from a n ++ (a + n) ∷ []
unfolding up_from
up_from-suc zero a = ap (λ m. m ∷ []) (omega arith)
up_from-suc (suc n) a =
    ap (◌∷◌ a) (up_from-suc n (suc a) ∙ ap (λ m. up_from (suc a) n ++ m ∷ []) (omega arith))

count_up_from : (n : ℕ) → count_up n ≡ up_from 0 n
unfolding up_from
count_up_from zero = refl
count_up_from (suc n) =
    ap (λ ns. ns ++ n ∷ []) (count_up_from n)
    ∙ (ap (λ m. up_from 0 n ++ m ∷ []) zero_add ∙ sym (up_from-suc n 0))
  where
    zero_add : n ≡ 0 + n
    zero_add = omega arith

up_from_front :
    (used rest : List ℕ) (a n : ℕ) → used ++ rest ≡ up_from a n → used ≡ up_from a (length used)
unfolding up_from
up_from_front [] rest a n e = refl
up_from_front (m ∷ used) rest a zero e = cc
up_from_front (m ∷ used) rest a (suc n) e =
    let head : m ≡ a = cc in
    let tail : used ++ rest ≡ up_from (suc a) n = cc in
    rw head (ap (◌∷◌ a) (up_from_front used rest (suc a) n tail))

-- What stands in front of the numbers below `n` are the numbers below its length.
pub count_up_front :
    (used rest : List ℕ) (n : ℕ) → used ++ rest ≡ count_up n → used ≡ count_up (length used)
count_up_front used rest n e =
    up_from_front used rest 0 n (e ∙ count_up_from n) ∙ sym (count_up_from (length used))
