-- ===== src/Outcome.antt =====
-- What a call of the sources ends in: a value, an error, a panic, or no end. `spin` is no value of
-- the sources: a loop of the model has used the rounds that it was given.
pub mod Ends
use realflight_bridge.Base.{◌≡◌, ◌⊎◌, inl, inr, refl, Option, none, some}

pub data Result (E A : Type 0) : Type 0 where
  ok : A → Result E A
  err : E → Result E A
  panic : Result E A
  spin : Result E A

module _ {E A B : Type 0} where
  -- `?`, and sequencing.
  infixl 5 ◌>>=◌
  abbrev pub ◌>>=◌ : Result E A → (A → Result E B) → Result E B
  ok a >>= f = f a
  err e >>= f = err e
  panic >>= f = panic
  spin >>= f = spin

  -- A chain that ends in a value has one at its first link.
  pub >>=_returns :
      (k : A → Result E B) (r : Result E A) {v : B}
      → (r >>= k) ≡ ok v
      → (u : A) × (k u ≡ ok v) × (r ≡ ok u)
  >>=_returns k spin e = cc
  >>=_returns k panic e = cc
  >>=_returns k (err _) e = cc
  >>=_returns k (ok u) e = (u, e, refl)

module _ {E A : Type 0} where
  -- `Option::ok_or`.
  abbrev pub ok_or : Option A → E → Result E A
  ok_or none e = err e
  ok_or (some a) e = ok a

  -- An operation that panics where it has no value.
  abbrev pub or_panic : Option A → Result E A
  or_panic none = panic
  or_panic (some a) = ok a

module _ {E F A : Type 0} where
  -- `Result::map_err`.
  abbrev pub map_err : (E → F) → Result E A → Result F A
  map_err f (ok a) = ok a
  map_err f (err e) = err (f e)
  map_err f panic = panic
  map_err f spin = spin

module _ {E A : Type 0} where
  infixl 5 ◌>>◌
  abbrev pub ◌>>◌ : Result E (Unit {0}) → Result E A → Result E A
  m >> k = m >>= λ _. k

module _ {E A B C : Type 0} where
  pub >>=_assoc :
      (m : Result E A) (f : A → Result E B) (g : B → Result E C)
      → ((m >>= f) >>= g) ≡ (m >>= λ a. f a >>= g)
  >>=_assoc (ok a) f g = refl
  >>=_assoc (err e) f g = refl
  >>=_assoc panic f g = refl
  >>=_assoc spin f g = refl

module _ {E A B : Type 0} where
  pub >>=_congr :
      (m : Result E A) (f g : A → Result E B) → ((a : A) → f a ≡ g a) → (m >>= f) ≡ (m >>= g)
  >>=_congr (ok a) f g h = h a
  >>=_congr (err e) f g h = refl
  >>=_congr panic f g h = refl
  >>=_congr spin f g h = refl

module _ {E A : Type 0} where
  pub >>=-ok : (m : Result E A) → (m >>= λ a. ok a) ≡ m
  >>=-ok (ok a) = refl
  >>=-ok (err e) = refl
  >>=-ok panic = refl
  >>=-ok spin = refl

-- A function that can only fail with an error.
abbrev pub of_sum : {E A : Type 0} → E ⊎ A → Result E A
of_sum (inl e) = err e
of_sum (inr a) = ok a
