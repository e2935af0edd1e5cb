-- ===== src/Outcome/Ends.antt =====
-- Results that are there: a value, an error, or a panic that says something.
use realflight_bridge.Base.{◌≡◌, ◌≢◌, refl, Option, none, some}
use realflight_bridge.Outcome.{Result, ok, err, panic, spin, ◌>>=◌, map_err, ok_or, or_panic}

-- `P` is what a panic says.
module _ {E A : Type 0} where
  -- Anything but the end of the rounds.
  pub data Ends (P : Type 0) : Result E A → Type 0 where
    gives : (a : A) → Ends P (ok a)
    fails : (e : E) → Ends P (err e)
    panics : P → Ends P panic

  pub Ends-not_spin : {P : Type 0} (r : Result E A) → Ends P r → r ≢ spin
  Ends-not_spin _ (gives a) = λ d. cc
  Ends-not_spin _ (fails e) = λ d. cc
  Ends-not_spin _ (panics p) = λ d. cc

  pub Ends-panic : {P : Type 0} (r : Result E A) → Ends P r → r ≡ panic → P
  Ends-panic _ (gives a) = λ d. cc
  Ends-panic _ (fails e) = λ d. cc
  Ends-panic _ (panics p) = λ d. p

  pub ok_or-Ends : {P : Type 0} (o : Option A) (e : E) → Ends P (ok_or o e)
  ok_or-Ends none e = fails e
  ok_or-Ends (some a) e = gives a

  pub or_panic-Ends : {P : Type 0} (o : Option A) → (o ≡ none → P) → Ends P (or_panic o)
  or_panic-Ends none h = panics (h refl)
  or_panic-Ends (some a) h = gives a

pub map_err-Ends : {P E F A : Type 0} (f : E → F) (r : Result E A) → Ends P r → Ends P (map_err f r)
map_err-Ends f _ (gives a) = gives a
map_err-Ends f _ (fails e) = fails (f e)
map_err-Ends f _ (panics p) = panics p

pub >>=-Ends :
    {P E A B : Type 0} (r : Result E A) (k : A → Result E B)
    → Ends P r
    → ((a : A) → Ends P (k a))
    → Ends P (r >>= k)
>>=-Ends _ k (gives a) later = later a
>>=-Ends _ k (fails e) later = fails e
>>=-Ends _ k (panics p) later = panics p
