-- ===== src/Base/Outcome.antt =====
-- Go's `(value, error)` returns: a value or an error, never both.
use mathlib.Core.Path.{◌≡◌, refl}
use mathlib.Core.Logic.{◌⊎◌, inl, inr}
use mathlib.Core.Bool.{Bool, true, false}

pub data Result {ℓ} (E : Type 0) (V : Type ℓ) : Type ℓ where
  ok : V → Result E V
  err : E → Result E V

module _ {E V : Type 0} where
  abbrev pub is_ok : Result E V → Bool
  is_ok (err e) = false
  is_ok (ok v) = true

  pub Result-cases : (r : Result E V) → ((e : E) × (r ≡ err e)) ⊎ ((v : V) × (r ≡ ok v))
  Result-cases (err e) = inl (e, refl)
  Result-cases (ok v) = inr (v, refl)

module _ {E V W : Type 0} where
  infixl 5 ◌>>=◌
  abbrev pub ◌>>=◌ : Result E V → (V → Result E W) → Result E W
  err e >>= k = err e
  ok v >>= k = k v

  pub >>=-inversion :
      (k : V → Result E W) (r : Result E V) (w : W)
      → (r >>= k) ≡ ok w
      → (v : V) × (r ≡ ok v) × (k v ≡ ok w)
  >>=-inversion k (err e) w h = cc
  >>=-inversion k (ok v) w h = (v, refl, h)
