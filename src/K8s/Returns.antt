-- ===== src/K8s/Returns.antt =====
-- What the value of a run satisfies where it ends without an error.
use kubernetes_agent.Base.{◌≡◌, refl, Bool, true, false, Result, ok, err, if◌then◌else◌, subst}
use kubernetes_agent.K8s.Api.{Trace, Call, ◌>>=◌, pure, fail, wrap, continue, map_error}

-- `Q` holds of every value that the run returns, from whatever trace
pub record Returns {E A : Type 0} (Q : A → Type 0) (m : Call E A) : Type 0 where
  pub value : (t : Trace) (a : A) → (m t).0 ≡ ok a → Q a

ok_injective : {E A : Type 0} (a b : A) (r : Result E A) → r ≡ ok a → r ≡ ok b → a ≡ b
ok_injective a b r h k = cc

from_ok :
    {E F A : Type 0} (f : F → E) (Q : A → Type 0) (r : Result F A) {a : A}
    → map_error f r ≡ ok a
    → (r ≡ ok a → Q a)
    → Q a
from_ok f Q (ok b) h k = k cc
from_ok f Q (err e) h k = cc

module _ {E A : Type 0} {Q : A → Type 0} where
  pub Returns-pure : (a : A) → Q a → Returns Q (pure {E = E} a)
  unfolding pure
  Returns-pure a h = record { value = λ t b e. subst Q (ok_injective {E = E} a b (ok a) refl e) h }

  pub Returns-fail : (e : E) → Returns Q (fail {A = A} e)
  unfolding fail
  Returns-fail e = record { value = λ t b h. cc }

  pub Returns-if :
      (b : Bool) (m n : Call E A) → Returns Q m → Returns Q n → Returns Q (if b then m else n)
  Returns-if true m n h k = h
  Returns-if false m n h k = k

  pub Returns-wrap : {F : Type 0} (f : F → E) (m : Call F A) → Returns Q m → Returns Q (wrap f m)
  unfolding wrap
  Returns-wrap f m h = record { value = λ t a e. from_ok f Q (m t).0 e (h.value t a) }

module _ {E A B : Type 0} {Q : B → Type 0} where
  -- through a first step whose values satisfy `P`
  pub Returns-bind_of :
      (P : A → Type 0) (m : Call E A) (f : A → Call E B)
      → Returns P m
      → ((a : A) → P a → Returns Q (f a))
      → Returns Q (m >>= f)
  unfolding ◌>>=◌
  Returns-bind_of P m f h k = record { value = λ t b e. through (m t).0 (m t).1 (h.value t) b e }
    where
      through :
          (r : Result E A) (u : Trace)
          → ((a : A) → r ≡ ok a → P a)
          → (b : B) → (continue r f u).0 ≡ ok b
          → Q b
      through (ok a) u p b e = (k a (p a refl)).value u b e
      through (err e') u p b e = cc

  pub Returns-bind :
      (m : Call E A) (f : A → Call E B) → ((a : A) → Returns Q (f a)) → Returns Q (m >>= f)
  Returns-bind m f k =
      Returns-bind_of (λ a. Unit {0}) m f (record { value = λ t a e. tt }) (λ a p. k a)

pub ruleset returns_rules = (Returns-pure, Returns-fail, Returns-if, Returns-wrap, Returns-bind)
