-- ===== src/K8s/Sends.antt =====
-- What a run adds to the requests sent, one rule for each way to build a run.
use kubernetes_agent.Base.{
  ◌≡◌, refl, String, inl, inr, Result-cases, Bool, true, false, [], ◌∷◌, ◌++◌, Result, ok, err, All,
  All-append, ap, append-nil, append_assoc, if◌then◌else◌, sym, ◌∙◌,
}
use kubernetes_agent.K8s.Api.{
  Target, Request, get, Api, Trace, Call, ◌>>=◌, pure, fail, wrap, send, connect_to, look, continue,
}

-- from every trace, the run extends it by requests of which `P` holds
pub record Sends {E A : Type 0} (P : Request → Type 0) (m : Call E A) : Type 0 where
  pub extra : Trace → Trace
  pub extends : (t : Trace) → (m t).1 ≡ t ++ extra t
  pub holds : (t : Trace) → All P (extra t)

module _ {E A : Type 0} {P : Request → Type 0} where
  pub Sends-pure : (a : A) → Sends P (pure {E = E} a)
  unfolding pure
  Sends-pure a = record { extra = λ t. []; extends = λ t. sym (append-nil t); holds = λ t. tt }

  pub Sends-fail : (e : E) → Sends P (fail {A = A} e)
  unfolding fail
  Sends-fail e = record { extra = λ t. []; extends = λ t. sym (append-nil t); holds = λ t. tt }

  pub Sends-if : (b : Bool) (m n : Call E A) → Sends P m → Sends P n → Sends P (if b then m else n)
  Sends-if true m n h k = h
  Sends-if false m n h k = k

  pub Sends-wrap : {F : Type 0} (f : E → F) (m : Call E A) → Sends P m → Sends P (wrap f m)
  unfolding wrap
  Sends-wrap f m h = record { extra = h.extra; extends = h.extends; holds = h.holds }

module _ {E A B : Type 0} {P : Request → Type 0} where
  rest_extra : (f : A → Call E B) → ((a : A) → Sends P (f a)) → Result E A → Trace → Trace
  rest_extra f k (ok a) t = (k a).extra t
  rest_extra f k (err e) t = []

  rest_extends :
      (f : A → Call E B) (k : (a : A) → Sends P (f a)) (r : Result E A) (t : Trace)
      → (continue r f t).1 ≡ t ++ rest_extra f k r t
  unfolding rest_extra
  rest_extends f k (ok a) t = (k a).extends t
  rest_extends f k (err e) t = sym (append-nil t)

  rest_holds :
      (f : A → Call E B) (k : (a : A) → Sends P (f a)) (r : Result E A) (t : Trace)
      → All P (rest_extra f k r t)
  unfolding rest_extra
  rest_holds f k (ok a) t = (k a).holds t
  rest_holds f k (err e) t = tt

  pub Sends-bind :
      (m : Call E A) (f : A → Call E B) → Sends P m → ((a : A) → Sends P (f a)) → Sends P (m >>= f)
  unfolding ◌>>=◌
  Sends-bind m f h k = record {
    extra = λ t. h.extra t ++ rest_extra f k (m t).0 (m t).1;
    extends = λ t.
        rest_extends f k (m t).0 (m t).1
        ∙ ap (λ u. u ++ rest_extra f k (m t).0 (m t).1) (h.extends t)
        ∙ append_assoc t (h.extra t) (rest_extra f k (m t).0 (m t).1);
    holds = λ t. All-append P (h.extra t) _ (h.holds t) (rest_holds f k (m t).0 (m t).1);
  }

connect_keeps : (api : Api) (id : String) (t : Trace) → (connect_to api id t).1 ≡ t
unfolding connect_to
connect_keeps api id t = elim (Result-cases (api.connect t id)) [
  | inl (e, h) ↦ rw (h, connect_to)
  | inr (a, h) ↦ rw (h, connect_to)
]

module _ {P : Request → Type 0} (api : Api) where
  pub Sends-send : (q : Request) → P q → Sends P (send api q)
  unfolding send
  Sends-send q h = record { extra = λ t. q ∷ []; extends = λ t. refl; holds = λ t. (h, tt) }

  pub Sends-look : (o : Target) → P (get o) → Sends P (look api o)
  unfolding look
  Sends-look o h = record { extra = λ t. get o ∷ []; extends = λ t. refl; holds = λ t. (h, tt) }

  pub Sends-connect : (id : String) → Sends P (connect_to api id)
  Sends-connect id = record {
    extra = λ t. [];
    extends = λ t. connect_keeps api id t ∙ sym (append-nil t);
    holds = λ t. tt;
  }

pub ruleset sends_rules = (
  Sends-pure, Sends-fail, Sends-if, Sends-wrap, Sends-bind, Sends-send, Sends-look, Sends-connect,
)
