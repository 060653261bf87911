-- ===== src/K8s/Execute/Reach.antt =====
-- Which objects an execution can reach.
use kubernetes_agent.Base.{
  ℕ, ◌≡◌, refl, sym, ap, subst, ◌∙◌, inl, inr, String, Bool, false, List, [], ◌∷◌, ◌++◌, Option,
  none, some, Result, any, All, All-append, append-nil, append_assoc, arith,
}
use mathlib.Core.List.{Memᴰ}
use mathlib.Core.List.Memᴰ
use kubernetes_agent.Json.{Fields}
use kubernetes_agent.Policy.Rules.{Rule}
use kubernetes_agent.K8s.Op.{Operation}
use kubernetes_agent.K8s.Api.{Request, target_of, Api, OpError, Trace, Existing, absent, present}
use kubernetes_agent.K8s.Sends.{Sends, sends_rules}
use kubernetes_agent.K8s.Plan.{target}
use kubernetes_agent.K8s.Execute.{
  World, create_or_patch, apply_manifest, delete_named, scale_named, apply_connected, apply_one,
  denies, execute_plan,
}
use kubernetes_agent.K8s.Execute.Outcome.{
  Applied, none_left, next, Ended, Run, execute_plan_outcome,
}

-- the request is about an object of the operation's resource, namespace and cluster
abbrev pub IsFor : Api → Operation → Request → Type 0
IsFor api op q = (name : String) × (target_of q ≡ target api op name)

module _ (api : Api) where
  named : (op : Operation) (name : String) → (n : String) × (target api op name ≡ target api op n)
  named op name = (name, refl)

  create_or_patch-Sends :
      (op : Operation) (m : Fields) (e : Existing)
      → Sends (IsFor api op) (create_or_patch api op m e)
  unfolding create_or_patch
  create_or_patch-Sends op m absent = search (sends_rules, named)
  create_or_patch-Sends op m present = search (sends_rules, named)

  apply_manifest-Sends :
      (op : Operation) (m : Option Fields) → Sends (IsFor api op) (apply_manifest api op m)
  unfolding apply_manifest
  apply_manifest-Sends op none = search sends_rules
  apply_manifest-Sends op (some m) = search (sends_rules, named, create_or_patch-Sends)

  delete_named-Sends : (op : Operation) → Sends (IsFor api op) (delete_named api op)
  unfolding delete_named
  delete_named-Sends op = search (sends_rules, named)

  scale_named-Sends : (op : Operation) → Sends (IsFor api op) (scale_named api op)
  unfolding scale_named
  scale_named-Sends op = search (sends_rules, named)

  apply_connected-Sends : (op : Operation) → Sends (IsFor api op) (apply_connected api op)
  unfolding apply_connected
  apply_connected-Sends op =
      search (sends_rules, apply_manifest-Sends, delete_named-Sends, scale_named-Sends)

  apply_one-Sends : (op : Operation) → Sends (IsFor api op) (apply_one api op)
  unfolding apply_one
  apply_one-Sends op = search (sends_rules, apply_connected-Sends)

-- a request of the execution of a plan: it is for an operation of the plan that is not denied
pub record Licensed (api : Api) (orbit : ℕ → ℕ) (rules : List Rule) (ops : List Operation)
    (q : Request) : Type 0 where
  pub op : Operation
  pub planned : Memᴰ op ops
  pub permitted : denies api orbit rules op ≡ false
  pub about : IsFor api op q

-- a trace extends another by requests of which `P` holds
pub record Adds (P : Request → Type 0) (t u : Trace) : Type 0 where
  pub extra : Trace
  pub extends : u ≡ t ++ extra
  pub holds : All P extra

Adds-trans : {P : Request → Type 0} {t u v : Trace} → Adds P t u → Adds P u v → Adds P t v
Adds-trans {P = P} {t = t} a b = record {
  extra = a.extra ++ b.extra;
  extends = b.extends ∙ ap (λ u. u ++ b.extra) a.extends ∙ append_assoc t a.extra b.extra;
  holds = All-append P a.extra b.extra a.holds b.holds;
}

pub Adds-none : {P : Request → Type 0} {t u : Trace} → u ≡ t → Adds P t u
Adds-none h = record { extra = []; extends = h ∙ sym (append-nil _); holds = tt }

All-map :
    {A : Type 0} {P Q : A → Type 0} → ((a : A) → P a → Q a) → (xs : List A) → All P xs → All Q xs
All-map f [] h = tt
All-map f (x ∷ xs) h = (f x h.0, All-map f xs h.1)

pub Adds-map :
    {P Q : Request → Type 0} {t u : Trace} → ((q : Request) → P q → Q q) → Adds P t u → Adds Q t u
Adds-map f a = record { extra = a.extra; extends = a.extends; holds = All-map f a.extra a.holds }

module _ (api : Api) {P : Request → Type 0} where
  apply_one-Adds :
      (op : Operation) {r : Result OpError (Unit {0})} {t u : Trace}
      → ((q : Request) → IsFor api op q → P q)
      → apply_one api op t ≡ (r, u)
      → Adds P t u
  apply_one-Adds op {t = t} f h =
      let s = apply_one-Sends api op in
      record {
        extra = s.extra t;
        extends = sym (ap (λ p. p.1) h) ∙ s.extends t;
        holds = All-map f (s.extra t) (s.holds t);
      }

  Applied-Adds :
      {ops : List Operation} {t u : Trace}
      → ((op : Operation) → Memᴰ op ops → (q : Request) → IsFor api op q → P q)
      → Applied api ops t u
      → Adds P t u
  Applied-Adds f none_left = Adds-none refl
  Applied-Adds f (next h rest) =
      Adds-trans (apply_one-Adds _ (f _ (Memᴰ.head refl)) h)
        (Applied-Adds (λ op m. f op (Memᴰ.tail m)) rest)

any-false :
    {A : Type 0} (p : A → Bool) (xs : List A) (x : A) → any p xs ≡ false → Memᴰ x xs → p x ≡ false
any-false p [] x h m = elim m [ ]
any-false p (y ∷ xs) x h (Memᴰ.head e) = rw e (ground (arith, h))
any-false p (y ∷ xs) x h (Memᴰ.tail m) = any-false p xs x (ground (arith, h)) m

module _ (api : Api) (orbit : ℕ → ℕ) (rules : List Rule) where
  planned_requests :
      (ops : List Operation)
      → any (denies api orbit rules) ops ≡ false
      → (op : Operation) → Memᴰ op ops
      → (q : Request) → IsFor api op q
      → Licensed api orbit rules ops q
  planned_requests ops fine op m q about = record {
    op = op;
    planned = m;
    permitted = any-false (denies api orbit rules) ops op fine m;
    about = about;
  }

  Ended-Adds :
      (plan : String) (ops : List Operation) (w : World) {r : Run api}
      → any (denies api orbit rules) ops ≡ false
      → Ended api plan ops w r
      → Adds (Licensed api orbit rules ops) w.sent r.1.sent
  Ended-Adds plan ops w fine (inl c) = Applied-Adds api (planned_requests ops fine) c.applied
  Ended-Adds plan ops w fine (inr s) =
      let reach = planned_requests ops fine in
      let mem : (op : Operation) → Memᴰ op (s.before ++ s.op ∷ s.after) → Memᴰ op ops =
        λ op m. subst (λ l. Memᴰ op l) (sym s.split) m in
      Adds-trans
        (Applied-Adds api (λ op m. reach op (mem op (Memᴰ.append_left (s.op ∷ s.after) m)))
          s.applied)
        (apply_one-Adds api s.op
          (reach s.op (mem s.op (Memᴰ.append_right s.before (Memᴰ.head refl)))) s.broke)

  -- Whether it succeeds or not, an execution reaches only what was planned and is permitted: each
  -- request that it adds is about the resource, namespace and cluster of an operation of the plan,
  -- and the rules in force at the execution do not deny that operation.
  pub execute_plan-Licensed :
      (plan : String) (ops : List Operation) (w : World)
      → Adds (Licensed api orbit rules ops) w.sent (execute_plan api orbit rules plan ops w).1.sent
  execute_plan-Licensed plan ops w = elim (execute_plan_outcome api orbit rules plan ops w) [
    | inl (denied, e) ↦ Adds-none (ap (λ p. p.1.sent) e)
    | inr (fine, ended) ↦ Ended-Adds plan ops w fine ended
  ]
