-- ===== src/K8s/Execute/Outcome.antt =====
-- ExecutePlan against its contract: all or a prefix, in order, with the audit entry that says which.
use mathlib.Core.List.{reverse}
use kubernetes_agent.Base.{
  ℕ, ◌≡◌, refl, sym, subst, ◌⊎◌, inl, inr, String, true, false, List, [], ◌∷◌, ◌++◌, Result, ok,
  err, any, length, append-nil, append_assoc, Bool-cases, Result-cases, arith,
}
use kubernetes_agent.Policy.Rules.{Rule}
use kubernetes_agent.K8s.Op.{Operation}
use kubernetes_agent.K8s.Api.{Api, OpError, Trace}
use kubernetes_agent.K8s.Execute.{
  Done, AuditEntry, AuditMessage, failed_at, executed, ExecuteError, policy_changed, op_failed,
  World, apply_one, roll_back, audit_entry, failed, results, execute_from, denies, execute_plan,
}

-- no executed operation is rolled back: the count is always 0
roll_back-zero : (api : Api) (ops : List Operation) (n : ℕ) → roll_back api ops n ≡ n
unfolding roll_back
roll_back-zero api [] n = refl
roll_back-zero api (op ∷ ops) n = roll_back-zero api ops n

module _ (api : Api) where
  -- the operations were applied in turn, each with success
  pub data Applied : List Operation → Trace → Trace → Type 0 where
    none_left : {t : Trace} → Applied [] t t
    next :
        {op : Operation} {ops : List Operation} {t u v : Trace}
        → apply_one api op t ≡ (ok tt, u)
        → Applied ops u v
        → Applied (op ∷ ops) t v

  abbrev pub Run : Type 0
  Run = Result ExecuteError (List Done) × World

  abbrev entry : World → String → AuditMessage → List AuditEntry
  entry w status m = w.audit ++ audit_entry api status m ∷ []

  -- every operation was applied
  pub record Completes (plan : String) (ops : List Operation) (w : World) (r : Run) : Type 0 where
    pub answer : r.0 ≡ ok (results ops)
    pub applied : Applied ops w.sent r.1.sent
    pub audited : r.1.audit ≡ entry w "ok" (executed plan (length ops))

  -- the operations before one were applied, that one failed, and none after it was tried
  pub record Stops (plan : String) (ops : List Operation) (w : World) (r : Run) : Type 0 where
    pub before : List Operation
    pub op : Operation
    pub after : List Operation
    pub error : OpError
    pub reached : Trace
    pub split : ops ≡ before ++ op ∷ after
    pub answer : r.0 ≡ err (op_failed (length before) error 0)
    pub applied : Applied before w.sent reached
    pub broke : apply_one api op reached ≡ (err error, r.1.sent)
    pub audited : r.1.audit ≡ entry w "failed" (failed_at plan (length before) error 0)

  Applied-append :
      (op : Operation) {before : List Operation} {t u v : Trace}
      → Applied before t u
      → apply_one api op u ≡ (ok tt, v)
      → Applied (before ++ op ∷ []) t v
  Applied-append op none_left h = next h none_left
  Applied-append op (next k rest) h = next k (Applied-append op rest h)

  abbrev pub Ended : String → List Operation → World → Run → Type 0
  Ended plan ops w r = Completes plan ops w r ⊎ Stops plan ops w r

  execute_from-err :
      (plan : String) (done : List Operation) (op : Operation) (ops : List Operation) (w : World)
      (e : OpError)
      → (apply_one api op w.sent).0 ≡ err e
      → execute_from api plan done (op ∷ ops) w
        ≡ failed api plan (length done) e 0 (record w { sent = (apply_one api op w.sent).1 })
  unfolding execute_from
  execute_from-err plan done op ops w e h = ground (arith, h, roll_back-zero api (reverse done) 0)

  execute_from-ok :
      (plan : String) (done : List Operation) (op : Operation) (ops : List Operation) (w : World)
      (u : Unit {0})
      → (apply_one api op w.sent).0 ≡ ok u
      → execute_from api plan done (op ∷ ops) w
        ≡ execute_from api plan
            (done ++ op ∷ [])
            ops
            (record w { sent = (apply_one api op w.sent).1 })
  unfolding execute_from
  execute_from-ok plan done op ops w u h = ground (arith, h)

  -- the loop that has executed `done` ends the run of `done ++ ops`
  loop-Ended :
      (plan : String) (start : World) (done ops : List Operation) (w : World)
      → Applied done start.sent w.sent
      → w.audit ≡ start.audit
      → Ended plan (done ++ ops) start (execute_from api plan done ops w)
  loop-Ended plan start done [] w h a = rw append-nil (
      inl (record {
        answer = unfold execute_from in refl;
        applied = unfold execute_from in h;
        audited = unfold execute_from in rw a refl;
      }))
  loop-Ended plan start done (op ∷ ops) w h a = elim (Result-cases (apply_one api op w.sent).0) [
    | inl (e, broke) ↦
        subst (Ended plan (done ++ op ∷ ops) start)
          (sym (execute_from-err plan done op ops w e broke))
          (inr (record {
            before = done;
            op = op;
            after = ops;
            error = e;
            reached = w.sent;
            split = refl;
            answer = refl;
            applied = h;
            broke = ground (arith, broke);
            audited = rw a refl;
          }))
    | inr (u, fine) ↦
        subst (λ l. Ended plan l start (execute_from api plan done (op ∷ ops) w))
          (append_assoc done (op ∷ []) ops)
          (subst (Ended plan ((done ++ op ∷ []) ++ ops) start)
            (sym (execute_from-ok plan done op ops w u fine))
            (loop-Ended plan start (done ++ op ∷ []) ops
              (record w { sent = (apply_one api op w.sent).1 })
              (Applied-append op h (ground (arith, fine))) a))
  ]

module _ (api : Api) (orbit : ℕ → ℕ) (rules : List Rule) where
  accepted :
      (plan : String) (ops : List Operation) (w : World)
      → any (denies api orbit rules) ops ≡ false
      → execute_plan api orbit rules plan ops w ≡ execute_from api plan [] ops w
  unfolding execute_plan
  accepted plan ops w h = rw h

  -- ExecutePlan refuses the whole plan, with no request and no audit entry, if the rules deny one of
  -- its operations. Otherwise it applies them in order and either all succeed, with one "ok" for each
  -- and an "ok" entry in the audit log, or it stops at the first that fails: those before it stay
  -- applied, none after it is tried, none is rolled back, and the audit entry says "failed".
  pub execute_plan_outcome :
      (plan : String) (ops : List Operation) (w : World)
      → ((any (denies api orbit rules) ops ≡ true)
          × (execute_plan api orbit rules plan ops w ≡ (err policy_changed, w)))
        ⊎ ((any (denies api orbit rules) ops ≡ false)
            × Ended api plan ops w (execute_plan api orbit rules plan ops w))
  execute_plan_outcome plan ops w = elim (Bool-cases (any (denies api orbit rules) ops)) [
    | inl denied ↦ inl (denied, unfold execute_plan in rw denied)
    | inr fine ↦ inr (
      fine,
      subst (Ended api plan ops w) (sym (accepted plan ops w fine))
          (loop-Ended api plan w [] ops w none_left refl),
    )
  ]
