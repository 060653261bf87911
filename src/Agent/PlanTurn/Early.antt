-- ===== src/Agent/PlanTurn/Early.antt =====
-- A decision that comes before the plan tool's reset.
use kubernetes_agent.Base.{ℕ, suc, ◌≤◌, ◌≡◌, ◌≢◌, refl, ap, subst, String, [], ◌∷◌, length, arith}
use kubernetes_agent.Agent.Session.{
  open_channel, closed_channel, record_plan, close_plan, reset_plan,
}
use kubernetes_agent.Agent.PlanTurn.{
  Phase, idle, announced, waiting, woken, aborted, IsVerdict, State, Step, announce, reset, write,
  close, wake, abort, answer, Steps, none_yet, and_then,
}
use kubernetes_agent.Agent.PlanTurn.Decision.{released_closed}

-- the tool has not answered a decision, and its wait has not ended by one
pub data IsUndecided : Phase → Type 0 where
  not_called : IsUndecided idle
  not_reset : IsUndecided announced
  still_waiting : IsUndecided waiting
  without_answer : IsUndecided aborted

-- the state after a whole request for `d` and then the reset
unfoldable pub after_early : String → State → State
unfolding record_plan close_plan reset_plan
after_early d s = record s {
  session = reset_plan (close_plan (record_plan d s.session)).1;
  phase = waiting;
  written = d ∷ s.written;
  since_reset = [];
  carried = s.in_flight;
}

reach_early :
    (s : State) (d : String) → s.phase ≡ announced → IsVerdict d → Steps s (after_early d s)
unfolding after_early record_plan close_plan reset_plan
reach_early s d e v =
    and_then (and_then (and_then none_yet (write s d v)) (close _ s.in_flight refl)) (reset _ e)

-- nothing can end the wait
record Still (u : State) : Type 0 where
  calm : u.in_flight ≡ 0
  not_closed : u.session.resume_plan ≢ closed_channel
  undecided : IsUndecided u.phase

-- as long as no more than `n` decisions are written
record Quiet (n : ℕ) (u : State) : Type 0 where
  grown : n ≤ length u.written
  still : length u.written ≡ n → Still u

open_not_closed : open_channel ≢ closed_channel
open_not_closed h = ground (arith, h)

Step-Quiet : {n : ℕ} {s t : State} → Step s t → Quiet n s → Quiet n t
Step-Quiet (announce s free) q = record {
  grown = q.grown;
  still = λ e.
      let h = q.still e in
      record { calm = h.calm; not_closed = h.not_closed; undecided = not_reset };
}
Step-Quiet (reset s p) q = record {
  grown = q.grown;
  still = λ e.
      unfold reset_plan in
      record { calm = (q.still e).calm; not_closed = open_not_closed; undecided = still_waiting };
}
Step-Quiet {n = n} (write s d v) q = record {
  grown = omega (arith, q.grown);
  still = λ e. let bad : ⊥ = omega (arith, e, q.grown) in elim bad [ ];
}
Step-Quiet (close s k f) q = record {
  grown = q.grown;
  still = λ e. let bad : ⊥ = omega (arith, f, (q.still e).calm) in elim bad [ ];
}
Step-Quiet (wake s done p m) q = record {
  grown = q.grown;
  still =
      λ e. let bad : ⊥ = (q.still e).not_closed (released_closed s.session done m) in elim bad [ ];
}
Step-Quiet (abort s done p m) q = record {
  grown = q.grown;
  still = λ e.
      let h = q.still e in
      record { calm = h.calm; not_closed = h.not_closed; undecided = without_answer };
}
Step-Quiet (answer s p) q = record {
  grown = q.grown;
  still = λ e. let h : IsUndecided woken = subst IsUndecided p (q.still e).undecided in elim h [ ];
}

Steps-Quiet : {n : ℕ} {s t : State} → Steps s t → Quiet n s → Quiet n t
Steps-Quiet none_yet q = q
Steps-Quiet (and_then steps step) q = Step-Quiet step (Steps-Quiet steps q)

early-Quiet :
    (s : State) (d : String) → s.in_flight ≡ 0 → Quiet (suc (length s.written)) (after_early d s)
unfolding after_early record_plan close_plan reset_plan
early-Quiet s d calm = record {
  grown = omega arith;
  still = λ e. record { calm = calm; not_closed = open_not_closed; undecided = still_waiting };
}

-- A decision that a request makes while the plan is announced and not yet reset is lost: from such a
-- state with no request under way, the request and the reset lead to a state from which, without a
-- further request, no steps make the tool's wait end by a decision or the tool answer one.
pub early_request_lost :
    (s : State) (d : String) (u : State)
    → s.phase ≡ announced
    → s.in_flight ≡ 0
    → IsVerdict d
    → Steps (after_early d s) u
    → u.written ≡ d ∷ s.written
    → Steps s (after_early d s) × IsUndecided u.phase
early_request_lost s d u e calm v steps w = (
  reach_early s d e v,
  ((Steps-Quiet steps (early-Quiet s d calm)).still (ap length w)).undecided,
)
