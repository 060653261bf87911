-- ===== src/Agent/Resume/Effect.antt =====
-- What each reply of the resume endpoint says of the sessions.
use kubernetes_agent.Base.{
  ◌≡◌, ◌≢◌, refl, sym, ap, ◌∙◌, String, Bool, true, false, not, Option, none, some, Result, ok, err,
  eq_iff, nat_eq, Option-cases, inl, inr, arith, if◌then◌else◌,
}
use kubernetes_agent.Agent.Session.{
  Channel, nil_channel, open_channel, closed_channel, Session, Sessions, find, set, lookup,
  close_result, close_channel, confirm_plan, cancel_plan, answer_ask, close_plan,
}
use kubernetes_agent.Agent.Session.Registry.{find-set, set-same}
use kubernetes_agent.Agent.Resume.{
  ResumeRequest, Reply, no_content, failure, reply_of, decide, resume_plan_case, resume_ask_case,
  resume_session, resume_handler,
}

-- every reply but 204 and 409
abbrev pub is_refusal : Reply → Bool
is_refusal no_content = false
is_refusal (failure status code message retryable) = not (nat_eq status 409)

reply_of-is_refusal :
    (message : String) (c : Channel) → is_refusal (reply_of message (close_result c)) ≡ false
reply_of-is_refusal message open_channel = refl
reply_of-is_refusal message nil_channel = refl
reply_of-is_refusal message closed_channel = refl

resume_ask_refused :
    (req : ResumeRequest) (s : Session)
    → is_refusal (resume_ask_case req s).0 ≡ true
    → (resume_ask_case req s).1 ≡ s
unfolding resume_ask_case answer_ask
resume_ask_refused req s h =
    ground (arith, reply_of-is_refusal "ask_user already resolved" s.resume_ask)

decide-is_refusal :
    (message : String) (b : Bool) (s : Session)
    → is_refusal (reply_of message (decide b s).0) ≡ false
unfolding confirm_plan cancel_plan close_plan
decide-is_refusal message true s = reply_of-is_refusal message s.resume_plan
decide-is_refusal message false s = reply_of-is_refusal message s.resume_plan

resume_plan_refused :
    (req : ResumeRequest) (s : Session)
    → is_refusal (resume_plan_case req s).0 ≡ true
    → (resume_plan_case req s).1 ≡ s
unfolding resume_plan_case
resume_plan_refused req s h = ground (
  arith,
  decide-is_refusal "plan already resolved" true s,
  decide-is_refusal "plan already resolved" false s,
)

resume_session_refused :
    (req : ResumeRequest) (s : Session)
    → is_refusal (resume_session req s).0 ≡ true
    → (resume_session req s).1 ≡ s
unfolding resume_session
resume_session_refused req s h = ground (arith, resume_plan_refused req s, resume_ask_refused req s)

handle :
    (id : String) (req : ResumeRequest) (m : Sessions) (s : Session)
    → lookup id m ≡ some s
    → resume_handler id (ok req) (some m)
      ≡ ((resume_session req s).0, some (set id (resume_session req s).1 m))
unfolding resume_handler
handle id req m s h = ground (arith, h)

missing :
    (id : String) (req : ResumeRequest) (m : Sessions)
    → lookup id m ≡ none
    → (resume_handler id (ok req) (some m)).1 ≡ some m
unfolding resume_handler
missing id req m h = ground (arith, h)

lookup-find : (id : String) (m : Sessions) (s : Session) → lookup id m ≡ some s → find id m ≡ some s
unfolding lookup
lookup-find id m s h = h

find-lookup : (id : String) (m : Sessions) (s : Session) → find id m ≡ some s → lookup id m ≡ some s
unfolding lookup
find-lookup id m s h = h

-- A reply of the resume endpoint other than 204 and 409 leaves every session as it was, the one that
-- the request names included.
pub resume_handler_refused :
    (id : String) (body : Result String ResumeRequest) (m : Option Sessions)
    → is_refusal (resume_handler id body m).0 ≡ true
    → (resume_handler id body m).1 ≡ m
resume_handler_refused id body none h = unfold resume_handler in refl
resume_handler_refused id (err e) (some m) h = unfold resume_handler in refl
resume_handler_refused id (ok req) (some m) h = elim (Option-cases (lookup id m)) [
  | inl gone ↦ missing id req m gone
  | inr (s, found) ↦
      let e = handle id req m s found in
      let kept = resume_session_refused req s (ap (λ p. is_refusal p.0) (sym e) ∙ h) in
      ap (λ p. p.1) e
      ∙ ap some (ap (λ x. set id x m) kept ∙ set-same id s m (lookup-find id m s found))
]

abbrev pub verdict_of : Bool → String
verdict_of b = if b then "confirmed" else "cancelled"

close_not_open : (c : Channel) → close_channel c ≢ open_channel
close_not_open nil_channel h = ground arith
close_not_open open_channel h = ground arith
close_not_open closed_channel h = ground arith

decide_effect :
    (b : Bool) (s : Session)
    → ((decide b s).0 ≡ close_result s.resume_plan)
      × ((decide b s).1.plan_result ≡ verdict_of b)
      × ((decide b s).1.resume_plan ≢ open_channel)
unfolding confirm_plan cancel_plan
decide_effect true s = (refl, refl, close_not_open s.resume_plan)
decide_effect false s = (refl, refl, close_not_open s.resume_plan)

resume_session_decides :
    (req : ResumeRequest) (s : Session) (b : Bool)
    → req.kind ≡ "plan"
    → req.plan_id ≢ ""
    → req.approved ≡ some b
    → resume_session req s ≡ (reply_of "plan already resolved" (decide b s).0, (decide b s).1)
unfolding resume_session resume_plan_case
resume_session_decides req s b k p a = rw k (ground (arith, p, a, eq_iff req.plan_id ""))

-- A request that decides a plan is answered 204 where the session's channel is open and 409 where it
-- is not, and in both cases the session then holds the request's decision: a second request that is
-- refused still overwrites the first one's.
pub resume_handler_decides :
    (id : String) (req : ResumeRequest) (m : Sessions) (s : Session) (b : Bool)
    → lookup id m ≡ some s
    → req.kind ≡ "plan"
    → req.plan_id ≢ ""
    → req.approved ≡ some b
    → let (reply, after) = resume_handler id (ok req) (some m) in
      (reply ≡ reply_of "plan already resolved" (close_result s.resume_plan))
      × ((m' : Sessions) × (s' : Session) × (after ≡ some m')
          × (lookup id m' ≡ some s')
          × (s'.plan_result ≡ verdict_of b)
          × (s'.resume_plan ≢ open_channel))
resume_handler_decides id req m s b found kind plan approved =
    let e = handle id req m s found in
    let d = resume_session_decides req s b kind plan approved in
    let (reply, result, shut) = decide_effect b s in
    let after = (decide b s).1 in
    (
      ap (λ p. p.0) e ∙ ap (λ p. p.0) d ∙ ap (reply_of "plan already resolved") reply,
      (
        set id after m,
        after,
        ap (λ p. p.1) e ∙ ap (λ p. some (set id p.1 m)) d,
        find-lookup id (set id after m) after (find-set id after m),
        result,
        shut,
      ),
    )
