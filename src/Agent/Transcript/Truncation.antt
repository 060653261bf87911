-- ===== src/Agent/Transcript/Truncation.antt =====
-- What truncate keeps.
use kubernetes_agent.Base.{
  ℕ, ◌+◌, ◌-◌, ◌/◌, ◌≤◌, ◌<◌, ◌≡◌, refl, sym, ap, subst, ◌∙◌, ◌⊎◌, inl, inr, Bool, true, false,
  Bool-cases, List, [], ◌∷◌, ◌++◌, append-nil, length, length-append, leb, arith, if◌then◌else◌,
}
use kubernetes_agent.Agent.Transcript.{
  Message, estimate_chars, drop_oldest, middle_of, last_of, limit_of, over_limit, truncate,
}

estimate_chars-append :
    (a b : List Message) → estimate_chars (a ++ b) ≡ estimate_chars a + estimate_chars b
unfolding estimate_chars
estimate_chars-append [] b = omega arith
estimate_chars-append (m ∷ a) b = omega (arith, estimate_chars-append a b)

-- the newest messages are left; where any is left they fit, and with one more they do not
record Drops (limit chars : ℕ) (ms out : List Message) : Type 0 where
  dropped : List Message
  joined : ms ≡ dropped ++ out
  some_dropped : (ms ≡ []) ⊎ (0 < length dropped)
  fits : (out ≡ []) ⊎ ((chars - estimate_chars dropped) / 4 ≤ limit)
  least :
      (before after : List Message)
      → dropped ≡ before ++ after
      → 0 < length before
      → 0 < length after
      → limit < (chars - estimate_chars before) / 4

leb-le : (a b : ℕ) → leb a b ≡ true → a ≤ b
leb-le a b h = ground (arith, h)

drop_step :
    (limit chars : ℕ) (m : Message) (ms : List Message) (b : Bool)
    → leb ((chars - estimate_chars (m ∷ [])) / 4) limit ≡ b
    → drop_oldest limit chars (m ∷ ms)
      ≡ (if b then ms else drop_oldest limit (chars - estimate_chars (m ∷ [])) ms)
unfolding drop_oldest
drop_step limit chars m ms b h = rw h refl

estimate_one :
    (m : Message) (ms : List Message)
    → estimate_chars (m ∷ ms) ≡ estimate_chars (m ∷ []) + estimate_chars ms
estimate_one m ms = estimate_chars-append (m ∷ []) ms

leb-lt : (a b : ℕ) → leb a b ≡ false → b < a
leb-lt a b h = ground (arith, h)

least_step :
    (limit chars : ℕ) (m : Message) (dropped : List Message)
    → limit < (chars - estimate_chars (m ∷ [])) / 4
    → ((before after : List Message)
        → dropped ≡ before ++ after
        → 0 < length before
        → 0 < length after
        → limit < (chars - estimate_chars (m ∷ []) - estimate_chars before) / 4)
    → (before after : List Message) → (m ∷ dropped) ≡ before ++ after
    → 0 < length before
    → 0 < length after
    → limit < (chars - estimate_chars before) / 4
least_step limit chars m dropped over rest [] after e b a = absurd (omega arith)
least_step limit chars m dropped over rest (n ∷ []) after e b a =
    let same : m ≡ n = cc e in subst (λ x. limit < (chars - estimate_chars (x ∷ [])) / 4) same over
least_step limit chars m dropped over rest (n ∷ o ∷ before) after e b a =
    let same : m ≡ n = cc e in
    let tails : dropped ≡ (o ∷ before) ++ after = cc e in
    let further = rest (o ∷ before) after tails (omega arith) a in
    let total : chars - estimate_chars (m ∷ []) - estimate_chars (o ∷ before)
        ≡ chars - estimate_chars (n ∷ o ∷ before) =
      omega (arith, estimate_one n (o ∷ before), ap (λ x. estimate_chars (x ∷ [])) same) in
    subst (λ k. limit < k / 4) total further

drop_oldest-Drops :
    (limit chars : ℕ) (ms : List Message) → Drops limit chars ms (drop_oldest limit chars ms)
drop_oldest-Drops limit chars [] =
    unfold drop_oldest in
    record {
      dropped = [];
      joined = refl;
      some_dropped = inl refl;
      fits = inl refl;
      least = λ before after e b a. absurd (omega (arith, ap length e, length-append before after));
    }
drop_oldest-Drops limit chars (m ∷ ms) =
    let left = chars - estimate_chars (m ∷ []) in
    elim (Bool-cases (leb (left / 4) limit)) [
      | inl h ↦ rw (drop_step limit chars m ms true h) (record {
        dropped = m ∷ [];
        joined = refl;
        some_dropped = inr (omega arith);
        fits = inr (leb-le (left / 4) limit h);
        least =
            λ before after e b a. absurd (omega (arith, ap length e, length-append before after));
      })
      | inr h ↦
          let rest = drop_oldest-Drops limit left ms in
          rw (drop_step limit chars m ms false h) (record {
            dropped = m ∷ rest.dropped;
            joined = ap (λ l. m ∷ l) rest.joined;
            some_dropped = inr (omega arith);
            least = least_step limit chars m rest.dropped (leb-lt (left / 4) limit h) rest.least;
            fits = elim rest.fits [
              | inl e ↦ inl e
              | inr f ↦
                  let same : left - estimate_chars rest.dropped
                      ≡ chars - estimate_chars (m ∷ rest.dropped) =
                    omega (arith, estimate_one m rest.dropped) in
                  inr (subst (λ n. n / 4 ≤ limit) same f)
            ];
          })
    ]

middle-last : (m : Message) (ms : List Message) → (m ∷ ms) ≡ middle_of m ms ++ last_of m ms ∷ []
middle-last m [] = refl
middle-last m (n ∷ ms) = ap (λ l. m ∷ l) (middle-last n ms)

-- The first message and the last are kept, and of those between them the newest. At least one is
-- dropped, and no more than it takes: with the newest of the dropped ones besides, the estimate is
-- over the limit.
pub record IsTruncated (limit : ℕ) (msgs out : List Message) : Type 0 where
  pub first : Message
  pub dropped : List Message
  pub kept : List Message
  pub last : Message
  pub joined : msgs ≡ first ∷ ((dropped ++ kept) ++ last ∷ [])
  pub result : out ≡ first ∷ (kept ++ last ∷ [])
  pub some_dropped : 0 < length dropped
  pub fits : (kept ≡ []) ⊎ (estimate_chars out / 4 ≤ limit)
  pub least :
      (before after : List Message)
      → dropped ≡ before ++ after
      → 0 < length before
      → 0 < length after
      → limit < estimate_chars (first ∷ ((after ++ kept) ++ last ∷ [])) / 4

-- what the estimate of a transcript is without the oldest messages between its ends
estimate_left :
    (msgs : List Message) (m end : Message) (before after out : List Message)
    → msgs ≡ m ∷ (((before ++ after) ++ out) ++ end ∷ [])
    → estimate_chars msgs - estimate_chars before
      ≡ estimate_chars (m ∷ ((after ++ out) ++ end ∷ []))
estimate_left msgs m end before after out shape = omega (
  arith,
  ap estimate_chars shape,
  estimate_one m (((before ++ after) ++ out) ++ end ∷ []),
  estimate_chars-append ((before ++ after) ++ out) (end ∷ []),
  estimate_chars-append (before ++ after) out,
  estimate_chars-append before after,
  estimate_one m ((after ++ out) ++ end ∷ []),
  estimate_chars-append (after ++ out) (end ∷ []),
  estimate_chars-append after out,
)

middle_some : (m n : Message) (ms : List Message) → 0 < length (middle_of m (n ∷ ms))
middle_some m n ms = omega arith

drops_middle :
    (limit : ℕ) (m n o : Message) (ms : List Message)
    → let msgs = m ∷ n ∷ o ∷ ms in
      let out = drop_oldest limit (estimate_chars msgs) (middle_of n (o ∷ ms)) in
      IsTruncated limit msgs (m ∷ (out ++ last_of n (o ∷ ms) ∷ []))
drops_middle limit m n o ms =
    let msgs = m ∷ n ∷ o ∷ ms in
    let chars = estimate_chars msgs in
    let d = drop_oldest-Drops limit chars (middle_of n (o ∷ ms)) in
    let out = drop_oldest limit chars (middle_of n (o ∷ ms)) in
    let end = last_of n (o ∷ ms) in
    let shape : msgs ≡ m ∷ ((d.dropped ++ out) ++ end ∷ []) =
      ap (λ l. m ∷ l) (middle-last n (o ∷ ms) ∙ ap (λ l. l ++ end ∷ []) d.joined) in
    let total : chars - estimate_chars d.dropped ≡ estimate_chars (m ∷ (out ++ end ∷ [])) =
      estimate_left msgs m end d.dropped [] out
        (shape ∙ ap (λ l. m ∷ ((l ++ out) ++ end ∷ [])) (sym (append-nil d.dropped))) in
    record {
      first = m;
      dropped = d.dropped;
      kept = out;
      last = end;
      joined = shape;
      result = refl;
      some_dropped = elim d.some_dropped [
        | inl e ↦ absurd (omega (arith, ap length e, middle_some n o ms))
        | inr more ↦ more
      ];
      fits = elim d.fits [ inl e ↦ inl e | inr f ↦ inr (subst (λ k. k / 4 ≤ limit) total f) ];
      least = λ before after e b a.
          subst (λ k. limit < k / 4)
            (estimate_left msgs m end before after out
              (shape ∙ ap (λ l. m ∷ ((l ++ out) ++ end ∷ [])) e))
            (d.least before after e b a);
    }

over_limit-IsTruncated :
    (limit : ℕ) (msgs : List Message)
    → ((length msgs ≤ 2) × (over_limit limit msgs ≡ msgs))
      ⊎ IsTruncated limit msgs (over_limit limit msgs)
unfolding over_limit
over_limit-IsTruncated limit [] = inl (omega arith, refl)
over_limit-IsTruncated limit (m ∷ []) = inl (omega arith, refl)
over_limit-IsTruncated limit (m ∷ n ∷ []) = inl (omega arith, refl)
over_limit-IsTruncated limit (m ∷ n ∷ o ∷ ms) = inr (drops_middle limit m n o ms)

-- truncate leaves a transcript as it is whose estimate is within 80% of the window, or which has at
-- most two messages. Of any other it keeps the first message, the last and the newest of those
-- between them, in order, and drops at least one, but no more than it takes: with the newest of the
-- dropped ones besides, the estimate were over the 80%. Then the new estimate is within the 80% or
-- nothing between the first and the last message is left.
pub truncate-IsTruncated :
    (window : ℕ) (msgs : List Message)
    → ((estimate_chars msgs / 4 ≤ limit_of window) × (truncate window msgs ≡ msgs))
      ⊎ ((limit_of window < estimate_chars msgs / 4)
          × (((length msgs ≤ 2) × (truncate window msgs ≡ msgs))
              ⊎ IsTruncated (limit_of window) msgs (truncate window msgs)))
unfolding truncate
truncate-IsTruncated window msgs =
    elim (Bool-cases (leb (estimate_chars msgs / 4) (limit_of window))) [
      | inl h ↦ rw h (inl (leb-le (estimate_chars msgs / 4) (limit_of window) h, refl))
      | inr h ↦
          let over = leb-lt (estimate_chars msgs / 4) (limit_of window) h in
          rw h (inr (over, over_limit-IsTruncated (limit_of window) msgs))
    ]
