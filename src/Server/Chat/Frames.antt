-- ===== src/Server/Chat/Frames.antt =====
-- Which frames a stream has.
use kubernetes_agent.Base.{ℕ, suc, List, [], ◌∷◌, ◌++◌, ◌≡◌, refl, ap, ◌↔◌}
use kubernetes_agent.Server.Chat.{Frame, frame, Forward, returns, sends}

module _ {ℓ} {E : Type ℓ} where
  -- events under the numbers after `k`
  unfoldable pub numbered : ℕ → List E → List (Frame E)
  numbered k [] = []
  numbered k (e ∷ events) = frame (suc k) e ∷ numbered (suc k) events

  Forward-numbered :
      (k : ℕ) (events : List E) (frames : List (Frame E))
      → Forward k events frames
      → (sent : List E) × (lost : List E) × (events ≡ sent ++ lost) × (frames ≡ numbered k sent)
  unfolding numbered
  Forward-numbered k _ _ (returns _ events) = ([], events, refl, refl)
  Forward-numbered k _ _ (sends _ e events frames f) =
      let (sent, lost, split, same) = Forward-numbered (suc k) events frames f in
      (e ∷ sent, lost, ap (λ es. e ∷ es) split, ap (λ fs. frame (suc k) e ∷ fs) same)

  numbered-Forward : (k : ℕ) (sent lost : List E) → Forward k (sent ++ lost) (numbered k sent)
  unfolding numbered
  numbered-Forward k [] lost = returns k lost
  numbered-Forward k (e ∷ sent) lost =
      sends k e (sent ++ lost) (numbered (suc k) sent) (numbered-Forward (suc k) sent lost)

  -- The frames of a stream are some first events of the run, in order and under consecutive numbers; and
  -- for every way to cut the events in two the first part may be all that is sent, also where the run
  -- ends well.
  pub Forward-iff :
      (k : ℕ) (events : List E) (frames : List (Frame E))
      → Forward k events frames
        ↔ ((sent : List E) × (lost : List E) × (events ≡ sent ++ lost) × (frames ≡ numbered k sent))
  Forward-iff k events frames = (
    Forward-numbered k events frames,
    λ (sent, lost, split, same). rw (split, same) (numbered-Forward k sent lost),
  )
