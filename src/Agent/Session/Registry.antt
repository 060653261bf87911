-- ===== src/Agent/Session/Registry.antt =====
-- The SessionManager as a map.
use kubernetes_agent.Base.{
  ◌≡◌, refl, sym, ap, String, false, [], ◌∷◌, none, some, ◌==◌, eq_iff, eq_refl, Bool-cases, inl,
  inr, arith,
}
use kubernetes_agent.Agent.Session.{Session, Sessions, find, set, drop}

pub find-set : (id : String) (s : Session) (m : Sessions) → find id (set id s m) ≡ some s
unfolding find set
find-set id s [] = rw (eq_refl id)
find-set id s ((k, old) ∷ rest) = ground (arith, find-set id s rest)

pub find-set_other :
    (id j : String) (s : Session) (m : Sessions)
    → (id == j) ≡ false
    → find j (set id s m) ≡ find j m
unfolding find set
find-set_other id j s [] h = rw h
find-set_other id j s ((k, old) ∷ rest) h =
    ground (arith, find-set_other id j s rest h, eq_iff k id, eq_iff k j, eq_iff id j)

pub set-same : (id : String) (s : Session) (m : Sessions) → find id m ≡ some s → set id s m ≡ m
unfolding find set
set-same id s [] h = cc h
set-same id s ((k, old) ∷ rest) h = elim (Bool-cases (k == id)) [
  | inl e ↦ let same : old ≡ s = ground (arith, e, h) in rw e (ap (λ x. (k, x) ∷ rest) (sym same))
  | inr e ↦
      let later : find id rest ≡ some s = ground (arith, e, h) in
      rw e (ap (λ m. (k, old) ∷ m) (set-same id s rest later))
]

find-drop : (id : String) (m : Sessions) → find id (drop id m) ≡ none
unfolding find drop
find-drop id [] = refl
find-drop id ((k, s) ∷ rest) = ground (arith, find-drop id rest)
