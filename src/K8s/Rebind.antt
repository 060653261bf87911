-- ===== src/K8s/Rebind.antt =====
-- What the loop over the operations in k8s_plan_write and k8s_execute_plan of internal/agent/tools.go
-- does to each: encoding/json prints it, reads the text into a map[string]any, prints the map with the
-- session's cluster_id, and reads that into the operation. The map has `replicas` as a float64; it is
-- printed by the fewest digits that give that float64 back, padded with zeros, and an integer that is out
-- of the range of `int` is an error, at which UnmarshalJSON leaves the operation as it was. The texts,
-- and the manifest, whose numbers are float64 from the start, come back as they were.
use kubernetes_agent.Base.{
  ℕ, zero, suc, ◌+◌, ◌-◌, ◌*◌, ◌/◌, ◌%◌, ◌^◌, ◌≤◌, ◌<◌, String, Bool, true, false, Option, none,
  some, ◌≡◌, refl, ◌⊎◌, ltb, leb, nat_eq, ◌&&◌, ◌||◌, if◌then◌else◌, arith, inl, inr, Bool-cases,
  Option-cases,
}
use kubernetes_agent.K8s.Op.{Replicas, Operation}

-- the multiple of `unit` next to a number, the even one of two
unfoldable pub nearest : ℕ → ℕ → ℕ
nearest unit n =
    let q = n / unit in
    let twice = 2 * (n % unit) in
    if ltb unit twice || (nat_eq unit twice && nat_eq (q % 2) 1) then (q + 1) * unit else q * unit

-- the float64 next to a number of at most 65 bits, as a number: 53 bits of it, from the unit on
unfoldable pub round_from : ℕ → ℕ → ℕ → ℕ
unfolding nearest
round_from zero unit n = nearest unit n
round_from (suc fuel) unit n =
    let more = round_from fuel (2 * unit) n in
    if ltb n (2 ^ 53 * unit) then nearest unit n else more

unfoldable pub to_float : ℕ → ℕ
unfolding round_from
to_float n = round_from 12 1 n

-- of the two numbers of so many digits about a float64, the one that gives it back, the nearer of two
unfoldable pub shortest_at : ℕ → ℕ → Option ℕ
unfolding to_float
shortest_at unit v =
    let down = v / unit * unit in
    let up = down + unit in
    let down_ok = nat_eq (to_float down) v in
    let up_ok = nat_eq (to_float up) v in
    if down_ok && (ltb (v - down) (up - v) || (if up_ok then false else true))
    then some down
    else if up_ok
    then some up
    else none

abbrev pub or_shorter : Option ℕ → ℕ → ℕ
or_shorter none n = n
or_shorter (some m) n = m

-- from the fewest digits on
unfoldable pub print_from : ℕ → ℕ → ℕ
unfolding shortest_at
print_from zero v = v
print_from (suc k) v = or_shorter (shortest_at (10 ^ suc k) v) (print_from k v)

-- the number that is printed for the float64 of an integer; one below 2^53 has all its digits
unfoldable pub printed_float : ℕ → ℕ
unfolding print_from to_float
printed_float n = if ltb n (2 ^ 53) then n else print_from 19 (to_float n)

-- the magnitudes of an `int`
abbrev pub max_magnitude : Bool → ℕ
max_magnitude negative = if negative then 2 ^ 63 else 2 ^ 63 - 1

-- an integer after its way through the map
unfoldable pub reread : Replicas → Option Replicas
unfolding printed_float
reread n =
    let m = printed_float n.magnitude in
    if leb m (max_magnitude n.negative) then some (record n { magnitude = m }) else none

abbrev pub some_replicas : Option Replicas → Option (Option Replicas)
some_replicas none = none
some_replicas (some n) = some (some n)

unfoldable pub reread_replicas : Option Replicas → Option (Option Replicas)
unfolding reread
reread_replicas none = some none
reread_replicas (some n) = some_replicas (reread n)

-- the operation after a reading of its replicas that succeeded or failed
abbrev pub rebound : String → Operation → Option (Option Replicas) → Operation
rebound bound op none = op
rebound bound op (some r) = record op { replicas = r; cluster_id = bound }

-- the loop's body
unfoldable pub bind_op : String → Operation → Operation
unfolding reread_replicas
bind_op bound op = rebound bound op (reread_replicas op.replicas)

-- an operation that keeps its own cluster: its replicas are beyond 2^53 and are not read back
pub record KeepsCluster (op : Operation) : Type 0 where
  pub replicas : Replicas
  pub has : op.replicas ≡ some replicas
  pub unread : reread replicas ≡ none
  pub large : 2 ^ 53 ≤ replicas.magnitude

ltb_of : (a b : ℕ) → a < b → ltb a b ≡ true
ltb_of a b h = ground (arith, h)

leb_of : (a b : ℕ) → a ≤ b → leb a b ≡ true
leb_of a b h = ground (arith, h)

le_of_ltb : (a b : ℕ) → ltb a b ≡ false → b ≤ a
le_of_ltb a b h = ground (arith, h)

printed_float-small : (n : ℕ) → ltb n (2 ^ 53) ≡ true → printed_float n ≡ n
unfolding printed_float
printed_float-small n h = rw h

in_int : (negative : Bool) (n : ℕ) → n < 2 ^ 53 → n ≤ max_magnitude negative
in_int true n h = omega (arith, h)
in_int false n h = omega (arith, h)

-- an integer below 2^53 is read back as it was
pub reread-small : (n : Replicas) → n.magnitude < 2 ^ 53 → reread n ≡ some n
unfolding reread
reread-small n h = rw (
  printed_float-small n.magnitude (ltb_of n.magnitude (2 ^ 53) h),
  leb_of n.magnitude (max_magnitude n.negative) (in_int n.negative n.magnitude h),
)

lt_of_ltb : (a b : ℕ) → ltb a b ≡ true → a < b
lt_of_ltb a b h = ground (arith, h)

reread-large : (n : Replicas) → reread n ≡ none → 2 ^ 53 ≤ n.magnitude
reread-large n h = elim (Bool-cases (ltb n.magnitude (2 ^ 53))) [
  | inl e ↦ let same = reread-small n (lt_of_ltb n.magnitude (2 ^ 53) e) in cc (h, same)
  | inr e ↦ le_of_ltb n.magnitude (2 ^ 53) e
]

-- an operation is bound to the cluster, or it is left as it was
pub bind_op-cases :
    (bound : String) (op : Operation)
    → ((bind_op bound op).cluster_id ≡ bound) ⊎ ((bind_op bound op ≡ op) × KeepsCluster op)
unfolding bind_op reread_replicas
bind_op-cases bound op = by_replicas op.replicas refl
  where
    by_replicas :
        (r : Option Replicas)
        → op.replicas ≡ r
        → ((rebound bound op (reread_replicas op.replicas)).cluster_id ≡ bound)
          ⊎ ((rebound bound op (reread_replicas op.replicas) ≡ op) × KeepsCluster op)
    by_replicas none e = inl (rw e)
    by_replicas (some n) e = elim (Option-cases (reread n)) [
      | inl h ↦
          inr (rw (e, h), record { replicas = n; has = e; unread = h; large = reread-large n h })
      | inr (m, h) ↦ inl (rw (e, h))
    ]
