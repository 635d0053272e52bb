-- ===== src/Ports/Allocate/Race.antt =====
-- Two starts of different instances, one after the other under the lock.
use greffer.Ports.Allocate.{Port, is_l4, ok, Node, Start, request, allocate}
use greffer.Ports.Allocate.Fresh.{hosts}
use greffer.Ports.Allocate.Marked.{Assigned-marks}
use greffer.Ports.Allocate.Collision.{allocate_no_l4, hosts_of_no_l4, allocate_avoids_reserved}
use greffer.Ports.Allocate.Run.{allocate-Ran}
use greffer.Ports.Pending.Guard.{reservation}
use greffer.Prelude.{
  ap, ◌∙◌, ℕ, ◌+◌, ◌<◌, String, ◌≡◌, ◌≢◌, inl, inr, true, false, some, List, arith, nat_eq,
  string_eq, Bool-cases, any, contains,
}

-- What a successful start hands out is reserved for it in the process state that it leaves.
allocate-marks :
    (st : Start) (ports : List Port) (n : Node) (ports' : List Port) (n' : Node) (proto : String)
    (port : ℕ)
    → allocate st ports n ≡ (ok ports', n')
    → contains port (hosts proto ports') ≡ true
    → (k : ℕ) × (reservation n'.pending proto port
        ≡ some (record { expiry = st.clock k + st.ttl; owner = st.instance_id }))
unfolding request contains
allocate-marks st ports n ports' n' proto port run h = elim (Bool-cases (any is_l4 ports)) [
  | inl l4 ↦
      let a = allocate-Ran st ports n ports' n' l4 run in
      let (k, marked) = Assigned-marks proto port a.assigned h in
      (k, ap (λ p. reservation p proto port) a.pending ∙ marked)
  | inr none_l4 ↦ absurd (
      ground (
        arith,
        (allocate_no_l4 st ports n ports' n' none_l4 run).0,
        hosts_of_no_l4 proto ports none_l4,
      ))
]

-- If two different instances start one after the other, and the second starts before any
-- reservation of the first has expired, then they share no host port of a protocol, whatever the
-- daemon shows to either.
pub allocate_twice_disjoint :
    (st₁ st₂ : Start) (ports₁ ports₂ : List Port) (n : Node) (ports₁' ports₂' : List Port)
    (n₁ n₂ : Node) (proto : String) (port : ℕ)
    → allocate st₁ ports₁ n ≡ (ok ports₁', n₁)
    → allocate st₂ ports₂ n₁ ≡ (ok ports₂', n₂)
    → st₁.instance_id ≢ st₂.instance_id
    → ((k : ℕ) → st₂.now < st₁.clock k + st₁.ttl)
    → contains port (hosts proto ports₁') ≡ true
    → contains port (hosts proto ports₂') ≡ false
allocate_twice_disjoint st₁ st₂ ports₁ ports₂ n ports₁' ports₂' n₁ n₂ proto port run₁ run₂ other
      early h =
    let (k, marked) = allocate-marks st₁ ports₁ n ports₁' n₁ proto port run₁ h in
    allocate_avoids_reserved st₂ ports₂ n₁ ports₂' n₂ proto run₂ port
      (record { expiry = st₁.clock k + st₁.ttl; owner = st₁.instance_id }) marked (early k) other
