-- ===== src/Ports/Allocate/Collision.antt =====
-- An allocation never hands out a port that a running container of another project publishes,
-- that another instance has reserved, or that it hands out itself for the same protocol.
use greffer.Ports.Daemon.{published_l4_ports, Attrs, listed, holds}
use greffer.Ports.Daemon.Published.{container_publishes, published_l4_ports-holds}
use greffer.Ports.Pending.{Reservation}
use greffer.Ports.Pending.Guard.{reservation, pending_and_prune-guards}
use greffer.Ports.Allocate.{Port, is_l4, ok, Node, Start, request, allocate}
use greffer.Ports.Allocate.Fresh.{
  hosts, Distinct, contains-taken, Assigned-fresh, Assigned-Distinct,
}
use greffer.Ports.Allocate.Run.{Ran, reserved, allocate-Ran}
use greffer.Prelude.{
  ap, or_false, ℕ, ◌<◌, String, ◌≡◌, refl, sym, ◌∙◌, ◌≢◌, inl, inr, true, false, Option, some, List,
  [], ◌∷◌, arith, nat_eq, string_eq, Bool-cases, any, contains, sym, ◌∙◌, ◌≢◌, ◌<◌,
}

pub hosts_of_no_l4 : (proto : String) (ps : List Port) → any is_l4 ps ≡ false → hosts proto ps ≡ []
unfolding hosts any
hosts_of_no_l4 proto [] h = refl
hosts_of_no_l4 proto (p ∷ ps) h = ground (arith, hosts_of_no_l4 proto ps)

pub allocate_no_l4 :
    (st : Start) (ports : List Port) (n : Node) (ports' : List Port) (n' : Node)
    → any is_l4 ports ≡ false
    → allocate st ports n ≡ (ok ports', n')
    → (ports' ≡ ports) × (n' ≡ n)
unfolding allocate
allocate_no_l4 st ports n ports' n' none_l4 h = let h' = rw none_l4 at h in (cc h', cc h')

module _ (st : Start) (ports : List Port) (n : Node) (ports' : List Port) (n' : Node)
    (proto : String) (run : allocate st ports n ≡ (ok ports', n')) where
  -- In a start that succeeds, no two L4 entries get the same host port for one protocol.
  pub allocate-Distinct : Distinct (hosts proto ports')
  allocate-Distinct = elim (Bool-cases (any is_l4 ports)) [
    | inl l4 ↦ Assigned-Distinct proto (allocate-Ran st ports n ports' n' l4 run).assigned
    | inr none_l4 ↦
        rw ((allocate_no_l4 st ports n ports' n' none_l4 run).0, hosts_of_no_l4 proto ports none_l4)
          tt
  ]

  -- Every port handed out is outside the sets that the loop had read.
  allocate-fresh :
      (port : ℕ)
      → contains port (hosts proto ports') ≡ true
      → (a : Ran st ports n ports' n') × (holds a.occupied proto port ≡ false)
        × (holds (reserved st n a.occupied) proto port ≡ false)
  unfolding request contains
  allocate-fresh port h = elim (Bool-cases (any is_l4 ports)) [
    | inl l4 ↦
        let a = allocate-Ran st ports n ports' n' l4 run in
        let free = rw contains-taken at (Assigned-fresh proto a.assigned port h) in
        let (unoccupied, rest) = or_false _ _ free in (a, unoccupied, (or_false _ _ rest).0)
    | inr none_l4 ↦ absurd (
        ground (
          arith,
          (allocate_no_l4 st ports n ports' n' none_l4 run).0,
          hosts_of_no_l4 proto ports none_l4,
        ))
  ]

  -- A start that succeeds hands out no port that a running container outside the instance's own
  -- project publishes in the range for the same protocol.
  pub allocate_avoids_published :
      (cs : List (Option Attrs)) (port : ℕ)
      → st.listing ≡ listed cs
      → contains port (hosts proto ports') ≡ true
      → any (container_publishes st.range_start st.range_end proto port (some st.instance_id)) cs
        ≡ false
  allocate_avoids_published cs port e h =
      let (a, unoccupied, _) = allocate-fresh port h in
      let seen =
        published_l4_ports-holds st.range_start st.range_end (some st.instance_id) cs a.occupied
          proto port
          (ap (λ l. published_l4_ports st.range_start st.range_end (some st.instance_id) l) (sym e)
            ∙ a.published) in
      sym seen ∙ unoccupied

  -- A start that succeeds hands out no port that another instance has reserved for the same
  -- protocol, while the reservation has time left.
  pub allocate_avoids_reserved :
      (port : ℕ) (r : Reservation)
      → reservation n.pending proto port ≡ some r
      → st.now < r.expiry
      → r.owner ≢ st.instance_id
      → contains port (hosts proto ports') ≡ false
  allocate_avoids_reserved port r e live other =
      elim (Bool-cases (contains port (hosts proto ports'))) [
        | inl h ↦
            let (a, unoccupied, unreserved) = allocate-fresh port h in
            let guarded =
              pending_and_prune-guards st.now st.instance_id a.occupied n.pending proto port r e
                live other in
            absurd (ground (arith, guarded, unoccupied, unreserved))
        | inr h ↦ h
      ]
