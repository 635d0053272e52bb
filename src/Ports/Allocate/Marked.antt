-- ===== src/Ports/Allocate/Marked.antt =====
-- Every port that the loop hands out is reserved for the instance, and it touches no other
-- reservation.
use greffer.Ports.Pending.{Reservation}
use greffer.Ports.Pending.Guard.{reservation, reservation-mark_pending}
use greffer.Ports.Allocate.{Port, Progress, Request, advance}
use greffer.Ports.Allocate.Assigned.{Assigned, done, skip, give}
use greffer.Ports.Allocate.Fresh.{hosts}
use greffer.Prelude.{
  ℕ, ◌+◌, String, ◌≡◌, refl, inl, inr, true, false, some, List, arith, nat_eq, string_eq,
  Bool-cases, contains,
}

abbrev pub mark : Request → ℕ → Reservation
mark r k = record { expiry = r.clock k + r.ttl; owner = r.instance_id }

module _ {r : Request} (proto : String) (port : ℕ) where
  -- The reservation of a port that is not handed out stays as it was.
  pub Assigned-keeps :
      {i : ℕ} {ps ps' : List Port} {s s' : Progress}
      → Assigned r i ps s ps' s'
      → contains port (hosts proto ps') ≡ false
      → reservation s'.pending proto port ≡ reservation s.pending proto port
  unfolding hosts contains advance
  Assigned-keeps done h = refl
  Assigned-keeps (skip {p = p} other a) h = ground (arith, Assigned-keeps a)
  Assigned-keeps {i = i} {s = s} (give {p = p} new l4 e a) h = ground (
    arith,
    Assigned-keeps a,
    reservation-mark_pending r.ttl (r.clock i) r.instance_id p.protocol proto new port s.pending,
  )

  -- A port that is handed out is reserved, until `ttl` after a reading of the clock.
  pub Assigned-marks :
      {i : ℕ} {ps ps' : List Port} {s s' : Progress}
      → Assigned r i ps s ps' s'
      → contains port (hosts proto ps') ≡ true
      → (k : ℕ) × (reservation s'.pending proto port ≡ some (mark r k))
  unfolding hosts contains
  Assigned-marks done h = cc
  Assigned-marks (skip {p = p} other a) h = Assigned-marks a (ground arith)
  Assigned-marks {i = i} {s = s} (give {p = p} {ps' = ps'} {s' = s'} new l4 e a) h =
      elim (Bool-cases (contains port (hosts proto ps'))) [
        | inl later ↦ Assigned-marks a later
        | inr now ↦ (
          i,
          (unfold advance in
              ground (
                arith,
                Assigned-keeps a now,
                reservation-mark_pending r.ttl (r.clock i) r.instance_id p.protocol proto new port
                    s.pending,
              )),
        )
      ]
