-- ===== src/Ports/Pending/Guard.antt =====
-- A live reservation of another instance is never lost: after a prune its port is either occupied
-- in the daemon's view or among the ports reserved by others.
use greffer.Ports.Daemon.{PortSets, holds}
use greffer.Ports.Pending.{
  Reservation, Pending, prune_ports, store_reserved, pending_and_prune, mark_pending,
}
use greffer.Prelude.{
  ℕ, ◌+◌, ◌<◌, String, ◌≡◌, refl, ◌≢◌, true, false, ◌&&◌, ◌||◌, Option, some, List, [], ◌∷◌, arith,
  eq_iff, if◌then◌else◌, ◌==◌, nat_eq, string_eq, contains, Dict, get, get_or, put, get-put,
}

-- The reservation of a port, if there is one.
abbrev pub reservation : Pending → String → ℕ → Option Reservation
reservation p proto port = get (get_or p proto []) port

pub reservation-mark_pending :
    (ttl now : ℕ) (id proto q : String) (port k : ℕ) (p : Pending)
    → reservation (mark_pending ttl now id proto port p) q k ≡ (
        if proto == q && port == k
        then some (record { expiry = now + ttl; owner = id })
        else reservation p q k)
unfolding mark_pending
reservation-mark_pending ttl now id proto q port k p = ground (
  arith,
  get-put p proto q (put (get_or p proto []) port (record { expiry = now + ttl; owner = id })),
  eq_iff proto q,
  get-put (get_or p proto []) port k (record { expiry = now + ttl; owner = id }),
)

module _ (now : ℕ) (ex : String) where
  prune_ports-reserved :
      (occ : List ℕ) (m : Dict ℕ Reservation) (port : ℕ) (r : Reservation)
      → get m port ≡ some r
      → now < r.expiry
      → r.owner ≢ ex
      → contains port occ ≡ false
      → contains port (prune_ports now ex occ m).1 ≡ true
  unfolding prune_ports get contains
  prune_ports-reserved occ [] port r h live other free = cc
  prune_ports-reserved occ ((k, r') ∷ m) port r h live other free = ground (
    arith,
    prune_ports-reserved occ m port r,
    nat_eq.beq_iff k port,
    eq_iff r.owner ex,
    eq_iff r'.owner ex,
  )

  holds-store_reserved :
      (proto q : String) (port : ℕ) (reserved : List ℕ) (others : PortSets)
      → contains port reserved ≡ true
      → proto ≡ q
      → holds (store_reserved now ex proto reserved others) q port ≡ true
  unfolding store_reserved get contains
  holds-store_reserved proto q port [] others h e = cc
  holds-store_reserved proto q port (k ∷ reserved) others h e = ground (arith, eq_iff proto q)

  holds-store_reserved_ne :
      (proto q : String) (port : ℕ) (reserved : List ℕ) (others : PortSets)
      → (proto == q) ≡ false
      → holds (store_reserved now ex proto reserved others) q port ≡ holds others q port
  unfolding store_reserved get contains
  holds-store_reserved_ne proto q port [] others e = refl
  holds-store_reserved_ne proto q port (k ∷ reserved) others e = ground arith

  -- A reservation that has not expired and that another instance owns still guards its port
  -- after the prune: the daemon shows the port, or the returned sets hold it.
  pub pending_and_prune-guards :
      (occupied : PortSets) (p : Pending) (proto : String) (port : ℕ) (r : Reservation)
      → reservation p proto port ≡ some r
      → now < r.expiry
      → r.owner ≢ ex
      → (holds occupied proto port || holds (pending_and_prune now ex occupied p).1 proto port)
        ≡ true
  unfolding pending_and_prune get
  pending_and_prune-guards occupied [] proto port r h live other = cc
  pending_and_prune-guards occupied ((q, m) ∷ rest) proto port r h live other =
      let occ = get_or occupied q [] in
      let others = (pending_and_prune now ex occupied rest).1 in
      ground (
        arith,
        eq_iff q proto,
        prune_ports-reserved occ m port r,
        holds-store_reserved q proto port (prune_ports now ex occ m).1 others,
        holds-store_reserved_ne q proto port (prune_ports now ex occ m).1 others,
        pending_and_prune-guards occupied rest proto port r,
      )
