-- ===== src/Ports/Pending.antt =====
-- The in-process reservations of apps/utils/docker/l4_ports.py: `_pending`, its pruning and
-- `mark_pending`. Times are readings of the monotonic clock, in ticks.
pub mod Guard
pub mod Ttl
use greffer.Ports.Daemon.{PortSets}
use greffer.Prelude.{
  ℕ, zero, suc, ◌+◌, ◌-◌, ◌*◌, ◌≤◌, ◌<◌, String, ◌≡◌, refl, sym, ap, ◌∙◌, ◌≢◌, ◌↔◌, ◌⊎◌, inl, inr,
  Bool, true, false, not, ◌&&◌, ◌||◌, Option, none, some, List, [], ◌∷◌, ◌++◌, map, arith, eq_iff,
  ltb, leb, if◌then◌else◌, Eq, ◌==◌, ◌!=◌, nat_eq, string_eq, Bool-cases, Option-cases, or_else,
  All, All-append, length, select, any, every, contains, contains-append, Dict, get, get_or, put,
  pop, get-put, get-pop, lower,
}

pub record Reservation : Type 0 where
  pub expiry : ℕ
  pub owner : String

-- `_pending`: proto -> {port: (expiry, owner)}
abbrev pub Pending : Type 0
Pending = Dict String (Dict ℕ Reservation)

module _ (now : ℕ) (exclude_instance : String) where
  -- The inner loop: the reservations kept, and the ports reserved by other instances.
  unfoldable pub prune_ports : List ℕ → Dict ℕ Reservation → Dict ℕ Reservation × List ℕ
  prune_ports occ [] = ([], [])
  prune_ports occ ((port, r) ∷ m) =
      let (kept, reserved) = prune_ports occ m in
      if leb r.expiry now || contains port occ
      then (kept, reserved)
      else ((port, r) ∷ kept, (if r.owner != exclude_instance then port ∷ reserved else reserved))

  -- `if kept: _pending[proto] = kept else: _pending.pop(proto)`
  unfoldable pub store_kept : String → Dict ℕ Reservation → Pending → Pending
  store_kept proto [] p = p
  store_kept proto (r ∷ kept) p = (proto, r ∷ kept) ∷ p

  -- `if reserved: others[proto] = reserved`
  unfoldable pub store_reserved : String → List ℕ → PortSets → PortSets
  store_reserved proto [] others = others
  store_reserved proto (port ∷ reserved) others = (proto, port ∷ reserved) ∷ others

  -- The reservations that stay, and the ports that other instances reserve. The keys of
  -- `_pending` are distinct, so each protocol's reservations are replaced in place.
  unfoldable pub pending_and_prune : PortSets → Pending → Pending × PortSets
  unfolding prune_ports store_kept store_reserved
  pending_and_prune occupied [] = ([], [])
  pending_and_prune occupied ((proto, m) ∷ rest) =
      let (kept, reserved) = prune_ports (get_or occupied proto []) m in
      let (p, others) = pending_and_prune occupied rest in
      (store_kept proto kept p, store_reserved proto reserved others)

-- `now` is the clock at the time of the call.
unfoldable pub mark_pending : ℕ → ℕ → String → String → ℕ → Pending → Pending
mark_pending ttl now instance_id proto port pending =
    put pending proto
      (put (get_or pending proto []) port (record { expiry = now + ttl; owner = instance_id }))
