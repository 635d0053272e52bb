-- ===== src/Ports/Allocate/Stable.antt =====
-- Which port an L4 entry gets, given its last one.
use mathlib.Core.Path.{subst}
use greffer.Ports.Sticky.{Sidecar, load}
use greffer.Ports.Allocate.{
  Port, is_l4, ok, Progress, Request, Node, Start, taken, choose, request, allocate,
}
use greffer.Ports.Allocate.Assigned.{Assigned, done, skip, give, chosen}
use greffer.Ports.Allocate.Run.{allocate-Ran}
use greffer.Prelude.{
  ℕ, zero, suc, ◌≡◌, true, false, Option, none, some, List, [], ◌∷◌, arith, ◌==◌, nat_eq, string_eq,
  any, get, get_or,
}

module _ {ℓ} {A : Type ℓ} where
  abbrev pub get_elem? : List A → ℕ → Option A
  get_elem? [] i = none
  get_elem? (x ∷ xs) zero = some x
  get_elem? (x ∷ xs) (suc i) = get_elem? xs i

-- With a last port, an endpoint pinned on a proxy node gets that port or raises.
choose_pinned :
    (r : Request) (p : Port) (held : List ℕ) (prev port : ℕ)
    → p.same_port ≡ true
    → r.is_tunnel ≡ false
    → choose r p held (some prev) ≡ ok port
    → port ≡ prev
unfolding choose
choose_pinned r p held prev port pinned proxy h = ground arith

any_of_elem :
    (ps : List Port) (k : ℕ) (p : Port)
    → get_elem? ps k ≡ some p
    → is_l4 p ≡ true
    → any is_l4 ps ≡ true
unfolding any
any_of_elem [] k p h l4 = cc
any_of_elem (q ∷ ps) zero p h l4 = ground arith
any_of_elem (q ∷ ps) (suc k) p h l4 = ground (arith, any_of_elem ps k p)

Assigned-pinned :
    {r : Request} {i : ℕ} {ps ps' : List Port} {s s' : Progress}
    → Assigned r i ps s ps' s'
    → (k : ℕ) (p : Port) (prev : ℕ) → get_elem? ps k ≡ some p
    → is_l4 p ≡ true
    → p.same_port ≡ true
    → r.is_tunnel ≡ false
    → get r.sticky p.port_name ≡ some prev
    → get_elem? ps' k ≡ some (record p { port_host = some prev })
Assigned-pinned done k p prev at l4 pinned proxy last = cc
Assigned-pinned (skip {p = q} other a) zero p prev at l4 pinned proxy last = ground arith
Assigned-pinned (skip other a) (suc k) p prev at l4 pinned proxy last =
    Assigned-pinned a k p prev at l4 pinned proxy last
Assigned-pinned {r = r} {s = s} (give {p = q} port l4' e a) zero p prev at l4 pinned proxy last =
    let same : q ≡ p = cc at in
    let picked = subst (λ u. chosen r u s ≡ ok port) same e in
    let kept =
      choose_pinned r p (taken r s.batch p.protocol) prev port pinned proxy (rw last at picked) in
    cc (same, kept)
Assigned-pinned (give port l4' e a) (suc k) p prev at l4 pinned proxy last =
    Assigned-pinned a k p prev at l4 pinned proxy last

-- On a proxy node a start that succeeds gives every `same_port` L4 endpoint exactly the port that
-- the instance's sidecar has under the endpoint's name, if it has one.
pub allocate_same_port :
    (st : Start) (ports : List Port) (n : Node) (ports' : List Port) (n' : Node) (k : ℕ) (p : Port)
    (prev : ℕ)
    → allocate st ports n ≡ (ok ports', n')
    → get_elem? ports k ≡ some p
    → is_l4 p ≡ true
    → p.same_port ≡ true
    → (st.l4_bind_host == "127.0.0.1") ≡ false
    → get (load (get_or n.sidecars st.instance_id Sidecar.unreadable)) p.port_name ≡ some prev
    → get_elem? ports' k ≡ some (record p { port_host = some prev })
unfolding request
allocate_same_port st ports n ports' n' k p prev run at l4 pinned proxy last =
    Assigned-pinned (allocate-Ran st ports n ports' n' (any_of_elem ports k p at l4) run).assigned k
      p prev at l4 pinned proxy last
