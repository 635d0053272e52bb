-- ===== src/Ports/Allocate/Fresh.antt =====
-- The ports of one allocation collide neither with what others hold nor with one another.
use greffer.Ports.Free.{lowest_free_port}
use greffer.Ports.Free.Lowest.{lowest_free_port-Picked}
use greffer.Ports.Daemon.{PortSets, add_port, holds}
use greffer.Ports.Daemon.Published.{holds-add_port}
use greffer.Ports.Allocate.{Port, is_l4, ok, Progress, Request, taken, choose, advance}
use greffer.Ports.Allocate.Assigned.{Assigned, done, skip, give}
use greffer.Prelude.{
  ℕ, String, ◌≡◌, true, false, ◌&&◌, ◌||◌, Option, none, some, List, [], ◌∷◌, arith, eq_iff,
  if◌then◌else◌, ◌==◌, nat_eq, string_eq, contains, contains-append, get,
}

-- The host ports that the L4 entries of a protocol have.
host_cons : Option ℕ → List ℕ → List ℕ
host_cons none ports = ports
host_cons (some port) ports = port ∷ ports

unfoldable pub hosts : String → List Port → List ℕ
unfolding host_cons
hosts proto [] = []
hosts proto (p ∷ ps) =
    let rest = hosts proto ps in
    if is_l4 p && p.protocol == proto then host_cons p.port_host rest else rest

abbrev pub Distinct : List ℕ → Type 0
Distinct [] = Unit
Distinct (x ∷ xs) = (contains x xs ≡ false) × Distinct xs

pub contains-taken :
    (r : Request) (batch : PortSets) (proto : String) (port : ℕ)
    → contains port (taken r batch proto)
      ≡ (holds r.occupied proto port || (holds r.reserved proto port || holds batch proto port))
unfolding taken
contains-taken r batch proto port = simp contains-append

lowest-free :
    (start end : ℕ) (held : List ℕ) (port : ℕ)
    → lowest_free_port start end held ≡ some port
    → contains port held ≡ false
lowest-free start end held port h =
    let picked = lowest_free_port-Picked start end held in (rw h at picked).free

pub choose-free :
    (r : Request) (p : Port) (held : List ℕ) (prev : Option ℕ) (port : ℕ)
    → choose r p held prev ≡ ok port
    → contains port held ≡ false
unfolding choose
choose-free r p held none port h = ground (arith, lowest-free r.range_start r.range_end held port)
choose-free r p held (some prev) port h =
    ground (arith, lowest-free r.range_start r.range_end held port)

module _ {r : Request} (proto : String) where
  pub Assigned-fresh :
      {i : ℕ} {ps ps' : List Port} {s s' : Progress}
      → Assigned r i ps s ps' s'
      → (port : ℕ) → contains port (hosts proto ps') ≡ true
      → contains port (taken r s.batch proto) ≡ false
  unfolding hosts contains advance
  Assigned-fresh done port h = cc
  Assigned-fresh {s = s} (skip {p = p} other a) port h = Assigned-fresh a port (ground arith)
  Assigned-fresh {s = s} (give {p = p} {ps' = ps'} new l4 e a) port h = ground (
    arith,
    Assigned-fresh a port,
    choose-free r p (taken r s.batch p.protocol) (get r.sticky p.port_name) new,
    contains-taken r (add_port s.batch p.protocol new) proto port,
    contains-taken r s.batch proto port,
    holds-add_port s.batch p.protocol proto new port,
    eq_iff p.protocol proto,
    nat_eq.beq_iff new port,
  )

  pub Assigned-Distinct :
      {i : ℕ} {ps ps' : List Port} {s s' : Progress}
      → Assigned r i ps s ps' s'
      → Distinct (hosts proto ps')
  unfolding hosts advance
  Assigned-Distinct done = tt
  Assigned-Distinct (skip {p = p} other a) = ground (arith, Assigned-Distinct a)
  Assigned-Distinct {s = s} (give {p = p} {ps' = ps'} new l4 e a) = ground (
    arith,
    Assigned-Distinct a,
    Assigned-fresh a new,
    contains-taken r (add_port s.batch p.protocol new) proto new,
    holds-add_port s.batch p.protocol proto new new,
    eq_iff p.protocol proto,
    nat_eq.beq_iff new new,
  )
