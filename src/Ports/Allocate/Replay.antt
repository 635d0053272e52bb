-- ===== src/Ports/Allocate/Replay.antt =====
-- A restart gets the same ports back while they are still free.
use greffer.Ports.Daemon.{PortSets, holds}
use greffer.Ports.Allocate.{Port, is_l4, Node, Start}
use greffer.Ports.Allocate.Assigned.{Assigned}
use greffer.Ports.Allocate.Run.{reserved}
use greffer.Prelude.{
  ap, sym, ◌∙◌, or_else, ℕ, String, ◌≡◌, sym, ap, ◌∙◌, Bool, true, false, ◌&&◌, ◌||◌, List, [], ◌∷◌,
  ◌==◌, string_eq, or_else, Dict, get,
}

-- Whether an L4 entry has the name.
abbrev pub named : String → List Port → Bool
named name [] = false
named name (p ∷ ps) = (is_l4 p && p.port_name == name) || named name ps

-- No two L4 entries share a name.
abbrev pub NamesDistinct : List Port → Type 0
NamesDistinct [] = Unit
NamesDistinct (p ∷ ps) = ((is_l4 p && named p.port_name ps) ≡ false) × NamesDistinct ps

-- The last ports that a request reads are those that the entries have.
abbrev Recalls : Dict String ℕ → List Port → Type 0
Recalls sticky [] = Unit
Recalls sticky (p ∷ ps) =
    (is_l4 p ≡ true → get sticky p.port_name ≡ p.port_host) × Recalls sticky ps

-- The same ports have been handed out so far, protocol by protocol.
abbrev SameBatch : PortSets → PortSets → Type 0
SameBatch b c = (q : String) (k : ℕ) → holds b q k ≡ holds c q k

-- The ports that others hold, as a start would read them from this node.
abbrev pub held_by_others : Start → Node → PortSets → String → ℕ → Bool
held_by_others st n occupied q k = holds occupied q k || holds (reserved st n occupied) q k
