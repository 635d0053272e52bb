-- ===== src/Ports/Daemon.antt =====
-- `published_l4_ports` of apps/utils/docker/l4_ports.py: which host ports running containers hold.
pub mod Published
use greffer.Prelude.{
  ℕ, zero, suc, ◌+◌, ◌-◌, ◌*◌, ◌≤◌, ◌<◌, String, ◌≡◌, refl, sym, ap, ◌∙◌, ◌≢◌, ◌↔◌, ◌⊎◌, inl, inr,
  Bool, true, false, not, ◌&&◌, ◌||◌, Option, none, some, List, [], ◌∷◌, ◌++◌, map, arith, eq_iff,
  ltb, leb, if◌then◌else◌, Eq, ◌==◌, ◌!=◌, nat_eq, string_eq, Bool-cases, Option-cases, or_else,
  All, All-append, length, select, any, every, contains, contains-append, Dict, get, get_or, put,
  pop, get-put, get-pop, lower,
}

-- The sets of host ports, by protocol: `{proto: set(int)}`.
abbrev pub PortSets : Type 0
PortSets = Dict String (List ℕ)

-- set.add
unfoldable pub add : ℕ → List ℕ → List ℕ
add p s = if contains p s then s else p ∷ s

-- d.setdefault(proto, set()).add(port)
unfoldable pub add_port : PortSets → String → ℕ → PortSets
unfolding add
add_port d proto port = put d proto (add port (get_or d proto []))

-- d.get(proto, set()) as a membership test
abbrev pub holds : PortSets → String → ℕ → Bool
holds d proto port = contains port (get_or d proto [])

-- An entry of `Ports`: a dict with an optional `PublicPort` and `Type`, or some other value.
pub data PortEntry : Type 0 where
  not_a_dict : PortEntry
  entry : Option ℕ → Option String → PortEntry

-- The attributes that the parse reads; a missing or null attribute is `none`.
pub record Attrs : Type 0 where
  pub labels : Option (Dict String String)
  pub ports : Option (List PortEntry)

-- The outcome of `client.containers.list(sparse=True)`: running containers, each with its
-- `attrs`, or an exception of docker, the socket or the HTTP client.
pub data Listing : Type 0 where
  listed : List (Option Attrs) → Listing
  unreachable : Listing

abbrev pub project_label : String
project_label = "com.docker.compose.project"

-- `(spec.get("Type") or "tcp").lower()`: an absent and an empty type are both "tcp".
unfoldable pub proto_of : Option String → String
proto_of none = lower "tcp"
proto_of (some t) = lower (if t == "" then "tcp" else t)

unfoldable pub is_project : Option String → String → Bool
is_project none project = false
is_project (some label) project = label == project

-- Whether the container belongs to the excluded compose project.
unfoldable pub is_excluded : Option String → Attrs → Bool
unfolding is_project
is_excluded none a = false
is_excluded (some project) a = is_project (get (or_else a.labels []) project_label) project

unfoldable pub in_range : ℕ → ℕ → ℕ → Bool
in_range start end port = leb start port && leb port end

module _ (start end : ℕ) where
  unfoldable pub add_entry : PortEntry → PortSets → PortSets
  unfolding add_port in_range
  add_entry not_a_dict occupied = occupied
  add_entry (entry none kind) occupied = occupied
  add_entry (entry (some port) kind) occupied =
      if in_range start end port then add_port occupied (proto_of kind) port else occupied

  unfoldable pub add_entries : List PortEntry → PortSets → PortSets
  add_entries [] occupied = occupied
  add_entries (spec ∷ specs) occupied = add_entries specs (add_entry spec occupied)

  unfoldable pub add_container : Option String → Option Attrs → PortSets → PortSets
  add_container exclude none occupied = occupied
  add_container exclude (some a) occupied =
      if is_excluded exclude a then occupied else add_entries (or_else a.ports []) occupied

  unfoldable pub add_containers : Option String → List (Option Attrs) → PortSets → PortSets
  add_containers exclude [] occupied = occupied
  add_containers exclude (c ∷ cs) occupied =
      add_containers exclude cs (add_container exclude c occupied)

  -- `none` is the exception L4PortsUnavailable.
  unfoldable pub published_l4_ports : Option String → Listing → Option PortSets
  published_l4_ports exclude (listed cs) = some (add_containers exclude cs [])
  published_l4_ports exclude unreachable = none
