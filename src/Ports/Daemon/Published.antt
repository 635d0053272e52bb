-- ===== src/Ports/Daemon/Published.antt =====
-- The occupied ports are exactly those that a running container outside the excluded project
-- publishes inside the range.
use greffer.Ports.Daemon.{
  PortSets, add, add_port, holds, PortEntry, not_a_dict, entry, Attrs, listed, proto_of, is_project,
  is_excluded, in_range, add_entry, add_entries, add_container, add_containers, published_l4_ports,
}
use greffer.Prelude.{
  ℕ, String, ◌≡◌, refl, ap₂, inl, inr, Bool, false, not, ◌&&◌, ◌||◌, Option, none, some, List, [],
  ◌∷◌, arith, eq_iff, ltb, if◌then◌else◌, ◌==◌, nat_eq, string_eq, Bool-cases, or_else, any,
  contains, get, get_or, get-put, lower, lower_char,
}

contains-add : (p k : ℕ) (s : List ℕ) → contains k (add p s) ≡ (p == k || contains k s)
unfolding add contains
contains-add p k s = elim (Bool-cases (contains p s)) [
  | inl old ↦ ground (arith, nat_eq.beq_iff p k)
  | inr new ↦ ground arith
]

pub holds-add_port :
    (d : PortSets) (proto q : String) (p k : ℕ)
    → holds (add_port d proto p) q k ≡ ((proto == q && p == k) || holds d q k)
unfolding add_port
holds-add_port d proto q p k = ground (
  arith,
  get-put d proto q (add p (get_or d proto [])),
  eq_iff proto q,
  contains-add p k (get_or d proto []),
)

-- Whether an entry's type, where an absent and an empty one mean tcp, is the protocol, whatever its
-- case.
abbrev pub is_kind : String → Option String → Bool
is_kind proto none = "tcp" == proto
is_kind proto (some t) = if t == "" then "tcp" == proto else lower t == proto

-- Whether an entry of `Ports` publishes the port, which is neither below the start nor above the
-- end, for the protocol.
abbrev pub entry_publishes : ℕ → ℕ → String → ℕ → PortEntry → Bool
entry_publishes start end proto port not_a_dict = false
entry_publishes start end proto port (entry none kind) = false
entry_publishes start end proto port (entry (some p) kind) =
    p == port && not (ltb p start || ltb end p) && is_kind proto kind

abbrev pub is_label : Option String → String → Bool
is_label none project = false
is_label (some label) project = label == project

-- Whether the container's compose label names the project to leave out.
abbrev pub is_left_out : Option String → Attrs → Bool
is_left_out none a = false
is_left_out (some project) a =
    is_label (get (or_else a.labels []) "com.docker.compose.project") project

abbrev pub container_publishes : ℕ → ℕ → String → ℕ → Option String → Option Attrs → Bool
container_publishes start end proto port exclude none = false
container_publishes start end proto port exclude (some a) =
    not (is_left_out exclude a) && any (entry_publishes start end proto port) (or_else a.ports [])

module _ (start end : ℕ) (proto : String) (port : ℕ) where
  entry_lands : PortEntry → Bool
  entry_lands not_a_dict = false
  entry_lands (entry none kind) = false
  entry_lands (entry (some p) kind) = in_range start end p && (proto_of kind == proto && p == port)

  container_lands : Option String → Option Attrs → Bool
  unfolding entry_lands
  container_lands exclude none = false
  container_lands exclude (some a) =
      not (is_excluded exclude a) && any entry_lands (or_else a.ports [])

  add_entries-holds :
      (specs : List PortEntry) (d : PortSets)
      → holds (add_entries start end specs d) proto port
        ≡ (holds d proto port || any entry_lands specs)
  unfolding add_entries add_entry any entry_lands
  add_entries-holds [] d = ground arith
  add_entries-holds (not_a_dict ∷ specs) d = ground (arith, add_entries-holds specs d)
  add_entries-holds (entry none kind ∷ specs) d = ground (arith, add_entries-holds specs d)
  add_entries-holds (entry (some p) kind ∷ specs) d = ground (
    arith,
    add_entries-holds specs d,
    add_entries-holds specs (add_port d (proto_of kind) p),
    holds-add_port d (proto_of kind) proto p port,
  )

  add_containers-holds :
      (exclude : Option String) (cs : List (Option Attrs)) (d : PortSets)
      → holds (add_containers start end exclude cs d) proto port
        ≡ (holds d proto port || any (container_lands exclude) cs)
  unfolding add_containers add_container any container_lands
  add_containers-holds exclude [] d = ground arith
  add_containers-holds exclude (none ∷ cs) d = ground (arith, add_containers-holds exclude cs d)
  add_containers-holds exclude (some a ∷ cs) d = ground (
    arith,
    add_containers-holds exclude cs d,
    add_containers-holds exclude cs (add_entries start end (or_else a.ports []) d),
    add_entries-holds (or_else a.ports []) d,
  )

kind_same : (proto : String) (kind : Option String) → is_kind proto kind ≡ (proto_of kind == proto)
unfolding proto_of lower lower_char
kind_same proto none = refl
kind_same proto (some t) = elim (Bool-cases (t == "")) [
  | inl empty ↦ rw empty refl
  | inr full ↦ rw full refl
]

label_same : (o : Option String) (project : String) → is_label o project ≡ is_project o project
unfolding is_project
label_same none project = refl
label_same (some label) project = refl

left_out_same :
    (exclude : Option String) (a : Attrs) → is_left_out exclude a ≡ is_excluded exclude a
unfolding is_excluded is_project
left_out_same none a = refl
left_out_same (some project) a =
    label_same (get (or_else a.labels []) "com.docker.compose.project") project

module _ (start end : ℕ) (proto : String) (port : ℕ) where
  entry_same :
      (spec : PortEntry)
      → entry_publishes start end proto port spec ≡ entry_lands start end proto port spec
  unfolding entry_lands in_range
  entry_same not_a_dict = refl
  entry_same (entry none kind) = refl
  entry_same (entry (some p) kind) = ground (arith, kind_same proto kind)

  entries_same :
      (specs : List PortEntry)
      → any (entry_publishes start end proto port) specs
        ≡ any (entry_lands start end proto port) specs
  unfolding any
  entries_same [] = refl
  entries_same (spec ∷ specs) = ap₂ (λ a b. a || b) (entry_same spec) (entries_same specs)

  containers_same :
      (exclude : Option String) (cs : List (Option Attrs))
      → any (container_publishes start end proto port exclude) cs
        ≡ any (container_lands start end proto port exclude) cs
  unfolding any container_lands
  containers_same exclude [] = refl
  containers_same exclude (none ∷ cs) = containers_same exclude cs
  containers_same exclude (some a ∷ cs) =
      ap₂ (λ a b. a || b)
        (ap₂ (λ a b. not a && b) (left_out_same exclude a) (entries_same (or_else a.ports [])))
        (containers_same exclude cs)

-- Of a listing that the daemon answered, a port is occupied for a protocol exactly when some
-- container outside the excluded project publishes it there inside the range.
pub published_l4_ports-holds :
    (start end : ℕ) (exclude : Option String) (cs : List (Option Attrs)) (occupied : PortSets)
    (proto : String) (port : ℕ)
    → published_l4_ports start end exclude (listed cs) ≡ some occupied
    → holds occupied proto port ≡ any (container_publishes start end proto port exclude) cs
unfolding published_l4_ports contains get
published_l4_ports-holds start end exclude cs occupied proto port h = ground (
  arith,
  add_containers-holds start end proto port exclude cs [],
  containers_same start end proto port exclude cs,
)
