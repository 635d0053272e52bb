-- ===== src/Ports/Allocate.antt =====
-- The L4 half of `get_greffon_info` of apps/utils/greffon/repository.py, which runs under
-- `allocation_lock`: enumerate, prune, pick, reserve and persist.
pub mod Assigned
pub mod Fresh
pub mod Run
pub mod Collision
pub mod Marked
pub mod Restart
pub mod Replay
pub mod Race
pub mod Stable
use greffer.Ports.Free.{lowest_free_port}
use greffer.Ports.Daemon.{PortSets, Listing, add_port, published_l4_ports}
use greffer.Ports.Pending.{Pending, pending_and_prune, mark_pending}
use greffer.Ports.Sticky.{Sidecar, load, save}
use greffer.Prelude.{
  ℕ, suc, String, Bool, not, ◌&&◌, Option, none, some, List, [], ◌∷◌, ◌++◌, if◌then◌else◌, ◌==◌,
  nat_eq, string_eq, any, contains, Dict, get, get_or, put,
}

-- An entry of `greffon_info['ports']`.
pub record Port : Type 0 where
  pub port_container : ℕ
  pub container_name : String
  pub port_name : String
  pub url : Option String
  pub protocol : String
  pub exposure_tier : String
  pub same_port : Bool
  pub streaming : Bool
  pub port_host : Option ℕ

abbrev pub is_l4 : Port → Bool
is_l4 p = p.exposure_tier == "l4"

pub data L4Error : Type 0 where
  same_port_conflict : String → ℕ → L4Error
  range_exhausted : ℕ → ℕ → L4Error
  ports_unavailable : L4Error
  sidecar_not_written : L4Error

pub data Result {ℓ} (A : Type ℓ) : Type ℓ where
  ok : A → Result A
  raise : L4Error → Result A

-- What the loop changes: `_pending`, `batch` and `new_sticky`.
pub record Progress : Type 0 where
  pub pending : Pending
  pub batch : PortSets
  pub new_sticky : Dict String ℕ

-- What the loop reads.
pub record Request : Type 0 where
  pub instance_id : String
  pub range_start : ℕ
  pub range_end : ℕ
  pub is_tunnel : Bool
  pub sticky : Dict String ℕ
  pub occupied : PortSets
  pub reserved : PortSets
  pub ttl : ℕ
  -- The monotonic clock when the port at this index is marked.
  pub clock : ℕ → ℕ

-- `taken = occupied[proto] | pending[proto] | batch[proto]`
unfoldable pub taken : Request → PortSets → String → List ℕ
taken r batch proto =
    get_or r.occupied proto [] ++ (get_or r.reserved proto [] ++ get_or batch proto [])

or_exhausted : Request → Option ℕ → Result ℕ
or_exhausted r none = raise (range_exhausted r.range_start r.range_end)
or_exhausted r (some port) = ok port

pick_lowest : Request → List ℕ → Result ℕ
unfolding or_exhausted
pick_lowest r held = or_exhausted r (lowest_free_port r.range_start r.range_end held)

-- The branches of the loop's body: the port that an L4 endpoint gets. `prev` is its last port.
unfoldable pub choose : Request → Port → List ℕ → Option ℕ → Result ℕ
unfolding pick_lowest
choose r p held none = pick_lowest r held
choose r p held (some prev) =
    if not (contains prev held)
    then ok prev
    else if p.same_port && not r.is_tunnel
    then raise (same_port_conflict p.port_name prev)
    else pick_lowest r held

-- `mark_pending`, the batch and `new_sticky`, for a chosen port.
unfoldable pub advance : Request → ℕ → Port → Progress → ℕ → Progress
advance r i p s port = record {
  pending = mark_pending r.ttl (r.clock i) r.instance_id p.protocol port s.pending;
  batch = add_port s.batch p.protocol port;
  new_sticky = put s.new_sticky p.port_name port;
}

unfoldable pub commit : Request → ℕ → Port → Progress → Result ℕ → Result Port × Progress
commit r i p s (raise e) = (raise e, s)
commit r i p s (ok port) = (ok (record p { port_host = some port }), advance r i p s port)

unfoldable pub place : Request → ℕ → Port → Progress → Result Port × Progress
unfolding commit choose taken
place r i p s = commit r i p s (choose r p (taken r s.batch p.protocol) (get r.sticky p.port_name))

-- The loop's body, on an action of `Progress` that may raise.
abbrev pub Action : Type 0 → Type 0
Action A = Progress → Result A × Progress

abbrev pub resume : {A B : Type 0} → Result A × Progress → (A → Action B) → Result B × Progress
resume (ok a, s) f = f a s
resume (raise e, s) f = (raise e, s)

infixl 5 ◌>>=◌
abbrev pub ◌>>=◌ : {A B : Type 0} → Action A → (A → Action B) → Action B
◌>>=◌ m f s = resume (m s) f

abbrev pub pure : {A : Type 0} → A → Action A
pure a s = (ok a, s)

unfoldable pub step : Request → ℕ → Port → Action Port
unfolding place
step r i p s = if is_l4 p then place r i p s else (ok p, s)

-- The loop over the L4 entries; `i` is the index in `ports`. A port that was marked before an
-- exception stays marked.
unfoldable pub assign : Request → ℕ → List Port → Action (List Port)
unfolding step
assign r i [] = pure []
assign r i (p ∷ ps) = do p' ← step r i p; ps' ← assign r (suc i) ps; pure (p' ∷ ps')

-- The process state and the instance directories that an allocation touches.
pub record Node : Type 0 where
  pub pending : Pending
  pub sidecars : Dict String Sidecar

-- One start of an instance: its settings, what the daemon answers, and the clock.
pub record Start : Type 0 where
  pub instance_id : String
  pub range_start : ℕ
  pub range_end : ℕ
  pub l4_bind_host : String
  pub listing : Listing
  pub now : ℕ
  pub ttl : ℕ
  pub clock : ℕ → ℕ
  -- Whether the sidecar can be written.
  pub writable : Bool

unfoldable pub request : Start → Node → PortSets → PortSets → Request
request st n occupied reserved = record {
  instance_id = st.instance_id;
  range_start = st.range_start;
  range_end = st.range_end;
  is_tunnel = st.l4_bind_host == "127.0.0.1";
  sticky = load (get_or n.sidecars st.instance_id Sidecar.unreadable);
  occupied = occupied;
  reserved = reserved;
  ttl = st.ttl;
  clock = st.clock;
}

store : Start → List Port → Progress → Node → Option Sidecar → Result (List Port) × Node
store st ps s n none = (raise sidecar_not_written, record n { pending = s.pending })
store st ps s n (some file) =
    (ok ps, record { pending = s.pending; sidecars = put n.sidecars st.instance_id file })

finish : Start → Node → Result (List Port) × Progress → Result (List Port) × Node
unfolding store
finish st n (raise e, s) = (raise e, record n { pending = s.pending })
finish st n (ok ps, s) =
    store st ps s n
      (save st.writable s.new_sticky (get_or n.sidecars st.instance_id Sidecar.unreadable))

enumerate : Start → List Port → Node → Option PortSets → Result (List Port) × Node
unfolding finish
enumerate st ports n none = (raise ports_unavailable, n)
enumerate st ports n (some occupied) =
    let (kept, reserved) = pending_and_prune st.now st.instance_id occupied n.pending in
    finish st n (
      assign (request st n occupied reserved) 0 ports
        (record { pending = kept; batch = []; new_sticky = [] }))

-- The L4 half of `get_greffon_info`; an instance with no L4 port touches none of this.
unfoldable pub allocate : Start → List Port → Node → Result (List Port) × Node
unfolding enumerate
allocate st ports n =
    if any is_l4 ports
    then enumerate st ports n
        (published_l4_ports st.range_start st.range_end (some st.instance_id) st.listing)
    else (ok ports, n)
