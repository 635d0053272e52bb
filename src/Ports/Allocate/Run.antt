-- ===== src/Ports/Allocate/Run.antt =====
-- The successful runs of `allocate`, taken apart.
use greffer.Ports.Daemon.{PortSets, published_l4_ports}
use greffer.Ports.Pending.{pending_and_prune}
use greffer.Ports.Sticky.{Sidecar, save}
use greffer.Ports.Allocate.{
  Port, is_l4, Result, ok, raise, Progress, assign, Node, Start, request, store, finish, enumerate,
  allocate,
}
use greffer.Ports.Allocate.Assigned.{Assigned, assign-Assigned}
use greffer.Prelude.{
  ◌≡◌, refl, sym, ap, true, Option, none, some, List, [], nat_eq, string_eq, any, get_or, put,
}

abbrev pub prune : Start → Node → PortSets → Progress
prune st n occupied = record {
  pending = (pending_and_prune st.now st.instance_id occupied n.pending).0;
  batch = [];
  new_sticky = [];
}

abbrev pub reserved : Start → Node → PortSets → PortSets
reserved st n occupied = (pending_and_prune st.now st.instance_id occupied n.pending).1

-- What a successful allocation of at least one L4 port went through.
pub record Ran (st : Start) (ports : List Port) (n : Node) (ports' : List Port) (n' : Node)
    : Type 0 where
  pub occupied : PortSets
  pub last : Progress
  pub published :
      published_l4_ports st.range_start st.range_end (some st.instance_id) st.listing
      ≡ some occupied
  pub assigned :
      Assigned
        (request st n occupied (reserved st n occupied))
        0
        ports
        (prune st n occupied)
        ports'
        last
  pub pending : n'.pending ≡ last.pending
  pub saved :
      (file : Sidecar) × (save st.writable last.new_sticky
          (get_or n.sidecars st.instance_id Sidecar.unreadable)
        ≡ some file)
      × (n'.sidecars ≡ put n.sidecars st.instance_id file)

store-ok :
    (st : Start) (ps : List Port) (s : Progress) (n : Node) (o : Option Sidecar) (ps' : List Port)
    (n' : Node)
    → store st ps s n o ≡ (ok ps', n')
    → (ps ≡ ps')
      × (n'.pending ≡ s.pending)
      × ((file : Sidecar) × (o ≡ some file) × (n'.sidecars ≡ put n.sidecars st.instance_id file))
unfolding store
store-ok st ps s n none ps' n' h = cc
store-ok st ps s n (some file) ps' n' h =
    let e : record { pending = s.pending; sidecars = put n.sidecars st.instance_id file } ≡ n' =
      cc h in
    (cc h, sym (ap (λ m. m.pending) e), (file, refl, sym (ap (λ m. m.sidecars) e)))

finish-ok :
    (st : Start) (n : Node) (m : Result (List Port) × Progress) (ps' : List Port) (n' : Node)
    → finish st n m ≡ (ok ps', n')
    → (s : Progress) × (m ≡ (ok ps', s))
      × (n'.pending ≡ s.pending)
      × ((file : Sidecar) × (save st.writable s.new_sticky
              (get_or n.sidecars st.instance_id Sidecar.unreadable)
            ≡ some file)
          × (n'.sidecars ≡ put n.sidecars st.instance_id file))
unfolding finish
finish-ok st n (raise e, s) ps' n' h = cc
finish-ok st n (ok ps, s) ps' n' h =
    let old = get_or n.sidecars st.instance_id Sidecar.unreadable in
    let (same, pending, saved) = store-ok st ps s n (save st.writable s.new_sticky old) ps' n' h in
    (s, rw same, pending, saved)

enumerate-Ran :
    (st : Start) (ports : List Port) (n : Node) (o : Option PortSets) (ports' : List Port)
    (n' : Node)
    → published_l4_ports st.range_start st.range_end (some st.instance_id) st.listing ≡ o
    → enumerate st ports n o ≡ (ok ports', n')
    → Ran st ports n ports' n'
unfolding enumerate
enumerate-Ran st ports n none ports' n' e h = cc
enumerate-Ran st ports n (some occupied) ports' n' e h =
    let r = request st n occupied (reserved st n occupied) in
    let (last, run, pending, saved) =
      finish-ok st n (assign r 0 ports (prune st n occupied)) ports' n' h in
    record {
      occupied = occupied;
      last = last;
      published = e;
      assigned = assign-Assigned r 0 ports (prune st n occupied) ports' last run;
      pending = pending;
      saved = saved;
    }

pub allocate-Ran :
    (st : Start) (ports : List Port) (n : Node) (ports' : List Port) (n' : Node)
    → any is_l4 ports ≡ true
    → allocate st ports n ≡ (ok ports', n')
    → Ran st ports n ports' n'
unfolding allocate
allocate-Ran st ports n ports' n' l4 h =
    enumerate-Ran st ports n
      (published_l4_ports st.range_start st.range_end (some st.instance_id) st.listing) ports' n'
      refl (rw l4 at h)
