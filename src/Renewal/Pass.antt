-- ===== src/Renewal/Pass.antt =====
-- `renew_all` of app/workers/cert_renewal.py.
pub mod Runs
pub mod Justified
pub mod Muted
pub mod Confirmed
pub mod Counts
use greffer.Renewal.Instance.{
  RenewalStatus, renewed, not_due, skipped, failed, InstanceOutcome, renew_one,
}
use greffer.Prelude.{
  ℕ, suc, ◌*◌, String, Bool, false, not, ◌&&◌, ◌||◌, Option, none, some, List, [], ◌∷◌, leb,
  if◌then◌else◌, ◌==◌, ◌!=◌, nat_eq, string_eq, contains, Dict, pop,
}
use greffer.Renewal.{
  looked, forgotten, World, Config, Books, Raised, returned, renewal_unavailable, node_rate_limited,
  node_auth_lost, crashed, note, has_key, is_there, save_unconfirmed, load_unconfirmed,
  note_failure,
}

-- `PassResult`
pub record PassResult : Type 0 where
  pub considered : ℕ
  pub renewals : ℕ
  pub skips : ℕ
  pub errors : ℕ
  pub selected : Option RenewalStatus
  pub deferred : ℕ

abbrev pub nothing_done : PassResult
nothing_done = record {
  considered = 0;
  renewals = 0;
  skips = 0;
  errors = 0;
  selected = none;
  deferred = 0;
}

-- How the loop goes on after an instance: with the next one, or not.
pub data Flow : Type 0 where
  onward broken broken_unauthorized broken_capped : Flow

pub record Sweeping : Type 0 where
  pub books : Books
  pub counts : PassResult
  pub flow : Flow

-- How a pass ends: a result, or the exception that leaves it.
pub data PassEnd : Type 0 where
  passed : PassResult → PassEnd
  already_running instance_not_found pass_auth_lost node_capped pass_crashed : PassEnd

-- `_TRANSIENT_SKIPS`
abbrev pub transient_skips : List String
transient_skips = "instance_busy" ∷ "compose_inflight" ∷ "sidecar_settling" ∷ []

unfoldable pub is_transient : Option String → Bool
is_transient none = false
is_transient (some reason) = contains reason transient_skips

unfoldable pub is_selected : Option String → String → Bool
is_selected none id = false
is_selected (some only) id = id == only

unfoldable pub select_status : Option String → String → RenewalStatus → PassResult → PassResult
unfolding is_selected
select_status only id status n =
    if is_selected only id then record n { selected = some status } else n

-- The counts after `renew_one` returned.
unfoldable pub count_status : Option String → RenewalStatus → PassResult → PassResult
unfolding is_transient
count_status reason renewed n = record n { renewals = suc n.renewals }
count_status reason not_due n = n
count_status reason failed n = record n { errors = suc n.errors }
count_status reason skipped n = record n {
  skips = suc n.skips;
  deferred = if is_transient reason then suc n.deferred else n.deferred;
}

-- `_BLIND_STREAK_ABORT`
abbrev pub blind_streak_abort : ℕ
blind_streak_abort = 3

unfoldable pub unless_blind : Books → PassResult → Sweeping
unless_blind s n = record {
  books = s;
  counts = n;
  flow = if leb blind_streak_abort s.blind_streak then broken else onward;
}

-- The result of `renew_one` and the exceptions that the loop handles.
unfoldable pub on_renewed :
    World → Config → Option String → String → PassResult → Books × Raised InstanceOutcome → Sweeping
unfolding unless_blind count_status select_status note_failure
on_renewed w c only id n (s, returned o) =
    unless_blind s (count_status o.reason o.status (select_status only id o.status n))
on_renewed w c only id n (s, renewal_unavailable) = record {
  books = s;
  counts = select_status only id skipped (record n { skips = suc n.skips });
  flow = broken;
}
on_renewed w c only id n (s, node_auth_lost) = record {
  books = s;
  counts = n;
  flow = broken_unauthorized;
}
on_renewed w c only id n (s, node_rate_limited) = record {
  books = s;
  counts = n;
  flow = broken_capped;
}
on_renewed w c only id n (s, crashed) =
    unless_blind (note_failure w c id s)
      (select_status only id failed (record n { errors = suc n.errors }))

unfoldable pub is_passed_by : Option String → String → String → Bool
unfolding is_selected is_there
is_passed_by only id status = (is_there only && not (is_selected only id)) || status != "running"

-- The loop's body, with the check of `_stop` before it.
unfoldable pub renew_next :
    World → Config → Option String → Bool → String → PassResult → Books → Sweeping
unfolding on_renewed renew_one note
renew_next w c only force id n s =
    let s₁ = note looked s in
    if w.is_stopped s.past
    then record { books = s₁; counts = n; flow = broken }
    else on_renewed w c only id (record n { considered = suc n.considered })
        (renew_one w c id force s₁)

unfoldable pub by_flow : Flow → Sweeping → (PassResult → Books → Sweeping) → Sweeping
by_flow onward t rest = rest t.counts t.books
by_flow _ t rest = t

unfoldable pub go_onward : Sweeping → (PassResult → Books → Sweeping) → Sweeping
unfolding by_flow
go_onward t rest = by_flow t.flow t rest

unfoldable pub renew_each :
    World → Config → Option String → Bool → Dict String String → PassResult → Books → Sweeping
unfolding go_onward renew_next is_passed_by
renew_each w c only force [] n s = record { books = s; counts = n; flow = onward }
renew_each w c only force ((id, status) ∷ statuses) n s =
    let rest = renew_each w c only force statuses in
    if is_passed_by only id status
    then rest n s
    else go_onward (renew_next w c only force id n s) rest

-- The entries of instances that are gone.
unfoldable pub known {ℓ} : {V : Type ℓ} → Dict String String → Dict String V → Dict String V
unfolding has_key
known statuses [] = []
known statuses ((id, v) ∷ d) =
    let rest = known statuses d in if has_key statuses id then (id, v) ∷ rest else rest

unfoldable pub forget : Dict String String → Dict String String → Books → Books
unfolding has_key note
forget statuses [] s = s
forget statuses ((id, serial) ∷ owed) s = forget statuses owed (
    if has_key statuses id
    then s
    else note (forgotten id) (record s { unconfirmed = pop s.unconfirmed id }))

unfoldable pub prune_stale : World → Dict String String → Books → Books
unfolding known forget save_unconfirmed
prune_stale w statuses s =
    save_unconfirmed w
      (forget statuses s.unconfirmed (record s { backoff = known statuses s.backoff }))

unfoldable pub end_of : Flow → PassResult → PassEnd
end_of broken_unauthorized n = pass_auth_lost
end_of broken_capped n = node_capped
end_of _ n = passed n

unfoldable pub end_pass : World → Dict String String → Sweeping → Books × PassEnd
unfolding prune_stale end_of
end_pass w statuses t = (prune_stale w statuses t.books, end_of t.flow t.counts)

unfoldable pub is_unknown : Option String → Dict String String → Bool
unfolding has_key
is_unknown none statuses = false
is_unknown (some only) statuses = not (has_key statuses only)

unfoldable pub on_statuses :
    World → Config → Option String → Bool → Option (Dict String String) → Books → Books × PassEnd
unfolding end_pass renew_each is_unknown note
on_statuses w c only force none s = (s, pass_crashed)
on_statuses w c only force (some statuses) s =
    let s₁ = note looked s in
    if w.is_stopped s.past
    then (s₁, passed nothing_done)
    else if is_unknown only statuses
    then (s₁, instance_not_found)
    else end_pass w statuses (renew_each w c only force statuses nothing_done s₁)

-- `_renew_all_locked`
unfoldable pub renew_all_locked : World → Config → Option String → Bool → Books → Books × PassEnd
unfolding on_statuses load_unconfirmed note
renew_all_locked w c only force s =
    let loaded = load_unconfirmed w s in
    let s₁ : Books = record loaded { blind_streak = 0 } in
    let s₂ = note looked s₁ in
    if w.is_stopped s₁.past
    then (s₂, passed nothing_done)
    else on_statuses w c only force (w.status_map s₂.past) (note looked s₂)

-- `renew_all`; `busy` is a pass lock that is held.
unfoldable pub renew_all : World → Config → Option String → Bool → Bool → Books → Books × PassEnd
unfolding renew_all_locked
renew_all w c only force busy s =
    if busy then (s, already_running) else renew_all_locked w c only force s
