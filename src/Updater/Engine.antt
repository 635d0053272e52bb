-- ===== src/Updater/Engine.antt =====
-- `run_remote_update` and `_rollback` of cli/greffer_cli/updater/engine.py. What docker answers is
-- a function of the changes made so far; the changes are the trace.
pub mod Preflight
pub mod Undone
pub mod Rollback
pub mod Settled
pub mod Success
pub mod Applied
use greffer.Updater.Gate.{Verdict, gate_ready, gate_timeout, Gate, Poll, health_gate}
use greffer.Updater.Version.{is_downgrade}
use greffer.Prelude.{
  ℕ, zero, suc, ◌+◌, ◌-◌, ◌*◌, ◌≤◌, ◌<◌, String, ◌≡◌, refl, sym, ap, ap₂, ◌∙◌, ◌≢◌, ◌↔◌, ◌⊎◌, inl,
  inr, Bool, true, false, not, ◌&&◌, ◌||◌, Option, none, some, List, [], ◌∷◌, ◌++◌, map, arith,
  eq_iff, ltb, leb, if◌then◌else◌, Eq, ◌==◌, ◌!=◌, nat_eq, string_eq, Bool-cases, Option-cases,
  or_else, or_false, All, All-append, length, select, any, every, contains, contains-append, Dict,
  get, get_or, put, pop, get-put, get-pop, lower, lower_char, Unique, put-Unique, get-put_self,
}

pub record Container : Type 0 where
  pub container_id : String
  pub service : String
  pub repo : String

-- `docker inspect`: the fields that the engine reads.
pub record Inspect : Type 0 where
  pub name : Option String
  pub image : Option String

-- A change of the host, in the order of the calls.
pub data Event : Type 0 where
  tag_previous : String → Option String → Event
  retag_latest : String → String → Event
  recreate_one : String → Event
  rollback_one : String → String → Event
  restore_latest : String → String → Event
  dangling_prune : Event

abbrev pub Trace : Type 0
Trace = List Event

-- The answer of a call: its Boolean result, or an exception.
pub data Answer : Type 0 where
  yes no raised : Answer

-- What docker, cosign and the clock answer. `rollback_one` and `restore_latest` do not raise.
pub record Docker : Type 0 where
  pub stack : List Container
  pub exec_version : Trace → String → Option String
  pub verify_and_pull : String → String → Option String
  pub inspect : Container → Option Inspect
  pub current_image_id : String → Option String
  pub image_id : String → String → Option String
  pub tag_raises : Trace → Bool
  pub retag : Trace → Answer
  pub recreate : Trace → Answer
  pub rolls_back : Trace → Bool
  pub check_raises : Trace → Bool
  pub now : Trace → ℕ
  pub restart_count : Trace → ℕ
  pub polls : Trace → ℕ → Poll

pub record Request : Type 0 where
  pub greffer_id : Option String
  pub target_tag : Option String
  pub timeout : ℕ

pub data Exit : Type 0 where
  exit_ok exit_rolled_back exit_rollback_failed exit_refused : Exit

-- An entry of `snaps`; its container with the image that it runs, and its name.
pub record Snap : Type 0 where
  pub container : Container
  pub name : String
  pub old_image_id : Option String

abbrev pub Run : Type 0
Run = Exit × Trace

strip_slashes : String → String
strip_slashes String.[] = String.[]
strip_slashes (String.◌∷◌ c s) =
    let rest = strip_slashes s in if String.◌∷◌ c String.[] == "/" then rest else String.◌∷◌ c s

-- `a or b` on optional image ids, which are not empty.
unfoldable pub first_of : Option String → Option String → Option String
first_of none b = b
first_of (some image) b = some image

-- `target_tag or "latest"`, where an empty tag is absent.
unfoldable pub tag_of : Option String → String
tag_of none = "latest"
tag_of (some tag) = if tag == "" then "latest" else tag

-- `target_tag and _is_downgrade(target_tag, old_version)`
unfoldable pub is_backwards : Option String → Option String → Bool
is_backwards none old = false
is_backwards (some tag) old = tag != "" && or_else (is_downgrade old (some tag)) false

unfoldable pub find_service : String → List Container → Option Container
find_service service [] = none
find_service service (c ∷ cs) =
    let rest = find_service service cs in if c.service == service then some c else rest

unfoldable pub name_of_service : String → List Snap → String
name_of_service service [] = ""
name_of_service service (s ∷ ss) =
    let rest = name_of_service service ss in if s.container.service == service then s.name else rest

module _ (docker : Docker) (req : Request) where
  -- The dict of verified digests; `none` is a VerifyError.
  unfoldable pub verify_all :
      String → List Container → Dict String String → Option (Dict String String)
  verify_all tag [] verified = some verified
  verify_all tag (c ∷ cs) verified = elim (docker.verify_and_pull c.repo tag) [
    | none ↦ none
    | some digest ↦ verify_all tag cs (put verified c.repo digest)
  ]

  snap_of : Container → Inspect → Snap
  unfolding strip_slashes first_of
  snap_of c i = record {
    container = c;
    name = strip_slashes (or_else i.name "");
    old_image_id = first_of i.image (docker.current_image_id c.repo);
  }

  add_snap : Container → Option Inspect → Option (List Snap) → Option (List Snap)
  unfolding snap_of
  add_snap c none rest = none
  add_snap c (some i) none = none
  add_snap c (some i) (some snaps) = some (snap_of c i ∷ snaps)

  -- Phase 2a; `none` is a failed inspect.
  unfoldable pub snapshot_all : List Container → Option (List Snap)
  unfolding add_snap
  snapshot_all [] = some []
  snapshot_all (c ∷ cs) = add_snap c (docker.inspect c) (snapshot_all cs)

  -- `gate.health_gate`, with rounds for the whole of its timeout.
  unfoldable pub run_gate : Bool → Dict String (Option String) → List String → ℕ → Trace → Verdict
  run_gate check_version ids names timeout t =
      let g : Gate = record {
        greffer_id = req.greffer_id;
        applied_image_ids = ids;
        service_names = names;
        check_version = check_version;
        deadline = docker.now t + timeout;
        base_restarts = docker.restart_count t;
      } in
      or_else (health_gate g (docker.polls t) (suc (g.deadline - (docker.polls t 0).now)) 0)
        gate_timeout

  roll_step :
      Container → Option String → (Trace → Bool → Bool × Trace) → Trace → Bool → Bool × Trace
  roll_step c none rest t all_ok = rest t false
  roll_step c (some old) rest t all_ok =
      let rolled = t ++ rollback_one c.service old ∷ [] in
      rest (rolled ++ restore_latest c.repo old ∷ []) (all_ok && docker.rolls_back rolled)

  -- The loop of `_rollback`, over the recreated containers, the last one first.
  unfoldable pub roll : List Snap → Trace → Bool → Bool × Trace
  unfolding roll_step
  roll [] t all_ok = (all_ok, t)
  roll (s ∷ ss) t all_ok = roll_step s.container s.old_image_id (roll ss) t all_ok

  unfoldable pub is_ready : Verdict → Bool
  is_ready gate_ready = true
  is_ready _ = false

  -- `_rollback`; `names` are the service names, and `done` has the last container first.
  unfoldable pub rollback : List Snap → List Snap → Trace → Run
  unfolding roll run_gate is_ready
  rollback snaps done t =
      let (all_ok, rolled) = roll done t true in
      let timeout = if leb req.timeout 120 then req.timeout else 120 in
      let healthy = is_ready (run_gate false [] (map (λ s. s.name) snaps) timeout rolled) in
      (
        if all_ok && name_of_service "greffer" snaps != "" && healthy
            then exit_rolled_back
            else exit_rollback_failed,
        rolled,
      )

  -- `applied_image_ids`
  unfoldable pub expected_ids :
      Dict String String → List Snap → Dict String (Option String) → Dict String (Option String)
  expected_ids verified [] ids = ids
  expected_ids verified (s ∷ ss) ids =
      expected_ids verified ss
        (put ids s.name (docker.image_id s.container.repo (get_or verified s.container.repo "")))

  -- Phase 3.
  unfoldable pub check : Dict String String → Option String → List Snap → List Snap → Trace → Run
  unfolding rollback run_gate is_ready expected_ids
  check verified old_version snaps done t =
      let undo = rollback snaps done t in
      let names = map (λ s. s.name) snaps in
      let outcome = run_gate true (expected_ids verified snaps []) names req.timeout t in
      let new_version = docker.exec_version t (name_of_service "greffer" snaps) in
      if docker.check_raises t || not (is_ready outcome)
      then undo
      else if or_else (is_downgrade old_version new_version) false
      then undo
      else (exit_ok, t ++ dangling_prune ∷ [])

  -- What follows the answers of `retag_latest` and of `recreate_one`; a container whose recreate
  -- raises is not in `done`.
  after_recreate : List Snap → List Snap → Snap → Trace → Run → Answer → Run
  unfolding rollback
  after_recreate snaps done s t rest yes = rest
  after_recreate snaps done s t rest no = rollback snaps (s ∷ done) t
  after_recreate snaps done s t rest raised = rollback snaps done t

  after_retag : List Snap → List Snap → Trace → Run → Answer → Run
  unfolding rollback
  after_retag snaps done t rest yes = rest
  after_retag snaps done t rest no = rollback snaps done t
  after_retag snaps done t rest raised = rollback snaps done t

  -- Phase 2b, for the rest of the snaps.
  unfoldable pub mutate :
      Dict String String → Option String → List Snap → List Snap → List Snap → Trace → Run
  unfolding check after_recreate after_retag
  mutate verified old_version snaps [] done t = check verified old_version snaps done t
  mutate verified old_version snaps (s ∷ todo) done t =
      let tagged = t ++ tag_previous s.container.repo s.old_image_id ∷ [] in
      let retagged =
        tagged ++ retag_latest s.container.repo (get_or verified s.container.repo "") ∷ [] in
      let recreated = retagged ++ recreate_one s.container.service ∷ [] in
      let rest = mutate verified old_version snaps todo (s ∷ done) recreated in
      if docker.tag_raises tagged
      then rollback snaps done tagged
      else after_retag snaps done retagged
          (after_recreate snaps done s recreated rest (docker.recreate recreated))
          (docker.retag retagged)

  on_snaps : Dict String String → Option String → Option (List Snap) → Run
  unfolding mutate
  on_snaps verified old_version none = (exit_refused, [])
  on_snaps verified old_version (some snaps) = mutate verified old_version snaps snaps [] []

  on_verified : Option String → Option (Dict String String) → Run
  unfolding on_snaps snapshot_all
  on_verified old_version none = (exit_refused, [])
  on_verified old_version (some verified) =
      on_snaps verified old_version (snapshot_all docker.stack)

  on_greffer : Option Container → Run
  unfolding on_verified verify_all tag_of is_backwards
  on_greffer none = (exit_refused, [])
  on_greffer (some own) =
      let old_version = docker.exec_version [] own.container_id in
      if is_backwards req.target_tag old_version
      then (exit_refused, [])
      else on_verified old_version (verify_all (tag_of req.target_tag) docker.stack [])

  -- An empty stack has no greffer.
  unfoldable pub run_remote_update : Run
  unfolding on_greffer find_service
  run_remote_update = on_greffer (find_service "greffer" docker.stack)
