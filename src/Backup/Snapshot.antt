-- ===== src/Backup/Snapshot.antt =====
-- `backup_instance` of app/backup.py: the cold and the hot backup of an instance.
pub mod Restarts
pub mod Gated
pub mod Taken
pub mod Whole
pub mod Tests
use greffer.Backup.Artifacts.{
  Snapped, Dumped, BackupReport, BackupAct, saw, wrote_marker, stopped, used_repo, restarted,
  removed_marker, forgot, measured, released, waited, snapped, dumped, called_back, BackupActs,
  Node, Backing, Ended, chain, act, failed_report, total_bytes, dump_and_backup, primary,
}
use greffer.Backup.{Called, done, backup_error, threw, Instance}
use greffer.Backup.Mounts.{join_text, classify, with_l4_ports, hot_backup_mounts}
use greffer.Backup.Job.{is_empty}
use greffer.Prelude.{
  ℕ, zero, suc, ◌+◌, ◌-◌, ◌*◌, ◌≤◌, ◌<◌, String, ◌≡◌, refl, sym, ap, ap₂, ◌∙◌, ◌≢◌, ◌↔◌, ◌⊎◌, inl,
  inr, Bool, true, false, not, ◌&&◌, ◌||◌, Option, none, some, List, [], ◌∷◌, ◌++◌, map, arith,
  eq_iff, ltb, leb, if◌then◌else◌, Eq, ◌==◌, ◌!=◌, nat_eq, string_eq, Bool-cases, Option-cases,
  or_else, or_false, All, All-append, length, select, any, every, contains, contains-append, Dict,
  get, get_or, put, pop, get-put, get-pop, lower, lower_char, Unique, put-Unique, get-put_self,
  if_ind,
}

module _ (node : Node) (inst : Instance) (classes : Dict String String) where
  -- The database volumes of the classification.
  abbrev pub db_volumes : List String
  db_volumes = map (λ e. e.0) (select (λ e. e.1 == "database") classes)

  unfoldable pub hot_data_mounts : Backing → Ended (List String)
  unfolding chain act hot_backup_mounts
  hot_data_mounts s =
      chain (node.data_volumes s.acts, act saw s)
        λ volumes t. (hot_backup_mounts inst.id classes (node.has_l4_ports t.acts) volumes, t)

  -- One database volume and one hook, or none.
  unfoldable pub find_hooks : Backing → Ended (List String)
  unfolding chain act is_empty
  find_hooks s =
      if is_empty db_volumes
      then (done [], s)
      else chain (node.dump_hooks s.acts, act saw s)
          λ hooks t.
            if ltb 1 (length db_volumes) || ltb 1 (length hooks)
            then (backup_error "multiple_database_unsupported", t)
            else if is_empty hooks
            then (backup_error "no_dump_hook", t)
            else (done hooks, t)

  -- The data snapshot into the manifest, with the bytes so far.
  unfoldable pub snap_data : List String → Backing → Ended (Dict String String × ℕ)
  unfolding chain act classify total_bytes
  snap_data [] s = (done ([], 0), s)
  snap_data (m ∷ mounts) s =
      let answer = node.snaps (m ∷ mounts) s.acts in
      chain (answer, act (snapped (m ∷ mounts) answer) s)
        λ res t.
          if res.code != 0
          then (backup_error (classify res.err), t)
          else (done (("data", res.id) ∷ [], total_bytes res.bytes), t)

  -- The dump of each hook.
  unfoldable pub dump_all :
      List String → Dict String String × ℕ → Backing → Ended (Dict String String × ℕ)
  unfolding chain act join_text total_bytes put dump_and_backup
  dump_all [] (manifest, bytes) s = (done (manifest, bytes), s)
  dump_all (service ∷ hooks) (manifest, bytes) s =
      let answer = node.dumps service s.acts in
      chain (answer, act (dumped service answer) s)
        λ raw t.
          chain (dump_and_backup raw, t)
            λ res.
              dump_all hooks
                (put manifest (join_text "db:" service) res.0, bytes + total_bytes res.1)

  unfoldable pub complete_report : Dict String String × ℕ → BackupReport
  unfolding primary
  complete_report (manifest, bytes) = record {
    success = true;
    error_code = none;
    snapshot_id = primary manifest;
    bytes_added = some bytes;
    manifest = some manifest;
    repo_bytes = none;
  }

  -- `_run_hot_backup`
  unfoldable pub run_hot_backup : Backing → Ended BackupReport
  unfolding chain act hot_data_mounts find_hooks snap_data dump_all complete_report is_empty
  run_hot_backup s = chain (hot_data_mounts s) λ mounts s₁.
      if is_empty mounts && is_empty db_volumes
      then (backup_error "no_data_volumes", s₁)
      else chain (find_hooks s₁) λ hooks s₂.
        chain (node.uses_repo s₂.acts, act used_repo s₂)
          λ _ s₃. chain (snap_data mounts s₃) λ taken s₄.
            chain (dump_all hooks taken s₄) λ artifacts s₅. (done (complete_report artifacts), s₅)

  -- Whether the stopped instance is quiet.
  unfoldable pub wait_quiet : Backing → Ended Bool
  unfolding act
  wait_quiet s =
      let answer = node.is_quiet s.acts in
      (answer, record (act (waited answer) s) { stopped_for_backup = true })

  -- A running instance is stopped.
  unfoldable pub stop_for_backup : Backing → Ended Bool
  unfolding chain act wait_quiet
  stop_for_backup s =
      if inst.was_running
      then (let s₁ = act wrote_marker s in
          chain (node.stops s₁.acts, act stopped s₁) λ _. wait_quiet)
      else (done true, s)

  unfoldable pub on_snapped : Snapped → Backing → Ended BackupReport
  unfolding classify
  on_snapped res s = (
    done (
        if res.code != 0 then failed_report (classify res.err) else record {
          success = true;
          error_code = none;
          snapshot_id = some res.id;
          bytes_added = res.bytes;
          manifest = none;
          repo_bytes = none;
        }),
    s,
  )

  -- The snapshot of the cold backup.
  unfoldable pub snap_all : Backing → Ended BackupReport
  unfolding chain act with_l4_ports on_snapped
  snap_all s =
      chain (node.data_volumes s.acts, act saw s)
        λ volumes s₁.
          let mounts = with_l4_ports (node.has_l4_ports s₁.acts) volumes in
          chain (node.uses_repo s₁.acts, act used_repo s₁)
            λ _ s₂.
              let answer = node.snaps mounts s₂.acts in
              chain (answer, act (snapped mounts answer) s₂) on_snapped

  unfoldable pub run_cold_backup : Backing → Ended BackupReport
  unfolding chain stop_for_backup snap_all
  run_cold_backup s =
      chain (stop_for_backup s)
        λ quiet s₁. if quiet then snap_all s₁ else (done (failed_report "stop_timeout"), s₁)

  -- The body of the `try`; `volume_classes` asks for a hot backup unless it is empty.
  unfoldable pub backup_body : Backing → Ended BackupReport
  unfolding run_hot_backup run_cold_backup is_empty
  backup_body s =
      if node.is_unknown_status s.acts
      then (done (failed_report "instance_missing"), s)
      else if is_empty classes
      then run_cold_backup s
      else run_hot_backup s

  -- The `except` clauses.
  unfoldable pub report_of : Called BackupReport → BackupReport
  report_of (done r) = r
  report_of (backup_error code) = failed_report code
  report_of threw = failed_report "snapshot_failed"

  -- A restart that raises is logged only.
  unfoldable pub restart_stopped : Backing → Backing
  unfolding act
  restart_stopped s = if s.stopped_for_backup then act (restarted (node.restarts s.acts)) s else s

  -- The retention, and the repository's size for a brokered destination.
  unfoldable pub retain : Bool → BackupReport → Backing → BackupReport × Backing
  unfolding act
  retain brokered r s =
      if r.success
      then (let s₁ = act forgot s in
          if brokered
          then (record r { repo_bytes = node.repo_stats s₁.acts }, act measured s₁)
          else (r, s₁))
      else (r, s)

  -- The `finally`
  unfoldable pub finish_backup : Bool → Ended BackupReport → Backing
  unfolding act report_of restart_stopped retain
  finish_backup brokered (outcome, s) =
      let kept = retain brokered (report_of outcome) (act removed_marker (restart_stopped s)) in
      act (called_back kept.0) (act released kept.1)

  -- `backup_instance`
  unfoldable pub backup_instance : Bool → Backing
  unfolding backup_body finish_backup
  backup_instance brokered =
      finish_backup brokered (backup_body (record { stopped_for_backup = false; acts = [] }))
