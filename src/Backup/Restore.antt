-- ===== src/Backup/Restore.antt =====
-- `restore_instance` of app/backup.py.
pub mod Rules
pub mod Guarded
pub mod Stages
pub mod Body
pub mod Rollback
pub mod HandOver
use greffer.Backup.{
  Called, done, backup_error, threw, Restic, Payload, Effect, looked, repo_used, stopped, forgot,
  took_safety, wrote_pointer, saw_quiet, saw_db_volumes, overwrote, started_services, restored_db,
  started, torn_down, wrote_state, reserved, released, called_back, removed_state, Effects, Site,
  Instance,
}
use greffer.Backup.Job.{
  Restoring, Progressed, goes, returns, raises_backup_error, raises, Wanted, and_then, log, call,
  fail_with, fail_safely, is_empty, is_unclassified, meets, succeed, handle, on_overwritten,
  on_safety,
}
use greffer.Backup.Mounts.{restore_classify, hot_backup_mounts, with_l4_ports}
use greffer.Prelude.{
  ℕ, zero, suc, ◌+◌, ◌-◌, ◌*◌, ◌≤◌, ◌<◌, String, ◌≡◌, refl, sym, ap, ap₂, ◌∙◌, ◌≢◌, ◌↔◌, ◌⊎◌, inl,
  inr, Bool, true, false, not, ◌&&◌, ◌||◌, Option, none, some, List, [], ◌∷◌, ◌++◌, map, arith,
  eq_iff, ltb, leb, if◌then◌else◌, Eq, ◌==◌, ◌!=◌, nat_eq, string_eq, Bool-cases, Option-cases,
  or_else, or_false, All, All-append, length, select, any, every, contains, contains-append, Dict,
  get, get_or, put, pop, get-put, get-pop, lower, lower_char, Unique, put-Unique, get-put_self,
  if_ind,
}

module _ (site : Site) (inst : Instance) (wanted : Wanted) where
  unfoldable pub stop_first : Restoring → Progressed
  unfolding call fail_with
  stop_first r =
      if inst.was_running
      then (call stopped (site.stops r.effects) r λ _ r₁.
          call (saw_quiet (site.is_quiet r₁.effects)) (site.is_quiet r₁.effects) r₁
            λ quiet r₂. if quiet then goes r₂ else returns (fail_with "stop_timeout" r₂))
      else goes r

  unfoldable pub prepare_repo : Restoring → Progressed
  unfolding call fail_with is_empty is_unclassified
  prepare_repo r = call repo_used (site.uses_repo r.effects) r λ _ r₁.
      if not (is_empty wanted.db_artifacts) && is_unclassified wanted.volume_classes
      then returns (fail_with "volume_unclassified" r₁)
      else goes r₁

  -- The safety snapshot over all volumes.
  unfoldable pub take_safety : List String → Restoring → Progressed
  unfolding call on_safety
  take_safety mounts r =
      let answer = site.runs_restic mounts r.effects in call (took_safety answer) answer r on_safety

  unfoldable pub guard_db_volumes : List String → Restoring → Progressed
  unfolding call fail_safely meets is_empty log
  guard_db_volumes mounts r =
      if is_empty wanted.db_artifacts
      then goes r
      else call looked (site.db_volumes wanted.db_artifacts r.effects) r λ volumes r₁.
        if meets volumes mounts
        then returns (fail_safely "db_volume_misclassified" r₁)
        else goes (log (saw_db_volumes volumes) r₁)

  unfoldable pub overwrite : List String → Restoring → Progressed
  unfolding call on_overwritten
  overwrite [] r = goes r
  overwrite (m ∷ mounts) r =
      let answer = site.runs_restic (m ∷ mounts) r.effects in
      call (overwrote (m ∷ mounts) answer) answer r on_overwritten

  unfoldable pub guard_and_overwrite : List String → Restoring → Progressed
  unfolding and_then guard_db_volumes overwrite
  guard_and_overwrite mounts r = and_then (guard_db_volumes mounts r) (overwrite mounts)

  -- `volume_classes` is there where it is used, by the check above.
  unfoldable pub hot_mounts : List String → Restoring → Progressed
  unfolding call guard_and_overwrite hot_backup_mounts
  hot_mounts volumes r =
      call looked
        (hot_backup_mounts inst.id (or_else wanted.volume_classes []) (site.has_l4_ports r.effects)
          volumes)
        r guard_and_overwrite

  unfoldable pub data_overwrite : List String → Restoring → Progressed
  unfolding call guard_and_overwrite hot_mounts is_empty
  data_overwrite safety_mounts r =
      if is_empty wanted.db_artifacts
      then guard_and_overwrite safety_mounts r
      else call looked (site.data_volumes r.effects) r hot_mounts

  -- One database artifact.
  unfoldable pub restore_db : String → Restoring → Progressed
  unfolding call fail_safely
  restore_db service r = call looked (site.is_db_healthy service r.effects) r λ healthy r₁.
      if not healthy
      then returns (fail_safely "db_not_ready" r₁)
      else call looked (site.has_restore_hook service r₁.effects) r₁ λ hooked r₂.
        if not hooked
        then returns (fail_safely "no_restore_hook" r₂)
        else call (restored_db service) (site.restores_db service r₂.effects) r₂ λ _. goes

  unfoldable pub restore_dbs : List String → Restoring → Progressed
  unfolding and_then restore_db
  restore_dbs [] r = goes r
  restore_dbs (service ∷ services) r = and_then (restore_db service r) (restore_dbs services)

  unfoldable pub restore_databases : Restoring → Progressed
  unfolding call and_then restore_dbs succeed is_empty
  restore_databases r =
      if is_empty wanted.db_artifacts
      then goes (succeed false r)
      else call (started_services wanted.db_artifacts)
          (site.starts_services wanted.db_artifacts r.effects) (record r { db_started = true })
          λ _ r₁. and_then (restore_dbs wanted.db_artifacts r₁) λ r₂.
            call (started (site.starts r₂.effects)) (site.starts r₂.effects) r₂
              λ _ r₃. goes (succeed true r₃)

  -- From the safety snapshot on; its mounts are all data volumes.
  unfoldable pub restore_volumes : List String → Restoring → Progressed
  unfolding and_then take_safety data_overwrite restore_databases with_l4_ports log
  restore_volumes volumes r =
      let mounts = with_l4_ports (site.has_l4_ports r.effects) volumes in
      and_then (take_safety mounts r) λ r₁.
        and_then (data_overwrite mounts r₁)
          λ r₂. and_then (restore_databases r₂) λ r₃. goes (log forgot r₃)

  -- The body of the `try`.
  unfoldable pub restore_body : Restoring → Progressed
  unfolding and_then stop_first prepare_repo restore_volumes call
  restore_body r = and_then (stop_first r) λ r₁.
      and_then (prepare_repo r₁) λ r₂. call looked (site.data_volumes r₂.effects) r₂ restore_volumes

  -- The first part of the `finally`; an exception in it is logged only.
  unfoldable pub settle_instance : Restoring → Restoring
  unfolding log
  settle_instance r =
      if inst.was_running && not r.overwrite_started && not r.payload.success
      then log (started (site.starts r.effects)) r
      else if r.db_started && not r.payload.success
      then log (torn_down (site.tears_down r.effects)) r
      else r

  -- The rest of it: the state file, the handoff, the lock, the callback.
  unfoldable pub hand_over : Restoring → Restoring
  unfolding log
  hand_over r =
      let r₁ = log (wrote_state r.payload) r in
      let r₂ =
        log released
          (if r.payload.success && not r.payload.already_running then log reserved r₁ else r₁) in
      let r₃ = log (called_back r.payload) r₂ in
      if site.acknowledges r₂.effects then log removed_state r₃ else r₃

  abbrev pub restoring : Restoring
  restoring = record {
    payload = record {
      success = false;
      error_code = some "restore_failed";
      safety_id = none;
      already_running = false;
    };
    safety_id = "";
    overwrite_started = false;
    db_started = false;
    effects = [];
  }

  -- `restore_instance`
  unfoldable pub restore_instance : Restoring
  unfolding restore_body handle settle_instance hand_over
  restore_instance = hand_over (settle_instance (handle (restore_body restoring)))
