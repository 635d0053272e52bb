-- ===== src/Backup/Restore/Body.antt =====
-- The whole body of a restore keeps its overwrites guarded.
use greffer.Backup.Restore.Stages.{
  late_call, early_call, stop_first-Holds, prepare_repo-Holds, take_safety-Holds,
  guard_db_volumes-Holds, overwrite-Holds,
}
use greffer.Backup.Restore.Rules.{and_then-Holds, call-Holds}
use greffer.Backup.Restore.Guarded.{
  IsSpared, IsSaved-cons, IsEarly, IsQuiet, IsLate, Left, Returned, StageHolds, Settled, log-IsLate,
  fail_safely-IsLate,
}
use greffer.Backup.{looked, forgot, started_services, restored_db, started, Site, Instance}
use greffer.Backup.Job.{Restoring, Wanted, log, is_empty, succeed}
use greffer.Backup.Restore.{
  stop_first, prepare_repo, take_safety, guard_db_volumes, guard_and_overwrite, hot_mounts,
  data_overwrite, restore_db, restore_dbs, restore_databases, restore_volumes, restore_body,
}
use greffer.Backup.Mounts.{hot_backup_mounts, with_l4_ports}
use greffer.Prelude.{
  String, refl, inr, Bool, true, false, not, List, [], ◌∷◌, nat_eq, string_eq, or_else, any, if_ind,
}

module _ (site : Site) (inst : Instance) (wanted : Wanted) where
  guard_and_overwrite-Holds :
      (mounts : List String) (r : Restoring)
      → IsLate site inst wanted r
      → StageHolds site inst wanted
          (IsLate site inst wanted)
          (guard_and_overwrite site inst wanted mounts r)
  unfolding guard_and_overwrite
  guard_and_overwrite-Holds mounts r k =
      and_then-Holds (λ r₁. IsLate site inst wanted r₁ × IsSpared site wanted mounts r₁.effects)
        (IsLate site inst wanted) (Returned site inst wanted) (Left site inst wanted)
        (guard_db_volumes site inst wanted mounts r) _
        (guard_db_volumes-Holds site inst wanted mounts r k)
        (overwrite-Holds site inst wanted mounts)

  data_overwrite-Holds :
      (mounts : List String) (r : Restoring)
      → IsLate site inst wanted r
      → StageHolds site inst wanted
          (IsLate site inst wanted)
          (data_overwrite site inst wanted mounts r)
  unfolding data_overwrite hot_mounts
  data_overwrite-Holds mounts r k =
      if_ind (StageHolds site inst wanted (IsLate site inst wanted)) (is_empty wanted.db_artifacts)
        _ _ (λ _. guard_and_overwrite-Holds mounts r k)
        (λ _.
          late_call site inst wanted (IsLate site inst wanted) looked (site.data_volumes r.effects)
            r _ refl k
            λ volumes _ k₁.
              late_call site inst wanted (IsLate site inst wanted) looked
                (hot_backup_mounts inst.id (or_else wanted.volume_classes [])
                  (site.has_l4_ports (log looked r).effects) volumes)
                (log looked r) _ refl k₁ λ chosen _ k₂. guard_and_overwrite-Holds chosen _ k₂)

  -- A database restored in a late state.
  restored_db-IsLate :
      (service : String) (r : Restoring)
      → IsLate site inst wanted r
      → IsLate site inst wanted (log (restored_db service) r)
  unfolding log any
  restored_db-IsLate service r k = record {
    guarded = ((r.safety_id, k.saved), k.guarded);
    saved = IsSaved-cons inst r.safety_id (restored_db service) r.effects k.saved;
    unheld = k.unheld;
    late = k.late;
  }

  restore_db-Holds :
      (service : String) (r : Restoring)
      → IsLate site inst wanted r
      → StageHolds site inst wanted
          (IsLate site inst wanted)
          (restore_db site inst wanted service r)
  unfolding restore_db
  restore_db-Holds service r k =
      late_call site inst wanted (IsLate site inst wanted) looked
        (site.is_db_healthy service r.effects) r _ refl k
        λ healthy _ k₁.
          if_ind (StageHolds site inst wanted (IsLate site inst wanted)) (not healthy) _ _
            (λ _. inr (fail_safely-IsLate site inst wanted "db_not_ready" _ k₁))
            (λ _.
              late_call site inst wanted (IsLate site inst wanted) looked
                (site.has_restore_hook service (log looked r).effects) (log looked r) _ refl k₁
                λ hooked _ k₂.
                  if_ind (StageHolds site inst wanted (IsLate site inst wanted)) (not hooked) _ _
                    (λ _. inr (fail_safely-IsLate site inst wanted "no_restore_hook" _ k₂))
                    (λ _.
                      call-Holds (IsLate site inst wanted) (Returned site inst wanted)
                        (Left site inst wanted) (restored_db service)
                        (site.restores_db service (log looked (log looked r)).effects)
                        (log looked (log looked r)) _ (inr (restored_db-IsLate service _ k₂))
                        (λ _ _. restored_db-IsLate service _ k₂)))

  restore_dbs-Holds :
      (services : List String) (r : Restoring)
      → IsLate site inst wanted r
      → StageHolds site inst wanted
          (IsLate site inst wanted)
          (restore_dbs site inst wanted services r)
  unfolding restore_dbs
  restore_dbs-Holds [] r k = k
  restore_dbs-Holds (service ∷ services) r k =
      and_then-Holds (IsLate site inst wanted) (IsLate site inst wanted) (Returned site inst wanted)
        (Left site inst wanted) (restore_db site inst wanted service r) _
        (restore_db-Holds service r k) (restore_dbs-Holds services)

  late_succeeds :
      (running : Bool) (r : Restoring)
      → IsLate site inst wanted r
      → (Settled site inst wanted) (succeed running r)
  unfolding succeed
  late_succeeds running r k =
      (record { guarded = k.guarded; saved = k.saved; unheld = k.unheld; late = k.late }, refl)

  restore_databases-Holds :
      (r : Restoring)
      → IsLate site inst wanted r
      → StageHolds site inst wanted
          (Settled site inst wanted)
          (restore_databases site inst wanted r)
  unfolding restore_databases
  restore_databases-Holds r k =
      if_ind (StageHolds site inst wanted (Settled site inst wanted)) (is_empty wanted.db_artifacts)
        _ _ (λ _. late_succeeds false r k)
        (λ _.
          late_call site inst wanted (Settled site inst wanted)
            (started_services wanted.db_artifacts)
            (site.starts_services wanted.db_artifacts r.effects) (record r { db_started = true }) _
            refl (record { guarded = k.guarded; saved = k.saved; unheld = k.unheld; late = k.late })
            λ _ _ k₁.
              and_then-Holds (IsLate site inst wanted) (Settled site inst wanted)
                (Returned site inst wanted) (Left site inst wanted)
                (restore_dbs site inst wanted wanted.db_artifacts _) _
                (restore_dbs-Holds wanted.db_artifacts _ k₁)
                λ r₂ k₂.
                  late_call site inst wanted (Settled site inst wanted)
                    (started (site.starts r₂.effects)) (site.starts r₂.effects) r₂ _ refl k₂
                    λ _ _ k₃. late_succeeds true _ k₃)

  restore_volumes-Holds :
      (volumes : List String) (r : Restoring)
      → IsQuiet site inst wanted r
      → StageHolds site inst wanted
          (Settled site inst wanted)
          (restore_volumes site inst wanted volumes r)
  unfolding restore_volumes log
  restore_volumes-Holds volumes r k =
      and_then-Holds (IsLate site inst wanted) (Settled site inst wanted)
        (Returned site inst wanted) (Left site inst wanted)
        (take_safety site inst wanted (with_l4_ports (site.has_l4_ports r.effects) volumes) r) _
        (take_safety-Holds site inst wanted (with_l4_ports (site.has_l4_ports r.effects) volumes) r
          k)
        λ r₁ k₁.
          and_then-Holds (IsLate site inst wanted) (Settled site inst wanted)
            (Returned site inst wanted) (Left site inst wanted)
            (data_overwrite site inst wanted _ r₁) _ (data_overwrite-Holds _ r₁ k₁)
            λ r₂ k₂.
              and_then-Holds (Settled site inst wanted) (Settled site inst wanted)
                (Returned site inst wanted) (Left site inst wanted)
                (restore_databases site inst wanted r₂) _ (restore_databases-Holds r₂ k₂)
                λ r₃ k₃. (log-IsLate site inst wanted forgot r₃ refl k₃.0, k₃.1)

  pub restore_body-Holds :
      (r : Restoring)
      → IsEarly site inst wanted r
      → StageHolds site inst wanted (Settled site inst wanted) (restore_body site inst wanted r)
  unfolding restore_body log
  restore_body-Holds r k =
      and_then-Holds (IsQuiet site inst wanted) (Settled site inst wanted)
        (Returned site inst wanted) (Left site inst wanted) (stop_first site inst wanted r) _
        (stop_first-Holds site inst wanted r k)
        λ r₁ k₁.
          and_then-Holds (IsQuiet site inst wanted) (Settled site inst wanted)
            (Returned site inst wanted) (Left site inst wanted) (prepare_repo site inst wanted r₁) _
            (prepare_repo-Holds site inst wanted r₁ k₁)
            λ r₂ k₂.
              early_call site inst wanted (Settled site inst wanted) looked
                (site.data_volumes r₂.effects) r₂ _ refl k₂.early
                λ volumes _ k₃.
                  restore_volumes-Holds volumes (log looked r₂)
                    (record { early = k₃; quiet = λ running. inr (k₂.quiet running) })
