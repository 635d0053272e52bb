-- ===== src/Backup/Snapshot/Whole.antt =====
-- A hot backup that succeeds has every artifact.
use greffer.Backup.Snapshot.Gated.{
  OnDone, chain-OnDone, answered, HasDump, HasData, onward, anything,
}
use greffer.Backup.{Called, done, backup_error, threw, Instance}
use greffer.Backup.Mounts.Names.{IsNamed}
use greffer.Backup.Mounts.Chosen.{data-mounted}
use greffer.Backup.Mounts.{hot_backup_mounts}
use greffer.Backup.Job.{is_empty}
use greffer.Backup.Artifacts.{
  BackupReport, saw, used_repo, BackupActs, Node, Backing, Ended, act, failed_report,
}
use greffer.Backup.Snapshot.{
  db_volumes, hot_data_mounts, find_hooks, snap_data, dump_all, complete_report, run_hot_backup,
  run_cold_backup, backup_body,
}
use greffer.Prelude.{
  ℕ, String, ◌≡◌, refl, sym, ap, inl, inr, true, false, ◌&&◌, some, List, [], ◌∷◌, ltb,
  if◌then◌else◌, nat_eq, string_eq, length, contains, Dict, get, if_ind,
}
use greffer.Backup.Snapshot.Taken.{
  snap_data-HasData, dump_all-HasDump, find_hooks-IsMatched, IsMatched, Artifacts,
}

module _ (node : Node) (inst : Instance) (classes : Dict String String) where
  -- The report's manifest has a data snapshot of the node's volumes of class data, which were asked
  -- for first, and the dump of each database.
  pub record IsWhole (before : BackupActs) (r : BackupReport) (acts : BackupActs) : Type 0 where
    pub volumes : List String
    pub asked : node.data_volumes before ≡ done volumes
    pub mounts : List String
    pub chosen :
        hot_backup_mounts inst.id classes (node.has_l4_ports (saw ∷ before)) volumes ≡ done mounts
    pub all_data :
        (v name : String)
        → contains v volumes ≡ true
        → IsNamed inst.id v name
        → get classes name ≡ some "data"
        → contains v mounts ≡ true
    pub manifest : Dict String String
    pub reported : r.manifest ≡ some manifest
    pub has_data : HasData mounts manifest acts
    pub databases :
        is_empty (db_volumes node inst classes) ≡ false
        → (ltb 1 (length (db_volumes node inst classes)) ≡ false)
          × ((service : String) × HasDump service manifest acts)

  abbrev IsChosen : BackupActs → List String → Backing → Type 0
  IsChosen before mounts t =
      (volumes : List String) × ((node.data_volumes before ≡ done volumes)
        × (hot_backup_mounts inst.id classes (node.has_l4_ports (saw ∷ before)) volumes
            ≡ done mounts))

  found :
      (before : BackupActs) (volumes : List String) (answer : Called (List String)) (t : Backing)
      → node.data_volumes before ≡ done volumes
      → hot_backup_mounts inst.id classes (node.has_l4_ports (saw ∷ before)) volumes ≡ answer
      → OnDone (IsChosen before) (answer, t)
  found before volumes (done mounts) t said h = (volumes, (said, h))
  found before volumes (backup_error code) t said h = tt
  found before volumes threw t said h = tt

  hot_data_mounts-IsChosen :
      (s : Backing) → OnDone (IsChosen s.acts) (hot_data_mounts node inst classes s)
  unfolding hot_data_mounts act
  hot_data_mounts-IsChosen s =
      chain-OnDone (λ volumes t. (node.data_volumes s.acts ≡ done volumes) × (t ≡ act saw s))
        (IsChosen s.acts) (node.data_volumes s.acts, act saw s) _
        (answered (node.data_volumes s.acts) (act saw s))
        λ volumes t got.
          found s.acts volumes
            (hot_backup_mounts inst.id classes (node.has_l4_ports t.acts) volumes) t got.0
            (ap
              (λ (u : Backing).
                hot_backup_mounts inst.id classes (node.has_l4_ports u.acts) volumes)
              (sym got.1))

  -- After the dumps of matched hooks.
  abbrev AllTaken : List String → Dict String String × ℕ → Backing → Type 0
  AllTaken mounts artifacts t =
      HasData mounts artifacts.0 t.acts
      × (is_empty (db_volumes node inst classes) ≡ false
          → (ltb 1 (length (db_volumes node inst classes)) ≡ false)
            × ((service : String) × HasDump service artifacts.0 t.acts))

  no_dump :
      (mounts : List String) (taken : Dict String String × ℕ) (s : Backing)
      → AllTaken mounts taken s
      → OnDone (AllTaken mounts) (dump_all node inst classes [] taken s)
  unfolding dump_all
  no_dump mounts taken s k = k

  dump_all-AllTaken :
      (mounts hooks : List String) (taken : Dict String String × ℕ) (s : Backing)
      → IsMatched node inst classes hooks
      → HasData mounts taken.0 s.acts
      → OnDone (AllTaken mounts) (dump_all node inst classes hooks taken s)
  dump_all-AllTaken mounts hooks taken s (inl matched) k =
      rw matched.1 (no_dump mounts taken s (k, λ some_there. cc (matched.0, some_there)))
  dump_all-AllTaken mounts hooks taken s (inr matched) k = rw matched.1.1 (
      onward (Artifacts node inst classes mounts matched.1.0) (AllTaken mounts)
        (dump_all node inst classes (matched.1.0 ∷ []) taken s)
        (dump_all-HasDump node inst classes mounts matched.1.0 taken s k)
        λ artifacts t a. (a.0, λ _. (matched.0, (matched.1.0, a.1))))

  run_hot_backup-IsWhole :
      (s : Backing) → OnDone (λ r t. IsWhole s.acts r t.acts) (run_hot_backup node inst classes s)
  unfolding run_hot_backup complete_report
  run_hot_backup-IsWhole s =
      chain-OnDone (IsChosen s.acts) (λ r t. IsWhole s.acts r t.acts)
        (hot_data_mounts node inst classes s) _ (hot_data_mounts-IsChosen s)
        λ mounts s₁ chosen.
          if_ind (λ (e : Ended BackupReport). OnDone (λ r t. IsWhole s.acts r t.acts) e)
            (is_empty mounts && is_empty (db_volumes node inst classes)) _ _ (λ _. tt)
            (λ _.
              chain-OnDone (λ hooks t. IsMatched node inst classes hooks)
                (λ r t. IsWhole s.acts r t.acts) (find_hooks node inst classes s₁) _
                (find_hooks-IsMatched node inst classes s₁)
                λ hooks s₂ matched.
                  chain-OnDone (λ _ _. Unit) (λ r t. IsWhole s.acts r t.acts)
                    (node.uses_repo s₂.acts, act used_repo s₂) _
                    (anything (node.uses_repo s₂.acts) (act used_repo s₂))
                    λ _ s₃ _.
                      chain-OnDone (λ taken t. HasData mounts taken.0 t.acts)
                        (λ r t. IsWhole s.acts r t.acts) (snap_data node inst classes mounts s₃) _
                        (snap_data-HasData node inst classes mounts s₃)
                        λ taken s₄ k.
                          chain-OnDone (AllTaken mounts) (λ r t. IsWhole s.acts r t.acts)
                            (dump_all node inst classes hooks taken s₄) _
                            (dump_all-AllTaken mounts hooks taken s₄ matched k)
                            λ artifacts s₅ all. record {
                              volumes = chosen.0;
                              asked = chosen.1.0;
                              mounts = mounts;
                              chosen = chosen.1.1;
                              all_data =
                                  data-mounted inst.id classes (node.has_l4_ports (saw ∷ s.acts))
                                    chosen.0 mounts chosen.1.1;
                              manifest = artifacts.0;
                              reported = refl;
                              has_data = all.0;
                              databases = all.1;
                            })

  -- A hot backup that reports success, from any state of the job: its manifest has the id of a
  -- snapshot, ended with code 0, of the mounts that the classification chooses from the volumes
  -- that the node answered when it was asked for them in that state, unless it chooses none; every
  -- one of those volumes whose name has the class data is among the mounts; and if it names a database volume, it names only one, and the manifest has the id of a
  -- dump whose producer and restic both ended with code 0 and which is not empty.
  pub backup_body-IsWhole :
      (s t : Backing) (r : BackupReport)
      → is_empty classes ≡ false
      → backup_body node inst classes s ≡ (done r, t)
      → r.success ≡ true
      → IsWhole s.acts r t.acts
  unfolding backup_body
  backup_body-IsWhole s t r hot ended success =
      rw ended at
        (if_ind
          (λ (e : Ended BackupReport). OnDone (λ r t. r.success ≡ true → IsWhole s.acts r t.acts) e)
          (node.is_unknown_status s.acts) (done (failed_report "instance_missing"), s)
          (if is_empty classes
            then run_cold_backup node inst classes s
            else run_hot_backup node inst classes s)
          (λ _ wrong. cc wrong)
          (λ _.
            if_ind
              (λ (e : Ended BackupReport).
                OnDone (λ r t. r.success ≡ true → IsWhole s.acts r t.acts) e)
              (is_empty classes) _ _ (λ cold. cc (hot, cold))
              (λ _.
                onward (λ r t. IsWhole s.acts r t.acts)
                  (λ r t. r.success ≡ true → IsWhole s.acts r t.acts)
                  (run_hot_backup node inst classes s) (run_hot_backup-IsWhole s) λ r t w _. w)))
        success
