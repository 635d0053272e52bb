-- ===== src/Backup/Artifacts.antt =====
-- A backup job of app/backup.py: what it makes and reports, what it does, and the gates of a dump.
use greffer.Backup.{Called, done, backup_error, threw}
use greffer.Backup.Mounts.{classify}
use greffer.Prelude.{
  ℕ, String, Bool, false, Option, none, some, List, [], ◌∷◌, if◌then◌else◌, ◌==◌, ◌!=◌, nat_eq,
  string_eq, Dict, get, get_or,
}

-- A run of `restic backup`: its exit code, error text, and the id and size that its summary names.
pub record Snapped : Type 0 where
  pub code : ℕ
  pub err : String
  pub id : String
  pub bytes : Option ℕ

-- A database dump piped into `restic backup --stdin`.
pub record Dumped : Type 0 where
  pub timed_out : Bool
  pub producer : ℕ
  pub consumer : Snapped

-- The payload of a `backup-result`.
pub record BackupReport : Type 0 where
  pub success : Bool
  pub error_code : Option String
  pub snapshot_id : Option String
  pub bytes_added : Option ℕ
  pub manifest : Option (Dict String String)
  pub repo_bytes : Option ℕ

pub data BackupAct : Type 0 where
  saw wrote_marker stopped used_repo removed_marker forgot measured released : BackupAct
  waited : Called Bool → BackupAct
  restarted : Called (Unit {0}) → BackupAct
  snapped : List String → Called Snapped → BackupAct
  dumped : String → Called Dumped → BackupAct
  called_back : BackupReport → BackupAct

-- The newest act first.
abbrev pub BackupActs : Type 0
BackupActs = List BackupAct

-- What the node answers, given all that the job did and read before.
pub record Node : Type 0 where
  pub is_unknown_status : BackupActs → Bool
  pub stops : BackupActs → Called (Unit {0})
  pub is_quiet : BackupActs → Called Bool
  pub data_volumes : BackupActs → Called (List String)
  pub has_l4_ports : BackupActs → Bool
  pub uses_repo : BackupActs → Called (Unit {0})
  pub snaps : List String → BackupActs → Called Snapped
  pub dump_hooks : BackupActs → Called (List String)
  pub dumps : String → BackupActs → Called Dumped
  pub restarts : BackupActs → Called (Unit {0})
  pub repo_stats : BackupActs → Option ℕ

-- The job's `stopped_for_backup`, and what it did.
pub record Backing : Type 0 where
  pub stopped_for_backup : Bool
  pub acts : BackupActs

-- A part of the job ends with a value or an exception.
abbrev pub Ended : Type 0 → Type 0
Ended A = Called A × Backing

unfoldable pub chain : {A B : Type 0} → Ended A → (A → Backing → Ended B) → Ended B
chain (done a, s) next = next a s
chain (backup_error code, s) next = (backup_error code, s)
chain (threw, s) next = (threw, s)

unfoldable pub act : BackupAct → Backing → Backing
act a s = record s { acts = a ∷ s.acts }

abbrev pub failed_report : String → BackupReport
failed_report code = record {
  success = false;
  error_code = some code;
  snapshot_id = none;
  bytes_added = none;
  manifest = none;
  repo_bytes = none;
}

unfoldable pub total_bytes : Option ℕ → ℕ
total_bytes none = 0
total_bytes (some n) = n

-- `_dump_and_backup`, which gates both ends of the pipe.
unfoldable pub dump_and_backup : Dumped → Called (String × Option ℕ)
unfolding classify total_bytes
dump_and_backup d =
    if d.timed_out
    then backup_error "timeout"
    else if d.producer != 0
    then backup_error "dump_failed"
    else if d.consumer.code != 0
    then backup_error (classify d.consumer.err)
    else if total_bytes d.consumer.bytes == 0
    then backup_error "dump_empty"
    else done (d.consumer.id, d.consumer.bytes)

-- manifest.get("data") or next(iter(manifest.values())), of a manifest that is not empty
unfoldable pub primary : Dict String String → Option String
unfolding get
primary [] = none
primary ((k, v) ∷ manifest) =
    let data_id = get_or ((k, v) ∷ manifest) "data" "" in
    some (if data_id == "" then v else data_id)
