-- ===== src/Backup/Job.antt =====
-- The local variables of `restore_instance` of app/backup.py, its calls and its exceptions.
use greffer.Backup.{
  Called, done, backup_error, threw, Restic, Payload, Effect, wrote_pointer, Effects,
}
use greffer.Backup.Mounts.{restore_classify}
use greffer.Prelude.{
  String, Bool, true, false, Option, none, some, List, [], ◌∷◌, if◌then◌else◌, ◌!=◌, nat_eq,
  string_eq, any, contains, Dict,
}

-- The job's local variables, and what it did.
pub record Restoring : Type 0 where
  pub payload : Payload
  pub safety_id : String
  pub overwrite_started : Bool
  pub db_started : Bool
  pub effects : Effects

-- The body goes on, returns, or is left by a `BackupError` or another exception.
pub data Progressed : Type 0 where
  goes returns : Restoring → Progressed
  raises_backup_error : String → Restoring → Progressed
  raises : Restoring → Progressed

-- What the manager asked for: the database artifacts of the manifest, the classes of the volumes.
pub record Wanted : Type 0 where
  pub db_artifacts : List String
  pub volume_classes : Option (Dict String String)

unfoldable pub and_then : Progressed → (Restoring → Progressed) → Progressed
and_then (goes r) next = next r
and_then (returns r) next = returns r
and_then (raises_backup_error code r) next = raises_backup_error code r
and_then (raises r) next = raises r

unfoldable pub log : Effect → Restoring → Restoring
log e r = record r { effects = e ∷ r.effects }

-- A call with its effect.
unfoldable pub call {ℓ} :
    {A : Type ℓ} → Effect → Called A → Restoring → (A → Restoring → Progressed) → Progressed
unfolding log
call e (done a) r next = next a (log e r)
call e (backup_error code) r next = raises_backup_error code (log e r)
call e threw r next = raises (log e r)

unfoldable pub fail_with : String → Restoring → Restoring
fail_with code r = record r { payload = record r.payload { error_code = some code } }

unfoldable pub fail_safely : String → Restoring → Restoring
fail_safely code r = record r {
  payload = record {
    success = false;
    error_code = some code;
    safety_id = some r.safety_id;
    already_running = false;
  };
}

unfoldable pub is_empty {ℓ} : {A : Type ℓ} → List A → Bool
is_empty [] = true
is_empty (a ∷ items) = false

-- `not volume_classes`
unfoldable pub is_unclassified : Option (Dict String String) → Bool
unfolding is_empty
is_unclassified none = true
is_unclassified (some classes) = is_empty classes

-- Whether a volume of a database is among the mounts.
unfoldable pub meets : List String → List String → Bool
meets volumes mounts = any (λ v. contains v mounts) volumes

unfoldable pub succeed : Bool → Restoring → Restoring
succeed running r = record r {
  payload = record {
    success = true;
    error_code = none;
    safety_id = some r.safety_id;
    already_running = running;
  };
}

-- The `except` clauses.
unfoldable pub handle : Progressed → Restoring
handle (goes r) = r
handle (returns r) = r
handle (raises_backup_error code r) = record r {
  payload = record r.payload { error_code = some code; safety_id = some r.safety_id };
}
handle (raises r) = record r { payload = record r.payload { safety_id = some r.safety_id } }

unfoldable pub on_overwritten : Restic → Restoring → Progressed
unfolding fail_safely restore_classify
on_overwritten res r =
    if res.code != 0 then returns (fail_safely (restore_classify res.err) r) else goes r

-- The pointer is written before the overwrite.
unfoldable pub on_safety : Restic → Restoring → Progressed
unfolding fail_with log
on_safety res r =
    if res.code != 0
    then returns (fail_with "safety_snapshot_failed" r)
    else goes (record (log (wrote_pointer res.snapshot_id) r) {
      safety_id = res.snapshot_id;
      overwrite_started = true;
    })
