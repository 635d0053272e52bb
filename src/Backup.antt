-- ===== src/Backup.antt =====
-- app/backup.py: the jobs that back an instance up and restore it in place. Here what they do, what
-- the node answers, and the parts that both use.
pub mod Mounts
pub mod Job
pub mod Restore
pub mod Boot
pub mod Locks
pub mod Artifacts
pub mod Snapshot
pub mod Tests
use greffer.Prelude.{
  ℕ, zero, suc, ◌+◌, ◌-◌, ◌*◌, ◌≤◌, ◌<◌, String, ◌≡◌, refl, sym, ap, ap₂, ◌∙◌, ◌≢◌, ◌↔◌, ◌⊎◌, inl,
  inr, Bool, true, false, not, ◌&&◌, ◌||◌, Option, none, some, List, [], ◌∷◌, ◌++◌, map, arith,
  eq_iff, ltb, leb, if◌then◌else◌, Eq, ◌==◌, ◌!=◌, nat_eq, string_eq, Bool-cases, Option-cases,
  or_else, or_false, All, All-append, length, select, any, every, contains, contains-append, Dict,
  get, get_or, put, pop, get-put, get-pop, lower, lower_char, Unique, put-Unique, get-put_self,
  if_ind,
}

-- A call that returned, a `BackupError` with its code, or another exception.
pub data Called {ℓ} (A : Type ℓ) : Type ℓ where
  done : A → Called A
  backup_error : String → Called A
  threw : Called A

-- A run of restic: its exit code, the snapshot's id in its summary and its error text.
pub record Restic : Type 0 where
  pub code : ℕ
  pub snapshot_id : String
  pub err : String

-- What a job reports to the manager.
pub record Payload : Type 0 where
  pub success : Bool
  pub error_code : Option String
  pub safety_id : Option String
  pub already_running : Bool

-- What a job tried, in order, a restart or a teardown with its answer; `looked` reads docker or the instance's directory. A file that cannot
-- be written is logged only, so a written file is an attempt.
pub data Effect : Type 0 where
  looked repo_used stopped forgot : Effect
  saw_quiet : Called Bool → Effect
  took_safety : Called Restic → Effect
  wrote_pointer : String → Effect
  saw_db_volumes : List String → Effect
  overwrote : List String → Called Restic → Effect
  started_services : List String → Effect
  restored_db : String → Effect
  started torn_down : Called (Unit {0}) → Effect
  wrote_state : Payload → Effect
  reserved released : Effect
  called_back : Payload → Effect
  removed_state : Effect

-- The newest effect first.
abbrev pub Effects : Type 0
Effects = List Effect

-- What the node answers, given all that the job did and read before.
pub record Site : Type 0 where
  pub stops : Effects → Called (Unit {0})
  pub is_quiet : Effects → Called Bool
  pub uses_repo : Effects → Called (Unit {0})
  pub data_volumes : Effects → Called (List String)
  pub has_l4_ports : Effects → Bool
  pub runs_restic : List String → Effects → Called Restic
  pub db_volumes : List String → Effects → Called (List String)
  pub starts_services : List String → Effects → Called (Unit {0})
  pub is_db_healthy : String → Effects → Called Bool
  pub has_restore_hook : String → Effects → Called Bool
  pub restores_db : String → Effects → Called (Unit {0})
  pub starts : Effects → Called (Unit {0})
  pub tears_down : Effects → Called (Unit {0})
  pub acknowledges : Effects → Bool

pub record Instance : Type 0 where
  pub id : String
  pub was_running : Bool
