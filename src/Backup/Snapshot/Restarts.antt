-- ===== src/Backup/Snapshot/Restarts.antt =====
-- A backup job tries to start an instance again exactly when it stopped it.
use greffer.Backup.{Instance}
use greffer.Backup.Artifacts.{BackupAct, restarted, waited, Node, Backing}
use greffer.Prelude.{String, ◌≡◌, Bool, true, false, nat_eq, string_eq, any, Dict}

-- The stop of the instance returned, and the job waits.
abbrev pub is_wait : BackupAct → Bool
is_wait (waited answer) = true
is_wait _ = false

abbrev pub is_restart : BackupAct → Bool
is_restart (restarted answer) = true
is_restart _ = false

-- The flag says whether the instance was stopped, and no start was tried.
record IsFlagged (s : Backing) : Type 0 where
  flag : any is_wait s.acts ≡ s.stopped_for_backup
  unstarted : any is_restart s.acts ≡ false

module _ (node : Node) (inst : Instance) (classes : Dict String String) where
  -- A start was tried exactly if the instance was stopped.
  abbrev IsBack : Backing → Type 0
  IsBack s = any is_restart s.acts ≡ any is_wait s.acts
