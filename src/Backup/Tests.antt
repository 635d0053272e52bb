-- ===== src/Backup/Tests.antt =====
-- A restore of a running shop with one database, which does not come up; and two boots after a crash.
use greffer.Backup.Restore.Guarded.{hands_over, IsGuarded}
use greffer.Backup.Restore.Rollback.{IsAborted, IsRecoverable}
use greffer.Backup.Restore.HandOver.{
  handed_over, restore_instance-IsGuarded, restore_aborts_or_recovers, restore_hands_over,
}
use greffer.Backup.Mounts.Names.{compose_name-IsNamed}
use greffer.Backup.Mounts.Chosen.{has_no_class, is_data, and_ports, hot_backup_mounts_lem}
use greffer.Backup.Mounts.{compose_name, hot_backup_mounts}
use greffer.Backup.Job.{Wanted}
use greffer.Backup.Restore.{restore_instance}
use greffer.Backup.Boot.{InstanceDir, BootSite}
use greffer.Backup.{Payload, done, backup_error, Restic, Effects, Site, Instance}
use greffer.Prelude.{
  String, ◌≡◌, ◌⊎◌, true, false, none, some, List, [], ◌∷◌, if◌then◌else◌, ◌==◌, nat_eq, string_eq,
  select, any, Dict, get,
}

abbrev snapshot : Restic
snapshot = record { code = 0; snapshot_id = "safe1"; err = "" }

abbrev node : Site
node = record {
  stops = λ past. done tt;
  is_quiet = λ past. done true;
  uses_repo = λ past. done tt;
  data_volumes = λ past. done ("shop_files" ∷ "shop_db" ∷ []);
  has_l4_ports = λ past. true;
  runs_restic = λ mounts past. done snapshot;
  db_volumes = λ services past. done ("shop_db" ∷ []);
  starts_services = λ services past. done tt;
  is_db_healthy = λ service past. done false;
  has_restore_hook = λ service past. done true;
  restores_db = λ service past. done tt;
  starts = λ past. done tt;
  tears_down = λ past. done tt;
  acknowledges = λ past. false;
}

abbrev shop : Instance
shop = record { id = "shop"; was_running = true }

abbrev classes : Dict String String
classes = ("files", "data") ∷ ("db", "database") ∷ []

abbrev asked : Wanted
asked = record { db_artifacts = "db" ∷ []; volume_classes = some classes }

restore_instance-IsGuarded_example :
    IsGuarded node shop asked (restore_instance node shop asked).effects
restore_instance-IsGuarded_example = restore_instance-IsGuarded node shop asked

restore_aborts_or_recovers_example :
    IsAborted shop (restore_instance node shop asked)
    ⊎ IsRecoverable shop (restore_instance node shop asked)
restore_aborts_or_recovers_example = restore_aborts_or_recovers node shop asked

restore_hands_over_example :
    (past : Effects) × (any hands_over past ≡ false)
    × ((restore_instance node shop asked).effects
        ≡ handed_over node (restore_instance node shop asked).payload past)
restore_hands_over_example = restore_hands_over node shop asked

hot_backup_mounts_lem_example :
    hot_backup_mounts "shop" classes true ("shop_files" ∷ "shop_db" ∷ []) ≡ (
      if any
        (λ v. has_no_class (get classes (compose_name "shop" v)))
        ("shop_files" ∷ "shop_db" ∷ [])
      then backup_error "volume_unclassified"
      else done (
          and_ports true (
            select
              (λ v. is_data (get classes (compose_name "shop" v)))
              ("shop_files" ∷ "shop_db" ∷ []))))
hot_backup_mounts_lem_example =
    hot_backup_mounts_lem "shop" classes true ("shop_files" ∷ "shop_db" ∷ []) (compose_name "shop")
      (compose_name-IsNamed "shop")

abbrev lost_payload : Payload
lost_payload = record {
  success = true;
  error_code = none;
  safety_id = some "safe1";
  already_running = false;
}

-- The manager does not answer at the first boot.
abbrev first_boot : BootSite
first_boot = record {
  is_stopped = λ id. done true;
  acknowledges = λ id payload. id == "kept";
  removes = λ id name. true;
}

abbrev crashed : List InstanceDir
crashed =
    record { id = "shop"; has_marker = true; states = (".restore_1.json", some lost_payload) ∷ [] }
    ∷ record {
      id = "kept";
      has_marker = false;
      states = (".restore_2.json", some lost_payload) ∷ [];
    }
    ∷ []
