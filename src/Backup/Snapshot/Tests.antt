-- ===== src/Backup/Snapshot/Tests.antt =====
-- A hot backup of a running shop with one database, and a cold one.
use greffer.Backup.{done, Instance}
use greffer.Backup.Mounts.{
  join_text, drop_prefix, compose_name, choice, add_choice, data_mounts, with_l4_ports,
  with_l4_if_any, map_called, hot_backup_mounts,
}
use greffer.Backup.Job.{is_empty}
use greffer.Renewal.Serial.{starts_with}
use greffer.Backup.Snapshot.Whole.{IsWhole, backup_body-IsWhole}
use greffer.Backup.Artifacts.{
  Snapped, Dumped, BackupReport, saw, used_repo, snapped, dumped, Node, Backing, chain, act,
  total_bytes, dump_and_backup, primary,
}
use greffer.Backup.Snapshot.{
  hot_data_mounts, find_hooks, snap_data, dump_all, complete_report, run_hot_backup, backup_body,
}
use greffer.Prelude.{
  String, refl, true, false, none, some, [], ◌∷◌, nat_eq, string_eq, select, Dict, get, put,
}

abbrev snap : Snapped
snap = record { code = 0; err = ""; id = "s1"; bytes = some 10 }

abbrev dump : Dumped
dump = record { timed_out = false; producer = 0; consumer = record snap { id = "d1" } }

abbrev node : Node
node = record {
  is_unknown_status = λ past. false;
  stops = λ past. done tt;
  is_quiet = λ past. done false;
  data_volumes = λ past. done ("shop_files" ∷ "shop_db" ∷ []);
  has_l4_ports = λ past. false;
  uses_repo = λ past. done tt;
  snaps = λ mounts past. done snap;
  dump_hooks = λ past. done ("db" ∷ []);
  dumps = λ service past. done dump;
  restarts = λ past. done tt;
  repo_stats = λ past. none;
}

abbrev shop : Instance
shop = record { id = "shop"; was_running = true }

abbrev classes : Dict String String
classes = ("files", "data") ∷ ("db", "database") ∷ []

abbrev fresh : Backing
fresh = record { stopped_for_backup = false; acts = [] }

abbrev ended : Backing
ended = record {
  stopped_for_backup = false;
  acts =
      dumped "db" (done dump)
      ∷ snapped ("shop_files" ∷ []) (done snap)
      ∷ used_repo
      ∷ saw
      ∷ saw
      ∷ [];
}

abbrev report : BackupReport
report = record {
  success = true;
  error_code = none;
  snapshot_id = some "s1";
  bytes_added = some 20;
  manifest = some (("data", "s1") ∷ ("db:db", "d1") ∷ []);
  repo_bytes = none;
}

backup_body-IsWhole_example : IsWhole node shop classes [] report ended.acts
unfolding backup_body run_hot_backup hot_data_mounts find_hooks snap_data dump_all complete_report
    chain act total_bytes dump_and_backup primary is_empty hot_backup_mounts data_mounts choice
    add_choice compose_name drop_prefix starts_with join_text with_l4_if_any with_l4_ports
    map_called get put select
backup_body-IsWhole_example =
    backup_body-IsWhole node shop classes fresh ended report refl refl refl
