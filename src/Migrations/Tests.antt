-- ===== src/Migrations/Tests.antt =====
-- Runs of the migrations runner on a small registry.
use greffer.Prelude.Int.{pos, is_positive}
use greffer.Migrations.Base.{number, Result, raises, raised, summary_dict, Migration}
use greffer.Migrations.Registry.{Registry, all_migrations}
use greffer.Migrations.Ledger.{
  Entry, Disk, absent, object, read_or_empty, load, apply_legacy_sentinel_shim, applied_ids,
  mark_applied, atomic_write,
}
use greffer.Migrations.Runner.{Host, Options, run_single, backups_of, errors_of}
use greffer.Migrations.Batch.{apply_pending, exit_code}
use greffer.Migrations.Batch.Gate.{all_recorded, only_required_fail, is_required}
use greffer.Migrations.Batch.Boot.{boot_complete, boot_ignores_advisory}
use greffer.Migrations.Batch.Again.{only_advisory, recorded_boot}
use greffer.Migrations.Batch.Record.{ledger_gains, reported_ok}
use greffer.Prelude.{
  ℕ, ◌+◌, ◌≡◌, refl, true, false, none, some, [], ◌∷◌, nat_eq, string_eq, any, every, contains, get,
  put, pop,
}

-- The state is a count of the volumes that were converted.
abbrev host : Host ℕ
host = record {
  elapsed = λ _ _. pos 0;
  timestamp = λ _. "2026-01-01T00:00:00Z";
  writable = λ _. true;
  removable = λ _. true;
}

abbrev convert : Migration ℕ
convert = record {
  id = "0002";
  description = "converts a volume";
  stop_on_failure = true;
  advisory = false;
  check_preconditions = λ w. (none, w);
  run = λ w. (summary_dict [], w + 1);
}

abbrev tidy : Migration ℕ
tidy = record {
  id = "0001";
  description = "a cleanup that fails";
  stop_on_failure = false;
  advisory = true;
  check_preconditions = λ w. (none, w);
  run = λ w. (raises "busy", w);
}

abbrev registry : Registry ℕ
registry = ("0002", convert) ∷ ("0001", tidy) ∷ []

abbrev boot : Options
boot = record { skip = false; only = none; dry_run = false; fail_fast = false }

abbrev rehearse : Options
rehearse = record { skip = false; only = none; dry_run = true; fail_fast = false }

abbrev fresh : Disk
fresh = record { file = absent; sentinel = false }

abbrev written : Entry
written = record {
  id = "0002";
  applied_at = "2026-01-01T00:00:00Z";
  duration_seconds = pos 0;
  summary = [];
  backups = [];
}

abbrev after : Disk
after = record { file = object (written ∷ []); sentinel = false }

abbrev tidied : Result
tidied = record {
  id = "0001";
  ok = true;
  summary =
      ("advisory_failed", record { truthy = true; to_int = number (pos 1); to_list = none }) ∷ [];
  error = some (raised "busy");
  duration_seconds = pos 0;
}

abbrev converted : Result
converted = record { id = "0002"; ok = true; summary = []; error = none; duration_seconds = pos 0 }

order : all_migrations registry ≡ tidy ∷ convert ∷ []
unfolding all_migrations
order = refl

first_boot :
    apply_pending host boot (tidy ∷ convert ∷ []) 0 fresh
    ≡ (some (tidied ∷ converted ∷ []), 1, after)
unfolding apply_pending load apply_legacy_sentinel_shim contains applied_ids read_or_empty
    run_single backups_of get errors_of pop is_positive mark_applied atomic_write put
first_boot = refl

boot_complete_example : all_recorded (tidy ∷ convert ∷ []) (read_or_empty after.file) ≡ true
unfolding exit_code any
boot_complete_example =
    boot_complete host boot (tidy ∷ convert ∷ []) 0 fresh (tidied ∷ converted ∷ []) 1 after refl
      refl refl first_boot refl

boot_ignores_advisory_example :
    only_required_fail (tidy ∷ convert ∷ []) (tidied ∷ converted ∷ []) ≡ true
boot_ignores_advisory_example =
    boot_ignores_advisory host boot (tidy ∷ convert ∷ []) 0 fresh (tidied ∷ converted ∷ []) 1 after
      refl refl (refl, (refl, tt)) first_boot

ledger_gains_example :
    (reported_ok "0002" (tidied ∷ converted ∷ []) ≡ true)
    × (is_required "0002" (tidy ∷ convert ∷ []) ≡ true)
unfolding contains applied_ids read_or_empty
ledger_gains_example =
    ledger_gains host boot (tidy ∷ convert ∷ []) 0 fresh (tidied ∷ converted ∷ []) 1 after "0002"
      refl refl first_boot refl refl

abbrev started : Registry ℕ
started = ("0001", tidy) ∷ []

abbrev extended : Registry ℕ
extended = ("0001", tidy) ∷ ("0002", convert) ∷ []

-- The failing cleanup runs again, and the server starts.
later_boot : apply_pending host boot (tidy ∷ convert ∷ []) 1 after ≡ (some (tidied ∷ []), 1, after)
unfolding apply_pending load apply_legacy_sentinel_shim contains applied_ids read_or_empty
    run_single backups_of get errors_of pop is_positive mark_applied atomic_write put
later_boot = refl

recorded_boot_example :
    (after ≡ after)
    × (only_advisory (tidy ∷ convert ∷ []) (tidied ∷ []) ≡ true)
    × (exit_code (some (tidied ∷ [])) ≡ 0)
unfolding every contains applied_ids read_or_empty
recorded_boot_example =
    recorded_boot host boot (tidy ∷ convert ∷ []) 1 after (tidied ∷ []) 1 after refl
      (refl, (refl, tt)) refl refl later_boot
