-- ===== src/Migrations/Runner.antt =====
-- apps/utils/ops_migrations/runner.py: a batch of migrations under the runner's lock.
pub mod Single
use greffer.Prelude.Int.{ℤ, pos, is_positive}
use greffer.Migrations.Base.{
  IntRead, number, malformed, overflows, Value, truth, Summary, Failure, raised, not_a_summary,
  malformed_backups, malformed_errors, item_errors, Result, Outcome, raises, falsy, summary_dict,
  other_value, Migration,
}
use greffer.Migrations.Ledger.{Entry, Disk, is_applied, load, mark_applied}
use greffer.Prelude.{
  ℕ, zero, suc, ◌+◌, ◌-◌, ◌*◌, ◌≤◌, ◌<◌, String, ◌≡◌, refl, sym, ap, ap₂, ◌∙◌, ◌≢◌, ◌↔◌, ◌⊎◌, inl,
  inr, Bool, true, false, not, ◌&&◌, ◌||◌, Option, none, some, List, [], ◌∷◌, ◌++◌, map, arith,
  eq_iff, ltb, leb, if◌then◌else◌, Eq, ◌==◌, ◌!=◌, nat_eq, string_eq, Bool-cases, Option-cases,
  or_else, or_false, All, All-append, length, select, any, every, contains, contains-append, Dict,
  get, get_or, put, pop, get-put, get-pop, lower, lower_char, Unique, put-Unique, get-put_self,
  if_ind,
}

-- What the runner reads of the host: clocks, and whether the ledger's directory takes a write or
-- an unlink at that state.
pub record Host (W : Type 0) : Type 0 where
  pub elapsed : W → W → ℤ
  pub timestamp : W → String
  pub writable : W → Bool
  pub removable : W → Bool

-- The world, the ledger in memory and the ledger on disk.
pub record Node (W : Type 0) : Type 0 where
  pub world : W
  pub applied : List Entry
  pub disk : Disk

-- The options of `apply_pending`; `skip` is GREFFER_SKIP_OPS_MIGRATIONS.
pub record Options : Type 0 where
  pub skip : Bool
  pub only : Option String
  pub dry_run : Bool
  pub fail_fast : Bool

-- `list(summary.pop("backups", []) or [])`
unfoldable pub backups_of : Option Value → Option (List String)
backups_of none = some []
backups_of (some v) = if v.truthy then v.to_list else some []

-- `int(summary.get("errors") or 0)`
unfoldable pub errors_of : Option Value → IntRead
errors_of none = number (pos 0)
errors_of (some v) = if v.truthy then v.to_int else number (pos 0)

unfoldable pub failed : String → Summary → Failure → ℤ → Result
failed id summary why duration = record {
  id = id;
  ok = false;
  summary = summary;
  error = some why;
  duration_seconds = duration;
}

unfoldable pub succeeded : String → Summary → ℤ → Result
succeeded id summary duration = record {
  id = id;
  ok = true;
  summary = summary;
  error = none;
  duration_seconds = duration;
}

module _ {W : Type 0} (host : Host W) where
  -- The entry that `mark_applied` appends.
  unfoldable pub new_entry : Migration W → Summary → List String → ℤ → W → Entry
  new_entry mig summary backups duration w = record {
    id = mig.id;
    applied_at = host.timestamp w;
    duration_seconds = duration;
    summary = summary;
    backups = backups;
  }

  -- The end of `_run_single`: `none` is the OSError of `mark_applied`.
  unfoldable pub record_applied :
      Migration W → Summary → List String → ℤ → Node W → Option Result × Node W
  unfolding succeeded new_entry
  record_applied mig summary backups duration s =
      elim (mark_applied (host.writable s.world) (new_entry mig summary backups duration s.world)
        s.applied s.disk) [
          | none ↦ (none, s)
          | some (applied, disk) ↦ (
            some (succeeded mig.id summary duration),
            record s { applied = applied; disk = disk },
          )
        ]

  -- An OverflowError is not caught: as an OSError of `mark_applied`, it ends the batch.
  judge_errors : Migration W → Summary → List String → ℤ → IntRead → Node W → Option Result × Node W
  unfolding record_applied failed succeeded
  judge_errors mig summary backups duration malformed s = (
    some (failed mig.id summary (malformed_errors (or_else (get summary "errors") truth)) duration),
    s,
  )
  judge_errors mig summary backups duration overflows s = (none, s)
  judge_errors mig summary backups duration (number count) s =
      if is_positive count
      then (some (failed mig.id summary (item_errors count) duration), s)
      else if mig.advisory
      then (some (succeeded mig.id summary duration), s)
      else record_applied mig summary backups duration s

  judge_backups : Migration W → Summary → ℤ → Option (List String) → Node W → Option Result × Node W
  unfolding judge_errors failed
  judge_backups mig summary duration none s =
      (some (failed mig.id summary malformed_backups duration), s)
  judge_backups mig summary duration (some backups) s =
      judge_errors mig summary backups duration (errors_of (get summary "errors")) s

  judge : Migration W → ℤ → Outcome → Node W → Option Result × Node W
  unfolding judge_backups failed
  judge mig duration (raises e) s = (some (failed mig.id [] (raised e) duration), s)
  judge mig duration other_value s = (some (failed mig.id [] not_a_summary duration), s)
  judge mig duration falsy s = judge_backups mig [] duration (some []) s
  judge mig duration (summary_dict d) s =
      judge_backups mig (pop d "backups") duration (backups_of (get d "backups")) s

  run_body : Migration W → W → Option String × W → Node W → Option Result × Node W
  unfolding judge failed
  run_body mig started (some e, w) s =
      (some (failed mig.id [] (raised e) (host.elapsed started w)), record s { world = w })
  run_body mig started (none, w) s =
      let (outcome, w') = mig.run w in
      judge mig (host.elapsed started w') outcome (record s { world = w' })

  -- `_run_single`
  unfoldable pub run_single : Migration W → Node W → Option Result × Node W
  unfolding run_body
  run_single mig s = run_body mig s.world (mig.check_preconditions s.world) s
