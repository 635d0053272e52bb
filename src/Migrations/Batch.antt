-- ===== src/Migrations/Batch.antt =====
-- `apply_pending` of apps/utils/ops_migrations/runner.py, and the exit code that
-- `_apply_ops_migrations` of app/cli.py derives from it.
pub mod Runs
pub mod Gate
pub mod Record
pub mod Again
pub mod Boot
use greffer.Prelude.Int.{ℤ, pos}
use greffer.Migrations.Base.{truth, Summary, Failure, Result, Migration}
use greffer.Migrations.Ledger.{Entry, Disk, is_applied, load}
use greffer.Migrations.Runner.{Host, Node, Options, run_single}
use greffer.Prelude.{
  ℕ, zero, suc, ◌+◌, ◌-◌, ◌*◌, ◌≤◌, ◌<◌, String, ◌≡◌, refl, sym, ap, ◌∙◌, ◌≢◌, ◌↔◌, ◌⊎◌, inl, inr,
  Bool, true, false, not, ◌&&◌, ◌||◌, Option, none, some, List, [], ◌∷◌, ◌++◌, map, arith, eq_iff,
  ltb, leb, if◌then◌else◌, Eq, ◌==◌, ◌!=◌, nat_eq, string_eq, Bool-cases, Option-cases, or_else,
  or_false, All, All-append, length, select, any, every, contains, contains-append, Dict, get,
  get_or, put, pop, get-put, get-pop, lower, lower_char, Unique, put-Unique, get-put_self,
}

unfoldable pub excluded : Option String → String → Bool
excluded none id = false
excluded (some only) id = id != only

-- The two `continue`s before a migration is considered.
unfoldable pub is_passed_over : {W : Type 0} → Options → Migration W → List Entry → Bool
unfolding excluded
is_passed_over opts mig applied =
    excluded opts.only mig.id || (is_applied applied mig.id && not mig.advisory)

unfoldable pub dry_result : {W : Type 0} → Migration W → Result
dry_result mig = record {
  id = mig.id;
  ok = true;
  summary = ("dry_run", truth) ∷ [];
  error = none;
  duration_seconds = pos 0;
}

-- `halting`
unfoldable pub is_halting : {W : Type 0} → Options → Migration W → Result → Bool
is_halting opts mig r = not r.ok && (mig.stop_on_failure || opts.fail_fast)

-- The result that is recorded: an advisory failure is downgraded when the batch goes on.
unfoldable pub downgrade : {W : Type 0} → Migration W → Bool → Result → Result
downgrade mig halting r =
    if mig.advisory && not r.ok && not halting
    then record r { ok = true; summary = put r.summary "advisory_failed" truth }
    else r

-- The results of a batch, or the OSError of a ledger write that ended it.
abbrev pub Batch : Type 0 → Type 0
Batch W = Option (List Result) × Node W

unfoldable pub cons_result : {W : Type 0} → Result → Batch W → Batch W
cons_result r (none, s) = (none, s)
cons_result r (some rs, s) = (some (r ∷ rs), s)

-- What follows one migration that ran, with the rest of the batch as a function of the state.
after_run :
    {W : Type 0} → Options → Migration W → (Node W → Batch W) → Option Result × Node W → Batch W
unfolding is_halting downgrade cons_result
after_run opts mig rest (none, s) = (none, s)
after_run opts mig rest (some r, s) =
    let halting = is_halting opts mig r in
    let recorded = downgrade mig halting r in
    if halting then (some (recorded ∷ []), s) else cons_result recorded (rest s)

module _ {W : Type 0} (host : Host W) (opts : Options) where
  -- The loop over `all_migrations()`.
  unfoldable pub run_batch : List (Migration W) → Node W → Batch W
  unfolding is_passed_over dry_result after_run
  run_batch [] s = (some [], s)
  run_batch (mig ∷ migs) s =
      let rest = run_batch migs in
      if is_passed_over opts mig s.applied
      then rest s
      else if opts.dry_run
      then cons_result (dry_result mig) (rest s)
      else after_run opts mig rest (run_single host mig s)

  start_batch :
      List (Migration W) → W → Disk → Option (List Entry × Disk) → Option (List Result) × W × Disk
  unfolding run_batch
  start_batch migs w disk none = (none, w, disk)
  start_batch migs w disk (some (applied, disk')) =
      let (results, s) = run_batch migs (record { world = w; applied = applied; disk = disk' }) in
      (results, s.world, s.disk)

  -- `none` is an OSError that leaves `apply_pending`.
  unfoldable pub apply_pending : List (Migration W) → W → Disk → Option (List Result) × W × Disk
  unfolding start_batch
  apply_pending migs w disk =
      if opts.skip
      then (some [], w, disk)
      else start_batch migs w disk
          (load (host.timestamp w) (host.writable w) (host.removable w) disk)

-- The exit code of `apply_ops_migrations` after the batch; the server starts on 0. An exception
-- that leaves the batch ends the process with 1.
unfoldable pub exit_code : Option (List Result) → ℕ
exit_code none = 1
exit_code (some results) = if any (λ r. not r.ok) results then 1 else 0
