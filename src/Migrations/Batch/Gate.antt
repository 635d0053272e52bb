-- ===== src/Migrations/Batch/Gate.antt =====
-- Which failures gate the boot, and what a batch without failures has achieved.
use greffer.Migrations.Base.{Result, Migration}
use greffer.Migrations.Ledger.{Entry, is_applied}
use greffer.Migrations.Runner.{Host, Node, Options}
use greffer.Migrations.Runner.Single.{run_single-After}
use greffer.Migrations.Batch.{is_passed_over, excluded, is_halting, downgrade, dry_result}
use greffer.Migrations.Batch.Runs.{Runs, done, pass, rehearse, halt, go}
use greffer.Prelude.{
  String, ◌≡◌, refl, Bool, true, false, not, ◌&&◌, ◌||◌, none, List, [], ◌∷◌, arith, eq_iff, ◌==◌,
  nat_eq, string_eq, All, any, every,
}

-- The registered combinations: `register` refuses an advisory migration that stops the batch.
abbrev pub IsRegistered : {W : Type 0} → Migration W → Type 0
IsRegistered mig = (mig.advisory && mig.stop_on_failure) ≡ false

-- Whether every migration of the list that is not advisory is in the ledger.
abbrev pub all_recorded : {W : Type 0} → List (Migration W) → List Entry → Bool
all_recorded ms applied = every (λ m. m.advisory || is_applied applied m.id) ms

-- Whether a migration with the id is in the list and is not advisory.
abbrev pub is_required : {W : Type 0} → String → List (Migration W) → Bool
is_required id ms = any (λ m. m.id == id && not m.advisory) ms

abbrev pub all_ok : List Result → Bool
all_ok rs = every (λ r. r.ok) rs

-- Every failed result belongs to a migration that is not advisory.
abbrev pub only_required_fail : {W : Type 0} → List (Migration W) → List Result → Bool
only_required_fail ms rs = every (λ r. r.ok || is_required r.id ms) rs

passed_over-applied :
    {W : Type 0} (opts : Options) (m : Migration W) (applied : List Entry)
    → opts.only ≡ none
    → is_passed_over opts m applied ≡ true
    → is_applied applied m.id ≡ true
unfolding is_passed_over excluded
passed_over-applied opts m applied all over = let over' = rw (all, excluded) at over in ground arith

only_required_fail-cons :
    {W : Type 0} (m : Migration W) (ms : List (Migration W)) (rs : List Result)
    → only_required_fail ms rs ≡ true
    → only_required_fail (m ∷ ms) rs ≡ true
unfolding every any
only_required_fail-cons m ms [] h = refl
only_required_fail-cons m ms (r ∷ rs) h = ground (arith, only_required_fail-cons m ms rs)

module _ {W : Type 0} {host : Host W} {opts : Options} where
  Runs-keeps :
      {ms : List (Migration W)} {s s' : Node W} {rs : List Result} (k : String)
      → Runs host opts ms s rs s'
      → is_applied s.applied k ≡ true
      → is_applied s'.applied k ≡ true
  Runs-keeps k done h = h
  Runs-keeps k (pass over rest) h = Runs-keeps k rest h
  Runs-keeps k (rehearse due dry rest) h = Runs-keeps k rest h
  Runs-keeps {s = s} k (halt {m = m} {t = t} r due wet ran stop) h =
      (run_single-After host m s r t ran).keeps k h
  Runs-keeps {s = s} k (go {m = m} {t = t} r due wet ran on rest) h =
      Runs-keeps k rest ((run_single-After host m s r t ran).keeps k h)

  pub Runs_all_recorded :
      {ms : List (Migration W)} {s s' : Node W} {rs : List Result}
      → Runs host opts ms s rs s'
      → opts.only ≡ none
      → opts.dry_run ≡ false
      → all_ok rs ≡ true
      → all_recorded ms s'.applied ≡ true
  unfolding every downgrade is_halting
  Runs_all_recorded done all wet good = refl
  Runs_all_recorded {s = s} (pass {m = m} over rest) all wet good = ground (
    arith,
    passed_over-applied opts m s.applied all over,
    Runs-keeps m.id rest,
    Runs_all_recorded rest all wet good,
  )
  Runs_all_recorded (rehearse due dry rest) all wet good = cc
  Runs_all_recorded (halt {m = m} r due wet' ran stop) all wet good = ground (arith, stop)
  Runs_all_recorded {s = s} {s' = s'} (go {m = m} {t = t} r due wet' ran on rest) all wet good =
      let now = run_single-After host m s r t ran in
      ground (arith, now.records, Runs-keeps m.id rest, Runs_all_recorded rest all wet)

  pub Runs_only_required_fail :
      {ms : List (Migration W)} {s s' : Node W} {rs : List Result}
      → Runs host opts ms s rs s'
      → opts.fail_fast ≡ false
      → All IsRegistered ms
      → only_required_fail ms rs ≡ true
  unfolding every any downgrade is_halting dry_result
  Runs_only_required_fail done slow ok = refl
  Runs_only_required_fail (pass {m = m} {ms = ms} {rs = rs} over rest) slow (_, ok) =
      only_required_fail-cons m ms rs (Runs_only_required_fail rest slow ok)
  Runs_only_required_fail (rehearse {m = m} {ms = ms} {rs = rs} due dry rest) slow (_, ok) =
      only_required_fail-cons m ms rs (Runs_only_required_fail rest slow ok)
  Runs_only_required_fail {s = s} (halt {m = m} {t = t} r due wet ran stop) slow (fine, ok) =
      let now = run_single-After host m s r t ran in
      ground (arith, stop, now.same_id, eq_iff m.id r.id)
  Runs_only_required_fail {s = s} (go {m = m} {ms = ms} {t = t} {rs = rs} r due wet ran on rest)
        slow (fine, ok) =
      let now = run_single-After host m s r t ran in
      ground (
        arith,
        on,
        now.same_id,
        eq_iff m.id r.id,
        only_required_fail-cons m ms rs (Runs_only_required_fail rest slow ok),
      )
