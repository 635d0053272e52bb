-- ===== src/Migrations/Batch/Again.antt =====
-- A batch on a node whose required migrations are all recorded.
use greffer.Migrations.Base.{Result, Migration}
use greffer.Migrations.Ledger.{Entry, Disk, read_or_empty, is_applied}
use greffer.Migrations.Runner.{Host, Node, Options}
use greffer.Migrations.Runner.Single.{Ran, crashed, unrecorded, recorded, run_single-Ran}
use greffer.Migrations.Batch.{
  is_passed_over, downgrade, is_halting, dry_result, apply_pending, exit_code,
}
use greffer.Migrations.Batch.Runs.{Runs, done, pass, rehearse, halt, go}
use greffer.Migrations.Batch.Gate.{IsRegistered, all_recorded}
use greffer.Migrations.Batch.Boot.{apply_pending-Finished}
use greffer.Migrations.Batch.Record.{load_plain}
use greffer.Prelude.{
  String, ◌≡◌, refl, sym, ap, ◌∙◌, inl, inr, Bool, true, false, ◌&&◌, ◌||◌, Option, some, List, [],
  ◌∷◌, arith, eq_iff, ◌==◌, nat_eq, string_eq, Bool-cases, All, any, every,
}

-- Whether the list has an advisory migration with the id.
abbrev pub is_advisory : {W : Type 0} → String → List (Migration W) → Bool
is_advisory id ms = any (λ m. m.id == id && m.advisory) ms

abbrev pub only_advisory : {W : Type 0} → List (Migration W) → List Result → Bool
only_advisory ms rs = every (λ r. is_advisory r.id ms && r.ok) rs

only_advisory-cons :
    {W : Type 0} (m : Migration W) (ms : List (Migration W)) (rs : List Result)
    → only_advisory ms rs ≡ true
    → only_advisory (m ∷ ms) rs ≡ true
unfolding every any
only_advisory-cons m ms [] h = refl
only_advisory-cons m ms (r ∷ rs) h = ground (arith, only_advisory-cons m ms rs)

due_advisory :
    {W : Type 0} (opts : Options) (m : Migration W) (applied : List Entry)
    → is_passed_over opts m applied ≡ false
    → (m.advisory || is_applied applied m.id) ≡ true
    → m.advisory ≡ true
unfolding is_passed_over
due_advisory opts m applied due known = ground (arith, due, known)

some-inj : {A : Type 0} {x y : A} → some x ≡ some y → x ≡ y
some-inj e = cc e

-- What the run of an advisory migration leaves alone.
abbrev Kept : {W : Type 0} → Migration W → Node W → Result → Node W → Type 0
Kept m s r t = (t.applied ≡ s.applied) × (t.disk ≡ s.disk) × (r.id ≡ m.id)

Ran-Kept :
    {W : Type 0} (host : Host W) (m : Migration W) (s : Node W) {x : Option Result × Node W}
    (r : Result) (t : Node W)
    → m.advisory ≡ true
    → Ran host m s x
    → x ≡ (some r, t)
    → Kept m s r t
Ran-Kept host m s r t advisory (crashed w) e = cc e
Ran-Kept host m s r t advisory (unrecorded r' w same ok) e = (
  sym (ap (λ y. y.1.applied) e),
  sym (ap (λ y. y.1.disk) e),
  ap (λ (q : Result). q.id) (some-inj (sym (ap (λ y. y.0) e))) ∙ same,
)
Ran-Kept host m s r t advisory (recorded summary backups duration w required) e =
    absurd (cc (advisory, required))

module _ {W : Type 0} {host : Host W} {opts : Options} where
  Runs_only_advisory :
      {ms : List (Migration W)} {s s' : Node W} {rs : List Result}
      → Runs host opts ms s rs s'
      → opts.fail_fast ≡ false
      → All IsRegistered ms
      → all_recorded ms s.applied ≡ true
      → (s'.disk ≡ s.disk) × (only_advisory ms rs ≡ true)
  unfolding every any downgrade is_halting dry_result
  Runs_only_advisory done slow ok known = (refl, refl)
  Runs_only_advisory (pass {m = m} {ms = ms} {rs = rs} over rest) slow (_, ok) known =
      let (same, only) = Runs_only_advisory rest slow ok (ground (arith, known)) in
      (same, only_advisory-cons m ms rs only)
  Runs_only_advisory {s = s} (rehearse {m = m} {ms = ms} {rs = rs} due dry rest) slow (_, ok)
        known =
      let (same, only) = Runs_only_advisory rest slow ok (ground (arith, known)) in
      let advisory = due_advisory opts m s.applied due (ground (arith, known)) in
      (same, ground (arith, advisory, eq_iff m.id m.id, only_advisory-cons m ms rs only))
  Runs_only_advisory {s = s} (halt {m = m} {t = t} r due wet ran stop) slow (fine, ok) known =
      let advisory = due_advisory opts m s.applied due (ground (arith, known)) in
      absurd (ground (arith, stop, advisory, fine, slow))
  Runs_only_advisory {s = s} (go {m = m} {ms = ms} {t = t} {rs = rs} r due wet ran on rest) slow
        (fine, ok) known =
      let advisory = due_advisory opts m s.applied due (ground (arith, known)) in
      let (kept, kept', same_id) = Ran-Kept host m s r t advisory (run_single-Ran host m s) ran in
      let (same, only) =
        Runs_only_advisory rest slow ok (ap (all_recorded ms) kept ∙ ground (arith, known)) in
      (
        same ∙ kept',
        ground (
          arith,
          advisory,
          on,
          same_id,
          eq_iff m.id r.id,
          eq_iff m.id m.id,
          only_advisory-cons m ms rs only,
        ),
      )

only_advisory-exit_code :
    {W : Type 0} (ms : List (Migration W)) (rs : List Result)
    → only_advisory ms rs ≡ true
    → exit_code (some rs) ≡ 0
unfolding exit_code every any
only_advisory-exit_code ms [] h = refl
only_advisory-exit_code ms (r ∷ rs) h = ground (arith, h, only_advisory-exit_code ms rs)

-- A later boot: if every required migration of the registry is recorded on disk, there is no legacy
-- sentinel and `--fail-fast` is not given, then a batch over registered migrations that finishes
-- leaves the ledger on disk as it is, has results of advisory migrations only, all ok, and exits
-- with 0, whatever the other options and whatever the advisory migrations do.
pub recorded_boot :
    {W : Type 0} (host : Host W) (opts : Options) (ms : List (Migration W)) (w : W) (disk : Disk)
    (rs : List Result) (w' : W) (disk' : Disk)
    → opts.fail_fast ≡ false
    → All IsRegistered ms
    → disk.sentinel ≡ false
    → all_recorded ms (read_or_empty disk.file) ≡ true
    → apply_pending host opts ms w disk ≡ (some rs, w', disk')
    → (disk' ≡ disk) × (only_advisory ms rs ≡ true) × (exit_code (some rs) ≡ 0)
unfolding apply_pending every
recorded_boot host opts ms w disk rs w' disk' slow ok plain known run =
    elim (Bool-cases opts.skip) [
      | inl off ↦
          let run' = rw off at run in
          let none_run : [] ≡ rs = cc run' in
          let only = ap (only_advisory ms) (sym none_run) in
          (sym (ap (λ x. x.2) run'), only, only_advisory-exit_code ms rs only)
      | inr on ↦
          let f = apply_pending-Finished host opts ms w disk rs w' disk' on run in
          let loaded =
            load_plain (host.timestamp w) (host.writable w) (host.removable w) disk plain in
          let path : f.applied ≡ read_or_empty disk.file = cc (f.load_ok, loaded) in
          let path' : f.loaded ≡ disk = cc (f.load_ok, loaded) in
          let (same, only) =
            Runs_only_advisory f.runs slow ok (ap (all_recorded ms) path ∙ known) in
          (f.saved ∙ same ∙ path', only, only_advisory-exit_code ms rs only)
    ]
