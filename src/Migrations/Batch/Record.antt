-- ===== src/Migrations/Batch/Record.antt =====
-- What a batch writes to the ledger, and what it does not run.
use greffer.Migrations.Base.{Result, Migration}
use greffer.Migrations.Ledger.{
  Entry, Disk, read_or_empty, is_applied, load, apply_legacy_sentinel_shim,
}
use greffer.Migrations.Runner.{Host, Node, Options}
use greffer.Migrations.Runner.Single.{run_single-After}
use greffer.Migrations.Batch.{
  is_passed_over, downgrade, dry_result, run_batch, start_batch, apply_pending, cons_result,
}
use greffer.Migrations.Batch.Runs.{Runs, done, pass, rehearse, halt, go}
use greffer.Migrations.Batch.Gate.{is_required}
use greffer.Migrations.Batch.Boot.{apply_pending-Finished, Runs-IsSynced, load-synced}
use greffer.Prelude.{
  String, ◌≡◌, refl, sym, ap, ◌∙◌, inl, inr, Bool, true, false, ◌&&◌, some, List, [], ◌∷◌, arith,
  eq_iff, if◌then◌else◌, ◌==◌, nat_eq, string_eq, Bool-cases, any,
}

abbrev pub reported_ok : String → List Result → Bool
reported_ok k rs = any (λ r. r.id == k && r.ok) rs

module _ {W : Type 0} {host : Host W} {opts : Options} where
  Runs_gains :
      {ms : List (Migration W)} {s s' : Node W} {rs : List Result} (k : String)
      → Runs host opts ms s rs s'
      → is_applied s'.applied k ≡ true
      → is_applied s.applied k ≡ false
      → (reported_ok k rs ≡ true) × (is_required k ms ≡ true)
  unfolding any downgrade
  Runs_gains k done h h' = cc
  Runs_gains {s = s} k (pass {m = m} over rest) h h' = ground (arith, Runs_gains k rest h h')
  Runs_gains {s = s} k (rehearse {m = m} due dry rest) h h' = ground (arith, Runs_gains k rest h h')
  Runs_gains {s = s} k (halt {m = m} {t = t} r due wet ran stop) h h' =
      let now = run_single-After host m s r t ran in
      ground (arith, now.adds k h h', now.same_id, eq_iff m.id k, eq_iff r.id k)
  Runs_gains {s = s} k (go {m = m} {t = t} r due wet ran on rest) h h' =
      let now = run_single-After host m s r t ran in
      elim (Bool-cases (is_applied t.applied k)) [
        | inl added ↦ ground (arith, now.adds k added h', now.same_id, eq_iff m.id k, eq_iff r.id k)
        | inr later ↦ ground (arith, Runs_gains k rest h later)
      ]

-- Without a legacy sentinel, `load` changes nothing.
pub load_plain :
    (now : String) (writable removable : Bool) (d : Disk)
    → d.sentinel ≡ false
    → load now writable removable d ≡ some (read_or_empty d.file, d)
unfolding load apply_legacy_sentinel_shim
load_plain now writable removable d h = ground arith

-- If migrations are not skipped and there is no legacy sentinel on disk, then an id that a finished
-- batch adds to the ledger file is the id of a migration of the registry that is not advisory and
-- whose result is reported as ok.
pub ledger_gains :
    {W : Type 0} (host : Host W) (opts : Options) (ms : List (Migration W)) (w : W) (disk : Disk)
    (rs : List Result) (w' : W) (disk' : Disk) (k : String)
    → opts.skip ≡ false
    → disk.sentinel ≡ false
    → apply_pending host opts ms w disk ≡ (some rs, w', disk')
    → is_applied (read_or_empty disk'.file) k ≡ true
    → is_applied (read_or_empty disk.file) k ≡ false
    → (reported_ok k rs ≡ true) × (is_required k ms ≡ true)
ledger_gains host opts ms w disk rs w' disk' k on plain run after earlier =
    let f = apply_pending-Finished host opts ms w disk rs w' disk' on run in
    let loaded = load_plain (host.timestamp w) (host.writable w) (host.removable w) disk plain in
    let synced = Runs-IsSynced f.runs (
      load-synced (host.timestamp w) (host.writable w) (host.removable w) disk f.applied f.loaded
        f.load_ok) in
    let start : f.applied ≡ read_or_empty disk.file = cc (f.load_ok, loaded) in
    Runs_gains k f.runs
      (ap (λ es. is_applied es k) (sym synced)
        ∙ ap (λ (d : Disk). is_applied (read_or_empty d.file) k) (sym f.saved)
        ∙ after)
      (ap (λ es. is_applied es k) start ∙ earlier)

-- The rehearsal of a batch: one result for each migration that is due, none of them run.
unfoldable pub rehearsal : {W : Type 0} → Options → List (Migration W) → List Entry → List Result
rehearsal opts [] applied = []
rehearsal opts (m ∷ ms) applied =
    let rest = rehearsal opts ms applied in
    if is_passed_over opts m applied then rest else dry_result m ∷ rest

module _ {W : Type 0} (host : Host W) (opts : Options) where
  -- The node as a batch finds it when there is no legacy sentinel.
  abbrev before : W → Disk → Node W
  before w disk = record { world = w; applied = read_or_empty disk.file; disk = disk }

  run_batch-dry :
      (ms : List (Migration W)) (s : Node W)
      → opts.dry_run ≡ true
      → run_batch host opts ms s ≡ (some (rehearsal opts ms s.applied), s)
  unfolding run_batch rehearsal cons_result
  run_batch-dry [] s dry = refl
  run_batch-dry (m ∷ ms) s dry = elim (Bool-cases (is_passed_over opts m s.applied)) [
    | inl over ↦ rw (over, run_batch-dry ms s dry)
    | inr due ↦ rw (due, run_batch-dry ms s dry) (simp dry)
  ]

  -- `--dry-run` reports what is due and changes neither the node nor the ledger.
  pub dry_run_changes_nothing :
      (ms : List (Migration W)) (w : W) (disk : Disk)
      → opts.skip ≡ false
      → opts.dry_run ≡ true
      → disk.sentinel ≡ false
      → apply_pending host opts ms w disk
        ≡ (some (rehearsal opts ms (read_or_empty disk.file)), w, disk)
  unfolding apply_pending start_batch
  dry_run_changes_nothing ms w disk on dry plain =
      simp (on, load_plain (host.timestamp w) (host.writable w) (host.removable w) disk plain)
        (rw (run_batch-dry ms (before w disk) dry))
