-- ===== src/Migrations/Batch/Boot.antt =====
-- `apply_pending` at boot: the Dockerfile's command passes no flag, and the server starts only
-- on exit code 0.
use greffer.Migrations.Base.{Result, Migration}
use greffer.Migrations.Ledger.{
  Entry, Disk, read_or_empty, atomic_write, apply_legacy_sentinel_shim, load,
}
use greffer.Migrations.Runner.{Host, Node, Options}
use greffer.Migrations.Runner.Single.{run_single-After, IsSynced}
use greffer.Migrations.Batch.{run_batch, start_batch, apply_pending, exit_code}
use greffer.Migrations.Batch.Runs.{Runs, done, pass, rehearse, halt, go, run_batch-Runs}
use greffer.Migrations.Batch.Gate.{
  IsRegistered, all_recorded, all_ok, only_required_fail, Runs_all_recorded,
  Runs_only_required_fail,
}
use greffer.Prelude.{
  String, ◌≡◌, refl, sym, ap, ◌∙◌, Bool, true, false, Option, none, some, List, [], ◌∷◌, arith,
  nat_eq, string_eq, All, any, every,
}

shim-synced :
    (now : String) (writable removable : Bool) (applied : List Entry) (d : Disk)
    (applied' : List Entry) (d' : Disk)
    → read_or_empty d.file ≡ applied
    → apply_legacy_sentinel_shim now writable removable applied d ≡ some (applied', d')
    → read_or_empty d'.file ≡ applied'
unfolding apply_legacy_sentinel_shim atomic_write read_or_empty
shim-synced now writable removable applied d applied' d' same h = ground arith

-- What `load` returns is what the ledger file then holds.
pub load-synced :
    (now : String) (writable removable : Bool) (d : Disk) (applied : List Entry) (d' : Disk)
    → load now writable removable d ≡ some (applied, d')
    → read_or_empty d'.file ≡ applied
unfolding load
load-synced now writable removable d applied d' h =
    shim-synced now writable removable (read_or_empty d.file) d applied d' refl h

module _ {W : Type 0} {host : Host W} {opts : Options} where
  pub Runs-IsSynced :
      {ms : List (Migration W)} {s s' : Node W} {rs : List Result}
      → Runs host opts ms s rs s'
      → IsSynced s
      → IsSynced s'
  Runs-IsSynced done h = h
  Runs-IsSynced (pass over rest) h = Runs-IsSynced rest h
  Runs-IsSynced (rehearse due dry rest) h = Runs-IsSynced rest h
  Runs-IsSynced {s = s} (halt {m = m} {t = t} r due wet ran stop) h =
      (run_single-After host m s r t ran).synced h
  Runs-IsSynced {s = s} (go {m = m} {t = t} r due wet ran on rest) h =
      Runs-IsSynced rest ((run_single-After host m s r t ran).synced h)

-- A batch that finished, from the ledger as it was loaded.
pub record Finished {W : Type 0} (host : Host W) (opts : Options) (ms : List (Migration W)) (w : W)
    (disk : Disk) (rs : List Result) (w' : W) (disk' : Disk) : Type 0 where
  pub applied : List Entry
  pub loaded : Disk
  pub load_ok :
      load (host.timestamp w) (host.writable w) (host.removable w) disk ≡ some (applied, loaded)
  pub last : Node W
  pub runs : Runs host opts ms (record { world = w; applied = applied; disk = loaded }) rs last
  pub world : w' ≡ last.world
  pub saved : disk' ≡ last.disk

start_batch-Finished :
    {W : Type 0} (host : Host W) (opts : Options) (ms : List (Migration W)) (w : W) (disk : Disk)
    (rs : List Result) (w' : W) (disk' : Disk) (o : Option (List Entry × Disk))
    → load (host.timestamp w) (host.writable w) (host.removable w) disk ≡ o
    → start_batch host opts ms w disk o ≡ (some rs, w', disk')
    → Finished host opts ms w disk rs w' disk'
unfolding start_batch
start_batch-Finished host opts ms w disk rs w' disk' none e h = cc
start_batch-Finished host opts ms w disk rs w' disk' (some (applied, loaded)) e h =
    let s : Node _ = record { world = w; applied = applied; disk = loaded } in
    let last = (run_batch host opts ms s).1 in
    record {
      applied = applied;
      loaded = loaded;
      load_ok = e;
      last = last;
      runs = run_batch-Runs host opts ms s rs last (λ i. ((h i).0, last));
      world = sym (ap (λ x. x.1) h);
      saved = sym (ap (λ x. x.2) h);
    }

pub apply_pending-Finished :
    {W : Type 0} (host : Host W) (opts : Options) (ms : List (Migration W)) (w : W) (disk : Disk)
    (rs : List Result) (w' : W) (disk' : Disk)
    → opts.skip ≡ false
    → apply_pending host opts ms w disk ≡ (some rs, w', disk')
    → Finished host opts ms w disk rs w' disk'
unfolding apply_pending
apply_pending-Finished host opts ms w disk rs w' disk' on h =
    start_batch-Finished host opts ms w disk rs w' disk'
      (load (host.timestamp w) (host.writable w) (host.removable w) disk) refl (rw on at h)

exit_code-all_ok : (rs : List Result) → exit_code (some rs) ≡ 0 → all_ok rs ≡ true
unfolding exit_code any every
exit_code-all_ok [] h = refl
exit_code-all_ok (r ∷ rs) h = ground (arith, exit_code-all_ok rs)

-- If migrations are not skipped and a batch over all of them, not a rehearsal, ends with exit code
-- 0, then the ledger file on disk records every migration of the registry that is not advisory.
pub boot_complete :
    {W : Type 0} (host : Host W) (opts : Options) (ms : List (Migration W)) (w : W) (disk : Disk)
    (rs : List Result) (w' : W) (disk' : Disk)
    → opts.skip ≡ false
    → opts.only ≡ none
    → opts.dry_run ≡ false
    → apply_pending host opts ms w disk ≡ (some rs, w', disk')
    → exit_code (some rs) ≡ 0
    → all_recorded ms (read_or_empty disk'.file) ≡ true
boot_complete host opts ms w disk rs w' disk' on all wet run zero_exit =
    let f = apply_pending-Finished host opts ms w disk rs w' disk' on run in
    let synced = Runs-IsSynced f.runs (
      load-synced (host.timestamp w) (host.writable w) (host.removable w) disk f.applied f.loaded
        f.load_ok) in
    let good = Runs_all_recorded f.runs all wet (exit_code-all_ok rs zero_exit) in
    ap (λ d. all_recorded ms (read_or_empty d.file)) f.saved ∙ ap (all_recorded ms) synced ∙ good

-- Without `--fail-fast`, every failed result of a batch over registered migrations that finishes
-- belongs to a migration that is not advisory: the result of a failed cleanup never keeps the
-- server from starting.
pub boot_ignores_advisory :
    {W : Type 0} (host : Host W) (opts : Options) (ms : List (Migration W)) (w : W) (disk : Disk)
    (rs : List Result) (w' : W) (disk' : Disk)
    → opts.skip ≡ false
    → opts.fail_fast ≡ false
    → All IsRegistered ms
    → apply_pending host opts ms w disk ≡ (some rs, w', disk')
    → only_required_fail ms rs ≡ true
boot_ignores_advisory host opts ms w disk rs w' disk' on slow fine run =
    Runs_only_required_fail (apply_pending-Finished host opts ms w disk rs w' disk' on run).runs
      slow fine
