-- ===== src/Migrations/Ledger.antt =====
-- apps/utils/ops_migrations/ledger.py: the record of applied migrations, in memory and on disk.
use greffer.Prelude.Int.{ℤ, pos}
use greffer.Migrations.Base.{Summary, text_value}
use greffer.Prelude.{
  String, Bool, true, false, not, ◌&&◌, Option, none, some, List, [], ◌∷◌, ◌++◌, if◌then◌else◌,
  nat_eq, string_eq, contains,
}

pub record Entry : Type 0 where
  pub id : String
  pub applied_at : String
  pub duration_seconds : ℤ
  pub summary : Summary
  pub backups : List String

-- `.greffer-migrations.json` as `_read_or_empty` finds it.
pub data LedgerFile : Type 0 where
  absent : LedgerFile
  unreadable : LedgerFile
  not_an_object : LedgerFile
  object : List Entry → LedgerFile

-- The ledger and the legacy sentinel on disk.
pub record Disk : Type 0 where
  pub file : LedgerFile
  pub sentinel : Bool

unfoldable pub read_or_empty : LedgerFile → List Entry
read_or_empty absent = []
read_or_empty unreadable = []
read_or_empty not_an_object = []
read_or_empty (object applied) = applied

unfoldable pub applied_ids : List Entry → List String
applied_ids [] = []
applied_ids (e ∷ es) = e.id ∷ applied_ids es

abbrev pub is_applied : List Entry → String → Bool
is_applied applied migration_id = contains migration_id (applied_ids applied)

-- `_atomic_write`: the new content, or the old file and an OSError.
unfoldable pub atomic_write : Bool → List Entry → Disk → Option Disk
atomic_write true applied d = some (record d { file = object applied })
atomic_write false applied d = none

abbrev pub legacy_migration : String
legacy_migration = "0001_namespace_catalog_volumes"

legacy_entry : String → Entry
legacy_entry now = record {
  id = legacy_migration;
  applied_at = now;
  duration_seconds = pos 0;
  summary = ("source", text_value "legacy-sentinel-shim") ∷ [];
  backups = [];
}

unlink : Bool → Disk → Disk
unlink removable d = record d { sentinel = d.sentinel && not removable }

seeded : Bool → List Entry → Option Disk → Option (List Entry × Disk)
unfolding unlink
seeded removable applied none = none
seeded removable applied (some d) = some (applied, unlink removable d)

-- `_apply_legacy_sentinel_shim`; `none` is an OSError of the write, which `load` passes on.
unfoldable pub apply_legacy_sentinel_shim :
    String → Bool → Bool → List Entry → Disk → Option (List Entry × Disk)
unfolding legacy_entry unlink seeded
apply_legacy_sentinel_shim now writable removable applied d =
    if not d.sentinel
    then some (applied, d)
    else if is_applied applied legacy_migration
    then some (applied, unlink removable d)
    else let applied' = applied ++ legacy_entry now ∷ [] in
      seeded removable applied' (atomic_write writable applied' d)

-- `Ledger.load`
unfoldable pub load : String → Bool → Bool → Disk → Option (List Entry × Disk)
load now writable removable d =
    apply_legacy_sentinel_shim now writable removable (read_or_empty d.file) d

-- `mark_applied`; the entry is appended in memory and then written. `none` is an OSError.
unfoldable pub mark_applied : Bool → Entry → List Entry → Disk → Option (List Entry × Disk)
mark_applied writable entry applied d =
    if is_applied applied entry.id
    then some (applied, d)
    else let applied' = applied ++ entry ∷ [] in
      elim (atomic_write writable applied' d) [ none ↦ none | some d' ↦ some (applied', d') ]
