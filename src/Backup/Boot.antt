-- ===== src/Backup/Boot.antt =====
-- `reconcile_on_boot` of app/backup.py: what a fresh process makes of the jobs that a crash cut off.
pub mod Twice
use greffer.Backup.{Called, done, backup_error, threw, Payload}
use greffer.Prelude.{
  ℕ, zero, suc, ◌+◌, ◌-◌, ◌*◌, ◌≤◌, ◌<◌, String, ◌≡◌, refl, sym, ap, ap₂, ◌∙◌, ◌≢◌, ◌↔◌, ◌⊎◌, inl,
  inr, Bool, true, false, not, ◌&&◌, ◌||◌, Option, none, some, List, [], ◌∷◌, ◌++◌, map, arith,
  eq_iff, ltb, leb, if◌then◌else◌, Eq, ◌==◌, ◌!=◌, nat_eq, string_eq, Bool-cases, Option-cases,
  or_else, or_false, All, All-append, length, select, any, every, contains, contains-append, Dict,
  get, get_or, put, pop, get-put, get-pop, lower, lower_char, Unique, put-Unique, get-put_self,
  if_ind,
}

-- A restore's state file: its name and its payload, if the file can be read.
abbrev pub StateFile : Type 0
StateFile = String × Option Payload

-- The directory of an instance.
pub record InstanceDir : Type 0 where
  pub id : String
  pub has_marker : Bool
  pub states : List StateFile

-- What docker and the manager answer, and whether a file can be removed.
pub record BootSite : Type 0 where
  pub is_stopped : String → Called Bool
  pub acknowledges : String → Payload → Bool
  pub removes : String → String → Bool

-- The instances for which a start was tried, the callbacks that were posted, what is left on disk.
pub record Booted : Type 0 where
  pub restarts : List String
  pub posts : List (String × StateFile)
  pub dirs : List InstanceDir

abbrev pub marker_name : String
marker_name = ".backup_inprogress"

abbrev pub is_yes : Called Bool → Bool
is_yes (done b) = b
is_yes (backup_error code) = false
is_yes threw = false

-- A state file that was posted is removed once the manager has it.
unfoldable pub is_settled : BootSite → String → StateFile → Bool
is_settled site id (name, none) = false
is_settled site id (name, some payload) = site.acknowledges id payload && site.removes id name

abbrev pub is_readable : StateFile → Bool
is_readable (name, none) = false
is_readable (name, some payload) = true

unfoldable pub reconcile_dir : BootSite → InstanceDir → Booted
unfolding is_settled select
reconcile_dir site dir = record {
  restarts = if dir.has_marker && is_yes (site.is_stopped dir.id) then dir.id ∷ [] else [];
  posts = map (λ f. (dir.id, f)) (select is_readable dir.states);
  dirs =
      record {
        id = dir.id;
        has_marker = dir.has_marker && not (site.removes dir.id marker_name);
        states = select (λ f. not (is_settled site dir.id f)) dir.states;
      }
      ∷ [];
}

-- `reconcile_on_boot`
unfoldable pub reconcile_on_boot : BootSite → List InstanceDir → Booted
unfolding reconcile_dir
reconcile_on_boot site [] = record { restarts = []; posts = []; dirs = [] }
reconcile_on_boot site (dir ∷ dirs) =
    let first = reconcile_dir site dir in
    let rest = reconcile_on_boot site dirs in
    record {
      restarts = first.restarts ++ rest.restarts;
      posts = first.posts ++ rest.posts;
      dirs = first.dirs ++ rest.dirs;
    }
