-- ===== src/Updater/Host.antt =====
-- `run_update` of cli/greffer_cli/update.py up to the first change of the host: which target an
-- update goes to, and the guards before and under the host lock.
pub mod Target
pub mod Guards
use greffer.Updater.Version.{is_downgrade, below_floor}
use greffer.Prelude.{
  ℕ, zero, suc, ◌+◌, ◌-◌, ◌*◌, ◌≤◌, ◌<◌, String, ◌≡◌, refl, sym, ap, ap₂, ◌∙◌, ◌≢◌, ◌↔◌, ◌⊎◌, inl,
  inr, Bool, true, false, not, ◌&&◌, ◌||◌, Option, none, some, List, [], ◌∷◌, ◌++◌, map, arith,
  eq_iff, ltb, leb, if◌then◌else◌, Eq, ◌==◌, ◌!=◌, nat_eq, string_eq, Bool-cases, Option-cases,
  or_else, or_false, All, All-append, length, select, any, every, contains, contains-append, Dict,
  get, get_or, put, pop, get-put, get-pop, lower, lower_char, Unique, put-Unique, get-put_self,
}

pub record Manifest : Type 0 where
  pub latest : Option String
  pub min_supported : Option String
  pub no_rollback_from : List String

-- A tag that is not empty and that `compose.is_valid_image_tag` takes.
unfoldable pub valid_or_none : (String → Bool) → Option String → Option String
valid_or_none is_valid none = none
valid_or_none is_valid (some tag) = if tag != "" && is_valid tag then some tag else none

unfoldable pub latest_of : (String → Bool) → Option Manifest → Option String
unfolding valid_or_none
latest_of is_valid none = none
latest_of is_valid (some manifest) = valid_or_none is_valid manifest.latest

-- `resolve_target`; an empty explicit tag is as none.
unfoldable pub resolve_target : (String → Bool) → Option String → Option Manifest → Option String
unfolding latest_of valid_or_none
resolve_target is_valid none manifest = latest_of is_valid manifest
resolve_target is_valid (some to) manifest =
    if to == "" then latest_of is_valid manifest else valid_or_none is_valid (some to)

pub append_text : String → String → String
append_text String.[] t = t
append_text (String.◌∷◌ c s) t = String.◌∷◌ c (append_text s t)

unfoldable pub no_rollback_blocked : Option Manifest → Option String → String → Option Bool
unfolding append_text
no_rollback_blocked none current target = none
no_rollback_blocked (some manifest) none target = none
no_rollback_blocked (some manifest) (some current) target =
    some (contains (append_text current (append_text "->" target)) manifest.no_rollback_from)

-- What the command was given.
pub record Command : Type 0 where
  pub target : Option String
  pub confirm_no_rollback : Bool
  pub check_only : Bool

-- What `_acquire_update_lock` returns: a handle, None as another run holds the lock, or
-- _NO_HOST_LOCK on a platform that has no such lock.
pub data HostLock : Type 0 where
  lock_taken lock_busy no_host_lock : HostLock

-- `lock is None`
unfoldable pub is_busy : HostLock → Bool
is_busy lock_taken = false
is_busy lock_busy = true
is_busy no_host_lock = false

-- What the run reads of the node; `locked_version` is read again under the lock.
pub record Installed : Type 0 where
  pub manifest : Option Manifest
  pub greffer_id : Option String
  pub current_version : Option String
  pub locked_version : Option String
  pub data_volume_is_named : Bool
  pub running_id : Option String
  pub image_id : String → Option String
  pub host_lock : HostLock

-- EXIT_PREFLIGHT_REFUSED, EXIT_OK with nothing to do, or the update goes on to this tag.
pub data Decision : Type 0 where
  refused nothing_to_do : Decision
  go_on : String → Decision

unfoldable pub is_absent : Option String → Bool
is_absent none = true
is_absent (some s) = false

-- A text that is there and not empty.
unfoldable pub is_given : Option String → Bool
is_given none = false
is_given (some s) = s != ""

unfoldable pub same_text : Option String → Option String → Bool
same_text none none = true
same_text (some s) (some t) = s == t
same_text _ _ = false

unfoldable pub floor_of : Option Manifest → Option String
floor_of none = none
floor_of (some manifest) = manifest.min_supported

-- `blocked is not False`
unfoldable pub is_not_false : Option Bool → Bool
is_not_false none = true
is_not_false (some b) = b

module _ (cmd : Command) (node : Installed) where
  unfoldable pub is_below_floor : String → Bool
  unfolding floor_of
  is_below_floor resolved = or_else (below_floor (some resolved) (floor_of node.manifest)) false

  -- The ordering guard, on the version that runs; an explicit target is not refused.
  unfoldable pub goes_backwards : Option String → String → Bool
  unfolding is_absent
  goes_backwards version resolved =
      or_else (is_downgrade version (some resolved)) false && is_absent cmd.target

  unfoldable pub needs_confirmation : Option String → String → Bool
  unfolding is_not_false no_rollback_blocked
  needs_confirmation version resolved =
      is_not_false (no_rollback_blocked node.manifest version resolved)
      && not cmd.confirm_no_rollback

  -- Whether the target image runs already.
  unfoldable pub is_running_target : String → Bool
  unfolding is_given same_text
  is_running_target resolved =
      is_given node.running_id
      && is_given (node.image_id resolved)
      && same_text node.running_id (node.image_id resolved)

  -- The second look, under the lock.
  unfoldable pub under_lock : String → Decision
  unfolding same_text goes_backwards needs_confirmation
  under_lock resolved =
      if same_text node.locked_version node.current_version
      then go_on resolved
      else if goes_backwards node.locked_version resolved
      then refused
      else if needs_confirmation node.locked_version resolved
      then refused
      else go_on resolved

  unfoldable pub on_target : String → Decision
  unfolding is_below_floor goes_backwards needs_confirmation is_running_target under_lock is_given
      is_busy
  on_target resolved =
      if cmd.check_only
      then nothing_to_do
      else if not (is_given node.greffer_id)
      then refused
      else if not node.data_volume_is_named
      then refused
      else if is_below_floor resolved
      then refused
      else if goes_backwards node.current_version resolved
      then refused
      else if needs_confirmation node.current_version resolved
      then refused
      else if is_running_target resolved
      then nothing_to_do
      else if is_busy node.host_lock
      then refused
      else under_lock resolved

  on_resolved : Option String → Decision
  unfolding on_target
  on_resolved none = refused
  on_resolved (some resolved) = on_target resolved

  -- `run_update` up to `set_image_tag`.
  unfoldable pub decide_update : (String → Bool) → Decision
  unfolding on_resolved resolve_target
  decide_update is_valid = on_resolved (resolve_target is_valid cmd.target node.manifest)
