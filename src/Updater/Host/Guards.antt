-- ===== src/Updater/Host/Guards.antt =====
-- What holds whenever an update of the host goes on.
use mathlib.Core.Path.{subst}
use greffer.Updater.Version.{version_tuple}
use greffer.Updater.Version.Order.{precedes, is_downgrade-precedes}
use greffer.Updater.Host.{
  Manifest, Command, Installed, Decision, refused, nothing_to_do, go_on, is_absent, is_given,
  same_text, is_below_floor, goes_backwards, needs_confirmation, under_lock, on_target, on_resolved,
  decide_update, resolve_target, append_text, no_rollback_blocked, is_not_false, HostLock,
  lock_busy, is_busy,
}
use greffer.Prelude.{
  ℕ, String, ◌≡◌, refl, sym, ap, ap₂, ◌∙◌, ◌≢◌, inl, inr, Bool, true, false, not, ◌&&◌, Option,
  none, some, List, arith, eq_iff, if◌then◌else◌, nat_eq, string_eq, Bool-cases, or_else, contains,
}
use greffer.Updater.Host.Target.{is_not_false-false, floor-precedes, listed, resolve_target-valid}

-- A guard that was passed.
guard :
    (b : Bool) (x y : Decision) (tag : String)
    → x ≢ go_on tag
    → (if b then x else y) ≡ go_on tag
    → (b ≡ false) × (y ≡ go_on tag)
guard true x y tag bad e = absurd (bad e)
guard false x y tag bad e = (refl, e)

refused-go_on : (tag : String) → refused ≢ go_on tag
refused-go_on tag e = cc e

nothing-go_on : (tag : String) → nothing_to_do ≢ go_on tag
nothing-go_on tag e = cc e

same_text-path : (a b : Option String) → same_text a b ≡ true → a ≡ b
unfolding same_text
same_text-path none none e = refl
same_text-path none (some t) e = cc e
same_text-path (some s) none e = cc e
same_text-path (some s) (some t) e = ap some ((eq_iff s t).0 e)

go_on-inj : (s t : String) → go_on s ≡ go_on t → s ≡ t
go_on-inj s t e = cc e

not_busy : (lock : HostLock) → is_busy lock ≡ false → lock ≢ lock_busy
unfolding is_busy
not_busy lock free e = let busy = ap is_busy (sym e) ∙ free in cc busy

passed : (b c : Bool) → c ≡ false → (b && not c) ≡ false → b ≡ false
passed b c e h = ground (arith, e, h)

-- What a tag that is not below the floor means for the versions.
-- A move that is known not to be listed.
module _ (cmd : Command) (node : Installed) where
  -- The guards on the version that runs, as it is read under the lock.
  pub record IsGuarded (tag : String) : Type 0 where
    pub above_floor : is_below_floor cmd node tag ≡ false
    pub forwards : goes_backwards cmd node node.locked_version tag ≡ false
    pub confirmed : needs_confirmation cmd node node.locked_version tag ≡ false
    pub known_node : is_given node.greffer_id ≡ true
    pub locked : node.host_lock ≢ lock_busy
    pub applied : cmd.check_only ≡ false

  under_lock_guards :
      (resolved tag : String)
      → goes_backwards cmd node node.current_version resolved ≡ false
      → needs_confirmation cmd node node.current_version resolved ≡ false
      → under_lock cmd node resolved ≡ go_on tag
      → (resolved ≡ tag)
        × (goes_backwards cmd node node.locked_version resolved ≡ false)
        × (needs_confirmation cmd node node.locked_version resolved ≡ false)
  unfolding under_lock
  under_lock_guards resolved tag f c e =
      elim (Bool-cases (same_text node.locked_version node.current_version)) [
        | inl same ↦
            let here = same_text-path node.locked_version node.current_version same in
            (
              go_on-inj resolved tag (rw same at e),
              ap (λ v. goes_backwards cmd node v resolved) here ∙ f,
              ap (λ v. needs_confirmation cmd node v resolved) here ∙ c,
            )
        | inr moved ↦
            let (forwards, e₁) = guard _ refused _ tag (refused-go_on tag) (rw moved at e) in
            let (confirmed, e₂) = guard _ refused _ tag (refused-go_on tag) e₁ in
            (go_on-inj resolved tag e₂, forwards, confirmed)
      ]

  on_target-IsGuarded :
      (resolved tag : String)
      → on_target cmd node resolved ≡ go_on tag
      → (resolved ≡ tag) × IsGuarded resolved
  unfolding on_target
  on_target-IsGuarded resolved tag e =
      let (applied, e₁) = guard _ nothing_to_do _ tag (nothing-go_on tag) e in
      let (known, e₂) = guard _ refused _ tag (refused-go_on tag) e₁ in
      let (volume, e₃) = guard _ refused _ tag (refused-go_on tag) e₂ in
      let (floor, e₄) = guard _ refused _ tag (refused-go_on tag) e₃ in
      let (forwards, e₅) = guard _ refused _ tag (refused-go_on tag) e₄ in
      let (confirmed, e₆) = guard _ refused _ tag (refused-go_on tag) e₅ in
      let (other, e₇) = guard _ nothing_to_do _ tag (nothing-go_on tag) e₆ in
      let (free, e₈) = guard _ refused _ tag (refused-go_on tag) e₇ in
      let (same, forwards', confirmed') = under_lock_guards resolved tag forwards confirmed e₈ in
      (
        same,
        record {
          above_floor = floor;
          forwards = forwards';
          confirmed = confirmed';
          known_node = ground (arith, known);
          locked = not_busy node.host_lock free;
          applied = applied;
        },
      )

  -- An update that goes on.
  pub record IsSafe (is_valid : String → Bool) (tag : String) : Type 0 where
    pub valid_tag : is_valid tag ≡ true
    pub above_floor :
        (m : Manifest) (floor : String) (least new : List ℕ)
        → node.manifest ≡ some m
        → m.min_supported ≡ some floor
        → floor ≢ ""
        → version_tuple (some floor) ≡ some least
        → version_tuple (some tag) ≡ some new
        → precedes new least ≡ false
    pub forwards :
        cmd.target ≡ none
        → (old new : List ℕ) → version_tuple node.locked_version ≡ some old
        → version_tuple (some tag) ≡ some new
        → precedes new old ≡ false
    pub rollback_known :
        cmd.confirm_no_rollback ≡ false
        → (m : Manifest) × (current : String) × (node.manifest ≡ some m)
          × (node.locked_version ≡ some current)
          × (contains (append_text current (append_text "->" tag)) m.no_rollback_from ≡ false)
    pub known_node : is_given node.greffer_id ≡ true
    pub locked : node.host_lock ≢ lock_busy

  IsGuarded-IsSafe :
      (is_valid : String → Bool) (tag : String)
      → is_valid tag ≡ true
      → IsGuarded tag
      → IsSafe is_valid tag
  unfolding is_below_floor goes_backwards needs_confirmation
  IsGuarded-IsSafe is_valid tag valid g = record {
    valid_tag = valid;
    above_floor = λ m floor least new e named full e' e''.
        floor-precedes node.manifest m floor tag least new e named full e' e'' g.above_floor;
    forwards = λ absent old new e e'.
        let ordered = is_downgrade-precedes node.locked_version (some tag) old new e e' in
        ground (
          arith,
          ap₂ (λ o t. or_else o false && is_absent t) (sym ordered) (sym absent) ∙ g.forwards,
        );
    rollback_known = λ unconfirmed.
        listed (no_rollback_blocked node.manifest node.locked_version tag) node.manifest
          node.locked_version tag refl
          (is_not_false-false (no_rollback_blocked node.manifest node.locked_version tag) (
            passed (is_not_false (no_rollback_blocked node.manifest node.locked_version tag))
              cmd.confirm_no_rollback unconfirmed g.confirmed));
    known_node = g.known_node;
    locked = g.locked;
  }

  on_resolved-IsSafe :
      (is_valid : String → Bool) (tag : String) (o : Option String)
      → ((resolved : String) → o ≡ some resolved → is_valid resolved ≡ true)
      → on_resolved cmd node o ≡ go_on tag
      → IsSafe is_valid tag
  unfolding on_resolved
  on_resolved-IsSafe is_valid tag none valid e = absurd (refused-go_on tag e)
  on_resolved-IsSafe is_valid tag (some resolved) valid e =
      let (same, guarded) = on_target-IsGuarded resolved tag e in
      subst (IsSafe is_valid) same
        (IsGuarded-IsSafe is_valid resolved (valid resolved refl) guarded)

  -- An update of the host that goes on to change anything goes to a valid tag on a node whose id is
  -- known, and has not found the lock held by another run: it holds it, or the platform has none.
  -- Where the versions can be compared, the tag is not below the manifest's floor, even if it was
  -- asked for, and, unless it was asked for, not below the version that was read again under the
  -- lock. And unless that was confirmed, the manifest and this version are there, and the manifest
  -- does not list the move as one that cannot be rolled back.
  pub host_update-IsSafe :
      (is_valid : String → Bool) (tag : String)
      → decide_update cmd node is_valid ≡ go_on tag
      → IsSafe is_valid tag
  unfolding decide_update
  host_update-IsSafe is_valid tag e =
      on_resolved-IsSafe is_valid tag (resolve_target is_valid cmd.target node.manifest)
        (resolve_target-valid is_valid cmd.target node.manifest) e
