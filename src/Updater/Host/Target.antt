-- ===== src/Updater/Host/Target.antt =====
-- What holds of the tag that an update goes to, by the manifest.
use greffer.Updater.Version.{version_tuple, below_floor}
use greffer.Updater.Version.Order.{below_floor-is_downgrade, precedes, is_downgrade-precedes}
use greffer.Updater.Host.{
  Manifest, resolve_target, append_text, no_rollback_blocked, valid_or_none, latest_of, floor_of,
  is_not_false,
}
use greffer.Prelude.{
  ℕ, String, ◌≡◌, refl, sym, ap, ◌∙◌, ◌≢◌, inl, inr, Bool, true, false, ◌&&◌, Option, none, some,
  List, arith, if◌then◌else◌, ◌==◌, ◌!=◌, nat_eq, string_eq, Bool-cases, or_else, contains,
}

pub some-inj : {A : Type 0} {x y : A} → some x ≡ some y → x ≡ y
some-inj e = cc e

true-false : true ≡ false → ⊥
true-false e = cc e

pub is_not_false-false : (o : Option Bool) → is_not_false o ≡ false → o ≡ some false
unfolding is_not_false
is_not_false-false none e = cc e
is_not_false-false (some b) e = ap some e

pub floor-precedes :
    (manifest : Option Manifest) (m : Manifest) (floor tag : String) (least new : List ℕ)
    → manifest ≡ some m
    → m.min_supported ≡ some floor
    → floor ≢ ""
    → version_tuple (some floor) ≡ some least
    → version_tuple (some tag) ≡ some new
    → or_else (below_floor (some tag) (floor_of manifest)) false ≡ false
    → precedes new least ≡ false
unfolding floor_of
floor-precedes manifest m floor tag least new e named full e' e'' h =
    let at_floor : or_else (below_floor (some tag) (some floor)) false ≡ false =
      ap (λ o. or_else (below_floor (some tag) o) false) (sym (ap floor_of e ∙ named)) ∙ h in
    let given : (floor == "") ≡ false = elim (Bool-cases (floor == "")) [
      | inl empty ↦ absurd (full ((string_eq.beq_iff floor "").0 empty))
      | inr text ↦ text
    ] in
    let ordered : below_floor (some tag) (some floor) ≡ some (precedes new least) =
      below_floor-is_downgrade (some tag) floor given
      ∙ is_downgrade-precedes (some floor) (some tag) least new e' e'' in
    ap (λ o. or_else o false) (sym ordered) ∙ at_floor

pub listed :
    (o : Option Bool) (manifest : Option Manifest) (version : Option String) (tag : String)
    → no_rollback_blocked manifest version tag ≡ o
    → o ≡ some false
    → (m : Manifest) × (current : String) × (manifest ≡ some m)
      × (version ≡ some current)
      × (contains (append_text current (append_text "->" tag)) m.no_rollback_from ≡ false)
unfolding no_rollback_blocked
listed o none version tag e h = cc (e, h)
listed o (some m) none tag e h = cc (e, h)
listed o (some m) (some current) tag e h = (m, current, refl, refl, some-inj (e ∙ h))

valid_or_none-valid :
    (is_valid : String → Bool) (o : Option String) (resolved : String)
    → valid_or_none is_valid o ≡ some resolved
    → is_valid resolved ≡ true
unfolding valid_or_none
valid_or_none-valid is_valid none resolved e = cc e
valid_or_none-valid is_valid (some tag) resolved e = elim (Bool-cases (tag != "" && is_valid tag)) [
  | inl good ↦
      let same : tag ≡ resolved = some-inj (rw good at e) in
      ap is_valid (sym same) ∙ ground (arith, good)
  | inr bad ↦ let e' = rw bad at e in cc e'
]

latest_of-valid :
    (is_valid : String → Bool) (m : Option Manifest) (resolved : String)
    → latest_of is_valid m ≡ some resolved
    → is_valid resolved ≡ true
unfolding latest_of
latest_of-valid is_valid none resolved e = cc e
latest_of-valid is_valid (some m) resolved e = valid_or_none-valid is_valid m.latest resolved e

pub resolve_target-valid :
    (is_valid : String → Bool) (to : Option String) (m : Option Manifest) (resolved : String)
    → resolve_target is_valid to m ≡ some resolved
    → is_valid resolved ≡ true
unfolding resolve_target
resolve_target-valid is_valid none m resolved e = latest_of-valid is_valid m resolved e
resolve_target-valid is_valid (some to) m resolved e = elim (Bool-cases (to == "")) [
  | inl empty ↦ latest_of-valid is_valid m resolved (rw empty at e)
  | inr named ↦ valid_or_none-valid is_valid (some to) resolved (
      sym (ap (λ b. if b then latest_of is_valid m else valid_or_none is_valid (some to)) named)
      ∙ e)
]
