-- ===== src/Backup/Locks/Rules.antt =====
-- What each operation on the locks changes.
use greffer.Backup.Locks.{
  Locks, is_locked, instance_lock, with_lock, acquire, release, clear_handoff, pending_until,
  pending_locked, release_once, give_back,
}
use greffer.Prelude.{
  ℕ, String, ◌≡◌, refl, sym, ap, ◌∙◌, inl, inr, Bool, true, false, not, ◌&&◌, ◌||◌, Option, none,
  some, arith, leb, ◌==◌, nat_eq, string_eq, Bool-cases, or_else, get, put, get-put, if_ind,
}

with_lock-is_locked :
    (id j : String) (o : Option Bool) (s : Locks)
    → get s.locks id ≡ o
    → (is_locked j (with_lock id o s) ≡ is_locked j s) × ((with_lock id o s).handoff ≡ s.handoff)
unfolding with_lock
with_lock-is_locked id j none s h =
    (ground (arith, get-put s.locks id j false, string_eq.beq_iff id j, h), refl)
with_lock-is_locked id j (some held) s h = (refl, refl)

pub acquire-is_locked :
    (id j : String) (s : Locks) → is_locked j (acquire id s).1 ≡ (id == j || is_locked j s)
unfolding acquire instance_lock
acquire-is_locked id j s =
    if_ind (λ (r : Bool × Locks). is_locked j r.1 ≡ (id == j || is_locked j s)) (is_locked id s) _ _
      (λ locked. ground (arith, locked, string_eq.beq_iff id j))
      (λ _. ground (
        arith,
        get-put (instance_lock id s).locks id j true,
        with_lock-is_locked id j (get s.locks id) s refl,
      ))

pub acquire-handoff : (id : String) (s : Locks) → (acquire id s).1.handoff ≡ s.handoff
unfolding acquire instance_lock
acquire-handoff id s =
    if_ind (λ (r : Bool × Locks). r.1.handoff ≡ s.handoff) (is_locked id s) _ _ (λ _. refl)
      (λ _. (with_lock-is_locked id id (get s.locks id) s refl).1)

pub acquire-taken : (id : String) (s : Locks) → (acquire id s).0 ≡ not (is_locked id s)
unfolding acquire
acquire-taken id s = ground arith

pub acquire-busy : (id : String) (s : Locks) → (acquire id s).0 ≡ false → (acquire id s).1 ≡ s
unfolding acquire
acquire-busy id s =
    if_ind (λ (r : Bool × Locks). r.0 ≡ false → r.1 ≡ s) (is_locked id s) _ _ (λ _ _. refl)
      (λ _ e. cc e)

pub release-is_locked :
    (id j : String) (s t : Locks)
    → release id s ≡ some t
    → (is_locked id s ≡ true)
      × (is_locked j t ≡ (not (id == j) && is_locked j s))
      × (t.handoff ≡ s.handoff)
unfolding release
release-is_locked id j s t h =
    if_ind
      (λ (r : Option Locks).
        r ≡ some t
        → (is_locked id s ≡ true)
          × (is_locked j t ≡ (not (id == j) && is_locked j s))
          × (t.handoff ≡ s.handoff))
      (is_locked id s) _ _
      (λ locked e.
        let same : record s { locks = put s.locks id false } ≡ t = cc e in
        (
          locked,
          ap (is_locked j) (sym same)
              ∙ ground (arith, get-put s.locks id j false, string_eq.beq_iff id j),
          ap (λ u. u.handoff) (sym same),
        ))
      (λ _ e. cc e) h

pub release_once-is_locked :
    (id j : String) (held : Bool) (s t : Locks)
    → release_once id held s ≡ some t
    → (held ≡ true → is_locked id s ≡ true)
      × (is_locked j t ≡ (not (held && id == j) && is_locked j s))
      × (t.handoff ≡ s.handoff)
unfolding release_once
release_once-is_locked id j true s t h =
    let r = release-is_locked id j s t h in (λ _. r.0, r.1, r.2)
release_once-is_locked id j false s t h =
    let same : s ≡ t = cc h in
    (λ e. cc e, ap (is_locked j) (sym same), ap (λ u. u.handoff) (sym same))

pending_until-is_locked :
    (now : ℕ) (id j : String) (o : Option ℕ) (s : Locks)
    → is_locked j (pending_until now id o s).1 ≡ is_locked j s
unfolding pending_until clear_handoff
pending_until-is_locked now id j none s = refl
pending_until-is_locked now id j (some deadline) s =
    if_ind (λ (r : Bool × Locks). is_locked j r.1 ≡ is_locked j s) (leb deadline now) _ _
      (λ _. refl) (λ _. refl)

-- A deadline that is over is all that a look at it removes.
pub pending_locked-is_locked :
    (now : ℕ) (id j : String) (s : Locks) → is_locked j (pending_locked now id s).1 ≡ is_locked j s
unfolding pending_locked
pending_locked-is_locked now id j s = pending_until-is_locked now id j (get s.handoff id) s

-- What is given back is as it was before it was taken.
pub give_back-is_locked :
    (id j : String) (s : Locks)
    → (acquire id s).0 ≡ true
    → is_locked j (give_back id (acquire id s).1) ≡ is_locked j s
unfolding give_back release_once release
give_back-is_locked id j s got =
    let taken : is_locked id (acquire id s).1 ≡ true =
      acquire-is_locked id id s ∙ ground (arith, string_eq.beq_iff id id) in
    let free : is_locked id s ≡ false = ground (arith, got, acquire-taken id s) in
    rw taken (elim (Bool-cases (id == j)) [
      | inl same ↦
          let here : is_locked j s ≡ false =
            ap (λ i. is_locked i s) (sym ((string_eq.beq_iff id j).0 same)) ∙ free in
          ground (arith, get-put (acquire id s).1.locks id j false, same, here)
      | inr other ↦
          ground (arith, get-put (acquire id s).1.locks id j false, other, acquire-is_locked id j s)
    ])

give_back-handoff_of :
    (id : String) (s : Locks) (o : Option Locks)
    → release id s ≡ o
    → (or_else o s).handoff ≡ s.handoff
give_back-handoff_of id s none e = refl
give_back-handoff_of id s (some t) e = (release-is_locked id id s t e).2

pub give_back-handoff : (id : String) (s : Locks) → (give_back id s).handoff ≡ s.handoff
unfolding give_back release_once
give_back-handoff id s = give_back-handoff_of id s (release id s) refl
