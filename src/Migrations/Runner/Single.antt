-- ===== src/Migrations/Runner/Single.antt =====
-- What one run of a migration can do: fail or be advisory and leave the ledger alone, or succeed
-- and be recorded.
use mathlib.Core.Path.{subst₂}
use greffer.Prelude.Int.{ℤ, is_positive}
use greffer.Migrations.Base.{
  IntRead, number, malformed, overflows, Summary, Result, Outcome, raises, falsy, summary_dict,
  other_value, Migration,
}
use greffer.Migrations.Ledger.{
  Entry, object, read_or_empty, applied_ids, is_applied, atomic_write, mark_applied,
}
use greffer.Migrations.Runner.{
  Host, Node, backups_of, errors_of, new_entry, record_applied, judge_errors, judge_backups, judge,
  run_body, run_single, succeeded,
}
use greffer.Prelude.{
  String, ◌≡◌, refl, inl, inr, true, false, ◌||◌, Option, none, some, List, [], ◌∷◌, ◌++◌, arith,
  eq_iff, ◌==◌, nat_eq, string_eq, Bool-cases, contains, contains-append, get, pop,
}

module _ {W : Type 0} (host : Host W) (mig : Migration W) (s : Node W) where
  pub data Ran : Option Result × Node W → Type 0 where
    crashed : (w : W) → Ran (none, record s { world = w })
    unrecorded :
        (r : Result) (w : W)
        → r.id ≡ mig.id
        → (r.ok ≡ true → mig.advisory ≡ true)
        → Ran (some r, record s { world = w })
    recorded :
        (summary : Summary) (backups : List String) (duration : ℤ) (w : W)
        → mig.advisory ≡ false
        → Ran (record_applied host mig summary backups duration (record s { world = w }))

  judge_errors-Ran :
      (summary : Summary) (backups : List String) (duration : ℤ) (count : IntRead) (w : W)
      → Ran (judge_errors host mig summary backups duration count (record s { world = w }))
  unfolding judge_errors
  judge_errors-Ran summary backups duration malformed w = unrecorded _ w refl (λ e. cc)
  judge_errors-Ran summary backups duration overflows w = crashed w
  judge_errors-Ran summary backups duration (number count) w =
      elim (Bool-cases (is_positive count)) [
        | inl bad ↦ rw bad (unrecorded _ w refl (λ e. cc))
        | inr good ↦ rw good (elim (Bool-cases mig.advisory) [
          | inl advisory ↦ simp advisory (unrecorded _ w refl (λ _. advisory))
          | inr required ↦ simp required (recorded summary backups duration w required)
        ])
      ]

  judge_backups-Ran :
      (summary : Summary) (duration : ℤ) (backups : Option (List String)) (w : W)
      → Ran (judge_backups host mig summary duration backups (record s { world = w }))
  unfolding judge_backups
  judge_backups-Ran summary duration none w = unrecorded _ w refl (λ e. cc)
  judge_backups-Ran summary duration (some backups) w =
      judge_errors-Ran summary backups duration (errors_of (get summary "errors")) w

  judge-Ran :
      (duration : ℤ) (outcome : Outcome) (w : W)
      → Ran (judge host mig duration outcome (record s { world = w }))
  unfolding judge
  judge-Ran duration (raises e) w = unrecorded _ w refl (λ e. cc)
  judge-Ran duration other_value w = unrecorded _ w refl (λ e. cc)
  judge-Ran duration falsy w = judge_backups-Ran [] duration (some []) w
  judge-Ran duration (summary_dict d) w =
      judge_backups-Ran (pop d "backups") duration (backups_of (get d "backups")) w

  run_body-Ran :
      (started : W) (checked : Option String × W) → Ran (run_body host mig started checked s)
  unfolding run_body
  run_body-Ran started (some e, w) = unrecorded _ w refl (λ e. cc)
  run_body-Ran started (none, w) =
      let (outcome, w') = mig.run w in judge-Ran (host.elapsed started w') outcome w'

  pub run_single-Ran : Ran (run_single host mig s)
  unfolding run_single
  run_single-Ran = run_body-Ran s.world (mig.check_preconditions s.world)

applied_ids-append :
    (es : List Entry) (e : Entry) → applied_ids (es ++ e ∷ []) ≡ applied_ids es ++ e.id ∷ []
unfolding applied_ids
applied_ids-append [] e = refl
applied_ids-append (x ∷ es) e = rw (applied_ids-append es e)

is_applied-append :
    (es : List Entry) (e : Entry) (k : String)
    → is_applied (es ++ e ∷ []) k ≡ (is_applied es k || e.id == k)
unfolding contains
is_applied-append es e k = rw (applied_ids-append, contains-append) (ground arith)

-- The ledger in memory and on disk agree.
abbrev pub IsSynced : {W : Type 0} → Node W → Type 0
IsSynced s = read_or_empty s.disk.file ≡ s.applied

module _ {W : Type 0} (host : Host W) (mig : Migration W) (s : Node W) where
  -- What a run that leaves a result does to the ledger, whatever the result.
  pub record After (r : Result) (s' : Node W) : Type 0 where
    pub same_id : r.id ≡ mig.id
    pub keeps : (k : String) → is_applied s.applied k ≡ true → is_applied s'.applied k ≡ true
    pub adds :
        (k : String)
        → is_applied s'.applied k ≡ true
        → is_applied s.applied k ≡ false
        → (k ≡ mig.id) × (r.ok ≡ true) × (mig.advisory ≡ false)
    pub records : r.ok ≡ true → mig.advisory ≡ false → is_applied s'.applied mig.id ≡ true
    pub synced : IsSynced s → IsSynced s'
    pub untouched : r.ok ≡ false → (s'.applied ≡ s.applied) × (s'.disk ≡ s.disk)

  After-same :
      (r : Result) (w : W)
      → r.id ≡ mig.id
      → (r.ok ≡ true → mig.advisory ≡ false → is_applied s.applied mig.id ≡ true)
      → After r (record s { world = w })
  After-same r w same known = record {
    same_id = same;
    keeps = λ k h. h;
    adds = λ k h h'. cc;
    records = known;
    synced = λ h. h;
    untouched = λ _. (refl, refl);
  }

  After-added :
      (r : Result) (w : W) (e : Entry)
      → r.id ≡ mig.id
      → r.ok ≡ true
      → e.id ≡ mig.id
      → mig.advisory ≡ false
      → After r (record {
        world = w;
        applied = s.applied ++ e ∷ [];
        disk = record s.disk { file = object (s.applied ++ e ∷ []) };
      })
  unfolding read_or_empty
  After-added r w e same good named required = record {
    same_id = same;
    keeps = λ k h. ground (arith, is_applied-append s.applied e k);
    adds = λ k h h'. ground (arith, is_applied-append s.applied e k, eq_iff e.id k);
    records = λ _ _. ground (arith, is_applied-append s.applied e mig.id, eq_iff e.id mig.id);
    synced = λ _. refl;
    untouched = λ bad. cc;
  }

  recorded-After :
      (summary : Summary) (backups : List String) (duration : ℤ) (w : W) (r : Result) (s' : Node W)
      → mig.advisory ≡ false
      → record_applied host mig summary backups duration (record s { world = w }) ≡ (some r, s')
      → After r s'
  unfolding record_applied mark_applied atomic_write
  recorded-After summary backups duration w r s' required e =
      elim (Bool-cases (is_applied s.applied mig.id)) [
        | inl old ↦
            let e' = rw (old, record_applied) at e in
            subst₂ After (cc e') (cc e')
              (After-same (succeeded mig.id summary duration) w refl (λ _ _. old))
        | inr new ↦ elim (Bool-cases (host.writable w)) [
          | inl open_disk ↦
              let e' = rw (new, open_disk, record_applied) at e in
              subst₂ After (cc e') (cc e') (
                After-added (succeeded mig.id summary duration) w
                  (new_entry host mig summary backups duration w) refl refl refl required)
          | inr full ↦ let e' = rw (new, full, record_applied) at e in cc e'
        ]
      ]

  Ran-After :
      {x : Option Result × Node W} (r : Result) (s' : Node W)
      → Ran host mig s x
      → x ≡ (some r, s')
      → After r s'
  Ran-After r s' (crashed w) e = cc e
  Ran-After r s' (unrecorded r' w same advisory) e =
      subst₂ After (cc e) (cc e) (After-same r' w same (λ good required. cc (advisory good)))
  Ran-After r s' (recorded summary backups duration w required) e =
      recorded-After summary backups duration w r s' required e

  pub run_single-After :
      (r : Result) (s' : Node W) → run_single host mig s ≡ (some r, s') → After r s'
  run_single-After r s' e = Ran-After r s' (run_single-Ran host mig s) e
