-- ===== src/Backup/Restore/Stages.antt =====
-- Each stage of a restore keeps its overwrites guarded.
use greffer.Backup.Restore.Rules.{call-Holds}
use greffer.Backup.Restore.Guarded.{
  is_plain, IsSpared, IsSaved-cons, IsEarly, IsQuiet, IsLate, Left, Returned, StageHolds,
  log-IsEarly, log-IsLate, fail_with-IsEarly, fail_safely-IsLate,
}
use greffer.Backup.{
  Called, done, Restic, Effect, looked, repo_used, stopped, took_safety, saw_quiet, saw_db_volumes,
  overwrote, Site, Instance,
}
use greffer.Backup.Job.{
  Restoring, Progressed, Wanted, log, call, is_empty, is_unclassified, meets, on_overwritten,
  on_safety,
}
use greffer.Backup.Restore.{stop_first, prepare_repo, take_safety, guard_db_volumes, overwrite}
use greffer.Backup.Mounts.{restore_classify}
use greffer.Prelude.{
  String, ◌≡◌, refl, sym, ap, ◌∙◌, inl, inr, true, false, not, ◌&&◌, List, [], ◌∷◌, arith, ◌==◌,
  ◌!=◌, nat_eq, string_eq, Bool-cases, any, contains, if_ind,
}

apart_from :
    (volumes mounts : List String) (v : String)
    → meets volumes mounts ≡ false
    → contains v volumes ≡ true
    → contains v mounts ≡ false
unfolding meets any contains
apart_from [] mounts v h there = cc there
apart_from (w ∷ volumes) mounts v h there = elim (Bool-cases (w == v)) [
  | inl same ↦
      ap (λ u. contains u mounts) (sym ((string_eq.beq_iff w v).0 same)) ∙ ground (arith, h)
  | inr other ↦ apart_from volumes mounts v (ground (arith, h)) (rw other at there)
]

module _ (site : Site) (inst : Instance) (wanted : Wanted) where
  -- What remains of a call made in a late state.
  pub late_call :
      {A : Type 0} (Q : Restoring → Type 0) (e : Effect) (answer : Called A) (r : Restoring)
      (next : A → Restoring → Progressed)
      → is_plain e ≡ true
      → IsLate site inst wanted r
      → ((a : A)
          → answer ≡ done a
          → IsLate site inst wanted (log e r)
          → StageHolds site inst wanted Q (next a (log e r)))
      → StageHolds site inst wanted Q (call e answer r next)
  late_call Q e answer r next h k step =
      call-Holds Q (Returned site inst wanted) (Left site inst wanted) e answer r next
        (inr (log-IsLate site inst wanted e r h k))
        (λ a eq. step a eq (log-IsLate site inst wanted e r h k))

  pub early_call :
      {A : Type 0} (Q : Restoring → Type 0) (e : Effect) (answer : Called A) (r : Restoring)
      (next : A → Restoring → Progressed)
      → is_plain e ≡ true
      → IsEarly site inst wanted r
      → ((a : A)
          → answer ≡ done a
          → IsEarly site inst wanted (log e r)
          → StageHolds site inst wanted Q (next a (log e r)))
      → StageHolds site inst wanted Q (call e answer r next)
  early_call Q e answer r next h k step =
      call-Holds Q (Returned site inst wanted) (Left site inst wanted) e answer r next
        (inl (log-IsEarly site inst wanted e r h k))
        (λ a eq. step a eq (log-IsEarly site inst wanted e r h k))

  pub stop_first-Holds :
      (r : Restoring)
      → IsEarly site inst wanted r
      → StageHolds site inst wanted (IsQuiet site inst wanted) (stop_first site inst wanted r)
  unfolding stop_first log
  stop_first-Holds r k =
      if_ind (StageHolds site inst wanted (IsQuiet site inst wanted)) inst.was_running _ _
        (λ _.
          early_call (IsQuiet site inst wanted) stopped (site.stops r.effects) r _ refl k λ _ _ k₁.
            early_call (IsQuiet site inst wanted) (saw_quiet (site.is_quiet (stopped ∷ r.effects)))
              (site.is_quiet (stopped ∷ r.effects)) (log stopped r) _ refl k₁
              λ quiet seen k₂.
                if_ind (StageHolds site inst wanted (IsQuiet site inst wanted)) quiet _ _
                  (λ yes. record {
                    early = k₂;
                    quiet = λ _. inl (ap saw_quiet (seen ∙ ap done yes));
                  })
                  (λ _. inl (fail_with-IsEarly site inst wanted "stop_timeout" _ k₂)))
        (λ still. record { early = k; quiet = λ running. cc (still, running) })

  pub prepare_repo-Holds :
      (r : Restoring)
      → IsQuiet site inst wanted r
      → StageHolds site inst wanted (IsQuiet site inst wanted) (prepare_repo site inst wanted r)
  unfolding prepare_repo log
  prepare_repo-Holds r k =
      early_call (IsQuiet site inst wanted) repo_used (site.uses_repo r.effects) r _ refl k.early
        λ _ _ k₁.
          if_ind (StageHolds site inst wanted (IsQuiet site inst wanted))
            (not (is_empty wanted.db_artifacts) && is_unclassified wanted.volume_classes) _ _
            (λ _. inl (fail_with-IsEarly site inst wanted "volume_unclassified" _ k₁))
            (λ _. record { early = k₁; quiet = λ running. inr (k.quiet running) })

  pub take_safety-Holds :
      (mounts : List String) (r : Restoring)
      → IsQuiet site inst wanted r
      → StageHolds site inst wanted
          (IsLate site inst wanted)
          (take_safety site inst wanted mounts r)
  unfolding take_safety on_safety log any
  take_safety-Holds mounts r k =
      early_call (IsLate site inst wanted) (took_safety (site.runs_restic mounts r.effects))
        (site.runs_restic mounts r.effects) r on_safety refl k.early
        λ res answered k₁.
          if_ind (StageHolds site inst wanted (IsLate site inst wanted)) (res.code != 0) _ _
            (λ _. inl (fail_with-IsEarly site inst wanted "safety_snapshot_failed" _ k₁))
            (λ ok. record {
              guarded = k₁.guarded;
              unheld = k₁.unheld;
              saved = record {
                safety = res;
                taken = inr (inl (ap took_safety answered));
                ok = ground (arith, ok);
                same_id = refl;
                pointer = inl refl;
                quiet = λ running. inr (inr (k.quiet running));
              };
              late = refl;
            })

  pub guard_db_volumes-Holds :
      (mounts : List String) (r : Restoring)
      → IsLate site inst wanted r
      → StageHolds site inst wanted
          (λ r₁. IsLate site inst wanted r₁ × IsSpared site wanted mounts r₁.effects)
          (guard_db_volumes site inst wanted mounts r)
  unfolding guard_db_volumes log
  guard_db_volumes-Holds mounts r k =
      if_ind
        (StageHolds site inst wanted
          (λ r₁. IsLate site inst wanted r₁ × IsSpared site wanted mounts r₁.effects))
        (is_empty wanted.db_artifacts) _ _
        (λ none_asked. (
          k,
          record {
            before = [];
            volumes = [];
            seen = λ some_asked. cc (none_asked, some_asked);
            answered = λ some_asked. cc (none_asked, some_asked);
            apart = λ some_asked. cc (none_asked, some_asked);
          },
        ))
        (λ _.
          late_call (λ r₁. IsLate site inst wanted r₁ × IsSpared site wanted mounts r₁.effects)
            looked (site.db_volumes wanted.db_artifacts r.effects) r _ refl k
            λ volumes answer k₁.
              if_ind
                (StageHolds site inst wanted
                  (λ r₁. IsLate site inst wanted r₁ × IsSpared site wanted mounts r₁.effects))
                (meets volumes mounts) _ _
                (λ _. inr (fail_safely-IsLate site inst wanted "db_volume_misclassified" _ k₁))
                (λ apart. (
                  log-IsLate site inst wanted (saw_db_volumes volumes) _ refl k₁,
                  record {
                    before = r.effects;
                    volumes = volumes;
                    seen = λ _. refl;
                    answered = λ _. answer;
                    apart = λ _ v there. apart_from volumes mounts v apart there;
                  },
                )))

  -- An overwrite in a late state.
  overwrote-IsLate :
      (mounts : List String) (answer : Called Restic) (r : Restoring)
      → IsLate site inst wanted r
      → IsSpared site wanted mounts r.effects
      → IsLate site inst wanted (log (overwrote mounts answer) r)
  unfolding log any
  overwrote-IsLate mounts answer r k spared = record {
    guarded = ((r.safety_id, k.saved), spared, k.guarded);
    saved = IsSaved-cons inst r.safety_id (overwrote mounts answer) r.effects k.saved;
    unheld = k.unheld;
    late = k.late;
  }

  pub overwrite-Holds :
      (mounts : List String) (r : Restoring)
      → IsLate site inst wanted r × IsSpared site wanted mounts r.effects
      → StageHolds site inst wanted (IsLate site inst wanted) (overwrite site inst wanted mounts r)
  unfolding overwrite on_overwritten
  overwrite-Holds [] r k = k.0
  overwrite-Holds (m ∷ mounts) r k =
      call-Holds (IsLate site inst wanted) (Returned site inst wanted) (Left site inst wanted)
        (overwrote (m ∷ mounts) (site.runs_restic (m ∷ mounts) r.effects))
        (site.runs_restic (m ∷ mounts) r.effects) r on_overwritten
        (inr (overwrote-IsLate (m ∷ mounts) _ r k.0 k.1))
        λ res _.
          if_ind (StageHolds site inst wanted (IsLate site inst wanted)) (res.code != 0) _ _
            (λ _. inr (
              fail_safely-IsLate site inst wanted (restore_classify res.err) _
                (overwrote-IsLate (m ∷ mounts) _ r k.0 k.1)))
            (λ _. overwrote-IsLate (m ∷ mounts) _ r k.0 k.1)
