-- ===== src/Backup/Restore/Rollback.antt =====
-- What the whole restore job guarantees: the rollback point, and the hand-over to the manager.
use greffer.Backup.Restore.Body.{restore_body-Holds}
use greffer.Backup.Restore.Guarded.{
  destroys, hands_over, Did, IsSaved, IsGuarded, IsEarly, IsLate, Left, StageHolds, Settled,
  log-IsEarly, log-IsLate,
}
use greffer.Backup.{Called, Payload, started, torn_down, Site, Instance}
use greffer.Backup.Job.{
  Restoring, Progressed, goes, returns, raises_backup_error, raises, Wanted, log, handle,
}
use greffer.Backup.Restore.{restore_body, settle_instance, restoring}
use greffer.Prelude.{
  String, ◌≡◌, refl, ◌⊎◌, inl, inr, true, false, not, ◌&&◌, some, arith, nat_eq, string_eq, any,
  if_ind,
}

-- Aborted before it destroyed anything; an instance that ran had a start tried.
abbrev pub IsAborted : Instance → Restoring → Type 0
IsAborted inst r =
    (any destroys r.effects ≡ false)
    × (r.payload.success ≡ false)
    × (inst.was_running ≡ true → (answer : Called (Unit {0})) × Did (started answer) r.effects)

-- The payload has the rollback point.
abbrev pub IsRecoverable : Instance → Restoring → Type 0
IsRecoverable inst r = (id : String) × (r.payload.safety_id ≡ some id) × IsSaved inst id r.effects

module _ (site : Site) (inst : Instance) (wanted : Wanted) where
  -- After the `except` clauses.
  abbrev Handled : Restoring → Type 0
  Handled r = IsEarly site inst wanted r ⊎ Settled site inst wanted r

  raised-Settled :
      (p : Payload) (r : Restoring)
      → p.safety_id ≡ some r.safety_id
      → IsLate site inst wanted r
      → Settled site inst wanted (record r { payload = p })
  raised-Settled p r h k =
      (record { guarded = k.guarded; saved = k.saved; unheld = k.unheld; late = k.late }, h)

  raised-IsEarly :
      (p : Payload) (r : Restoring)
      → p.success ≡ false
      → IsEarly site inst wanted r
      → IsEarly site inst wanted (record r { payload = p })
  raised-IsEarly p r h k = record {
    guarded = k.guarded;
    unharmed = k.unharmed;
    unheld = k.unheld;
    early = k.early;
    failed = h;
  }

  raised :
      (p : Payload) (r : Restoring)
      → p.safety_id ≡ some r.safety_id
      → (r.payload.success ≡ false → p.success ≡ false)
      → Left site inst wanted r
      → Handled (record r { payload = p })
  raised p r same keeps (inl k) = inl (raised-IsEarly p r (keeps k.failed) k)
  raised p r same keeps (inr k) = inr (raised-Settled p r same k)

  handle-Handled :
      (m : Progressed)
      → StageHolds site inst wanted (Settled site inst wanted) m
      → Handled (handle m)
  unfolding handle
  handle-Handled (goes r) h = inr h
  handle-Handled (returns r) h = h
  handle-Handled (raises_backup_error code r) h = raised _ r refl (λ failed. failed) h
  handle-Handled (raises r) h = raised _ r refl (λ failed. failed) h

  -- After the restart or teardown.
  pub record IsSettled (r : Restoring) : Type 0 where
    pub guarded : IsGuarded site inst wanted r.effects
    pub unheld : any hands_over r.effects ≡ false
    pub ended : IsAborted inst r ⊎ IsRecoverable inst r

  still_aborted :
      (r : Restoring)
      → IsEarly site inst wanted r
      → (inst.was_running ≡ true → (answer : Called (Unit {0})) × Did (started answer) r.effects)
      → IsSettled r
  still_aborted r k restarted = record {
    guarded = k.guarded;
    unheld = k.unheld;
    ended = inl (k.unharmed, k.failed, restarted);
  }

  settled_early :
      (r : Restoring) → IsEarly site inst wanted r → IsSettled (settle_instance site inst wanted r)
  unfolding settle_instance log
  settled_early r k =
      if_ind IsSettled (inst.was_running && not r.overwrite_started && not r.payload.success) _ _
        (λ _.
          still_aborted (log (started (site.starts r.effects)) r)
            (log-IsEarly site inst wanted (started (site.starts r.effects)) r refl k)
            λ _. (site.starts r.effects, inl refl))
        (λ still.
          if_ind IsSettled (r.db_started && not r.payload.success) _ _
            (λ _.
              still_aborted (log (torn_down (site.tears_down r.effects)) r)
                (log-IsEarly site inst wanted (torn_down (site.tears_down r.effects)) r refl k)
                λ running. absurd (ground (arith, still, running, k.early, k.failed)))
            (λ _.
              still_aborted r k
                λ running. absurd (ground (arith, still, running, k.early, k.failed))))

  recoverable : (r : Restoring) → Settled site inst wanted r → IsSettled r
  recoverable r k = record {
    guarded = k.0.guarded;
    unheld = k.0.unheld;
    ended = inr (r.safety_id, k.1, k.0.saved);
  }

  settled_late :
      (r : Restoring) → Settled site inst wanted r → IsSettled (settle_instance site inst wanted r)
  unfolding settle_instance log
  settled_late r k =
      if_ind IsSettled (inst.was_running && not r.overwrite_started && not r.payload.success) _ _
        (λ _.
          recoverable (log (started (site.starts r.effects)) r)
            (log-IsLate site inst wanted (started (site.starts r.effects)) r refl k.0, k.1))
        (λ _.
          if_ind IsSettled (r.db_started && not r.payload.success) _ _
            (λ _.
              recoverable (log (torn_down (site.tears_down r.effects)) r) (
                log-IsLate site inst wanted (torn_down (site.tears_down r.effects)) r refl k.0,
                k.1,
              ))
            (λ _. recoverable r k))

  settled : (r : Restoring) → Handled r → IsSettled (settle_instance site inst wanted r)
  settled r (inl k) = settled_early r k
  settled r (inr k) = settled_late r k

  -- The job before the hand-over.
  abbrev pub before_hand_over : Restoring
  before_hand_over =
      settle_instance site inst wanted
        (handle (restore_body site inst wanted (restoring site inst wanted)))

  pub before_hand_over-IsSettled : IsSettled before_hand_over
  unfolding any
  before_hand_over-IsSettled =
      settled (handle (restore_body site inst wanted (restoring site inst wanted))) (
        handle-Handled (restore_body site inst wanted (restoring site inst wanted)) (
          restore_body-Holds site inst wanted (restoring site inst wanted)
            (record { guarded = tt; unharmed = refl; unheld = refl; early = refl; failed = refl })))
