-- ===== src/Backup/Restore/HandOver.antt =====
-- How the restore job ends, on every path: its effects, its rollback point, its hand-over.
use greffer.Backup.Restore.Guarded.{
  destroys, hands_over, Did, IsSaved, IsGuarded, IsSaved-cons, IsGuarded-cons,
}
use greffer.Backup.Restore.Rollback.{
  IsAborted, IsRecoverable, before_hand_over, before_hand_over-IsSettled,
}
use greffer.Backup.{
  Payload, Effect, started, wrote_state, reserved, released, called_back, removed_state, Effects,
  Site, Instance,
}
use greffer.Backup.Job.{Restoring, Wanted, log}
use greffer.Backup.Restore.{hand_over, restore_instance}
use greffer.Prelude.{
  ◌≡◌, refl, sym, ap, ◌∙◌, ◌⊎◌, inl, inr, Bool, true, false, not, ◌&&◌, [], ◌∷◌, ◌++◌, arith,
  if◌then◌else◌, nat_eq, string_eq, any,
}

-- The log before the callback: the state file, the reservation of a start, the lock's release.
abbrev pub before_callback : Payload → Effects → Effects
before_callback p past =
    released
    ∷ ((if p.success && not p.already_running then reserved ∷ [] else []) ++ wrote_state p ∷ past)

-- And with the callback, whose acknowledgement removes the state file.
abbrev pub handed_over : Site → Payload → Effects → Effects
handed_over site p past =
    (if site.acknowledges (before_callback p past) then removed_state ∷ [] else [])
    ++ called_back p ∷ before_callback p past

-- A reservation and a removal, each under its condition.
log_if :
    (b : Bool) (e : Effect) (r : Restoring)
    → (if b then log e r else r) ≡ record r { effects = (if b then e ∷ [] else []) ++ r.effects }
unfolding log
log_if true e r = refl
log_if false e r = refl

hand_over_log :
    (site : Site) (inst : Instance) (wanted : Wanted) (r : Restoring)
    → hand_over site inst wanted r ≡ record r { effects = handed_over site r.payload r.effects }
unfolding hand_over log
hand_over_log site inst wanted r = simp log_if (log_if _ removed_state _)

-- What an effect that destroys nothing keeps, the hand-over keeps.
module _ (K : Effects → Type 0)
    (keeps : (e : Effect) (past : Effects) → destroys e ≡ false → K past → K (e ∷ past)) where
  keeps_if :
      (b : Bool) (e : Effect) (past : Effects)
      → destroys e ≡ false
      → K past
      → K ((if b then e ∷ [] else []) ++ past)
  keeps_if true e past h k = keeps e past h k
  keeps_if false e past h k = k

  keeps_handed_over :
      (site : Site) (p : Payload) (past : Effects) → K past → K (handed_over site p past)
  keeps_handed_over site p past k =
      keeps_if (site.acknowledges (before_callback p past)) removed_state _ refl (
        keeps (called_back p) _ refl (
          keeps released _ refl (
            keeps_if (p.success && not p.already_running) reserved _ refl
              (keeps (wrote_state p) past refl k))))

handed_ended :
    (site : Site) (inst : Instance) (r : Restoring)
    → IsAborted inst r ⊎ IsRecoverable inst r
    → let after = record r { effects = handed_over site r.payload r.effects } in
      IsAborted inst after ⊎ IsRecoverable inst after
unfolding any
handed_ended site inst r (inl k) = inl (
  keeps_handed_over (λ past. any destroys past ≡ false) (λ e past h k. ground (arith, h, k)) site _
      _ k.0,
  k.1,
  λ running.
      let tried = k.2 running in
      (tried.0, keeps_handed_over (Did (started tried.0)) (λ e past h k. inr k) site _ _ tried.1),
)
handed_ended site inst r (inr k) = inr (
  k.0,
  k.1,
  keeps_handed_over (IsSaved inst k.0) (λ e past h. IsSaved-cons inst k.0 e past) site _ _ k.2,
)

module _ (site : Site) (inst : Instance) (wanted : Wanted) where
  -- The job's end is the hand-over of what came before.
  ends : restore_instance site inst wanted ≡ record (before_hand_over site inst wanted) {
    effects =
        handed_over site
          (before_hand_over site inst wanted).payload
          (before_hand_over site inst wanted).effects;
  }
  unfolding restore_instance
  ends = hand_over_log site inst wanted (before_hand_over site inst wanted)

  -- Whatever the node answers, each overwrite of volumes and each restore of a database in a restore
  -- job comes after a safety snapshot that ended with code 0 and after an attempt to write its id,
  -- with an instance that ran seen stopped before. If the manifest has database artifacts, docker
  -- has named the volumes of all their services right before the overwrite of volumes, and none of
  -- the overwritten mounts is one of these.
  pub restore_instance-IsGuarded :
      IsGuarded site inst wanted (restore_instance site inst wanted).effects
  restore_instance-IsGuarded = rw ends (
      keeps_handed_over (IsGuarded site inst wanted) (IsGuarded-cons site inst wanted) site _ _
        (before_hand_over-IsSettled site inst wanted).guarded)

  -- Whatever the node answers and wherever the body of a restore job returns or is left by an
  -- exception: either nothing was overwritten, success is not reported and a start of an instance
  -- that ran was tried, or the payload has the id of a safety snapshot that ended with code 0 and
  -- whose id the job tried to write.
  pub restore_aborts_or_recovers :
      IsAborted inst (restore_instance site inst wanted)
      ⊎ IsRecoverable inst (restore_instance site inst wanted)
  restore_aborts_or_recovers = rw ends (
      handed_ended site inst (before_hand_over site inst wanted)
        (before_hand_over-IsSettled site inst wanted).ended)

  -- Whatever the node answers and wherever its body is left, a restore job ends with exactly one
  -- write of the state file, one release of the lock and one callback in this order, both with the
  -- final payload; a start is reserved before the release, and only if success is reported for an
  -- instance that is not running; the state file is removed only after an acknowledged callback.
  pub restore_hands_over :
      (past : Effects) × (any hands_over past ≡ false)
      × ((restore_instance site inst wanted).effects
          ≡ handed_over site (restore_instance site inst wanted).payload past)
  restore_hands_over = (
    (before_hand_over site inst wanted).effects,
    (before_hand_over-IsSettled site inst wanted).unheld,
    ap (λ r. r.effects) ends
        ∙ ap (λ p. handed_over site p (before_hand_over site inst wanted).effects)
            (sym (ap (λ r. r.payload) ends)),
  )
