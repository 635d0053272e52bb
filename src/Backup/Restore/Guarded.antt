-- ===== src/Backup/Restore/Guarded.antt =====
-- What comes before a restore overwrites anything.
use greffer.Backup.{
  done, Restic, Effect, looked, repo_used, stopped, forgot, took_safety, wrote_pointer, saw_quiet,
  saw_db_volumes, overwrote, started_services, restored_db, started, torn_down, wrote_state,
  reserved, released, called_back, removed_state, Effects, Site, Instance,
}
use greffer.Backup.Restore.Rules.{Holds}
use greffer.Backup.Job.{Restoring, Progressed, Wanted, log, fail_with, fail_safely, is_empty}
use greffer.Prelude.{
  String, ◌≡◌, refl, ◌⊎◌, inr, not, ◌||◌, Bool, true, false, some, List, [], ◌∷◌, arith, nat_eq,
  string_eq, any, contains,
}

-- An effect that came before.
abbrev pub Did : Effect → Effects → Type 0
Did e [] = ⊥
Did e (f ∷ past) = (f ≡ e) ⊎ Did e past

-- The rollback point: the safety snapshot with this id succeeded, and a write of its id was tried.
pub record IsSaved (inst : Instance) (id : String) (past : Effects) : Type 0 where
  pub safety : Restic
  pub taken : Did (took_safety (done safety)) past
  pub ok : safety.code ≡ 0
  pub same_id : safety.snapshot_id ≡ id
  pub pointer : Did (wrote_pointer id) past
  pub quiet : inst.was_running ≡ true → Did (saw_quiet (done true)) past

-- Where a database is restored from a dump, docker was asked for the volumes of all of them just
-- before, and none of the mounts is one of these.
pub record IsSpared (site : Site) (wanted : Wanted) (mounts : List String) (past : Effects)
    : Type 0 where
  pub before : Effects
  pub volumes : List String
  pub seen : is_empty wanted.db_artifacts ≡ false → past ≡ saw_db_volumes volumes ∷ looked ∷ before
  pub answered :
      is_empty wanted.db_artifacts ≡ false
      → site.db_volumes wanted.db_artifacts before ≡ done volumes
  pub apart :
      is_empty wanted.db_artifacts ≡ false
      → (v : String) → contains v volumes ≡ true
      → contains v mounts ≡ false

-- Each overwrite has a rollback point, and spares the databases.
abbrev pub IsGuarded : Site → Instance → Wanted → Effects → Type 0
IsGuarded site inst wanted [] = Unit
IsGuarded site inst wanted (overwrote mounts answer ∷ past) =
    ((id : String) × IsSaved inst id past)
    × IsSpared site wanted mounts past
    × IsGuarded site inst wanted past
IsGuarded site inst wanted (restored_db service ∷ past) =
    ((id : String) × IsSaved inst id past) × IsGuarded site inst wanted past
IsGuarded site inst wanted (_ ∷ past) = IsGuarded site inst wanted past

-- An effect that destroys data.
abbrev pub destroys : Effect → Bool
destroys (overwrote mounts answer) = true
destroys (restored_db service) = true
destroys _ = false

-- An effect of the part that hands the instance over to the manager.
abbrev pub hands_over : Effect → Bool
hands_over (wrote_state payload) = true
hands_over reserved = true
hands_over released = true
hands_over (called_back payload) = true
hands_over removed_state = true
hands_over _ = false

-- An effect that does neither.
abbrev pub is_plain : Effect → Bool
is_plain e = not (destroys e || hands_over e)

plain_spares : (e : Effect) → is_plain e ≡ true → (destroys e ≡ false) × (hands_over e ≡ false)
plain_spares e h = ground arith

pub IsSaved-cons :
    (inst : Instance) (id : String) (e : Effect) (past : Effects)
    → IsSaved inst id past
    → IsSaved inst id (e ∷ past)
IsSaved-cons inst id e past s = record {
  safety = s.safety;
  taken = inr s.taken;
  ok = s.ok;
  same_id = s.same_id;
  pointer = inr s.pointer;
  quiet = λ running. inr (s.quiet running);
}

pub IsGuarded-cons :
    (site : Site) (inst : Instance) (wanted : Wanted) (e : Effect) (past : Effects)
    → destroys e ≡ false
    → IsGuarded site inst wanted past
    → IsGuarded site inst wanted (e ∷ past)
IsGuarded-cons site inst wanted (overwrote mounts answer) past h g = cc h
IsGuarded-cons site inst wanted (restored_db service) past h g = cc h
IsGuarded-cons site inst wanted looked past h g = g
IsGuarded-cons site inst wanted repo_used past h g = g
IsGuarded-cons site inst wanted stopped past h g = g
IsGuarded-cons site inst wanted forgot past h g = g
IsGuarded-cons site inst wanted (saw_quiet answer) past h g = g
IsGuarded-cons site inst wanted (took_safety answer) past h g = g
IsGuarded-cons site inst wanted (wrote_pointer id) past h g = g
IsGuarded-cons site inst wanted (saw_db_volumes volumes) past h g = g
IsGuarded-cons site inst wanted (started_services services) past h g = g
IsGuarded-cons site inst wanted (started answer) past h g = g
IsGuarded-cons site inst wanted (torn_down answer) past h g = g
IsGuarded-cons site inst wanted (wrote_state payload) past h g = g
IsGuarded-cons site inst wanted reserved past h g = g
IsGuarded-cons site inst wanted released past h g = g
IsGuarded-cons site inst wanted (called_back payload) past h g = g
IsGuarded-cons site inst wanted removed_state past h g = g

module _ (site : Site) (inst : Instance) (wanted : Wanted) where
  -- Before the overwrite: nothing was destroyed.
  pub record IsEarly (r : Restoring) : Type 0 where
    pub guarded : IsGuarded site inst wanted r.effects
    pub unharmed : any destroys r.effects ≡ false
    pub unheld : any hands_over r.effects ≡ false
    pub early : r.overwrite_started ≡ false
    pub failed : r.payload.success ≡ false

  -- An early state in which the instance was seen to be stopped.
  pub record IsQuiet (r : Restoring) : Type 0 where
    pub early : IsEarly r
    pub quiet : inst.was_running ≡ true → Did (saw_quiet (done true)) r.effects

  -- From the safety snapshot on.
  pub record IsLate (r : Restoring) : Type 0 where
    pub guarded : IsGuarded site inst wanted r.effects
    pub saved : IsSaved inst r.safety_id r.effects
    pub unheld : any hands_over r.effects ≡ false
    pub late : r.overwrite_started ≡ true

  -- Where an exception leaves the body.
  abbrev pub Left : Restoring → Type 0
  Left r = IsEarly r ⊎ IsLate r

  -- Where it returns: a late payload has the safety snapshot's id.
  abbrev pub Returned : Restoring → Type 0
  Returned r = IsEarly r ⊎ (IsLate r × (r.payload.safety_id ≡ some r.safety_id))

  pub log-IsEarly : (e : Effect) (r : Restoring) → is_plain e ≡ true → IsEarly r → IsEarly (log e r)
  unfolding log any
  log-IsEarly e r h k = record {
    guarded = IsGuarded-cons site inst wanted e r.effects (plain_spares e h).0 k.guarded;
    unharmed = ground (arith, (plain_spares e h).0, k.unharmed);
    unheld = ground (arith, (plain_spares e h).1, k.unheld);
    early = k.early;
    failed = k.failed;
  }

  pub log-IsLate : (e : Effect) (r : Restoring) → is_plain e ≡ true → IsLate r → IsLate (log e r)
  unfolding log any
  log-IsLate e r h k = record {
    guarded = IsGuarded-cons site inst wanted e r.effects (plain_spares e h).0 k.guarded;
    unheld = ground (arith, (plain_spares e h).1, k.unheld);
    saved = IsSaved-cons inst r.safety_id e r.effects k.saved;
    late = k.late;
  }

  pub fail_with-IsEarly : (code : String) (r : Restoring) → IsEarly r → IsEarly (fail_with code r)
  unfolding fail_with
  fail_with-IsEarly code r k = record {
    guarded = k.guarded;
    unharmed = k.unharmed;
    unheld = k.unheld;
    early = k.early;
    failed = k.failed;
  }

  pub fail_safely-IsLate :
      (code : String) (r : Restoring)
      → IsLate r
      → IsLate (fail_safely code r) × ((fail_safely code r).payload.safety_id ≡ some r.safety_id)
  unfolding fail_safely
  fail_safely-IsLate code r k =
      (record { guarded = k.guarded; saved = k.saved; unheld = k.unheld; late = k.late }, refl)

  -- A stage goes on as `Q` says, and otherwise ends early or late.
  abbrev pub StageHolds : (Restoring → Type 0) → Progressed → Type 0
  StageHolds Q = Holds Q (Returned) (Left)

  -- A late state whose payload has the safety snapshot's id.
  abbrev pub Settled : Restoring → Type 0
  Settled r = IsLate r × (r.payload.safety_id ≡ some r.safety_id)
