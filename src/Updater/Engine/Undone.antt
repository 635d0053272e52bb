-- ===== src/Updater/Engine/Undone.antt =====
-- What the loop of `_rollback` of cli/greffer_cli/updater/engine.py undoes.
use mathlib.Core.List.{append-nil, append_assoc}
use mathlib.Core.Path.{subst}
use greffer.Updater.Engine.{
  Container, Snap, Event, recreate_one, rollback_one, restore_latest, Trace, Docker, Request,
  exit_rolled_back, exit_rollback_failed, Inspect, roll_step, roll,
}
use greffer.Prelude.{
  String, ◌≡◌, refl, sym, ap, ◌∙◌, ◌⊎◌, inl, inr, Bool, true, false, ◌&&◌, ◌||◌, Option, none, some,
  List, [], ◌∷◌, ◌++◌, arith, if◌then◌else◌, ◌==◌, nat_eq, string_eq, Bool-cases, All, any,
}

unfoldable pub is_recreate : String → Event → Bool
is_recreate service (recreate_one s) = s == service
is_recreate service _ = false

-- Whether the trace recreates a container of the service.
unfoldable pub recreated : String → Trace → Bool
unfolding is_recreate
recreated service t = any (is_recreate service) t

abbrev pub in_done : String → List Snap → Bool
in_done service done = any (λ s. s.container.service == service) done

abbrev pub Among : Container → List Container → Type 0
Among c [] = ⊥
Among c (d ∷ ds) = (d ≡ c) ⊎ Among c ds

pub rolled_back-ok :
    (a b c : Bool)
    → (if a && b && c then exit_rolled_back else exit_rollback_failed) ≡ exit_rolled_back
    → a ≡ true
rolled_back-ok true b c h = refl
rolled_back-ok false b c h = cc h

false-true : false ≡ true → ⊥
false-true e = cc e

pub any-append :
    {A : Type 0} (f : A → Bool) (xs ys : List A) → any f (xs ++ ys) ≡ (any f xs || any f ys)
unfolding any
any-append f [] ys = refl
any-append f (x ∷ xs) ys = ground (arith, any-append f xs ys)

module _ (docker : Docker) where
  -- A container that docker inspected, with the image that it ran then.
  pub record IsSnapped (c : Container) (image : String) : Type 0 where
    pub in_stack : Among c docker.stack
    pub inspected : Inspect
    pub seen : docker.inspect c ≡ some inspected
    pub ran : inspected.image ≡ some image

  abbrev pub Snapped : Snap → Type 0
  Snapped s = (image : String) × IsSnapped s.container image × (s.old_image_id ≡ some image)

  -- A container of the service is put back on the image that it ran before, and if `is_good` holds,
  -- then that worked.
  pub record IsUndone (service : String) (is_good : Type 0) (t : Trace) : Type 0 where
    pub container : Container
    pub image : String
    pub its_service : container.service ≡ service
    pub snapped : IsSnapped container image
    pub before : Trace
    pub after : Trace
    pub undone : t ≡ before ++ rollback_one container.service image ∷ after
    pub worked :
        is_good → docker.rolls_back (before ++ rollback_one container.service image ∷ []) ≡ true

module _ (docker : Docker) (req : Request) (service : String) where
  roll_step-recreated :
      (c : Container) (o : Option String) (rest : Trace → Bool → Bool × Trace) (t : Trace)
      (all_ok : Bool)
      → ((t' : Trace) (b : Bool) → recreated service (rest t' b).1 ≡ recreated service t')
      → recreated service (roll_step docker req c o rest t all_ok).1 ≡ recreated service t
  unfolding roll_step recreated any
  roll_step-recreated c none rest t all_ok keep = keep t false
  roll_step-recreated c (some old) rest t all_ok keep =
      let rolled = t ++ rollback_one c.service old ∷ [] in
      let restored = restore_latest c.repo old ∷ [] in
      keep (rolled ++ restored) (all_ok && docker.rolls_back rolled)
      ∙ any-append (is_recreate service) rolled restored
      ∙ ap (λ b. b || any (is_recreate service) restored)
          (any-append (is_recreate service) t (rollback_one c.service old ∷ []))
      ∙ ground arith

  pub roll-recreated :
      (done : List Snap) (t : Trace) (all_ok : Bool)
      → recreated service (roll docker req done t all_ok).1 ≡ recreated service t
  unfolding roll
  roll-recreated [] t all_ok = refl
  roll-recreated (s ∷ ss) t all_ok =
      roll_step-recreated s.container s.old_image_id (roll docker req ss) t all_ok
        (roll-recreated ss)

  -- The rest of the loop only adds changes, and is not better than what came before.
  abbrev GoesOn : Trace → Bool → Bool × Trace → Type 0
  GoesOn t all_ok out = (suffix : Trace) × (out.1 ≡ t ++ suffix) × (out.0 ≡ true → all_ok ≡ true)

  roll_step-GoesOn :
      (c : Container) (o : Option String) (rest : Trace → Bool → Bool × Trace) (t : Trace)
      (all_ok : Bool)
      → ((u : Trace) (b : Bool) → GoesOn u b (rest u b))
      → GoesOn t all_ok (roll_step docker req c o rest t all_ok)
  unfolding roll_step
  roll_step-GoesOn c none rest t all_ok later =
      let (suffix, path, ok) = later t false in (suffix, path, λ h. absurd (false-true (ok h)))
  roll_step-GoesOn c (some old) rest t all_ok later =
      let undone = rollback_one c.service old ∷ [] in
      let restored = restore_latest c.repo old ∷ [] in
      let (suffix, path, ok) =
        later (t ++ undone ++ restored) (all_ok && docker.rolls_back (t ++ undone)) in
      (
        undone ++ restored ++ suffix,
        path
            ∙ append_assoc (t ++ undone) restored suffix
            ∙ append_assoc t undone (restored ++ suffix),
        λ h. ground (arith, ok h),
      )

  roll-GoesOn :
      (done : List Snap) (t : Trace) (all_ok : Bool)
      → GoesOn t all_ok (roll docker req done t all_ok)
  unfolding roll
  roll-GoesOn [] t all_ok = ([], sym (append-nil t), λ h. h)
  roll-GoesOn (s ∷ ss) t all_ok =
      roll_step-GoesOn s.container s.old_image_id (roll docker req ss) t all_ok (roll-GoesOn ss)

  abbrev Undoes : Bool × Trace → Type 0
  Undoes out = IsUndone docker service (out.0 ≡ true) out.1

  here-Undoes :
      (c : Container) (image : String) (ss : List Snap) (t : Trace) (all_ok : Bool)
      → c.service ≡ service
      → IsSnapped docker c image
      → Undoes (roll_step docker req c (some image) (roll docker req ss) t all_ok)
  unfolding roll_step
  here-Undoes c image ss t all_ok same snapped =
      let undone = rollback_one c.service image ∷ [] in
      let restored = restore_latest c.repo image ∷ [] in
      let (suffix, path, ok) =
        roll-GoesOn ss (t ++ undone ++ restored) (all_ok && docker.rolls_back (t ++ undone)) in
      record {
        container = c;
        image = image;
        its_service = same;
        snapped = snapped;
        before = t;
        after = restored ++ suffix;
        undone =
            path
            ∙ append_assoc (t ++ undone) restored suffix
            ∙ append_assoc t undone (restored ++ suffix);
        worked = λ h. ground (arith, ok h);
      }

  -- The container of `done` is put back.
  pub roll-Undoes :
      (done : List Snap) (t : Trace) (all_ok : Bool)
      → All (Snapped docker) done
      → in_done service done ≡ true
      → Undoes (roll docker req done t all_ok)
  unfolding roll any roll_step
  roll-Undoes [] t all_ok snapped h = cc h
  roll-Undoes (s ∷ ss) t all_ok ((image, snapped, path), more) h =
      subst (λ o. Undoes (roll_step docker req s.container o (roll docker req ss) t all_ok))
        (sym path)
        (elim (Bool-cases (s.container.service == service)) [
          | inl same ↦
              here-Undoes s.container image ss t all_ok
                ((string_eq.beq_iff s.container.service service).0 same) snapped
          | inr other ↦ roll-Undoes ss _ _ more (ground (arith, h, other))
        ])
