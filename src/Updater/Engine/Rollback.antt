-- ===== src/Updater/Engine/Rollback.antt =====
-- A failed update: nothing is changed on a refusal, and what was recreated is rolled back.
use greffer.Updater.Engine.{
  Snap, Event, tag_previous, retag_latest, recreate_one, Trace, Answer, yes, no, raised, Docker,
  Request, exit_ok, exit_rolled_back, Run, rollback, check, mutate, after_retag, after_recreate,
}
use greffer.Prelude.{
  String, ◌≡◌, refl, sym, ◌∙◌, ◌≢◌, Bool, true, false, ◌||◌, Option, List, [], ◌∷◌, ◌++◌, arith,
  if◌then◌else◌, nat_eq, string_eq, All, any, Dict, get_or,
}
use greffer.Updater.Engine.Undone.{
  is_recreate, recreated, in_done, any-append, rolled_back-ok, Snapped, IsUndone, roll-recreated,
  roll-Undoes,
}

module _ (docker : Docker) (req : Request) (service : String) where
  -- A run that did not succeed has put back what it recreated of the service, and if it exits with
  -- exit_rolled_back, then that worked.
  abbrev pub IsSettled : Run → Type 0
  IsSettled run =
      run.0 ≢ exit_ok
      → recreated service run.1 ≡ true
      → IsUndone docker service (run.0 ≡ exit_rolled_back) run.1

  rollback-IsSettled :
      (snaps done : List Snap) (t : Trace)
      → All (Snapped docker) done
      → (recreated service t ≡ true → in_done service done ≡ true)
      → IsSettled (rollback docker req snaps done t)
  unfolding rollback
  rollback-IsSettled snaps done t imaged covered failed again =
      let before = sym (roll-recreated docker req service done t true) ∙ again in
      let u = roll-Undoes docker req service done t true imaged (covered before) in
      record {
        container = u.container;
        image = u.image;
        its_service = u.its_service;
        snapped = u.snapped;
        before = u.before;
        after = u.after;
        undone = u.undone;
        worked = λ h. u.worked (rolled_back-ok _ _ _ h);
      }

  if-IsSettled : (b : Bool) (x y : Run) → IsSettled x → IsSettled y → IsSettled (if b then x else y)
  if-IsSettled true x y h h' = h
  if-IsSettled false x y h h' = h'

  check-IsSettled :
      (verified : Dict String String) (old : Option String) (snaps done : List Snap) (t : Trace)
      → All (Snapped docker) done
      → (recreated service t ≡ true → in_done service done ≡ true)
      → IsSettled (check docker req verified old snaps done t)
  unfolding check
  check-IsSettled verified old snaps done t imaged covered =
      let undo = rollback-IsSettled snaps done t imaged covered in
      if-IsSettled _ _ _ undo (if-IsSettled _ _ _ undo (λ failed. absurd (failed refl)))

  after_recreate-IsSettled :
      (snaps done : List Snap) (s : Snap) (t : Trace) (rest : Run) (reply : Answer)
      → reply ≢ raised
      → All (Snapped docker) (s ∷ done)
      → (recreated service t ≡ true → in_done service (s ∷ done) ≡ true)
      → IsSettled rest
      → IsSettled (after_recreate docker req snaps done s t rest reply)
  unfolding after_recreate
  after_recreate-IsSettled snaps done s t rest yes calm imaged covered h = h
  after_recreate-IsSettled snaps done s t rest no calm imaged covered h =
      rollback-IsSettled snaps (s ∷ done) t imaged covered
  after_recreate-IsSettled snaps done s t rest raised calm imaged covered h = absurd (calm refl)

  after_retag-IsSettled :
      (snaps done : List Snap) (t : Trace) (rest : Run) (reply : Answer)
      → All (Snapped docker) done
      → (recreated service t ≡ true → in_done service done ≡ true)
      → IsSettled rest
      → IsSettled (after_retag docker req snaps done t rest reply)
  unfolding after_retag
  after_retag-IsSettled snaps done t rest yes imaged covered h = h
  after_retag-IsSettled snaps done t rest no imaged covered h =
      rollback-IsSettled snaps done t imaged covered
  after_retag-IsSettled snaps done t rest raised imaged covered h =
      rollback-IsSettled snaps done t imaged covered

  recreated-snoc :
      (t : Trace) (e : Event)
      → recreated service (t ++ e ∷ []) ≡ (recreated service t || is_recreate service e)
  unfolding recreated any
  recreated-snoc t e = any-append (is_recreate service) t (e ∷ []) ∙ ground arith

  pub mutate-IsSettled :
      (verified : Dict String String) (old : Option String) (snaps todo done : List Snap)
      (t : Trace)
      → ((u : Trace) → docker.recreate u ≢ raised)
      → All (Snapped docker) todo
      → All (Snapped docker) done
      → (recreated service t ≡ true → in_done service done ≡ true)
      → IsSettled (mutate docker req verified old snaps todo done t)
  unfolding mutate any is_recreate
  mutate-IsSettled verified old snaps [] done t calm todo_imaged imaged covered =
      check-IsSettled verified old snaps done t imaged covered
  mutate-IsSettled verified old snaps (s ∷ todo) done t calm todo_imaged imaged covered =
      let tag = tag_previous s.container.repo s.old_image_id in
      let tagged = t ++ tag ∷ [] in
      let point = retag_latest s.container.repo (get_or verified s.container.repo "") in
      let pointed = tagged ++ point ∷ [] in
      let made = pointed ++ recreate_one s.container.service ∷ [] in
      let at_tag = λ (h : recreated service tagged ≡ true).
        covered (ground (arith, recreated-snoc t tag, h)) in
      let at_point = λ (h : recreated service pointed ≡ true).
        at_tag (ground (arith, recreated-snoc tagged point, h)) in
      let at_made : recreated service made ≡ true → in_done service (s ∷ done) ≡ true = λ h.
        ground (arith, recreated-snoc pointed (recreate_one s.container.service), h, at_point) in
      let all_imaged : All (Snapped docker) (s ∷ done) = (todo_imaged.0, imaged) in
      if-IsSettled _ _ _ (rollback-IsSettled snaps done tagged imaged at_tag) (
        after_retag-IsSettled snaps done pointed _ (docker.retag pointed) imaged at_point (
          after_recreate-IsSettled snaps done s made _ (docker.recreate made) (calm made) all_imaged
            at_made
            (mutate-IsSettled verified old snaps todo (s ∷ done) made calm todo_imaged.1 all_imaged
              at_made)))
