-- ===== src/Updater/Engine/Settled.antt =====
-- What a run that does not succeed leaves behind.
use greffer.Updater.Engine.{
  first_of, Container, Inspect, Snap, Trace, Answer, yes, no, raised, Docker, Request, exit_ok,
  exit_rolled_back, exit_rollback_failed, exit_refused, Run, add_snap, snap_of, snapshot_all,
  rollback, check, mutate, after_retag, after_recreate, run_remote_update,
}
use greffer.Updater.Engine.Preflight.{Preflight, refuse, start, run_remote_update-Preflight}
use mathlib.Core.Path.{subst}
use greffer.Updater.Engine.Undone.{Among, recreated, Snapped, IsUndone}
use greffer.Updater.Engine.Rollback.{IsSettled, mutate-IsSettled}
use greffer.Prelude.{
  String, ◌≡◌, refl, ◌≢◌, inl, inr, Bool, true, false, Option, none, some, List, [], ◌∷◌,
  if◌then◌else◌, nat_eq, string_eq, All, any, Dict,
}

module _ (docker : Docker) (req : Request) where
  record IsStarted (run : Run) : Type 0 where
    started : run.0 ≢ exit_refused

  if-IsStarted : (b : Bool) (x y : Run) → IsStarted x → IsStarted y → IsStarted (if b then x else y)
  if-IsStarted true x y h h' = h
  if-IsStarted false x y h h' = h'

  not_refused : (b : Bool) → (if b then exit_rolled_back else exit_rollback_failed) ≢ exit_refused
  not_refused true e = cc e
  not_refused false e = cc e

  rollback-IsStarted :
      (snaps done : List Snap) (t : Trace) → IsStarted (rollback docker req snaps done t)
  unfolding rollback
  rollback-IsStarted snaps done t = record { started = not_refused _ }

  ok-IsStarted : (t : Trace) → IsStarted (exit_ok, t)
  ok-IsStarted t = record { started = λ e. cc e }

  check-IsStarted :
      (verified : Dict String String) (old : Option String) (snaps done : List Snap) (t : Trace)
      → IsStarted (check docker req verified old snaps done t)
  unfolding check
  check-IsStarted verified old snaps done t =
      let undo = rollback-IsStarted snaps done t in
      if-IsStarted _ _ _ undo (if-IsStarted _ _ _ undo (ok-IsStarted _))

  after_recreate-IsStarted :
      (snaps done : List Snap) (s : Snap) (t : Trace) (rest : Run) (reply : Answer)
      → IsStarted rest
      → IsStarted (after_recreate docker req snaps done s t rest reply)
  unfolding after_recreate
  after_recreate-IsStarted snaps done s t rest yes h = h
  after_recreate-IsStarted snaps done s t rest no h = rollback-IsStarted snaps (s ∷ done) t
  after_recreate-IsStarted snaps done s t rest raised h = rollback-IsStarted snaps done t

  after_retag-IsStarted :
      (snaps done : List Snap) (t : Trace) (rest : Run) (reply : Answer)
      → IsStarted rest
      → IsStarted (after_retag docker req snaps done t rest reply)
  unfolding after_retag
  after_retag-IsStarted snaps done t rest yes h = h
  after_retag-IsStarted snaps done t rest no h = rollback-IsStarted snaps done t
  after_retag-IsStarted snaps done t rest raised h = rollback-IsStarted snaps done t

  mutate-IsStarted :
      (verified : Dict String String) (old : Option String) (snaps todo done : List Snap)
      (t : Trace)
      → IsStarted (mutate docker req verified old snaps todo done t)
  unfolding mutate
  mutate-IsStarted verified old snaps [] done t = check-IsStarted verified old snaps done t
  mutate-IsStarted verified old snaps (s ∷ todo) done t =
      if-IsStarted _ _ _ (rollback-IsStarted snaps done _) (
        after_retag-IsStarted snaps done _ _ _ (
          after_recreate-IsStarted snaps done s _ _ _
            (mutate-IsStarted verified old snaps todo (s ∷ done) _)))

  refused-nothing : (run : Run) → Preflight docker req run → run.0 ≡ exit_refused → run.1 ≡ []
  refused-nothing _ refuse e = refl
  refused-nothing _ (start own verified snaps found forwards v s) e = absurd (
      (mutate-IsStarted verified (docker.exec_version [] own.container_id) snaps snaps []
          []).started
        e)

  -- A run that is refused has changed nothing: no tag was moved and no container recreated.
  pub remote_update_refused :
      (run_remote_update docker req).0 ≡ exit_refused → (run_remote_update docker req).1 ≡ []
  remote_update_refused e =
      refused-nothing (run_remote_update docker req) (run_remote_update-Preflight docker req) e

  some-inj : {A : Type 0} {x y : A} → some x ≡ some y → x ≡ y
  some-inj e = cc e

  some-none : {A : Type 0} {x : A} → none ≡ some x → ⊥
  some-none e = cc e

  first_of-some :
      (o b : Option String) (image : String) → o ≡ some image → first_of o b ≡ some image
  unfolding first_of
  first_of-some none b image e = absurd (some-none e)
  first_of-some (some old) b image e = e

  the_image : (o : Option String) → o ≢ none → (image : String) × (o ≡ some image)
  the_image none known = absurd (known refl)
  the_image (some image) known = (image, refl)

  later :
      {A : Type 0} (Q R : A → Type 0) (xs : List A) → ((x : A) → Q x → R x) → All Q xs → All R xs
  later Q R [] step all = tt
  later Q R (x ∷ xs) step (here, rest) = (step x here, later Q R xs step rest)

  All-Among : (cs : List Container) → All (λ c. Among c cs) cs
  All-Among [] = tt
  All-Among (c ∷ cs) = (inl refl, later _ _ cs (λ d there. inr there) (All-Among cs))

  snap_of-Snapped :
      (c : Container) (i : Inspect)
      → Among c docker.stack
      → docker.inspect c ≡ some i
      → i.image ≢ none
      → Snapped docker (snap_of docker req c i)
  unfolding snap_of
  snap_of-Snapped c i there seen known =
      let (image, path) = the_image i.image known in
      (
        image,
        record { in_stack = there; inspected = i; seen = seen; ran = path },
        first_of-some i.image (docker.current_image_id c.repo) image path,
      )

  add_snap-Snapped :
      (c : Container) (o : Option Inspect) (rest : Option (List Snap)) (snaps : List Snap)
      → ((i : Inspect) → o ≡ some i → Snapped docker (snap_of docker req c i))
      → ((ss : List Snap) → rest ≡ some ss → All (Snapped docker) ss)
      → add_snap docker req c o rest ≡ some snaps
      → All (Snapped docker) snaps
  unfolding add_snap
  add_snap-Snapped c none rest snaps known more e = cc e
  add_snap-Snapped c (some i) none snaps known more e = cc e
  add_snap-Snapped c (some i) (some ss) snaps known more e =
      subst (All (Snapped docker)) (some-inj e) (known i refl, more ss refl)

  module _
      (known : (c : Container) (i : Inspect) → docker.inspect c ≡ some i → i.image ≢ none) where
    snapshot_all-Snapped :
        (cs : List Container) (snaps : List Snap)
        → All (λ c. Among c docker.stack) cs
        → snapshot_all docker req cs ≡ some snaps
        → All (Snapped docker) snaps
    unfolding snapshot_all
    snapshot_all-Snapped [] snaps there e = subst (All (Snapped docker)) (some-inj e) tt
    snapshot_all-Snapped (c ∷ cs) snaps (here, there) e =
        add_snap-Snapped c (docker.inspect c) (snapshot_all docker req cs) snaps
          (λ i seen. snap_of-Snapped c i here seen (known c i seen))
          (λ ss e'. snapshot_all-Snapped cs ss there e') e

    settled :
        (service : String) (run : Run)
        → ((u : Trace) → docker.recreate u ≢ raised)
        → Preflight docker req run
        → IsSettled docker req service run
    unfolding recreated any
    settled service _ calm refuse = λ failed again. absurd (cc again)
    settled service _ calm (start own verified snaps found forwards v s) =
        let snapped = snapshot_all-Snapped docker.stack snaps (All-Among docker.stack) s in
        mutate-IsSettled docker req service verified (docker.exec_version [] own.container_id) snaps
          snaps [] [] calm snapped tt (λ h. absurd (cc h))

  -- If docker names the image of every container that it inspects and no `recreate_one` raises,
  -- then a run that does not succeed, and that recreated a container of the service, has rolled
  -- back a container of the service, which is in the stack, to the image that docker named when it
  -- inspected that container; and if the run exits as rolled back, that rollback worked.
  pub remote_update_rolls_back :
      (service : String)
      → ((u : Trace) → docker.recreate u ≢ raised)
      → ((c : Container) (i : Inspect) → docker.inspect c ≡ some i → i.image ≢ none)
      → (run_remote_update docker req).0 ≢ exit_ok
      → recreated service (run_remote_update docker req).1 ≡ true
      → IsUndone docker service
          ((run_remote_update docker req).0 ≡ exit_rolled_back)
          (run_remote_update docker req).1
  remote_update_rolls_back service calm known =
      settled known service (run_remote_update docker req) calm
        (run_remote_update-Preflight docker req)
