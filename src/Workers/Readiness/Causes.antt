-- ===== src/Workers/Readiness/Causes.antt =====
-- The three statuses of a readiness check, by their causes.
use greffer.Workers.Readiness.{
  Readiness, Status, fatal_status, degraded, ready, readiness_status, App, fatal_workers, fail,
  is_dead, check_worker, check_workers, check_docker, check_registered, is_pending,
  evaluate_readiness,
}
use greffer.Prelude.{
  String, ◌≡◌, refl, sym, ap, ◌∙◌, inl, inr, Bool, true, false, not, ◌||◌, List, [], ◌∷◌, arith,
  if◌then◌else◌, nat_eq, string_eq, Bool-cases, or_false, any, Dict,
}

check_worker-fatal :
    (name : String) (dead : Bool) (r : Readiness)
    → (check_worker name dead r).fatal ≡ (r.fatal || dead)
unfolding check_worker fail
check_worker-fatal name true r = ground arith
check_worker-fatal name false r = ground arith

check_workers-fatal :
    (tasks : Dict String Bool) (names : List String) (r : Readiness)
    → (check_workers tasks names r).fatal ≡ (r.fatal || any (is_dead tasks) names)
unfolding check_workers any
check_workers-fatal tasks [] r = ground arith
check_workers-fatal tasks (name ∷ names) r =
    let dead = is_dead tasks name in
    check_workers-fatal tasks names (check_worker name dead r)
    ∙ ap (λ b. b || any (is_dead tasks) names) (check_worker-fatal name dead r)
    ∙ ground arith

-- Without a dead worker the check leaves the readiness alone.
check_workers-alive :
    (tasks : Dict String Bool) (names : List String) (r : Readiness)
    → any (is_dead tasks) names ≡ false
    → check_workers tasks names r ≡ r
unfolding check_workers any check_worker
check_workers-alive tasks [] r h = refl
check_workers-alive tasks (name ∷ names) r h =
    let (alive, rest) = or_false (is_dead tasks name) (any (is_dead tasks) names) h in
    ap (λ b. check_workers tasks names (check_worker name b r)) alive
    ∙ check_workers-alive tasks names r rest

-- Whether the node needs a restart of the process: the daemon does not answer, or a long-lived
-- worker is gone.
unfoldable pub is_broken : App → Bool
is_broken app = not app.docker_ok || any (is_dead app.worker_tasks) fatal_workers

check_docker-fatal : (up : Bool) (r : Readiness) → (check_docker up r).fatal ≡ (r.fatal || not up)
unfolding check_docker fail
check_docker-fatal true r = ground arith
check_docker-fatal false r = ground arith

check_registered-fatal : (p : Bool) (r : Readiness) → (check_registered p r).fatal ≡ r.fatal
unfolding check_registered
check_registered-fatal true r = refl
check_registered-fatal false r = refl

-- The readiness is fatal exactly if the daemon does not answer or one of the long-lived workers
-- is done; a registration that is pending never makes it fatal.
pub evaluate_readiness-fatal : (app : App) → (evaluate_readiness app).fatal ≡ is_broken app
unfolding evaluate_readiness is_broken
evaluate_readiness-fatal app =
    let start : Readiness = record { fatal = false; reasons = [] } in
    let pinged = check_docker app.docker_ok start in
    check_registered-fatal (is_pending app.registered)
      (check_workers app.worker_tasks fatal_workers pinged)
    ∙ check_workers-fatal app.worker_tasks fatal_workers pinged
    ∙ ap (λ b. b || any (is_dead app.worker_tasks) fatal_workers)
        (check_docker-fatal app.docker_ok start)

-- The status that the endpoint and the watchdog see, by its cause.
unfoldable pub expected_status : App → Status
unfolding is_broken
expected_status app =
    if is_broken app then fatal_status else if is_pending app.registered then degraded else ready

readiness_status-fatal : (r : Readiness) → r.fatal ≡ true → readiness_status r ≡ fatal_status
unfolding readiness_status
readiness_status-fatal r h = rw h refl

readiness_status-registered :
    (p : Bool)
    → readiness_status (check_registered p (record { fatal = false; reasons = [] }))
      ≡ (if p then degraded else ready)
unfolding readiness_status check_registered
readiness_status-registered true = refl
readiness_status-registered false = refl

-- A node that is not broken has only the registration left to report.
evaluate_readiness-fine :
    (app : App)
    → is_broken app ≡ false
    → evaluate_readiness app
      ≡ check_registered (is_pending app.registered) (record { fatal = false; reasons = [] })
unfolding evaluate_readiness is_broken check_docker
evaluate_readiness-fine app fine =
    let start : Readiness = record { fatal = false; reasons = [] } in
    let (up, alive) =
      or_false (not app.docker_ok) (any (is_dead app.worker_tasks) fatal_workers) fine in
    let answered : app.docker_ok ≡ true = ground (arith, up) in
    ap
      (λ b.
        check_registered (is_pending app.registered)
          (check_workers app.worker_tasks fatal_workers (check_docker b start)))
      answered
    ∙ ap (check_registered (is_pending app.registered))
        (check_workers-alive app.worker_tasks fatal_workers start alive)

-- The status is fatal if the node is broken; otherwise it is degraded exactly while a
-- registration is pending, and ready in every other case.
pub readiness_status-evaluate_readiness :
    (app : App) → readiness_status (evaluate_readiness app) ≡ expected_status app
unfolding expected_status
readiness_status-evaluate_readiness app =
    let spared : Status = if is_pending app.registered then degraded else ready in
    elim (Bool-cases (is_broken app)) [
      | inl broken ↦
          readiness_status-fatal (evaluate_readiness app) (evaluate_readiness-fatal app ∙ broken)
          ∙ sym (ap (λ b. if b then fatal_status else spared) broken)
      | inr fine ↦
          ap readiness_status (evaluate_readiness-fine app fine)
          ∙ readiness_status-registered (is_pending app.registered)
          ∙ sym (ap (λ b. if b then fatal_status else spared) fine)
    ]
