-- ===== src/Workers/Readiness.antt =====
-- app/readiness.py: what makes the greffer fatal, degraded or ready.
pub mod Causes
use greffer.Prelude.{
  ℕ, zero, suc, ◌+◌, ◌-◌, ◌*◌, ◌≤◌, ◌<◌, String, ◌≡◌, refl, sym, ap, ap₂, ◌∙◌, ◌≢◌, ◌↔◌, ◌⊎◌, inl,
  inr, Bool, true, false, not, ◌&&◌, ◌||◌, Option, none, some, List, [], ◌∷◌, ◌++◌, map, arith,
  eq_iff, ltb, leb, if◌then◌else◌, Eq, ◌==◌, ◌!=◌, nat_eq, string_eq, Bool-cases, Option-cases,
  or_else, or_false, All, All-append, length, select, any, every, contains, contains-append, Dict,
  get, get_or, put, pop, get-put, get-pop, lower, lower_char, Unique, put-Unique, get-put_self,
}

-- `FATAL_WORKERS`
abbrev pub fatal_workers : List String
fatal_workers =
    "greffer-monitor" ∷ "greffer-crl-sync" ∷ "greffer-heartbeat" ∷ "greffer-reregister"
    ∷ "greffer-cert-renewal" ∷ []

-- The texts of `reasons`.
pub data Reason : Type 0 where
  docker_unreachable : Reason
  worker_dead : String → Reason
  registration_pending : Reason
  readiness_probe_timeout : Reason

pub data Status : Type 0 where
  fatal_status degraded ready : Status

pub record Readiness : Type 0 where
  pub fatal : Bool
  pub reasons : List Reason

-- Readiness.status
unfoldable pub readiness_status : Readiness → Status
readiness_status r =
    if r.fatal then fatal_status else elim r.reasons [ [] ↦ ready | _ ∷ _ ↦ degraded ]

-- What the check reads: whether the daemon answered the ping, `task.done()` of each worker task,
-- and the `registered` event, which is absent before the lifespan starts.
pub record App : Type 0 where
  pub docker_ok : Bool
  pub worker_tasks : Dict String Bool
  pub registered : Option Bool

unfoldable pub fail : Reason → Readiness → Readiness
fail why r = record { fatal = true; reasons = r.reasons ++ why ∷ [] }

-- `task is not None and task.done()`
unfoldable pub is_dead : Dict String Bool → String → Bool
is_dead tasks name = or_else (get tasks name) false

unfoldable pub check_worker : String → Bool → Readiness → Readiness
unfolding fail
check_worker name true r = fail (worker_dead name) r
check_worker name false r = r

unfoldable pub check_workers : Dict String Bool → List String → Readiness → Readiness
unfolding is_dead check_worker
check_workers tasks [] r = r
check_workers tasks (name ∷ names) r =
    check_workers tasks names (check_worker name (is_dead tasks name) r)

-- `registered is not None and not registered.is_set()`
unfoldable pub is_pending : Option Bool → Bool
is_pending none = false
is_pending (some set) = not set

unfoldable pub check_docker : Bool → Readiness → Readiness
unfolding fail
check_docker true r = r
check_docker false r = fail docker_unreachable r

unfoldable pub check_registered : Bool → Readiness → Readiness
check_registered true r = record r { reasons = r.reasons ++ registration_pending ∷ [] }
check_registered false r = r

unfoldable pub evaluate_readiness : App → Readiness
unfolding check_docker check_workers is_pending check_registered
evaluate_readiness app = check_registered (is_pending app.registered) (
    check_workers app.worker_tasks fatal_workers
      (check_docker app.docker_ok (record { fatal = false; reasons = [] })))
