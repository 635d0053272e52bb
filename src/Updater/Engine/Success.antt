-- ===== src/Updater/Engine/Success.antt =====
-- What the last phase of a run that succeeds has seen.
use greffer.Updater.Gate.{
  Verdict, gate_ready, gate_timeout, gate_fatal, gate_wrong_id, gate_not_applied,
  gate_degraded_other, gate_crash_loop, Gate, health_gate,
}
use greffer.Updater.Gate.Ready.{IsHealthy, health_gate-IsHealthy}
use greffer.Updater.Version.{is_downgrade}
use greffer.Updater.Engine.{
  Snap, dangling_prune, Trace, Docker, Request, exit_ok, exit_rolled_back, exit_rollback_failed,
  Run, rollback, check, name_of_service, run_gate, is_ready, expected_ids,
}
use greffer.Prelude.{
  ℕ, suc, ◌+◌, ◌-◌, ◌<◌, String, ◌≡◌, refl, sym, ap, ◌∙◌, ◌≢◌, inl, inr, Bool, true, false, not,
  ◌||◌, Option, none, some, List, [], ◌∷◌, ◌++◌, map, arith, if◌then◌else◌, ◌==◌, nat_eq, string_eq,
  Bool-cases, or_else, All, contains, Dict, get, get_or, put, get-put,
}

module _ (docker : Docker) (req : Request) where
  -- The gate of the last phase, at the trace `t`.
  abbrev pub final_gate : Dict String String → List Snap → Trace → Gate
  final_gate verified snaps t = record {
    greffer_id = req.greffer_id;
    applied_image_ids = expected_ids docker req verified snaps [];
    service_names = map (λ s. s.name) snaps;
    check_version = true;
    deadline = docker.now t + req.timeout;
    base_restarts = docker.restart_count t;
  }

  -- The image that docker names for the verified digest of the container.
  abbrev pub verified_image : Dict String String → Snap → Option String
  verified_image verified s = docker.image_id s.container.repo (get_or verified s.container.repo "")

  expected_ids-get :
      (verified : Dict String String) (name image : String) (snaps : List Snap)
      (ids : Dict String (Option String))
      → All (λ s. s.name ≡ name → verified_image verified s ≡ some image) snaps
      → (contains name (map (λ s. s.name) snaps) ≡ false → get ids name ≡ some (some image))
      → get (expected_ids docker req verified snaps ids) name ≡ some (some image)
  unfolding expected_ids contains
  expected_ids-get verified name image [] ids alike before = before refl
  expected_ids-get verified name image (s ∷ ss) ids (here, alike) before =
      expected_ids-get verified name image ss (put ids s.name (verified_image verified s)) alike
        λ later.
          get-put ids s.name name (verified_image verified s)
          ∙ (elim (Bool-cases (s.name == name)) [
            | inl same ↦ rw same (ap some (here ((string_eq.beq_iff s.name name).0 same)))
            | inr other ↦ rw other (before (ground (arith, later, other)))
          ])

  -- A success, after the changes `t`.
  pub record Success (verified : Dict String String) (old : Option String) (snaps : List Snap)
      (t : Trace) (run : Run) : Type 0 where
    pub pruned : run.1 ≡ t ++ dangling_prune ∷ []
    pub healthy :
        (j : ℕ) × ((docker.polls t j).now < docker.now t + req.timeout)
        × IsHealthy (final_gate verified snaps t) (docker.polls t j)
    pub ran :
        (name image : String)
        → contains name (map (λ s. s.name) snaps) ≡ true
        → All (λ s. s.name ≡ name → verified_image verified s ≡ some image) snaps
        → image ≢ ""
        → (docker.polls t healthy.0).image_id name ≡ some image
    pub not_backwards :
        is_downgrade old (docker.exec_version t (name_of_service "greffer" snaps)) ≢ some true

  not_ok : (b : Bool) → (if b then exit_rolled_back else exit_rollback_failed) ≢ exit_ok
  not_ok true e = cc e
  not_ok false e = cc e

  pub rollback-not_ok :
      (snaps done : List Snap) (t : Trace) → (rollback docker req snaps done t).0 ≢ exit_ok
  unfolding rollback
  rollback-not_ok snaps done t = not_ok _

  ready : (o : Verdict) → is_ready docker req o ≡ true → o ≡ gate_ready
  unfolding is_ready
  ready gate_ready h = refl
  ready gate_timeout h = cc h
  ready gate_fatal h = cc h
  ready gate_wrong_id h = cc h
  ready gate_not_applied h = cc h
  ready gate_degraded_other h = cc h
  ready gate_crash_loop h = cc h

  settled_ready : (o : Option Verdict) → or_else o gate_timeout ≡ gate_ready → o ≡ some gate_ready
  settled_ready none h = cc h
  settled_ready (some o) h = ap some h

  passed : (a b : Bool) → (a || not b) ≡ false → b ≡ true
  passed a b h = ground arith

  -- Both tests of the last phase come out false in a success.
  both_passed :
      (b c : Bool) (undo : Run) (run : Run)
      → undo.0 ≢ exit_ok
      → (if b then undo else if c then undo else run).0 ≡ exit_ok
      → (b ≡ false) × (c ≡ false)
  both_passed true c undo run bad e = absurd (bad e)
  both_passed false true undo run bad e = absurd (bad e)
  both_passed false false undo run bad e = (refl, refl)

  there_missing : (b : Bool) → b ≡ true → b ≡ false → ⊥
  there_missing b h h' = cc (h, h')

  pub check-Success :
      (verified : Dict String String) (old : Option String) (snaps done : List Snap) (t : Trace)
      → (check docker req verified old snaps done t).0 ≡ exit_ok
      → Success verified old snaps t (check docker req verified old snaps done t)
  unfolding check run_gate
  check-Success verified old snaps done t e =
      let g = final_gate verified snaps t in
      let rounds = suc (g.deadline - (docker.polls t 0).now) in
      let seen = health_gate g (docker.polls t) rounds 0 in
      let outcome = or_else seen gate_timeout in
      let bad = docker.check_raises t || not (is_ready docker req outcome) in
      let new_version = docker.exec_version t (name_of_service "greffer" snaps) in
      let back = or_else (is_downgrade old new_version) false in
      let undo = rollback docker req snaps done t in
      let run : Run = (exit_ok, t ++ dangling_prune ∷ []) in
      let (fine, forwards) = both_passed bad back undo run (rollback-not_ok snaps done t) e in
      let is_good =
        ready outcome (passed (docker.check_raises t) (is_ready docker req outcome) fine) in
      let seen_healthy =
        health_gate-IsHealthy g (docker.polls t) rounds 0 (settled_ready seen is_good) in
      record {
        pruned =
            ap (λ v. (if v then undo else if back then undo else run).1) fine
            ∙ ap (λ v. (if v then undo else run).1) forwards;
        healthy = seen_healthy;
        ran = λ name image there alike full.
            seen_healthy.2.applied refl name image there
              (expected_ids-get verified name image snaps [] alike
                (λ missing. absurd (there_missing _ there missing)))
              full;
        not_backwards = λ e'. let wrong = sym (ap (λ o. or_else o false) e') ∙ forwards in cc wrong;
      }
