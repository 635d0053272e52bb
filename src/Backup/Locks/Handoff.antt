-- ===== src/Backup/Locks/Handoff.antt =====
-- A reserved handoff keeps the renewals out until the manager's operation arrives.
use greffer.Backup.Locks.Reserved.{
  is_renewal, IsReserved, any-append, op-IsReserved, renewal-IsReserved, spawn-IsReserved,
  reserve-IsReserved, any_freed, any_fewer,
}
use greffer.Backup.Locks.Owned.{IsOwned, reached-IsOwned, end_thread-is_locked}
use greffer.Backup.Locks.Steps.{
  Step, waits, op_arrives, renewal_arrives, job_spawned, reserves, releases_early, ends, Steps,
  here, next, as_number, holders, holders-append,
}
use greffer.Backup.Locks.Rules.{release_once-is_locked}
use greffer.Backup.Locks.{
  is_locked, acquire, handoff_window, reserve_handoff, Thread, handler, renewal, job, Process,
  process, serve_op, try_renewal, spawn_job, no_locks,
}
use greffer.Prelude.{
  ℕ, ◌+◌, ◌≤◌, ◌<◌, String, ◌≡◌, refl, sym, ap, ◌∙◌, ◌⊎◌, inl, inr, Bool, true, false, List, [],
  ◌∷◌, ◌++◌, arith, ◌==◌, nat_eq, string_eq, Bool-cases, any, get, get-put_self, if_ind,
}

-- The step serves a control operation for the instance.
abbrev pub IsServedBy : String → {p q : Process} → Step p q → Type 0
IsServedBy id (op_arrives p j) = (j ≡ id) × (is_locked id p.shared ≡ false)
IsServedBy id (waits p n) = ⊥
IsServedBy id (renewal_arrives p j) = ⊥
IsServedBy id (job_spawned p j starts) = ⊥
IsServedBy id (reserves now s before after j) = ⊥
IsServedBy id (releases_early now s t before after j held e) = ⊥
IsServedBy id (ends now s u before after t e) = ⊥

-- One of the steps does.
abbrev pub WasServed : String → {p q : Process} → Steps p q → Type 0
WasServed id here = ⊥
WasServed id (next path step) = WasServed id path ⊎ IsServedBy id step

clock_moves_on : {p q : Process} → Step p q → p.now ≤ q.now
unfolding serve_op try_renewal spawn_job
clock_moves_on (waits p n) = omega arith
clock_moves_on (op_arrives p j) =
    if_ind (λ (q : Process). p.now ≤ q.now) (acquire j p.shared).0 _ _ (λ _. omega arith)
      (λ _. omega arith)
clock_moves_on (renewal_arrives p j) = omega arith
clock_moves_on (job_spawned p j starts) =
    if_ind (λ (q : Process). p.now ≤ q.now) (acquire j p.shared).0 _ _
      (λ _.
        if_ind (λ (q : Process). p.now ≤ q.now) starts _ _ (λ _. omega arith) (λ _. omega arith))
      (λ _. omega arith)
clock_moves_on (reserves now s before after j) = omega arith
clock_moves_on (releases_early now s t before after j held e) = omega arith
clock_moves_on (ends now s u before after t e) = omega arith

Step-IsReserved :
    (id : String) (since : ℕ) {p q : Process} (step : Step p q)
    → ¬ IsServedBy id step
    → p.now < since + handoff_window
    → IsReserved id since p
    → IsReserved id since q
Step-IsReserved id since (waits p n) unserved early r = record {
  deadline = r.deadline;
  kept = r.kept;
  late = r.late;
  passed = omega (arith, r.passed);
  clear = r.clear;
}
Step-IsReserved id since (op_arrives p j) unserved early r = op-IsReserved id j since p unserved r
Step-IsReserved id since (renewal_arrives p j) unserved early r =
    renewal-IsReserved id j since p early r
Step-IsReserved id since (job_spawned p j starts) unserved early r =
    spawn-IsReserved id j since starts p r
Step-IsReserved id since (reserves now s before after j) unserved early r =
    reserve-IsReserved id j since (process now s (before ++ job j true ∷ after)) r
Step-IsReserved id since (releases_early now s t before after j held e) unserved early r = record {
  deadline = r.deadline;
  kept = ap (λ h. get h id) (release_once-is_locked j id held s t e).2 ∙ r.kept;
  late = r.late;
  passed = r.passed;
  clear = any_freed id j held before after r.clear;
}
Step-IsReserved id since (ends now s u before after t e) unserved early r = record {
  deadline = r.deadline;
  kept = ap (λ h. get h id) (end_thread-is_locked id t s u e).1 ∙ r.kept;
  late = r.late;
  passed = r.passed;
  clear = any_fewer id t before after r.clear;
}

Steps-IsReserved :
    (id : String) (since : ℕ) {p q : Process} (path : Steps p q)
    → ¬ WasServed id path
    → q.now < since + handoff_window
    → IsReserved id since p
    → IsReserved id since q
Steps-IsReserved id since here unserved early r = r
Steps-IsReserved id since (next path step) unserved early r =
    let sooner = clock_moves_on step in
    Step-IsReserved id since step (λ e. unserved (inr e)) (omega (arith, early, sooner))
      (Steps-IsReserved id since path (λ w. unserved (inl w)) (omega (arith, early, sooner)) r)

zero_more : (n : ℕ) → 0 + n ≡ n
zero_more n = omega arith

one_more : (n : ℕ) → 1 + n ≡ 0 → ⊥
one_more n h = omega (arith, h)

none_renews :
    (id : String) (threads : List Thread)
    → holders id threads ≡ 0
    → any (is_renewal id) threads ≡ false
unfolding holders any
none_renews id [] h = refl
none_renews id (handler j ∷ threads) h = none_renews id threads (omega (arith, h))
none_renews id (job j held ∷ threads) h = none_renews id threads (omega (arith, h))
none_renews id (renewal j ∷ threads) h = elim (Bool-cases (j == id)) [
  | inl same ↦ absurd (one_more (holders id threads) (rw same at h))
  | inr other ↦
      rw other (none_renews id threads (sym (zero_more (holders id threads)) ∙ (rw other at h)))
]

none_beside :
    (b l : Bool) (m n : ℕ) → b ≡ true → m + (as_number b + n) ≡ as_number l → (m ≡ 0) × (n ≡ 0)
none_beside true true m n set h = (omega (arith, h), omega (arith, h))
none_beside true false m n set h = absurd (omega (arith, h))
none_beside false l m n set h = cc set

job_alone :
    (id : String) (p : Process) (before after : List Thread)
    → IsOwned p
    → p.threads ≡ before ++ job id true ∷ after
    → any (is_renewal id) p.threads ≡ false
unfolding holders any
job_alone id p before after owned same =
    let counts =
      none_beside (id == id) (is_locked id p.shared) (holders id before) (holders id after)
        (ground (arith, string_eq.beq_iff id id))
        (sym (holders-append id before (job id true ∷ after))
          ∙ ap (holders id) (sym same)
          ∙ owned id) in
    ap (any (is_renewal id)) same
    ∙ any-append id before (job id true ∷ after)
    ∙ ground (arith, none_renews id before counts.0, none_renews id after counts.1)

-- A restore job that holds the lock of its instance reserves the handoff. Then, as long as no
-- control operation for the instance has got the lock and the window is not over, no renewal or
-- probe of the instance holds it, whatever the threads do; so none is in the way of the operation
-- that the manager sends after the job's release.
pub reserved-unrenewed :
    (p q : Process) (id : String) (before after : List Thread)
    → Steps (process 0 no_locks []) p
    → p.threads ≡ before ++ job id true ∷ after
    → (path : Steps (process p.now (reserve_handoff p.now id p.shared) p.threads) q)
    → ¬ WasServed id path
    → q.now < p.now + handoff_window
    → any (is_renewal id) q.threads ≡ false
unfolding reserve_handoff
reserved-unrenewed p q id before after start same path unserved early =
    (Steps-IsReserved id p.now path unserved early (record {
      deadline = p.now + handoff_window;
      kept = get-put_self p.shared.handoff id (p.now + handoff_window);
      late = omega arith;
      passed = omega arith;
      clear = job_alone id p before after (reached-IsOwned p start) same;
    })).clear
