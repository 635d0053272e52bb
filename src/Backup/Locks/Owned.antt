-- ===== src/Backup/Locks/Owned.antt =====
-- At most one thread holds an instance's lock.
use greffer.Backup.Locks.Steps.{
  Step, waits, op_arrives, renewal_arrives, job_spawned, reserves, releases_early, ends, Steps,
  here, next, holds, as_number, holders, holders-append,
}
use greffer.Backup.Locks.Rules.{
  acquire-is_locked, acquire-taken, acquire-busy, release-is_locked, release_once-is_locked,
  give_back-is_locked, pending_locked-is_locked,
}
use greffer.Backup.Locks.{
  Locks, is_locked, acquire, release, reserve_handoff, clear_handoff, pending_locked, taken,
  refused_busy, unless_pending, acquire_unless_handoff, release_once, Thread, handler, renewal, job,
  Process, process, serve_op, end_thread, admit, try_renewal, spawn_job, no_locks,
}
use greffer.Prelude.{
  ℕ, ◌+◌, String, ◌≡◌, refl, sym, ap, ◌∙◌, Bool, true, false, not, ◌&&◌, ◌||◌, some, List, [], ◌∷◌,
  ◌++◌, arith, if◌then◌else◌, ◌==◌, nat_eq, string_eq, get, put, if_ind,
}

-- The lock is held exactly when one thread holds it.
abbrev pub IsOwned : Process → Type 0
IsOwned p = (id : String) → holders id p.threads ≡ as_number (is_locked id p.shared)

start-IsOwned : IsOwned (process 0 no_locks [])
unfolding holders get
start-IsOwned id = refl

count_up :
    (b l : Bool) (n : ℕ)
    → (b ≡ true → l ≡ false)
    → n ≡ as_number l
    → as_number b + n ≡ as_number (b || l)
count_up true true n free h = cc (free refl)
count_up true false n free h = omega (arith, h)
count_up false l n free h = omega (arith, h)

count_down :
    (b l : Bool) (m n : ℕ) → m + (as_number b + n) ≡ as_number l → m + n ≡ as_number (not b && l)
count_down true true m n h = omega (arith, h)
count_down true false m n h = absurd (omega (arith, h))
count_down false l m n h = omega (arith, h)

count_one : (b l : Bool) (m n : ℕ) → b ≡ true → m + (as_number b + n) ≡ as_number l → l ≡ true
count_one b true m n set h = refl
count_one true false m n set h = absurd (omega (arith, h))
count_one false false m n set h = cc set

-- The lock is counted with the thread that has just taken it.
acquired-IsOwned :
    (id j : String) (t : Thread) (s : Locks) (threads : List Thread)
    → holds j t ≡ (id == j)
    → holders j threads ≡ as_number (is_locked j s)
    → holders j (if (acquire id s).0 then t ∷ threads else threads)
      ≡ as_number (is_locked j (acquire id s).1)
unfolding holders
acquired-IsOwned id j t s threads same owned =
    if_ind (λ ts. holders j ts ≡ as_number (is_locked j (acquire id s).1)) (acquire id s).0 _ _
      (λ got. rw (same) (
        rw (acquire-is_locked id j s) (
          count_up (id == j) (is_locked j s) (holders j threads)
            (λ e. ground (
              arith,
              got,
              acquire-taken id s,
              ap (λ i. is_locked i s) ((string_eq.beq_iff id j).0 e),
            ))
            owned)))
      (λ busy. owned ∙ ap (λ u. as_number (is_locked j u)) (sym (acquire-busy id s busy)))

pub end_thread-is_locked :
    (j : String) (t : Thread) (s u : Locks)
    → end_thread t s ≡ some u
    → (is_locked j u ≡ (not (holds j t) && is_locked j s)) × (u.handoff ≡ s.handoff)
unfolding end_thread
end_thread-is_locked j (handler id) s u e = let r = release-is_locked id j s u e in (r.1, r.2)
end_thread-is_locked j (renewal id) s u e = let r = release-is_locked id j s u e in (r.1, r.2)
end_thread-is_locked j (job id held) s u e =
    let r = release_once-is_locked id j held s u e in (r.1, r.2)

-- And no longer with the thread that has released it.
released-IsOwned :
    (j : String) (t : Thread) (s u : Locks) (before after : List Thread)
    → is_locked j u ≡ (not (holds j t) && is_locked j s)
    → holders j (before ++ t ∷ after) ≡ as_number (is_locked j s)
    → holders j (before ++ after) ≡ as_number (is_locked j u)
unfolding holders
released-IsOwned j t s u before after freed owned =
    rw (holders-append j before after, freed)
      (count_down (holds j t) (is_locked j s) (holders j before) (holders j after)
        (sym (holders-append j before (t ∷ after)) ∙ owned))

serve_op-IsOwned : (id : String) (p : Process) → IsOwned p → IsOwned (serve_op id p)
unfolding serve_op clear_handoff
serve_op-IsOwned id p owned j =
    if_ind (λ (q : Process). holders j q.threads ≡ as_number (is_locked j q.shared))
      (acquire id p.shared).0 _ _
      (λ got. (rw got at (acquired-IsOwned id j (handler id) p.shared p.threads refl (owned j))))
      (λ busy. (rw busy at (acquired-IsOwned id j (handler id) p.shared p.threads refl (owned j))))

spawn_job-IsOwned :
    (starts : Bool) (id : String) (p : Process) → IsOwned p → IsOwned (spawn_job starts id p)
unfolding spawn_job
spawn_job-IsOwned starts id p owned j =
    if_ind (λ (q : Process). holders j q.threads ≡ as_number (is_locked j q.shared))
      (acquire id p.shared).0 _ _
      (λ got.
        if_ind (λ (q : Process). holders j q.threads ≡ as_number (is_locked j q.shared)) starts _ _
          (λ _. (rw got at (acquired-IsOwned id j (job id true) p.shared p.threads refl (owned j))))
          (λ _. owned j ∙ ap as_number (sym (give_back-is_locked id j p.shared got))))
      (λ busy. (rw busy at (acquired-IsOwned id j (job id true) p.shared p.threads refl (owned j))))

pub admit_if :
    (got : Bool) (id : String) (threads : List Thread)
    → admit (if got then taken else refused_busy) id threads
      ≡ (if got then renewal id ∷ threads else threads)
admit_if true id threads = refl
admit_if false id threads = refl

unless_pending-IsOwned :
    (id j : String) (pending : Bool) (s : Locks) (threads : List Thread)
    → holders j threads ≡ as_number (is_locked j s)
    → holders j (admit (unless_pending id (pending, s)).0 id threads)
      ≡ as_number (is_locked j (unless_pending id (pending, s)).1)
unfolding unless_pending
unless_pending-IsOwned id j true s threads owned = owned
unless_pending-IsOwned id j false s threads owned =
    ap (holders j) (admit_if (acquire id s).0 id threads)
    ∙ acquired-IsOwned id j (renewal id) s threads refl owned

try_renewal-IsOwned : (id : String) (p : Process) → IsOwned p → IsOwned (try_renewal id p)
unfolding try_renewal acquire_unless_handoff
try_renewal-IsOwned id p owned j =
    unless_pending-IsOwned id j (pending_locked p.now id p.shared).0
      (pending_locked p.now id p.shared).1 p.threads
      (owned j ∙ ap as_number (sym (pending_locked-is_locked p.now id j p.shared)))

holders_freed :
    (j id : String) (before after : List Thread)
    → holders j (before ++ job id false ∷ after) ≡ holders j (before ++ after)
unfolding holders
holders_freed j id before after =
    rw (holders-append j before (job id false ∷ after), holders-append j before after) (omega arith)

pub Step-IsOwned : {p q : Process} → Step p q → IsOwned p → IsOwned q
unfolding reserve_handoff
Step-IsOwned (waits p n) owned = owned
Step-IsOwned (op_arrives p id) owned = serve_op-IsOwned id p owned
Step-IsOwned (renewal_arrives p id) owned = try_renewal-IsOwned id p owned
Step-IsOwned (job_spawned p id starts) owned = spawn_job-IsOwned starts id p owned
Step-IsOwned (reserves now s before after id) owned = owned
Step-IsOwned (releases_early now s t before after id held e) owned = λ j.
    holders_freed j id before after
    ∙ released-IsOwned j (job id held) s t before after (release_once-is_locked id j held s t e).1
        (owned j)
Step-IsOwned (ends now s u before after t e) owned =
    λ j. released-IsOwned j t s u before after (end_thread-is_locked j t s u e).0 (owned j)

Steps-IsOwned : {p q : Process} → Steps p q → IsOwned p → IsOwned q
Steps-IsOwned here owned = owned
Steps-IsOwned (next path step) owned = Step-IsOwned step (Steps-IsOwned path owned)

-- However the control operations, renewals and jobs of a fresh process interleave, each instance's
-- lock is held exactly when one thread has taken it and not yet released it, and never by two.
pub reached-IsOwned : (p : Process) → Steps (process 0 no_locks []) p → IsOwned p
reached-IsOwned p path = Steps-IsOwned path start-IsOwned

pub held_by_one :
    (id : String) (t : Thread) (p : Process) (before after : List Thread)
    → IsOwned p
    → p.threads ≡ before ++ t ∷ after
    → holds id t ≡ true
    → is_locked id p.shared ≡ true
unfolding holders
held_by_one id t p before after owned same h =
    count_one (holds id t) (is_locked id p.shared) (holders id before) (holders id after) h
      (sym (holders-append id before (t ∷ after)) ∙ ap (holders id) (sym same) ∙ owned id)

release-some :
    (id : String) (s : Locks) → is_locked id s ≡ true → (u : Locks) × (release id s ≡ some u)
unfolding release
release-some id s locked = (record s { locks = put s.locks id false }, rw locked refl)

-- In every state that a fresh process reaches, each thread can end: the release in its `finally`
-- finds the lock held, or is the second call of a `release_once` and does nothing; none raises.
pub end_thread-some :
    (p : Process) (before after : List Thread) (t : Thread)
    → Steps (process 0 no_locks []) p
    → p.threads ≡ before ++ t ∷ after
    → (u : Locks) × (end_thread t p.shared ≡ some u)
unfolding end_thread release_once
end_thread-some p before after (handler id) path same = release-some id p.shared (
    held_by_one id (handler id) p before after (reached-IsOwned p path) same
      (ground (arith, string_eq.beq_iff id id)))
end_thread-some p before after (renewal id) path same = release-some id p.shared (
    held_by_one id (renewal id) p before after (reached-IsOwned p path) same
      (ground (arith, string_eq.beq_iff id id)))
end_thread-some p before after (job id true) path same = release-some id p.shared (
    held_by_one id (job id true) p before after (reached-IsOwned p path) same
      (ground (arith, string_eq.beq_iff id id)))
end_thread-some p before after (job id false) path same = (p.shared, refl)
