-- ===== src/Backup/Locks/Steps.antt =====
-- The threads of the node take, reserve and release the locks in any order.
use greffer.Backup.Locks.{
  Locks, reserve_handoff, release_once, Thread, handler, renewal, job, Process, process, serve_op,
  end_thread, try_renewal, spawn_job,
}
use greffer.Prelude.{
  ℕ, ◌+◌, String, ◌≡◌, Bool, true, false, ◌&&◌, some, List, [], ◌∷◌, ◌++◌, arith, ◌==◌, nat_eq,
  string_eq,
}

-- One step of the process. An owner of a lock is one of its threads.
pub data Step : Process → Process → Type 0 where
  waits : (p : Process) (n : ℕ) → Step p (process (p.now + n) p.shared p.threads)
  op_arrives : (p : Process) (id : String) → Step p (serve_op id p)
  renewal_arrives : (p : Process) (id : String) → Step p (try_renewal id p)
  job_spawned : (p : Process) (id : String) (starts : Bool) → Step p (spawn_job starts id p)
  -- a restore, before it releases the lock
  reserves :
      (now : ℕ) (s : Locks) (before after : List Thread) (id : String)
      → Step
          (process now s (before ++ job id true ∷ after))
          (process now (reserve_handoff now id s) (before ++ job id true ∷ after))
  releases_early :
      (now : ℕ) (s t : Locks) (before after : List Thread) (id : String) (held : Bool)
      → release_once id held s ≡ some t
      → Step
          (process now s (before ++ job id held ∷ after))
          (process now t (before ++ job id false ∷ after))
  -- a job in `_locked_job`'s `finally`, the others in their own
  ends :
      (now : ℕ) (s u : Locks) (before after : List Thread) (t : Thread)
      → end_thread t s ≡ some u
      → Step (process now s (before ++ t ∷ after)) (process now u (before ++ after))

pub data Steps (p : Process) : Process → Type 0 where
  here : Steps p p
  next : {q r : Process} → Steps p q → Step q r → Steps p r

-- Whether the thread has taken the lock and not released it.
abbrev pub holds : String → Thread → Bool
holds id (handler j) = j == id
holds id (renewal j) = j == id
holds id (job j held) = held && j == id

abbrev pub as_number : Bool → ℕ
as_number true = 1
as_number false = 0

-- How many threads hold the lock.
unfoldable pub holders : String → List Thread → ℕ
holders id [] = 0
holders id (t ∷ threads) = as_number (holds id t) + holders id threads

pub holders-append :
    (id : String) (before after : List Thread)
    → holders id (before ++ after) ≡ holders id before + holders id after
unfolding holders
holders-append id [] after = omega arith
holders-append id (t ∷ before) after = rw (holders-append id before after) (omega arith)
