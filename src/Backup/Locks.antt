-- ===== src/Backup/Locks.antt =====
-- The lock of each instance and the handoff to the manager: app/backup.py, and its wrapper for the
-- control operations, app/routers/controller.py.
pub mod Steps
pub mod Rules
pub mod Owned
pub mod Reserved
pub mod Handoff
pub mod Tests
use greffer.Prelude.{
  ℕ, zero, suc, ◌+◌, ◌-◌, ◌*◌, ◌≤◌, ◌<◌, String, ◌≡◌, refl, sym, ap, ap₂, ◌∙◌, ◌≢◌, ◌↔◌, ◌⊎◌, inl,
  inr, Bool, true, false, not, ◌&&◌, ◌||◌, Option, none, some, List, [], ◌∷◌, ◌++◌, map, arith,
  eq_iff, ltb, leb, if◌then◌else◌, Eq, ◌==◌, ◌!=◌, nat_eq, string_eq, Bool-cases, Option-cases,
  or_else, or_false, All, All-append, length, select, any, every, contains, contains-append, Dict,
  get, get_or, put, pop, get-put, get-pop, lower, lower_char, Unique, put-Unique, get-put_self,
  if_ind,
}

-- `_locks`, true where the lock is held, and `_handoff` with its deadlines.
pub record Locks : Type 0 where
  pub locks : Dict String Bool
  pub handoff : Dict String ℕ

abbrev pub no_locks : Locks
no_locks = record { locks = []; handoff = [] }

-- An instance without a lock yet gets one that is free.
abbrev pub is_locked : String → Locks → Bool
is_locked id s = get_or s.locks id false

unfoldable pub with_lock : String → Option Bool → Locks → Locks
unfolding put
with_lock id none s = record s { locks = put s.locks id false }
with_lock id (some held) s = s

unfoldable pub instance_lock : String → Locks → Locks
unfolding get with_lock
instance_lock id s = with_lock id (get s.locks id) s

-- `lock.acquire(blocking=False)` on the instance's lock.
unfoldable pub acquire : String → Locks → Bool × Locks
unfolding get put instance_lock
acquire id s =
    if is_locked id s
    then (false, s)
    else (true, record (instance_lock id s) { locks = put (instance_lock id s).locks id true })

-- `lock.release()`, which raises on a lock that is free.
unfoldable pub release : String → Locks → Option Locks
unfolding get put
release id s = if is_locked id s then some (record s { locks = put s.locks id false }) else none

abbrev pub handoff_window : ℕ
handoff_window = 90

unfoldable pub reserve_handoff : ℕ → String → Locks → Locks
unfolding put
reserve_handoff now id s = record s { handoff = put s.handoff id (now + handoff_window) }

unfoldable pub clear_handoff : String → Locks → Locks
unfolding pop
clear_handoff id s = record s { handoff = pop s.handoff id }

-- `_pending_locked` on the deadline; one that is over is removed.
unfoldable pub pending_until : ℕ → String → Option ℕ → Locks → Bool × Locks
unfolding clear_handoff
pending_until now id none s = (false, s)
pending_until now id (some deadline) s =
    if leb deadline now then (false, clear_handoff id s) else (true, s)

unfoldable pub pending_locked : ℕ → String → Locks → Bool × Locks
unfolding pending_until get
pending_locked now id s = pending_until now id (get s.handoff id) s

pub data Acquired : Type 0 where
  taken refused_handoff refused_busy : Acquired

-- The acquisition under `_handoff_guard`.
unfoldable pub unless_pending : String → Bool × Locks → Acquired × Locks
unfolding acquire
unless_pending id (true, s) = (refused_handoff, s)
unless_pending id (false, s) =
    let tried = acquire id s in (if tried.0 then taken else refused_busy, tried.1)

unfoldable pub acquire_unless_handoff : ℕ → String → Locks → Acquired × Locks
unfolding pending_locked unless_pending
acquire_unless_handoff now id s = unless_pending id (pending_locked now id s)

-- The closure of `_release_once`: its `held` is true until its first call.
unfoldable pub release_once : String → Bool → Locks → Option Locks
unfolding release
release_once id false s = some s
release_once id true s = release id s

-- A thread that has work with an instance's lock.
pub data Thread : Type 0 where
  -- a start, stop or decommission in the wrapper of `_serialize_instance_op`
  handler : String → Thread
  -- a certificate renewal or a probe for its debt
  renewal : String → Thread
  -- a backup or restore job, with the `held` of its `release_once`
  job : String → Bool → Thread

-- How a thread ends: each path that ends it releases what it still holds.
unfoldable pub end_thread : Thread → Locks → Option Locks
unfolding release release_once
end_thread (handler id) s = release id s
end_thread (renewal id) s = release id s
end_thread (job id held) s = release_once id held s

pub record Process : Type 0 where
  pub now : ℕ
  pub shared : Locks
  pub threads : List Thread

abbrev pub process : ℕ → Locks → List Thread → Process
process now shared threads = record { now = now; shared = shared; threads = threads }

-- A control operation arrives: it is served, or refused with `instance_busy`.
unfoldable pub serve_op : String → Process → Process
unfolding acquire clear_handoff
serve_op id p =
    let tried = acquire id p.shared in
    if tried.0
    then process p.now (clear_handoff id tried.1) (handler id ∷ p.threads)
    else process p.now tried.1 p.threads

-- A renewal asks for the lock.
abbrev pub admit : Acquired → String → List Thread → List Thread
admit taken id threads = renewal id ∷ threads
admit refused_handoff id threads = threads
admit refused_busy id threads = threads

unfoldable pub try_renewal : String → Process → Process
unfolding acquire_unless_handoff
try_renewal id p =
    let tried = acquire_unless_handoff p.now id p.shared in
    process p.now tried.1 (admit tried.0 id p.threads)

-- The locks after a thread that could not be started: its `release_once` is called, which never
-- raises here, as the lock has just been taken.
unfoldable pub give_back : String → Locks → Locks
unfolding release_once
give_back id s = or_else (release_once id true s) s

-- `spawn_backup` and `spawn_restore`, where `starts` says whether the thread starts: the job's
-- thread has the lock, or the call raises `BusyError` and no thread has it.
unfoldable pub spawn_job : Bool → String → Process → Process
unfolding acquire give_back
spawn_job starts id p =
    let tried = acquire id p.shared in
    if tried.0
    then (if starts
        then process p.now tried.1 (job id true ∷ p.threads)
        else process p.now (give_back id tried.1) p.threads)
    else process p.now tried.1 p.threads
