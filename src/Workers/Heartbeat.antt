-- ===== src/Workers/Heartbeat.antt =====
-- app/workers/heartbeat.py: the beat's status map, the CPU share of the host and the loop.
pub mod Beats
pub mod Vitals
use greffer.Workers.Monitor.{Published}
use greffer.Prelude.{
  ℕ, zero, suc, ◌+◌, ◌-◌, ◌*◌, ◌≤◌, ◌<◌, String, ◌≡◌, refl, sym, ap, ap₂, ◌∙◌, ◌≢◌, ◌↔◌, ◌⊎◌, inl,
  inr, Bool, true, false, not, ◌&&◌, ◌||◌, Option, none, some, List, [], ◌∷◌, ◌++◌, map, arith,
  eq_iff, ltb, leb, if◌then◌else◌, Eq, ◌==◌, ◌!=◌, nat_eq, string_eq, Bool-cases, Option-cases,
  or_else, or_false, All, All-append, length, select, any, every, contains, contains-append, Dict,
  get, get_or, put, pop, get-put, get-pop, lower, lower_char, Unique, put-Unique, get-put_self,
}

-- What `_collect_or_reuse` returns; the reasons are those of a degraded beat.
pub record Collected : Type 0 where
  pub map : Dict String String
  pub degraded : Bool
  pub captured_at : ℕ

-- A sweep of the monitor that is younger than the window.
unfoldable pub is_fresh : ℕ → ℕ → Published → Bool
is_fresh now window cached = ltb (now - cached.at) window

unfoldable pub collect : ℕ → Option (Dict String String) → Collected
collect now_iso (some map) = record { map = map; degraded = false; captured_at = now_iso }
collect now_iso none = record { map = []; degraded = true; captured_at = now_iso }

-- `_collect_or_reuse` at the monotonic time `now` and the wall clock `now_iso`; the fresh
-- collection is `none` where it raises.
unfoldable pub collect_or_reuse :
    ℕ → ℕ → ℕ → ℕ → Option Published → Option (Dict String String) → Collected
unfolding is_fresh collect
collect_or_reuse now now_iso monitor_interval heartbeat_interval none collected =
    collect now_iso collected
collect_or_reuse now now_iso monitor_interval heartbeat_interval (some cached) collected =
    if is_fresh now (monitor_interval + heartbeat_interval) cached
    then record { map = cached.map; degraded = false; captured_at = cached.captured_at }
    else collect now_iso collected

-- `(total_jiffies, idle_jiffies)`
pub record CpuSample : Type 0 where
  pub total : ℕ
  pub idle : ℕ

-- The busy share of the elapsed time, before it is turned into a rounded percentage.
pub record Share : Type 0 where
  pub busy : ℕ
  pub elapsed : ℕ

-- The share between two samples, clamped at both ends: the subtraction stops at zero, which is
-- the `max`, and `leb` is the `min`.
unfoldable pub share_of : CpuSample → CpuSample → Option Share
share_of prev cur =
    let elapsed = cur.total - prev.total in
    let busy = (cur.total + prev.idle) - (prev.total + cur.idle) in
    if leb cur.total prev.total
    then none
    else some (record { busy = if leb busy elapsed then busy else elapsed; elapsed = elapsed })

-- `_host_cpu_pct`, with the sample that it stores.
unfoldable pub host_cpu : Option CpuSample → Option CpuSample → Option Share × Option CpuSample
unfolding share_of
host_cpu none cur = (none, cur)
host_cpu (some prev) none = (none, none)
host_cpu (some prev) (some cur) = (share_of prev cur, some cur)

-- The answer to one beat: an HTTP status code, or an exception that the loop logs.
pub data Response : Type 0 where
  status_code : ℕ → Response
  no_answer : Response

-- The loop's state and the numbers of the beats that were sent, the newest one first.
pub record Heart : Type 0 where
  pub seq : ℕ
  pub registered : Bool
  pub reregister_requested : Bool
  pub sent : List ℕ

-- What happens: the loop comes round, with the answer that a beat would get, or the register
-- supervisor completes a registration.
pub data Turn : Type 0 where
  wake : Response → Turn
  accepted : Turn

unfoldable pub is_rejection : Response → Bool
is_rejection no_answer = false
is_rejection (status_code c) = c == 403

-- A beat and the branches on its answer.
unfoldable pub beat : Response → Heart → Heart
unfolding is_rejection
beat r h =
    let sent : Heart = record h { seq = suc h.seq; sent = suc h.seq ∷ h.sent } in
    if is_rejection r then record sent { registered = false; reregister_requested = true } else sent

-- A loop that waits for `registered` sends nothing.
unfoldable pub turn : Turn → Heart → Heart
unfolding beat
turn (wake r) h = if h.registered then beat r h else h
turn accepted h = record h { registered = true; reregister_requested = false }

unfoldable pub heartbeat_worker : List Turn → Heart → Heart
unfolding turn
heartbeat_worker [] h = h
heartbeat_worker (t ∷ ts) h = heartbeat_worker ts (turn t h)
