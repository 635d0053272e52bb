-- ===== src/Workers/Watchdog.antt =====
-- `watchdog_worker` of app/workers/watchdog.py: one tick per wake-up, with the outcome of the
-- bounded readiness probe and the monotonic clock.
pub mod Grace
use greffer.Workers.Readiness.{Readiness, readiness_probe_timeout}
use greffer.Prelude.{
  ℕ, zero, suc, ◌+◌, ◌-◌, ◌*◌, ◌≤◌, ◌<◌, String, ◌≡◌, refl, sym, ap, ap₂, ◌∙◌, ◌≢◌, ◌↔◌, ◌⊎◌, inl,
  inr, Bool, true, false, not, ◌&&◌, ◌||◌, Option, none, some, List, [], ◌∷◌, ◌++◌, map, arith,
  eq_iff, ltb, leb, if◌then◌else◌, Eq, ◌==◌, ◌!=◌, nat_eq, string_eq, Bool-cases, Option-cases,
  or_else, or_false, All, All-append, length, select, any, every, contains, contains-append, Dict,
  get, get_or, put, pop, get-put, get-pop, lower, lower_char, Unique, put-Unique, get-put_self,
}

-- `asyncio.wait_for`: the readiness, or a timeout.
pub data Probe : Type 0 where
  answered : Readiness → Probe
  timed_out : Probe

pub record Tick : Type 0 where
  pub probe : Probe
  pub now : ℕ

-- A hung probe is fatal itself.
unfoldable pub judged : Probe → Readiness
judged (answered r) = r
judged timed_out = record { fatal = true; reasons = readiness_probe_timeout ∷ [] }

abbrev pub is_fatal : Tick → Bool
is_fatal t = (judged t.probe).fatal

-- `fatal_since` while the loop goes on; `terminated` once SIGTERM is sent, at that time.
pub data Watch : Type 0 where
  watching : Option ℕ → Watch
  terminated : ℕ → Watch

on_fatal : ℕ → ℕ → Option ℕ → Watch
on_fatal grace now none = watching (some now)
on_fatal grace now (some since) =
    if leb grace (now - since) then terminated now else watching (some since)

-- The loop's body.
unfoldable pub tick : ℕ → Tick → Option ℕ → Watch
unfolding on_fatal
tick grace t fatal_since = if is_fatal t then on_fatal grace t.now fatal_since else watching none

unfoldable pub unless_terminated : Watch → (Option ℕ → Watch) → Watch
unless_terminated (watching fatal_since) rest = rest fatal_since
unless_terminated (terminated at) rest = terminated at

-- The loop, over the ticks of the process; it returns once SIGTERM is sent.
unfoldable pub watch : ℕ → List Tick → Option ℕ → Watch
unfolding tick unless_terminated
watch grace [] fatal_since = watching fatal_since
watch grace (t ∷ ts) fatal_since = unless_terminated (tick grace t fatal_since) (watch grace ts)
