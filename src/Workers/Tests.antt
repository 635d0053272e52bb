-- ===== src/Workers/Tests.antt =====
-- Runs of the workers at concrete inputs.
use greffer.Workers.Readiness.{App, degraded, is_dead, is_pending}
use greffer.Workers.Readiness.Causes.{is_broken, expected_status}
use greffer.Workers.Watchdog.{Tick, answered, timed_out, watch}
use greffer.Workers.Watchdog.Grace.{is_terminated, sustained, watch-sustained}
use greffer.Workers.Monitor.{code, Sweep, Manager, Wake, going, visit_all, visit, monitor_worker}
use greffer.Workers.Monitor.Accepted.{accepted, started, prev_status-accepted}
use greffer.Workers.Heartbeat.{Share, status_code, Heart, Turn, wake, heartbeat_worker}
use greffer.Workers.Heartbeat.Beats.{heartbeat_pauses}
use greffer.Prelude.{
  String, ◌≡◌, refl, true, false, none, some, List, [], ◌∷◌, arith, if◌then◌else◌, ◌==◌, nat_eq,
  string_eq, any, every, Dict, get, put,
}

-- A node that waits for its registration, and one whose heartbeat worker has died.
abbrev waiting : App
waiting = record {
  docker_ok = true;
  worker_tasks = ("greffer-monitor", false) ∷ ("greffer-heartbeat", false) ∷ [];
  registered = some false;
}

abbrev wedged : App
wedged = record waiting { worker_tasks = ("greffer-heartbeat", true) ∷ [] }

waiting_degraded : expected_status waiting ≡ degraded
unfolding expected_status is_broken any is_dead get is_pending
waiting_degraded = refl

-- A blip that clears, then a hang for sixty seconds.
abbrev hang : List Tick
hang =
    record { probe = timed_out; now = 10 }
    ∷ record { probe = answered (record { fatal = false; reasons = [] }); now = 40 }
    ∷ record { probe = timed_out; now = 70 }
    ∷ record { probe = timed_out; now = 130 }
    ∷ []

watch-sustained_example : is_terminated (watch 60 hang none) ≡ sustained 60 hang
watch-sustained_example =
    watch-sustained 60 0 hang (omega arith, (omega arith, (omega arith, (omega arith, tt))))

-- The manager rejects `b`.
abbrev picky : Manager
picky id status = if id == "b" then code 403 else code 204

abbrev idle : Sweep
idle = record { prev_status = ("a", "stopped") ∷ []; calls = [] }

abbrev found : Dict String String
found = ("a", "running") ∷ ("b", "running") ∷ []

abbrev swept : Sweep
swept = record {
  prev_status = ("a", "running") ∷ [];
  calls =
      record { greffon_id = "a"; status = "running"; reply = code 204 }
      ∷ record { greffon_id = "b"; status = "running"; reply = code 403 }
      ∷ [];
}

swept_once : visit_all picky found idle ≡ going swept
unfolding visit_all visit get put
swept_once = refl

abbrev wakes : List Wake
wakes =
    record { collected = some found; manager = picky; captured_at = 0; at = 1 }
    ∷ record { collected = none; manager = picky; captured_at = 5; at = 6 }
    ∷ []

prev_status-accepted_example :
    get (monitor_worker wakes started).sweep.prev_status "a"
    ≡ get (accepted (monitor_worker wakes started).sweep.calls []) "a"
prev_status-accepted_example = prev_status-accepted wakes "a"

-- A beat that is rejected, a wait, a registration, and a beat that gets through.
abbrev turns : List Turn
turns =
    wake (status_code 403) ∷ wake (status_code 200) ∷ Turn.accepted ∷ wake (status_code 200) ∷ []

abbrev beating : Heart
beating = record { seq = 4; registered = true; reregister_requested = false; sent = 4 ∷ [] }

heartbeat_pauses_example :
    ((heartbeat_worker (wake (status_code 403) ∷ wake (status_code 200) ∷ []) beating).sent
      ≡ 5 ∷ 4 ∷ [])
    × ((heartbeat_worker
          (wake (status_code 403) ∷ wake (status_code 200) ∷ [])
          beating).reregister_requested
        ≡ true)
unfolding every
heartbeat_pauses_example = heartbeat_pauses (wake (status_code 200) ∷ []) beating refl refl

-- The idle counter ran backwards.
abbrev all_busy : Share
all_busy = record { busy = 100; elapsed = 100 }
