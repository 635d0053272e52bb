-- ===== src/Workers/Monitor.antt =====
-- app/workers/monitor.py and the sweep of app/workers/status_collect.py: status transitions are
-- reported to the manager until it accepts them.
pub mod Accepted
pub mod Retries
use greffer.Prelude.{
  ℕ, zero, suc, ◌+◌, ◌-◌, ◌*◌, ◌≤◌, ◌<◌, String, ◌≡◌, refl, sym, ap, ap₂, ◌∙◌, ◌≢◌, ◌↔◌, ◌⊎◌, inl,
  inr, Bool, true, false, not, ◌&&◌, ◌||◌, Option, none, some, List, [], ◌∷◌, ◌++◌, map, arith,
  eq_iff, ltb, leb, if◌then◌else◌, Eq, ◌==◌, ◌!=◌, nat_eq, string_eq, Bool-cases, Option-cases,
  or_else, or_false, All, All-append, length, select, any, every, contains, contains-append, Dict,
  get, get_or, put, pop, get-put, get-pop, lower, lower_char, Unique, put-Unique, get-put_self,
}

-- The answer to one callback: an HTTP status code, no connection or a timeout, or another
-- exception of the HTTP client.
pub data Reply : Type 0 where
  code : ℕ → Reply
  unreachable : Reply
  broken : Reply

-- A POST of `_report_status_change` with its answer.
pub record Call : Type 0 where
  pub greffon_id : String
  pub status : String
  pub reply : Reply

-- `prev_status`, and the callbacks that were made.
pub record Sweep : Type 0 where
  pub prev_status : Dict String String
  pub calls : List Call

-- A tick that goes on, or an exception that leaves it.
pub data Pass : Type 0 where
  going : Sweep → Pass
  raised : Sweep → Pass

-- What the manager answers in one tick.
abbrev pub Manager : Type 0
Manager = String → String → Reply

unfoldable pub is_reported : Option String → String → Bool
is_reported none status = false
is_reported (some last) status = last == status

unfoldable pub record_status : String → String → Sweep → Sweep
record_status id status s = record s { prev_status = put s.prev_status id status }

unfoldable pub on_reply : String → String → Reply → Sweep → Pass
unfolding record_status
on_reply id status (code c) s = going (if leb 400 c then s else record_status id status s)
on_reply id status unreachable s = going s
on_reply id status broken s = raised s

unfoldable pub log_call : String → String → Reply → Sweep → Sweep
log_call id status reply s = record s {
  calls = s.calls ++ record { greffon_id = id; status = status; reply = reply } ∷ [];
}

-- The loop's body.
unfoldable pub visit : Manager → String → String → Sweep → Pass
unfolding is_reported on_reply log_call
visit manager id status s =
    if is_reported (get s.prev_status id) status
    then going (record_status id status s)
    else on_reply id status (manager id status) (log_call id status (manager id status) s)

unfoldable pub proceed : Pass → (Sweep → Pass) → Pass
proceed (going s) rest = rest s
proceed (raised s) rest = raised s

-- `_one_monitor_tick` on a collected status map.
unfoldable pub visit_all : Manager → Dict String String → Sweep → Pass
unfolding visit proceed
visit_all manager [] s = going s
visit_all manager ((id, status) ∷ status_map) s =
    proceed (visit manager id status s) (visit_all manager status_map)

is_dotfile : String → Bool
is_dotfile String.[] = false
is_dotfile (String.◌∷◌ c s) = (String.◌∷◌ c String.[]) == "."

-- `collect_status_map`: the listing in its order; a status that cannot be read raises.
unfoldable pub collect_status_map :
    (String → Option String) → List String → Dict String String → Option (Dict String String)
unfolding is_dotfile
collect_status_map get_status [] result = some result
collect_status_map get_status (id ∷ ids) result =
    if is_dotfile id then collect_status_map get_status ids result else elim (get_status id) [
      | none ↦ none
      | some status ↦ collect_status_map get_status ids (put result id status)
    ]

-- `app.state.status_map`
pub record Published : Type 0 where
  pub map : Dict String String
  pub at : ℕ
  pub captured_at : ℕ

-- What one wake-up of the worker reads: the collected map, or none if the collection raised, the
-- manager, and the two clocks.
pub record Wake : Type 0 where
  pub collected : Option (Dict String String)
  pub manager : Manager
  pub captured_at : ℕ
  pub at : ℕ

-- The worker's state with all the callbacks so far.
pub record Monitor : Type 0 where
  pub sweep : Sweep
  pub status_map : Option Published

publish : Wake → Dict String String → Pass → Monitor
publish w map (going s) = record {
  sweep = s;
  status_map = some (record { map = map; at = w.at; captured_at = w.captured_at });
}
publish w map (raised s) = record { sweep = s; status_map = none }

unfoldable pub on_collected : Wake → Monitor → Option (Dict String String) → Monitor
unfolding publish
on_collected w m none = record m { status_map = none }
on_collected w m (some map) = publish w map (visit_all w.manager map m.sweep)

-- The body of `monitor_worker`'s loop; any exception invalidates the published sweep.
unfoldable pub monitor_tick : Wake → Monitor → Monitor
unfolding on_collected
monitor_tick w m = on_collected w m w.collected

unfoldable pub monitor_worker : List Wake → Monitor → Monitor
unfolding monitor_tick
monitor_worker [] m = m
monitor_worker (w ∷ ws) m = monitor_worker ws (monitor_tick w m)
