-- ===== src/Workers/Monitor/Accepted.antt =====
-- `prev_status` is what the manager has accepted.
use greffer.Workers.Monitor.{
  Reply, code, unreachable, broken, Call, Sweep, Pass, going, raised, Manager, is_reported,
  record_status, on_reply, log_call, visit, proceed, visit_all, Wake, Monitor, on_collected,
  monitor_tick, monitor_worker, publish,
}
use greffer.Prelude.{
  String, ◌≡◌, refl, sym, ap, ◌∙◌, inl, inr, Bool, true, false, not, Option, none, some, List, [],
  ◌∷◌, ◌++◌, map, arith, eq_iff, leb, if◌then◌else◌, ◌==◌, nat_eq, string_eq, Bool-cases, Dict, get,
  put, get-put,
}

-- The manager takes a callback that it answers below 400.
unfoldable pub is_accepted : Reply → Bool
is_accepted (code c) = not (leb 400 c)
is_accepted unreachable = false
is_accepted broken = false

-- The manager's record of each instance after these callbacks.
unfoldable pub accepted : List Call → Dict String String → Dict String String
unfolding is_accepted
accepted [] view = view
accepted (c ∷ cs) view =
    accepted cs (if is_accepted c.reply then put view c.greffon_id c.status else view)

-- The worker and the manager agree on the instance `k`.
abbrev Agree : String → Sweep → Type 0
Agree k s = get s.prev_status k ≡ get (accepted s.calls []) k

abbrev sweep_of : Pass → Sweep
sweep_of (going s) = s
sweep_of (raised s) = s

accepted-append :
    (cs : List Call) (c : Call) (view : Dict String String)
    → accepted (cs ++ c ∷ []) view ≡ (
        if is_accepted c.reply
        then put (accepted cs view) c.greffon_id c.status
        else accepted cs view)
unfolding accepted
accepted-append [] c view = refl
accepted-append (x ∷ cs) c view =
    accepted-append cs c (if is_accepted x.reply then put view x.greffon_id x.status else view)

pub reported-some :
    (o : Option String) (status : String) → is_reported o status ≡ true → o ≡ some status
unfolding is_reported
reported-some none status h = cc h
reported-some (some last) status h = ap some ((eq_iff last status).0 h)

-- Recording a status that is the last one already changes no lookup.
record_status-same :
    (k id status : String) (s : Sweep)
    → is_reported (get s.prev_status id) status ≡ true
    → get (record_status id status s).prev_status k ≡ get s.prev_status k
unfolding record_status
record_status-same k id status s h =
    let last = reported-some (get s.prev_status id) status h in
    ground (arith, get-put s.prev_status id k status, eq_iff id k, last)

-- Recording exactly when the manager accepts keeps the two in step.
record_status-Agree :
    (rejected : Bool) (k id status : String) (s : Sweep) (view : Dict String String)
    → get s.prev_status k ≡ get view k
    → accepted s.calls [] ≡ (if not rejected then put view id status else view)
    → Agree k (if rejected then s else record_status id status s)
unfolding record_status
record_status-Agree true k id status s view h e = h ∙ ap (λ d. get d k) (sym e)
record_status-Agree false k id status s view h e =
    get-put s.prev_status id k status
    ∙ ap (λ o. if id == k then some status else o) h
    ∙ sym (get-put view id k status)
    ∙ ap (λ d. get d k) (sym e)

on_reply-Agree :
    (k id status : String) (reply : Reply) (s : Sweep)
    → Agree k s
    → Agree k (sweep_of (on_reply id status reply (log_call id status reply s)))
unfolding on_reply log_call is_accepted
on_reply-Agree k id status (code c) s h =
    let call : Call = record { greffon_id = id; status = status; reply = code c } in
    record_status-Agree (leb 400 c) k id status (log_call id status (code c) s)
      (accepted s.calls []) h (accepted-append s.calls call [])
on_reply-Agree k id status unreachable s h =
    rw
      (accepted-append s.calls (record { greffon_id = id; status = status; reply = unreachable })
        [])
      h
on_reply-Agree k id status broken s h =
    rw (accepted-append s.calls (record { greffon_id = id; status = status; reply = broken }) []) h

visit-Agree :
    (manager : Manager) (k id status : String) (s : Sweep)
    → Agree k s
    → Agree k (sweep_of (visit manager id status s))
unfolding visit
visit-Agree manager k id status s h =
    elim (Bool-cases (is_reported (get s.prev_status id) status)) [
      | inl old ↦ rw old (record_status-same k id status s old ∙ h)
      | inr new ↦ rw new (on_reply-Agree k id status (manager id status) s h)
    ]

proceed-Agree :
    (k : String) (rest : Sweep → Pass) (p : Pass)
    → ((s : Sweep) → Agree k s → Agree k (sweep_of (rest s)))
    → Agree k (sweep_of p)
    → Agree k (sweep_of (proceed p rest))
unfolding proceed
proceed-Agree k rest (going s) keep h = keep s h
proceed-Agree k rest (raised s) keep h = h

visit_all-Agree :
    (manager : Manager) (k : String) (map : Dict String String) (s : Sweep)
    → Agree k s
    → Agree k (sweep_of (visit_all manager map s))
unfolding visit_all
visit_all-Agree manager k [] s h = h
visit_all-Agree manager k ((id, status) ∷ map) s h =
    proceed-Agree k (visit_all manager map) (visit manager id status s)
      (visit_all-Agree manager k map) (visit-Agree manager k id status s h)

publish-sweep :
    (w : Wake) (map : Dict String String) (p : Pass) → (publish w map p).sweep ≡ sweep_of p
unfolding publish
publish-sweep w map (going s) = refl
publish-sweep w map (raised s) = refl

tick_from :
    (w : Wake) (m : Monitor) (k : String) (o : Option (Dict String String))
    → Agree k m.sweep
    → Agree k (on_collected w m o).sweep
unfolding on_collected
tick_from w m k none h = h
tick_from w m k (some map) h =
    rw (publish-sweep w map (visit_all w.manager map m.sweep))
      (visit_all-Agree w.manager k map m.sweep h)

monitor_worker-Agree :
    (ws : List Wake) (m : Monitor) (k : String)
    → Agree k m.sweep
    → Agree k (monitor_worker ws m).sweep
unfolding monitor_worker monitor_tick
monitor_worker-Agree [] m k h = h
monitor_worker-Agree (w ∷ ws) m k h =
    monitor_worker-Agree ws (monitor_tick w m) k (tick_from w m k w.collected h)

-- The worker as it starts.
abbrev pub started : Monitor
started = record { sweep = record { prev_status = []; calls = [] }; status_map = none }

-- From its start and after any sequence of ticks, failed collections, rejections, outages and
-- exceptions included, `prev_status` holds for every instance exactly the last status whose
-- report the manager has answered with a code below 400.
pub prev_status-accepted :
    (ws : List Wake) (k : String)
    → get (monitor_worker ws started).sweep.prev_status k
      ≡ get (accepted (monitor_worker ws started).sweep.calls []) k
unfolding accepted
prev_status-accepted ws k = monitor_worker-Agree ws started k refl
