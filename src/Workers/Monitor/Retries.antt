-- ===== src/Workers/Monitor/Retries.antt =====
-- What one tick reports, and what it leaves to the next.
use mathlib.Core.List.{append-nil, append_assoc}
use greffer.Workers.Monitor.{
  Reply, code, unreachable, broken, Call, Sweep, Pass, going, raised, Manager, is_reported,
  record_status, on_reply, log_call, visit, proceed, visit_all,
}
use greffer.Workers.Monitor.Accepted.{is_accepted}
use greffer.Prelude.{
  String, ◌≡◌, refl, sym, ap, ap₂, ◌∙◌, ◌≢◌, inl, inr, Bool, true, false, not, ◌&&◌, ◌||◌, Option,
  none, some, List, [], ◌∷◌, ◌++◌, map, arith, eq_iff, leb, if◌then◌else◌, ◌==◌, nat_eq, string_eq,
  Bool-cases, Dict, get, get-put, Unique,
}

-- The last reported status of the instance `k` after a tick that found `found` for it.
unfoldable pub settled : Manager → String → Option String → Option String → Option String
settled manager k none last = last
settled manager k (some status) last =
    if is_reported last status || is_accepted (manager k status) then some status else last

going-inj : {s s' : Sweep} → going s ≡ going s' → s ≡ s'
going-inj e = cc e

record_status-get :
    (k id status : String) (s : Sweep)
    → get (record_status id status s).prev_status k
      ≡ (if id == k then some status else get s.prev_status k)
unfolding record_status
record_status-get k id status s = get-put s.prev_status id k status

code-get :
    (rejected : Bool) (k id status : String) (s : Sweep)
    → get (if rejected then s else record_status id status s).prev_status k
      ≡ (if id == k && not rejected then some status else get s.prev_status k)
code-get true k id status s = ground arith
code-get false k id status s = record_status-get k id status s ∙ ground arith

on_reply-get :
    (k id status : String) (reply : Reply) (s s' : Sweep)
    → on_reply id status reply s ≡ going s'
    → get s'.prev_status k
      ≡ (if id == k && is_accepted reply then some status else get s.prev_status k)
unfolding on_reply is_accepted
on_reply-get k id status (code c) s s' e =
    ap (λ (t : Sweep). get t.prev_status k) (sym (going-inj e)) ∙ code-get (leb 400 c) k id status s
on_reply-get k id status unreachable s s' e =
    ap (λ (t : Sweep). get t.prev_status k) (sym (going-inj e)) ∙ ground arith
on_reply-get k id status broken s s' e = cc e

visit-get :
    (manager : Manager) (k id status : String) (s s' : Sweep)
    → visit manager id status s ≡ going s'
    → get s'.prev_status k ≡ (
        if id == k
        then settled manager k (some status) (get s.prev_status k)
        else get s.prev_status k)
unfolding visit settled log_call
visit-get manager k id status s s' e =
    elim (Bool-cases (is_reported (get s.prev_status id) status)) [
      | inl old ↦
          let e' : going (record_status id status s) ≡ going s' = rw old at e in
          ap (λ (t : Sweep). get t.prev_status k) (sym (going-inj e'))
          ∙ record_status-get k id status s
          ∙ ground (arith, old, eq_iff id k)
      | inr new ↦
          let reply = manager id status in
          let e' : on_reply id status reply (log_call id status reply s) ≡ going s' = rw new at e in
          on_reply-get k id status reply (log_call id status reply s) s' e'
          ∙ ground (arith, new, eq_iff id k)
    ]

proceed-going :
    (rest : Sweep → Pass) (p : Pass) (s' : Sweep)
    → proceed p rest ≡ going s'
    → (s : Sweep) × (p ≡ going s) × (rest s ≡ going s')
unfolding proceed
proceed-going rest (going s) s' e = (s, refl, e)
proceed-going rest (raised s) s' e = cc e

-- A tick that completes moves the last reported status of an instance to the one it found if that
-- was already reported or the manager has accepted it now, and leaves every other instance as it
-- was: a callback that is rejected or cannot be sent is due again at the next tick.
pub visit_all-get :
    (manager : Manager) (map : Dict String String) (s s' : Sweep) (k : String)
    → Unique map
    → visit_all manager map s ≡ going s'
    → get s'.prev_status k ≡ settled manager k (get map k) (get s.prev_status k)
unfolding visit_all get settled
visit_all-get manager [] s s' k u e = ap (λ (t : Sweep). get t.prev_status k) (sym (going-inj e))
visit_all-get manager ((id, status) ∷ map) s s' k (fresh, u) e =
    let (s₁, first, later) =
      proceed-going (visit_all manager map) (visit manager id status s) s' e in
    let now = visit-get manager k id status s s₁ first in
    let rest = visit_all-get manager map s₁ s' k u later in
    elim (Bool-cases (id == k)) [
      | inl same ↦
          let gone : get map k ≡ none = ap (get map) (sym ((eq_iff id k).0 same)) ∙ fresh in
          rw same
            (rest ∙ ap (λ o. settled manager k o (get s₁.prev_status k)) gone ∙ rw same at now)
      | inr other ↦ rw other (rest ∙ ap (settled manager k (get map k)) (rw other at now))
    ]

-- The callbacks that a tick owes the manager: one for each instance whose status is not the last
-- reported one, in the order of the map.
unfoldable pub owed : Manager → Dict String String → Dict String String → List Call
owed manager prev [] = []
owed manager prev ((id, status) ∷ map) =
    let rest = owed manager prev map in
    if is_reported (get prev id) status
    then rest
    else record { greffon_id = id; status = status; reply = manager id status } ∷ rest

abbrev SameOn : Dict String String → Dict String String → Dict String String → Type 0
SameOn prev prev' map = (k : String) → get map k ≢ none → get prev k ≡ get prev' k

-- The callbacks owed depend on the instances of the map only.
owed-SameOn :
    (manager : Manager) (prev prev' map : Dict String String)
    → Unique map
    → SameOn prev prev' map
    → owed manager prev map ≡ owed manager prev' map
unfolding owed get
owed-SameOn manager prev prev' [] u same = refl
owed-SameOn manager prev prev' ((id, status) ∷ map) (fresh, u) same =
    let head : get prev id ≡ get prev' id = same id (λ e. ground (arith, e, eq_iff id id)) in
    let tail = owed-SameOn manager prev prev' map u (λ k h. same k (λ e. h (ground (arith, e)))) in
    ap₂
      (λ o cs.
        if is_reported o status
        then cs
        else record { greffon_id = id; status = status; reply = manager id status } ∷ cs)
      head tail

kept-calls :
    (rejected : Bool) (id status : String) (s : Sweep)
    → (if rejected then s else record_status id status s).calls ≡ s.calls
unfolding record_status
kept-calls true id status s = refl
kept-calls false id status s = refl

on_reply-calls :
    (id status : String) (reply : Reply) (s s' : Sweep)
    → on_reply id status reply s ≡ going s'
    → s'.calls ≡ s.calls
unfolding on_reply record_status
on_reply-calls id status (code c) s s' e =
    ap (λ (t : Sweep). t.calls) (sym (going-inj e)) ∙ kept-calls (leb 400 c) id status s
on_reply-calls id status unreachable s s' e = ap (λ (t : Sweep). t.calls) (sym (going-inj e))
on_reply-calls id status broken s s' e = cc e

visit-calls :
    (manager : Manager) (id status : String) (s s' : Sweep)
    → visit manager id status s ≡ going s'
    → s'.calls ≡ s.calls ++ owed manager s.prev_status ((id, status) ∷ [])
unfolding visit owed log_call record_status
visit-calls manager id status s s' e =
    elim (Bool-cases (is_reported (get s.prev_status id) status)) [
      | inl old ↦
          let e' : going (record_status id status s) ≡ going s' = rw old at e in
          rw old (ap (λ (t : Sweep). t.calls) (sym (going-inj e')) ∙ sym (append-nil s.calls))
      | inr new ↦
          let reply = manager id status in
          let e' : on_reply id status reply (log_call id status reply s) ≡ going s' = rw new at e in
          rw new (on_reply-calls id status reply (log_call id status reply s) s' e')
    ]

join_if :
    (b : Bool) (c : Call) (cs : List Call)
    → (if b then [] else c ∷ []) ++ cs ≡ (if b then cs else c ∷ cs)
join_if true c cs = refl
join_if false c cs = refl

other_id :
    (map : Dict String String) (id k : String)
    → get map id ≡ none
    → get map k ≢ none
    → (id == k) ≡ false
other_id map id k fresh h = elim (Bool-cases (id == k)) [
  | inl same ↦ absurd (h (ap (get map) (sym ((eq_iff id k).0 same)) ∙ fresh))
  | inr other ↦ other
]

-- A tick that completes has sent the manager exactly one callback for each instance whose status
-- is not the last reported one, in the order of the map, and no other.
pub visit_all-calls :
    (manager : Manager) (map : Dict String String) (s s' : Sweep)
    → Unique map
    → visit_all manager map s ≡ going s'
    → s'.calls ≡ s.calls ++ owed manager s.prev_status map
unfolding visit_all owed
visit_all-calls manager [] s s' u e =
    ap (λ (t : Sweep). t.calls) (sym (going-inj e)) ∙ sym (append-nil s.calls)
visit_all-calls manager ((id, status) ∷ map) s s' (fresh, u) e =
    let (s₁, first, later) =
      proceed-going (visit_all manager map) (visit manager id status s) s' e in
    let same : SameOn s₁.prev_status s.prev_status map = λ k h.
      visit-get manager k id status s s₁ first
      ∙ ap
          (λ b.
            if b
            then settled manager k (some status) (get s.prev_status k)
            else get s.prev_status k)
          (other_id map id k fresh h) in
    visit_all-calls manager map s₁ s' u later
    ∙ ap₂ (λ cs ds. cs ++ ds) (visit-calls manager id status s s₁ first)
        (owed-SameOn manager s₁.prev_status s.prev_status map u same)
    ∙ append_assoc s.calls (owed manager s.prev_status ((id, status) ∷ []))
        (owed manager s.prev_status map)
    ∙ ap (λ cs. s.calls ++ cs)
        (join_if (is_reported (get s.prev_status id) status) _ (owed manager s.prev_status map))
