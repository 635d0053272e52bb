-- ===== src/Updater/Gate.antt =====
-- `health_gate` of cli/greffer_cli/updater/gate.py and `parse_readyz` of
-- cli/greffer_cli/update.py.
pub mod Ready
pub mod Ends
use greffer.Prelude.{
  ℕ, zero, suc, ◌+◌, ◌-◌, ◌*◌, ◌≤◌, ◌<◌, String, ◌≡◌, refl, sym, ap, ap₂, ◌∙◌, ◌≢◌, ◌↔◌, ◌⊎◌, inl,
  inr, Bool, true, false, not, ◌&&◌, ◌||◌, Option, none, some, List, [], ◌∷◌, ◌++◌, map, arith,
  eq_iff, ltb, leb, if◌then◌else◌, Eq, ◌==◌, ◌!=◌, nat_eq, string_eq, Bool-cases, Option-cases,
  or_else, or_false, All, All-append, length, select, any, every, contains, contains-append, Dict,
  get, get_or, put, pop, get-put, get-pop, lower, lower_char, Unique, put-Unique, get-put_self,
}

-- What `docker exec` of the readiness endpoint gives: no success, no JSON, JSON that is no
-- object, or the object's `id`, `status` and `reasons` (none if it is absent or not a list).
pub data Body : Type 0 where
  failed not_json not_an_object : Body
  object : Option String → Option String → Option (List String) → Body

pub record Readyz : Type 0 where
  pub answered : Bool
  pub id : Option String
  pub status : Option String
  pub reasons : List String

unfoldable pub parse_readyz : Body → Readyz
parse_readyz (object id status reasons) = record {
  answered = true;
  id = id;
  status = status;
  reasons = or_else reasons [];
}
parse_readyz _ = record { answered = false; id = none; status = none; reasons = [] }

-- `GATE_*`
pub data Verdict : Type 0 where
  gate_ready gate_timeout gate_fatal gate_wrong_id gate_not_applied : Verdict
  gate_degraded_other gate_crash_loop : Verdict

-- The arguments of a gate.
pub record Gate : Type 0 where
  pub greffer_id : Option String
  pub applied_image_ids : Dict String (Option String)
  pub service_names : List String
  pub check_version : Bool
  pub deadline : ℕ
  pub base_restarts : ℕ

-- What one round of the loop reads: the clock of the loop's test, and docker.
pub record Poll : Type 0 where
  pub now : ℕ
  pub body : Body
  pub image_id : String → Option String
  pub is_running : String → Bool
  pub restart_count : ℕ

-- An optional text is the given one.
unfoldable pub is_text : Option String → String → Bool
is_text none s = false
is_text (some t) s = t == s

-- `greffer_id and r.id and r.id != greffer_id`, where an empty text is false.
unfoldable pub is_wrong_id : Option String → Option String → Bool
is_wrong_id none answered = false
is_wrong_id (some expected) none = false
is_wrong_id (some expected) (some id) = expected != "" && id != "" && id != expected

-- TOLERABLE_DEGRADED_REASONS
abbrev pub tolerable : List String
tolerable = "registration_pending" ∷ []

-- `expected and container_image_id_by_name(n) != expected` does not hold.
unfoldable pub is_applied_image : Option String → Option String → Bool
unfolding is_text
is_applied_image none running = true
is_applied_image (some expected) running = expected == "" || is_text running expected

-- Every stack container runs its expected image.
unfoldable pub all_applied : Gate → Poll → Bool
unfolding is_applied_image
all_applied g p =
    every (λ n. is_applied_image (or_else (get g.applied_image_ids n) none) (p.image_id n))
      g.service_names

unfoldable pub on_ready : Gate → Poll → Option Verdict
unfolding all_applied
on_ready g p =
    if g.check_version && not (all_applied g p)
    then some gate_not_applied
    else if every p.is_running g.service_names
    then some gate_ready
    else none

-- The decision of one answer; `none` keeps on polling.
unfoldable pub decide : Gate → Poll → Readyz → Option Verdict
unfolding on_ready is_text is_wrong_id
decide g p r =
    if not r.answered
    then none
    else if is_wrong_id g.greffer_id r.id
    then some gate_wrong_id
    else if is_text r.status "fatal"
    then some gate_fatal
    else if is_text r.status "degraded" && any (λ reason. not (contains reason tolerable)) r.reasons
    then some gate_degraded_other
    else if is_text r.status "ready"
    then on_ready g p
    else none

-- The check of the restart count after an answer that decided nothing.
unfoldable pub or_crash_loop : Gate → Poll → Option Verdict → Option Verdict
or_crash_loop g p (some o) = some o
or_crash_loop g p none =
    if ltb (g.base_restarts + 1) p.restart_count then some gate_crash_loop else none

unfoldable pub poll_outcome : Gate → Poll → Option Verdict
unfolding decide or_crash_loop parse_readyz
poll_outcome g p = or_crash_loop g p (decide g p (parse_readyz p.body))

unfoldable pub or_rest : Option Verdict → Option Verdict → Option Verdict
or_rest (some o) rest = some o
or_rest none rest = rest

-- The loop from round `k`, for at most `fuel` rounds; `none` is a loop that has not returned yet.
unfoldable pub health_gate : Gate → (ℕ → Poll) → ℕ → ℕ → Option Verdict
unfolding poll_outcome or_rest
health_gate g polls zero k = none
health_gate g polls (suc fuel) k =
    let rest = health_gate g polls fuel (suc k) in
    if ltb (polls k).now g.deadline
    then or_rest (poll_outcome g (polls k)) rest
    else some gate_timeout
