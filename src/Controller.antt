-- ===== src/Controller.antt =====
-- The compose children that a start or a stop leaves running, of app/routers/controller.py: their
-- counter, which stands renewal off.
pub mod Inflight
pub mod Tests
use greffer.Prelude.{
  ℕ, zero, suc, ◌+◌, ◌-◌, ◌*◌, ◌≤◌, ◌<◌, String, ◌≡◌, refl, sym, ap, ap₂, ◌∙◌, ◌≢◌, ◌↔◌, ◌⊎◌, inl,
  inr, Bool, true, false, not, ◌&&◌, ◌||◌, Option, none, some, List, [], ◌∷◌, ◌++◌, map, arith,
  eq_iff, ltb, leb, if◌then◌else◌, Eq, ◌==◌, ◌!=◌, nat_eq, string_eq, Bool-cases, Option-cases,
  or_else, or_false, All, All-append, length, select, any, every, contains, contains-append, Dict,
  get, get_or, put, pop, get-put, get-pop, lower, lower_char, Unique, put-Unique, get-put_self,
  if_ind,
}

-- `_inflight`
abbrev pub Inflight : Type 0
Inflight = Dict String ℕ

-- `_release_compose_child`; a count of none or one ends in no entry.
unfoldable pub release_compose_child : String → Inflight → Inflight
unfolding get put pop
release_compose_child id d =
    let remaining = get_or d id 1 - 1 in if ltb 0 remaining then put d id remaining else pop d id

unfoldable pub compose_inflight : String → Inflight → Bool
unfolding get
compose_inflight id d = ltb 0 (get_or d id 0)

unfoldable pub count_child : String → Inflight → Inflight
unfolding get put
count_child id d = put d id (get_or d id 0 + 1)

-- A call of `track_compose_child`, with or without a child, whose thread starts or not; and a
-- child that exits.
pub data Happening : Type 0 where
  untracked : String → Happening
  tracked : String → Bool → Happening
  exited : String → Happening

-- The counter, and the children for which a thread waits.
pub record Tracker : Type 0 where
  pub inflight : Inflight
  pub waiting : List String

unfoldable pub without_one : String → List String → List String
without_one id [] = []
without_one id (j ∷ ids) = let rest = without_one id ids in if j == id then ids else j ∷ rest

unfoldable pub track_compose_child : String → Bool → Tracker → Tracker
unfolding count_child release_compose_child
track_compose_child id starts t =
    if starts
    then record { inflight = count_child id t.inflight; waiting = id ∷ t.waiting }
    else record t { inflight = release_compose_child id (count_child id t.inflight) }

-- A thread's `proc.wait()` returns.
unfoldable pub child_exits : String → Tracker → Tracker
unfolding release_compose_child contains without_one
child_exits id t =
    if contains id t.waiting
    then record {
      inflight = release_compose_child id t.inflight;
      waiting = without_one id t.waiting;
    }
    else t

unfoldable pub happen_to : Happening → Tracker → Tracker
unfolding track_compose_child child_exits
happen_to (untracked id) t = t
happen_to (tracked id starts) t = track_compose_child id starts t
happen_to (exited id) t = child_exits id t

unfoldable pub tracked_after : List Happening → Tracker → Tracker
unfolding happen_to
tracked_after [] t = t
tracked_after (h ∷ happenings) t = tracked_after happenings (happen_to h t)
