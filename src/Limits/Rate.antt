-- ===== src/Limits/Rate.antt =====
-- The rate limit of the warnings over any sequence of checks.
use greffer.Limits.{
  Key, key_eq, InstanceLimits, Usage, Warned, prune_last_warned, is_exceeding, key_of, Telemetry,
  is_recent, warn, check_entries, is_off, check_limits_observed,
}
use greffer.Limits.Spaced.{
  IsSpaced, is_known, IsKnown, known_later, known-keep, keep, prune-get, spaced_by, put-IsKnown,
  both,
}
use greffer.Prelude.{
  ℕ, suc, ◌-◌, ◌≤◌, String, ◌≡◌, refl, ap, ◌∙◌, inl, inr, true, none, List, [], ◌∷◌, arith, leb,
  nat_eq, string_eq, Bool-cases, every, get, put, Unique, put-Unique, get-put_self,
}

-- What every check keeps.
pub record IsTracked (rewarn clock : ℕ) (s : Telemetry) : Type 0 where
  pub unique : Unique s.last_warned
  pub known : IsKnown rewarn clock s.last_warned s.log
  pub spaced : IsSpaced rewarn s.log

-- If the entries are known of one map, and each of them stays known, they are known of another.
IsKnown-all :
    (rewarn clock clock' : ℕ) (w w' : Warned) (log : List (Key × ℕ))
    → ((k : Key) (t : ℕ)
        → is_known rewarn clock t (get w k) ≡ true
        → is_known rewarn clock' t (get w' k) ≡ true)
    → IsKnown rewarn clock w log
    → IsKnown rewarn clock' w' log
unfolding every
IsKnown-all rewarn clock clock' w w' [] step known = refl
IsKnown-all rewarn clock clock' w w' ((k, t) ∷ log) step known =
    both (step k t (ground (arith, known)))
      (IsKnown-all rewarn clock clock' w w' log step (ground (arith, known)))

prune-none :
    (rewarn clock : ℕ) (w : Warned) (k : Key)
    → Unique w
    → get w k ≡ none
    → get (prune_last_warned rewarn clock w) k ≡ none
unfolding keep
prune-none rewarn clock w k u e = prune-get rewarn clock w k u ∙ ap (keep rewarn clock) e

prune-Unique :
    (rewarn clock : ℕ) (w : Warned) → Unique w → Unique (prune_last_warned rewarn clock w)
unfolding prune_last_warned
prune-Unique rewarn clock [] u = tt
prune-Unique rewarn clock ((k, t) ∷ w) (fresh, u) =
    let rest = prune-Unique rewarn clock w u in
    elim (Bool-cases (leb rewarn (clock - t))) [
      | inl stale ↦ rw stale rest
      | inr recent ↦ rw recent (prune-none rewarn clock w k u fresh, rest)
    ]

prune-IsTracked :
    (rewarn clock : ℕ) (s : Telemetry)
    → IsTracked rewarn clock s
    → IsTracked rewarn clock
        (record s { last_warned = prune_last_warned rewarn clock s.last_warned })
prune-IsTracked rewarn clock s h = record {
  unique = prune-Unique rewarn clock s.last_warned h.unique;
  known =
      IsKnown-all rewarn clock clock s.last_warned (prune_last_warned rewarn clock s.last_warned)
        s.log
        (λ k t e.
          ap (is_known rewarn clock t) (prune-get rewarn clock s.last_warned k h.unique)
          ∙ known-keep rewarn clock t (get s.last_warned k) e)
        h.known;
  spaced = h.spaced;
}

later-IsTracked :
    (rewarn clock later : ℕ) (s : Telemetry)
    → clock ≤ later
    → IsTracked rewarn clock s
    → IsTracked rewarn later s
later-IsTracked rewarn clock later s le h = record {
  unique = h.unique;
  known =
      IsKnown-all rewarn clock later s.last_warned s.last_warned s.log
        (λ k t. known_later rewarn clock later t (get s.last_warned k) le) h.known;
  spaced = h.spaced;
}

known_self :
    (rewarn clock : ℕ) (w : Warned) (key : Key)
    → is_known rewarn clock clock (get (put w key clock) key) ≡ true
unfolding is_known
known_self rewarn clock w key =
    ap (is_known rewarn clock clock) (get-put_self w key clock) ∙ ground arith

warn-IsTracked :
    (rewarn clock : ℕ) (key : Key) (s : Telemetry)
    → IsTracked rewarn clock s
    → IsTracked rewarn clock (warn rewarn clock key s)
unfolding warn every
warn-IsTracked rewarn clock key s h =
    elim (Bool-cases (is_recent rewarn clock (get s.last_warned key))) [
      | inl recent ↦ rw recent h
      | inr quiet ↦ rw quiet (record {
        unique = put-Unique s.last_warned key clock h.unique;
        known =
            both (known_self rewarn clock s.last_warned key)
              (put-IsKnown rewarn clock key s.last_warned s.log h.known);
        spaced = (spaced_by rewarn clock key s.last_warned s.log quiet h.known, h.spaced);
      })
    ]

check_entries-IsTracked :
    (rewarn clock : ℕ) (instance_id : String) (limits : InstanceLimits) (es : List Usage) (n : ℕ)
    (s : Telemetry)
    → IsTracked rewarn clock s
    → IsTracked rewarn clock (check_entries rewarn clock instance_id limits es (n, s)).1
unfolding check_entries
check_entries-IsTracked rewarn clock instance_id limits [] n s h = h
check_entries-IsTracked rewarn clock instance_id limits (e ∷ es) n s h =
    let key = key_of instance_id e in
    elim (Bool-cases (is_exceeding limits e)) [
      | inl over ↦ rw over (
          check_entries-IsTracked rewarn clock instance_id limits es (suc n)
            (warn rewarn clock key s) (warn-IsTracked rewarn clock key s h))
      | inr under ↦ rw under (check_entries-IsTracked rewarn clock instance_id limits es n s h)
    ]

check_limits-IsTracked :
    (rewarn clock : ℕ) (instance_id : String) (limits : InstanceLimits) (es : List Usage)
    (s : Telemetry)
    → IsTracked rewarn clock s
    → IsTracked rewarn clock (check_limits_observed rewarn clock instance_id limits es s).1
unfolding check_limits_observed
check_limits-IsTracked rewarn clock instance_id limits es s h = elim (Bool-cases (is_off limits)) [
  | inl off ↦ rw off h
  | inr on ↦ rw on (
      check_entries-IsTracked rewarn clock instance_id limits es 0
        (record s { last_warned = prune_last_warned rewarn clock s.last_warned })
        (prune-IsTracked rewarn clock s h))
]

-- One call of the check.
pub record Reading : Type 0 where
  pub clock : ℕ
  pub instance_id : String
  pub limits : InstanceLimits
  pub digest : List Usage

-- The process's telemetry after these calls, one after the other.
unfoldable pub observe : ℕ → List Reading → Telemetry → Telemetry
observe rewarn [] s = s
observe rewarn (r ∷ rs) s =
    observe rewarn rs (check_limits_observed rewarn r.clock r.instance_id r.limits r.digest s).1

abbrev pub Ascending : ℕ → List Reading → Type 0
Ascending since [] = Unit
Ascending since (r ∷ rs) = (since ≤ r.clock) × Ascending r.clock rs

observe-IsSpaced :
    (rewarn since : ℕ) (rs : List Reading) (s : Telemetry)
    → Ascending since rs
    → IsTracked rewarn since s
    → IsSpaced rewarn (observe rewarn rs s).log
unfolding observe
observe-IsSpaced rewarn since [] s up h = h.spaced
observe-IsSpaced rewarn since (r ∷ rs) s (le, up) h =
    observe-IsSpaced rewarn r.clock rs
      (check_limits_observed rewarn r.clock r.instance_id r.limits r.digest s).1 up
      (check_limits-IsTracked rewarn r.clock r.instance_id r.limits r.digest s
        (later-IsTracked rewarn since r.clock s le h))

abbrev pub quiet_start : Telemetry
quiet_start = record { last_warned = []; log = [] }

-- Over any sequence of checks on a monotonic clock, two warnings of one service of one instance
-- are at least the re-warn time apart.
pub warnings-IsSpaced :
    (rewarn since : ℕ) (rs : List Reading)
    → Ascending since rs
    → IsSpaced rewarn (observe rewarn rs quiet_start).log
unfolding every
warnings-IsSpaced rewarn since rs up =
    observe-IsSpaced rewarn since rs quiet_start up
      (record { unique = tt; known = refl; spaced = tt })
