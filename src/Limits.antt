-- ===== src/Limits.antt =====
-- `check_limits_observed` of apps/utils/docker/limits.py: which containers exceed the limits, and
-- the rate limit of its warnings. Times are ticks of the monotonic clock, CPU use is in percent.
pub mod Spaced
pub mod Rate
pub mod Count
mod Tests
use greffer.Prelude.{
  ℕ, zero, suc, ◌+◌, ◌-◌, ◌*◌, ◌≤◌, ◌<◌, String, ◌≡◌, refl, sym, ap, ap₂, ◌∙◌, ◌≢◌, ◌↔◌, ◌⊎◌, inl,
  inr, Bool, true, false, not, ◌&&◌, ◌||◌, Option, none, some, List, [], ◌∷◌, ◌++◌, map, arith,
  eq_iff, ltb, leb, if◌then◌else◌, Eq, ◌==◌, ◌!=◌, nat_eq, string_eq, Bool-cases, Option-cases,
  or_else, or_false, All, All-append, length, select, any, every, contains, contains-append, Dict,
  get, get_or, put, pop, get-put, get-pop, lower, lower_char, Unique, put-Unique, get-put_self,
}

-- A service of an instance.
pub record Key : Type 0 where
  pub instance_id : String
  pub service : String

abbrev pub key_beq : Key → Key → Bool
key_beq a b = a.instance_id == b.instance_id && a.service == b.service

key_beq_refl : (a : Key) → key_beq a a ≡ true
key_beq_refl a = ground (arith, eq_iff a.instance_id a.instance_id, eq_iff a.service a.service)

key_eq-path : (a b : Key) → a.instance_id ≡ b.instance_id → a.service ≡ b.service → a ≡ b
key_eq-path a b p q i = record { instance_id = p i; service = q i }

pub key_beq_iff : (a b : Key) → (key_beq a b ≡ true) ↔ (a ≡ b)
key_beq_iff a b = (
  λ h.
      key_eq-path a b ((eq_iff a.instance_id b.instance_id).0 (ground (arith, h)))
        ((eq_iff a.service b.service).0 (ground (arith, h))),
  λ e. ap (key_beq a) (sym e) ∙ key_beq_refl a,
)

instance abbrev pub key_eq : Eq Key
key_eq = record { beq = key_beq; beq_iff = key_beq_iff }

-- `InstanceLimits`: `none` is a dimension that is off.
pub record InstanceLimits : Type 0 where
  pub mem_bytes : Option ℕ
  pub cpu_limit_percent : Option ℕ

-- An entry of the digest; a value that is no number is `none`.
pub record Usage : Type 0 where
  pub mem_used_bytes : Option ℕ
  pub cpu_percent : Option ℕ
  pub service : Option String
  pub name : Option String

-- `_last_warned`
abbrev pub Warned : Type 0
Warned = Dict Key ℕ

-- _REWARN_SECONDS, in ticks, is the parameter `rewarn`.
unfoldable pub prune_last_warned : ℕ → ℕ → Warned → Warned
prune_last_warned rewarn now [] = []
prune_last_warned rewarn now ((k, t) ∷ w) =
    let rest = prune_last_warned rewarn now w in
    if leb rewarn (now - t) then rest else (k, t) ∷ rest

unfoldable pub is_over : Option ℕ → Option ℕ → Bool
is_over none used = false
is_over (some limit) none = false
is_over (some limit) (some used) = ltb limit used

unfoldable pub is_exceeding : InstanceLimits → Usage → Bool
unfolding is_over
is_exceeding limits e =
    is_over limits.mem_bytes e.mem_used_bytes || is_over limits.cpu_limit_percent e.cpu_percent

-- `a or b` on texts.
unfoldable pub or_text : Option String → String → String
or_text none b = b
or_text (some a) b = if a == "" then b else a

unfoldable pub key_of : String → Usage → Key
unfolding or_text
key_of instance_id e = record {
  instance_id = instance_id;
  service = or_text e.service (or_text e.name "unknown");
}

-- `_last_warned` and the log, the newest warning first.
pub record Telemetry : Type 0 where
  pub last_warned : Warned
  pub log : List (Key × ℕ)

unfoldable pub is_recent : ℕ → ℕ → Option ℕ → Bool
is_recent rewarn clock none = false
is_recent rewarn clock (some last) = ltb (clock - last) rewarn

-- One exceeding entry.
unfoldable pub warn : ℕ → ℕ → Key → Telemetry → Telemetry
unfolding is_recent
warn rewarn clock key s =
    if is_recent rewarn clock (get s.last_warned key)
    then s
    else record { last_warned = put s.last_warned key clock; log = (key, clock) ∷ s.log }

-- The loop, with the count of the exceeding containers.
unfoldable pub check_entries :
    ℕ → ℕ → String → InstanceLimits → List Usage → ℕ × Telemetry → ℕ × Telemetry
unfolding is_exceeding key_of warn
check_entries rewarn clock instance_id limits [] (n, s) = (n, s)
check_entries rewarn clock instance_id limits (e ∷ es) (n, s) =
    if is_exceeding limits e
    then check_entries rewarn clock instance_id limits es
        (suc n, warn rewarn clock (key_of instance_id e) s)
    else check_entries rewarn clock instance_id limits es (n, s)

unfoldable pub is_none : Option ℕ → Bool
is_none none = true
is_none (some _) = false

-- `limits.mem_bytes is None and limits.cpus is None`
unfoldable pub is_off : InstanceLimits → Bool
unfolding is_none
is_off limits = is_none limits.mem_bytes && is_none limits.cpu_limit_percent

unfoldable pub check_limits_observed :
    ℕ → ℕ → String → InstanceLimits → List Usage → Telemetry → ℕ × Telemetry
unfolding check_entries is_off
check_limits_observed rewarn clock instance_id limits digest s =
    if is_off limits
    then (0, s)
    else check_entries rewarn clock instance_id limits digest
        (0, record s { last_warned = prune_last_warned rewarn clock s.last_warned })
