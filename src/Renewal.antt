-- ===== src/Renewal.antt =====
-- app/workers/cert_renewal.py: the worker that keeps the certificate of each instance's sidecar
-- fresh. Here its state, what the world answers, the ledger of owed confirmations and the backoff;
-- the child modules have the mint, the report, one instance and the pass.
pub mod Serial
pub mod Mint
pub mod Report
pub mod Instance
pub mod Pass
pub mod Worker
pub mod Owed
pub mod Seen
pub mod Tests
use greffer.Prelude.{
  ℕ, zero, suc, ◌+◌, ◌-◌, ◌*◌, ◌≤◌, ◌<◌, String, ◌≡◌, refl, sym, ap, ap₂, ◌∙◌, ◌≢◌, ◌↔◌, ◌⊎◌, inl,
  inr, Bool, true, false, not, ◌&&◌, ◌||◌, Option, none, some, List, [], ◌∷◌, ◌++◌, map, arith,
  eq_iff, ltb, leb, if◌then◌else◌, Eq, ◌==◌, ◌!=◌, nat_eq, string_eq, Bool-cases, Option-cases,
  or_else, or_false, All, All-append, length, select, any, every, contains, contains-append, Dict,
  get, get_or, put, pop, get-put, get-pop, lower, lower_char, Unique, put-Unique, get-put_self,
}

-- The answer to a request: an HTTP response with its text and what `res.json()` gives (none where
-- it raises, else the certificate's `serial_number` if it has one), or an exception.
pub record Http : Type 0 where
  pub status : ℕ
  pub text : String
  pub json : Option (Option String)

pub data Answered : Type 0 where
  http : Http → Answered
  lost : Answered

-- What the worker did or read, in order. A read of a clock, a lock, a flag or a file is `looked`.
pub data Act : Type 0 where
  looked slept : Act
  saved : Act
  probed : String → Option String → Act
  mint_sent : String → Answered → Act
  installed reloaded restarted : String → Act
  report_sent : String → Option String → Answered → Act
  forgotten : String → Act

-- The newest act first.
abbrev pub Past : Type 0
Past = List Act

-- What the world answers, given all that was done and read before.
pub record World : Type 0 where
  pub monotonic : Past → ℕ
  pub wall_clock : Past → ℕ
  pub is_writable : Past → Bool
  pub is_readable : Past → Bool
  pub host_port : String → Past → Option ℕ
  pub is_inflight : String → Past → Bool
  pub is_settling : String → Past → Bool
  pub lock_refusal : String → Past → Option String
  -- The serial and the expiry of the certificate that is served on a port.
  pub served : ℕ → Past → Option String × Option ℕ
  pub mint_answer : String → Past → Answered
  pub installs : String → Past → Bool
  pub reloads : String → Past → Bool
  pub restarts : String → Past → Bool
  pub report_answer : String → Past → Answered
  pub is_stopped : Past → Bool
  pub status_map : Past → Option (Dict String String)

pub record Config : Type 0 where
  pub interval : ℕ
  pub window_days : ℕ

-- `_renewal_backoff`, `_unconfirmed`, the file that it is saved to (empty if it is missing) and
-- `_blind_streak`.
pub record Books : Type 0 where
  pub backoff : Dict String (ℕ × ℕ)
  pub unconfirmed : Dict String String
  pub file : Dict String String
  pub blind_streak : ℕ
  pub past : Past

-- A call that returned, or the exception that left it; `crashed` is any other exception.
pub data Raised {ℓ} (A : Type ℓ) : Type ℓ where
  returned : A → Raised A
  renewal_unavailable node_rate_limited node_auth_lost crashed : Raised A

unfoldable pub note : Act → Books → Books
note act s = record s { past = act ∷ s.past }

unfoldable pub is_there {ℓ} : {A : Type ℓ} → Option A → Bool
is_there none = false
is_there (some a) = true

-- `id in d`
unfoldable pub has_key {ℓ} : {V : Type ℓ} → Dict String V → String → Bool
unfolding is_there
has_key d id = is_there (get d id)

-- `_save_unconfirmed`; a file that cannot be written stays as it is.
unfoldable pub save_unconfirmed : World → Books → Books
unfolding note
save_unconfirmed w s =
    note saved (if w.is_writable s.past then record s { file = s.unconfirmed } else s)

-- `_unconfirmed[greffon_id] = serial or ''`, and the save.
unfoldable pub owe : World → String → Option String → Books → Books
unfolding save_unconfirmed
owe w id serial s =
    save_unconfirmed w (record s { unconfirmed = put s.unconfirmed id (or_else serial "") })

unfoldable pub clear_debt : World → String → Books → Books
unfolding has_key save_unconfirmed
clear_debt w id s =
    if has_key s.unconfirmed id
    then save_unconfirmed w (record s { unconfirmed = pop s.unconfirmed id })
    else s

-- `_unconfirmed.setdefault(k, v)` for each entry of the file.
unfoldable pub set_defaults : Dict String String → Dict String String → Dict String String
unfolding has_key
set_defaults [] d = d
set_defaults ((id, serial) ∷ stored) d =
    set_defaults stored (if has_key d id then d else put d id serial)

-- `_load_unconfirmed`
unfoldable pub load_unconfirmed : World → Books → Books
unfolding set_defaults note
load_unconfirmed w s = note looked (
    if w.is_readable s.past
    then record s { unconfirmed = set_defaults s.file s.unconfirmed }
    else s)

-- `CERT_RENEWAL_BACKOFF_CAP_SECONDS`
abbrev pub backoff_cap : ℕ
backoff_cap = 24 * 60 * 60

-- The monotonic clock ticks twice a second.
abbrev pub ticks : ℕ → ℕ
ticks seconds = 2 * seconds

unfoldable pub failures_of : Option (ℕ × ℕ) → ℕ
failures_of none = 0
failures_of (some (failures, deadline)) = failures

-- 2 ** n
unfoldable pub two_to : ℕ → ℕ
two_to zero = 1
two_to (suc n) = 2 * two_to n

unfoldable pub delay_after : ℕ → ℕ → ℕ
unfolding two_to
delay_after interval failures =
    let delay = interval * two_to (failures - 1) in
    if leb delay backoff_cap then delay else backoff_cap

-- `_note_failure`
unfoldable pub note_failure : World → Config → String → Books → Books
unfolding failures_of delay_after note
note_failure w c id s =
    let failures = failures_of (get s.backoff id) + 1 in
    note looked (record s {
      backoff =
          put s.backoff id (failures, w.monotonic s.past + ticks (delay_after c.interval failures));
    })

unfoldable pub is_before : ℕ → Option (ℕ × ℕ) → Bool
is_before now none = false
is_before now (some (failures, deadline)) = ltb now deadline

-- `_in_backoff`; its read of the clock is the act that the caller notes.
unfoldable pub in_backoff : World → String → Books → Bool
unfolding is_before
in_backoff w id s = is_before (w.monotonic s.past) (get s.backoff id)

unfoldable pub clear_backoff : String → Books → Books
clear_backoff id s = record s { backoff = pop s.backoff id }
