-- ===== src/Renewal/Instance.antt =====
-- `renew_one` and `_renew_locked` of app/workers/cert_renewal.py.
pub mod Steps
pub mod Closed
pub mod Told
pub mod Sidecar
pub mod Due
pub mod Waits
use greffer.Renewal.Serial.{same_serial}
use greffer.Renewal.Mint.{mint}
use greffer.Renewal.Report.{report}
use greffer.Prelude.{
  ℕ, zero, suc, ◌+◌, ◌*◌, String, Bool, true, not, ◌&&◌, Option, none, some, ltb, leb,
  if◌then◌else◌, nat_eq, string_eq,
}
use greffer.Renewal.{
  looked, slept, probed, installed, reloaded, restarted, World, Config, Books, Raised, returned,
  renewal_unavailable, node_rate_limited, node_auth_lost, crashed, note, has_key, owe, clear_debt,
  note_failure, in_backoff, clear_backoff, ticks,
}

pub data RenewalStatus : Type 0 where
  renewed not_due skipped failed : RenewalStatus

-- `Outcome`
pub record InstanceOutcome : Type 0 where
  pub status : RenewalStatus
  pub serial : Option String
  pub reason : Option String

unfoldable pub outcome : RenewalStatus → Option String → InstanceOutcome
outcome status serial = record { status = status; serial = serial; reason = none }

unfoldable pub skip : String → Raised InstanceOutcome
skip reason = returned (record { status = skipped; serial = none; reason = some reason })

-- `_served_certificate`
unfoldable pub probe : World → String → ℕ → Books → Books × Option String
unfolding note
probe w id port s = let serial = (w.served port s.past).0 in (note (probed id serial) s, serial)

-- `_SETTLE_SECONDS`
abbrev pub settle_seconds : ℕ
settle_seconds = 20

-- `_due_for_renewal`, in seconds.
unfoldable pub due_for_renewal : ℕ → ℕ → Option ℕ → Bool
due_for_renewal window_days now none = true
due_for_renewal window_days now (some not_after) = leb not_after (now + window_days * 86400)

unfoldable pub count_blind : Option String → Books → Books
count_blind none s = record s { blind_streak = suc s.blind_streak }
count_blind (some serial) s = record s { blind_streak = 0 }

module _ (w : World) (id : String) (port : ℕ) where
  -- The loop of `_await_serial`, for at most so many rounds.
  unfoldable pub poll_serial : Option String → ℕ → ℕ → Books → Option String → Books × Option String
  unfolding same_serial probe note
  poll_serial wanted deadline zero s serial = (s, serial)
  poll_serial wanted deadline (suc rounds) s serial =
      let (s', serial') = probe w id port (note slept (note looked s)) in
      let rest = poll_serial wanted deadline rounds s' serial' in
      if same_serial serial wanted
      then (s, serial)
      else if ltb (w.monotonic s.past) deadline
      then rest
      else (note looked s, serial)

  -- `_await_serial`; a round lasts a tick or more.
  unfoldable pub await_serial : Option String → Books → Books × Option String
  unfolding poll_serial probe note
  await_serial wanted s =
      let deadline = w.monotonic s.past + ticks settle_seconds in
      let (s', serial) = probe w id port (note looked s) in
      poll_serial wanted deadline (suc (ticks settle_seconds)) s' serial

  -- The sidecar is restarted only if it serves another certificate.
  unfoldable pub escalate : Option String → Option String → Books → Books × Option String
  unfolding same_serial await_serial note
  escalate wanted none s = (s, none)
  escalate wanted (some serial) s =
      if same_serial (some serial) wanted
      then (s, some serial)
      else if w.restarts id s.past
      then await_serial wanted (note (restarted id) s)
      else (note (restarted id) s, some serial)

  unfoldable pub reload_and_read : Option String → Books → Books × Option String
  unfolding await_serial probe note
  reload_and_read wanted s =
      if w.reloads id s.past
      then await_serial wanted (note (reloaded id) s)
      else probe w id port (note (reloaded id) s)

-- A debt that was filed before a request that the manager refused.
unfoldable pub unless_owed : World → String → Bool → Books → Books
unfolding clear_debt
unless_owed w id owed_before s = if owed_before then s else clear_debt w id s

module _ (w : World) (c : Config) (id : String) where
  -- After the report.
  unfoldable pub judge_served :
      Option String → Option String → Books → Books × Raised InstanceOutcome
  unfolding same_serial clear_backoff note_failure outcome
  judge_served wanted serial s =
      if same_serial serial wanted
      then (clear_backoff id s, returned (outcome renewed serial))
      else (note_failure w c id s, returned (outcome failed serial))

module _ (w : World) (c : Config) (id : String) (port : ℕ) where
  -- A certificate was minted: install, reload, read, restart on a mismatch, report.
  unfoldable pub on_issued : Option String → Option String → Books → Books × Raised InstanceOutcome
  unfolding reload_and_read escalate judge_served report note_failure outcome note
  on_issued before wanted s =
      if w.installs id s.past
      then (let (s₁, first) = reload_and_read w id port wanted (note (installed id) s) in
          let (s₂, serial) = escalate w id port wanted first s₁ in
          judge_served w c id wanted serial (report w id serial s₂))
      else (
        note_failure w c id (report w id before (note (installed id) s)),
        returned (outcome failed before),
      )

  unfoldable pub on_certificate :
      Option String
      → Bool
      → Books × Raised (Option (Option String))
      → Books × Raised InstanceOutcome
  unfolding on_issued unless_owed outcome
  on_certificate before owed (s, renewal_unavailable) =
      (unless_owed w id owed s, renewal_unavailable)
  on_certificate before owed (s, node_rate_limited) = (unless_owed w id owed s, node_rate_limited)
  on_certificate before owed (s, node_auth_lost) = (unless_owed w id owed s, node_auth_lost)
  on_certificate before owed (s, crashed) = (s, crashed)
  on_certificate before owed (s, returned none) =
      (unless_owed w id owed s, returned (outcome failed before))
  on_certificate before owed (s, returned (some wanted)) = on_issued before wanted s

  -- The renewal itself: the debt comes before the request.
  unfoldable pub renew_due : Option String → Books → Books × Raised InstanceOutcome
  unfolding on_certificate has_key owe mint
  renew_due before s =
      let owed_before = has_key s.unconfirmed id in
      on_certificate before owed_before (mint w c id (if owed_before then s else owe w id before s))

  unfoldable pub renew_settled : Bool → Books → Books × Raised InstanceOutcome
  unfolding renew_due due_for_renewal count_blind probe clear_backoff outcome note
  renew_settled force s =
      let (serial, expiry) = w.served port s.past in
      let s₁ = note looked (count_blind serial (note (probed id serial) s)) in
      if not force && not (due_for_renewal c.window_days (w.wall_clock s₁.past) expiry)
      then (clear_backoff id s₁, returned (outcome not_due serial))
      else renew_due serial s₁

  unfoldable pub renew_on_port : Bool → Books → Books × Raised InstanceOutcome
  unfolding renew_settled skip note
  renew_on_port force s =
      let s₁ = note looked s in
      let s₂ = note looked s₁ in
      if w.is_inflight id s.past
      then (s₁, skip "compose_inflight")
      else if w.is_settling id s₁.past
      then (s₂, skip "sidecar_settling")
      else renew_settled force s₂

module _ (w : World) (c : Config) (id : String) where
  unfoldable pub on_port : Bool → Option ℕ → Books → Books × Raised InstanceOutcome
  unfolding renew_on_port outcome
  on_port force none s = (s, returned (outcome skipped none))
  on_port force (some port) s = renew_on_port w c id port force s

  -- `_renew_locked`
  unfoldable pub renew_locked : Bool → Books → Books × Raised InstanceOutcome
  unfolding in_backoff on_port note outcome
  renew_locked force s =
      let s₁ = note looked s in
      if in_backoff w id s && not force
      then (s₁, returned (outcome skipped none))
      else on_port force (w.host_port id s₁.past) (note looked s₁)

  -- The probe of a debt, under the lock.
  unfoldable pub report_debt_on : Option ℕ → Books → Books
  unfolding probe report
  report_debt_on none s = s
  report_debt_on (some port) s = let (s', serial) = probe w id port s in report w id serial s'

  unfoldable pub report_debt_locked : Option String → Books → Books
  unfolding report_debt_on note
  report_debt_locked (some refusal) s = s
  report_debt_locked none s = report_debt_on (w.host_port id s.past) (note looked s)

  -- A debt of an earlier pass is reported first, unless the sidecar may be changing.
  unfoldable pub report_debt : Books → Books
  unfolding has_key report_debt_locked note
  report_debt s =
      let s₁ = note looked s in
      let s₂ = note looked s₁ in
      if not (has_key s.unconfirmed id)
      then s
      else if w.is_inflight id s.past
      then s₁
      else if w.is_settling id s₁.past
      then s₂
      else report_debt_locked (w.lock_refusal id s₂.past) (note looked s₂)

  unfoldable pub on_lock : Bool → Option String → Books → Books × Raised InstanceOutcome
  unfolding renew_locked skip
  on_lock force (some refusal) s = (s, skip refusal)
  on_lock force none s = renew_locked force s

  -- `renew_one`
  unfoldable pub renew_one : Bool → Books → Books × Raised InstanceOutcome
  unfolding report_debt on_lock note
  renew_one force s =
      let s₁ = report_debt s in on_lock force (w.lock_refusal id s₁.past) (note looked s₁)
