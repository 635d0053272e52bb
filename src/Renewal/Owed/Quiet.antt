-- ===== src/Renewal/Owed/Quiet.antt =====
-- The steps of a renewal that neither write the ledger nor send anything.
use greffer.Renewal.Owed.{is_unresolved, IsQuiet, IsQuiet-trans}
use greffer.Renewal.{
  Raised, Act, looked, slept, probed, reloaded, restarted, World, Config, Books, note, note_failure,
  clear_backoff, ticks,
}
use greffer.Renewal.Serial.{same_serial}
use greffer.Renewal.Instance.{
  InstanceOutcome, probe, poll_serial, await_serial, escalate, reload_and_read, judge_served,
  count_blind, settle_seconds,
}
use greffer.Prelude.{
  ℕ, zero, suc, ◌+◌, String, ◌≡◌, refl, Option, none, some, ◌∷◌, ltb, nat_eq, string_eq, if_ind,
}

pub IsQuiet-refl : (s : Books) → IsQuiet s s
IsQuiet-refl s = record { same_debts = refl; same_file = refl; same_past = λ j. refl }

pub note_failure-IsQuiet :
    (w : World) (c : Config) (id : String) (s : Books) → IsQuiet s (note_failure w c id s)
unfolding note_failure note is_unresolved
note_failure-IsQuiet w c id s = record {
  same_debts = refl;
  same_file = refl;
  same_past = λ j. refl;
}

pub clear_backoff-IsQuiet : (id : String) (s : Books) → IsQuiet s (clear_backoff id s)
unfolding clear_backoff
clear_backoff-IsQuiet id s = record { same_debts = refl; same_file = refl; same_past = λ j. refl }

pub count_blind-IsQuiet : (serial : Option String) (s : Books) → IsQuiet s (count_blind serial s)
unfolding count_blind
count_blind-IsQuiet none s = record { same_debts = refl; same_file = refl; same_past = λ j. refl }
count_blind-IsQuiet (some serial) s = record {
  same_debts = refl;
  same_file = refl;
  same_past = λ j. refl;
}

-- A note of an act that sends nothing.
pub note-IsQuiet :
    (act : Act) (s : Books)
    → ((j : String) → is_unresolved j (act ∷ s.past) ≡ is_unresolved j s.past)
    → IsQuiet s (note act s)
unfolding note
note-IsQuiet act s same = record { same_debts = refl; same_file = refl; same_past = same }

pub looked-IsQuiet : (s : Books) → IsQuiet s (note looked s)
unfolding is_unresolved
looked-IsQuiet s = note-IsQuiet looked s λ j. refl

module _ (w : World) (id : String) (port : ℕ) where
  pub probe-IsQuiet : (s : Books) → IsQuiet s (probe w id port s).0
  unfolding probe is_unresolved
  probe-IsQuiet s = note-IsQuiet (probed id (w.served port s.past).0) s λ j. refl

  -- A probe after a pause.
  paused_probe : (s : Books) → IsQuiet s (probe w id port (note slept (note looked s))).0
  unfolding is_unresolved
  paused_probe s =
      let asleep = note-IsQuiet slept (note looked s) λ j. refl in
      IsQuiet-trans (looked-IsQuiet s)
        (IsQuiet-trans asleep (probe-IsQuiet (note slept (note looked s))))

  poll_serial-IsQuiet :
      (wanted : Option String) (deadline rounds : ℕ) (s : Books) (serial : Option String)
      → IsQuiet s (poll_serial w id port wanted deadline rounds s serial).0
  unfolding poll_serial
  poll_serial-IsQuiet wanted deadline zero s serial = IsQuiet-refl s
  poll_serial-IsQuiet wanted deadline (suc rounds) s serial =
      let (s', serial') = probe w id port (note slept (note looked s)) in
      let later = poll_serial-IsQuiet wanted deadline rounds s' serial' in
      if_ind (λ (r : Books × Option String). IsQuiet s r.0) (same_serial serial wanted) _ _
        (λ _. IsQuiet-refl s)
        (λ _.
          if_ind (λ (r : Books × Option String). IsQuiet s r.0) (ltb (w.monotonic s.past) deadline)
            _ _ (λ _. IsQuiet-trans (paused_probe s) later) (λ _. looked-IsQuiet s))

  pub await_serial-IsQuiet :
      (wanted : Option String) (s : Books) → IsQuiet s (await_serial w id port wanted s).0
  unfolding await_serial
  await_serial-IsQuiet wanted s =
      let (s', serial) = probe w id port (note looked s) in
      IsQuiet-trans (looked-IsQuiet s) (
        IsQuiet-trans (probe-IsQuiet (note looked s)) (
          poll_serial-IsQuiet wanted (w.monotonic s.past + ticks settle_seconds)
            (suc (ticks settle_seconds)) s' serial))

  pub escalate-IsQuiet :
      (wanted serial : Option String) (s : Books) → IsQuiet s (escalate w id port wanted serial s).0
  unfolding escalate is_unresolved
  escalate-IsQuiet wanted none s = IsQuiet-refl s
  escalate-IsQuiet wanted (some serial) s =
      let again = note-IsQuiet (restarted id) s λ j. refl in
      if_ind (λ (r : Books × Option String). IsQuiet s r.0) (same_serial (some serial) wanted) _ _
        (λ _. IsQuiet-refl s)
        (λ _.
          if_ind (λ (r : Books × Option String). IsQuiet s r.0) (w.restarts id s.past) _ _
            (λ _. IsQuiet-trans again (await_serial-IsQuiet wanted (note (restarted id) s)))
            (λ _. again))

  pub reload_and_read-IsQuiet :
      (wanted : Option String) (s : Books) → IsQuiet s (reload_and_read w id port wanted s).0
  unfolding reload_and_read is_unresolved
  reload_and_read-IsQuiet wanted s =
      let signalled = note-IsQuiet (reloaded id) s λ j. refl in
      if_ind (λ (r : Books × Option String). IsQuiet s r.0) (w.reloads id s.past) _ _
        (λ _. IsQuiet-trans signalled (await_serial-IsQuiet wanted (note (reloaded id) s)))
        (λ _. IsQuiet-trans signalled (probe-IsQuiet (note (reloaded id) s)))

pub judge_served-IsQuiet :
    (w : World) (c : Config) (id : String) (wanted serial : Option String) (s : Books)
    → IsQuiet s (judge_served w c id wanted serial s).0
unfolding judge_served
judge_served-IsQuiet w c id wanted serial s =
    if_ind (λ (r : Books × Raised InstanceOutcome). IsQuiet s r.0) (same_serial serial wanted) _ _
      (λ _. clear_backoff-IsQuiet id s) (λ _. note_failure-IsQuiet w c id s)
