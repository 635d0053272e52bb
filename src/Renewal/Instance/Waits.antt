-- ===== src/Renewal/Instance/Waits.antt =====
-- How long `_await_serial` waits for a certificate to be served.
use greffer.Renewal.{Act, looked, slept, probed, Past, World, Books, note, ticks}
use greffer.Renewal.Serial.{same_serial}
use greffer.Renewal.Instance.{probe, poll_serial, await_serial, settle_seconds}
use greffer.Prelude.{
  ℕ, zero, suc, ◌+◌, ◌≤◌, ◌<◌, String, ◌≡◌, ◌⊎◌, inl, inr, true, false, Option, ◌∷◌, arith, ltb,
  nat_eq, string_eq, if_ind,
}

module _ (w : World)
    (steady : (act : Act) (past : Past) → w.monotonic past ≤ w.monotonic (act ∷ past))
    (moves : (past : Past) → w.monotonic past < w.monotonic (slept ∷ past)) where
  -- The wanted serial, or a clock that has reached the deadline.
  abbrev IsWaited : Option String → ℕ → Books × Option String → Type 0
  IsWaited wanted deadline r = (same_serial r.1 wanted ≡ true) ⊎ (deadline ≤ w.monotonic r.0.past)

  -- A pause and a probe take a tick or more.
  paused_moves :
      (id : String) (port : ℕ) (s : Books)
      → w.monotonic s.past < w.monotonic (probe w id port (note slept (note looked s))).0.past
  unfolding probe note
  paused_moves id port s =
      let past = slept ∷ looked ∷ s.past in
      omega (
        arith,
        steady looked s.past,
        moves (looked ∷ s.past),
        steady (probed id (w.served port past).0) past,
      )

  looked_late :
      (deadline : ℕ) (s : Books)
      → ltb (w.monotonic s.past) deadline ≡ false
      → deadline ≤ w.monotonic (note looked s).past
  unfolding note
  looked_late deadline s over = ground (arith, steady looked s.past, over)

  probe_moves :
      (id : String) (port : ℕ) (s : Books)
      → w.monotonic s.past ≤ w.monotonic (probe w id port (note looked s)).0.past
  unfolding probe note
  probe_moves id port s =
      let past = looked ∷ s.past in
      omega (arith, steady looked s.past, steady (probed id (w.served port past).0) past)

  poll_serial-IsWaited :
      (id : String) (port : ℕ) (wanted : Option String) (deadline rounds : ℕ) (s : Books)
      (serial : Option String)
      → deadline ≤ w.monotonic s.past + rounds
      → IsWaited wanted deadline (poll_serial w id port wanted deadline rounds s serial)
  unfolding poll_serial
  poll_serial-IsWaited id port wanted deadline zero s serial enough = inr (omega arith)
  poll_serial-IsWaited id port wanted deadline (suc rounds) s serial enough =
      let (s', serial') = probe w id port (note slept (note looked s)) in
      let later =
        poll_serial-IsWaited id port wanted deadline rounds s' serial'
          (omega (arith, paused_moves id port s)) in
      if_ind (IsWaited wanted deadline) (same_serial serial wanted) _ _ (λ same. inl same)
        (λ _.
          if_ind (IsWaited wanted deadline) (ltb (w.monotonic s.past) deadline) _ _ (λ _. later)
            (λ over. inr (looked_late deadline s over)))

  -- If the clock does not run backwards and a pause moves it on, then the wait returns the wanted
  -- serial or ends no less than the settle time after it began: a mismatch is not believed sooner,
  -- and the rounds never run out before.
  pub await_serial_waits :
      (id : String) (port : ℕ) (wanted : Option String) (s : Books)
      → (same_serial (await_serial w id port wanted s).1 wanted ≡ true)
        ⊎ (w.monotonic s.past + ticks settle_seconds
            ≤ w.monotonic (await_serial w id port wanted s).0.past)
  unfolding await_serial
  await_serial_waits id port wanted s =
      let deadline = w.monotonic s.past + ticks settle_seconds in
      let (s', serial) = probe w id port (note looked s) in
      poll_serial-IsWaited id port wanted deadline (suc (ticks settle_seconds)) s' serial
        (omega (arith, probe_moves id port s))
