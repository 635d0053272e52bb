-- ===== src/Renewal/Instance/Sidecar.antt =====
-- The readings of a sidecar: what was read last is what they return.
use greffer.Renewal.Seen.{last_reading, last_issued}
use greffer.Renewal.Instance.Steps.{Ending}
use greffer.Renewal.Instance.Closed.{IsClosed}
use greffer.Renewal.{looked, slept, probed, reloaded, World, Config, Books, note, ticks}
use greffer.Renewal.Serial.{same_serial}
use greffer.Renewal.Instance.{probe, poll_serial, await_serial, reload_and_read, settle_seconds}
use greffer.Prelude.{
  ℕ, zero, suc, ◌+◌, String, ◌≡◌, refl, ◌∙◌, Option, some, arith, eq_iff, ltb, nat_eq, string_eq,
  if_ind,
}

module _ {P : Books → Type 0} {Q : Ending → Type 0} {w : World} {c : Config} {id : String}
    (p : IsClosed P Q w c id) where
  pub record IsRead (s : Books) (r : Books × Option String) : Type 0 where
    pub kept : P r.0
    pub read : last_reading id r.0.past ≡ some r.1
    pub issued : last_issued id r.0.past ≡ last_issued id s.past

  probe-IsRead : (port : ℕ) (s : Books) → P s → IsRead s (probe w id port s)
  unfolding probe note last_reading last_issued
  probe-IsRead port s k = record {
    kept = p.notes (probed id (w.served port s.past).0) s refl k;
    read = ground (arith, eq_iff id id);
    issued = refl;
  }

  -- A reading after acts that issue nothing.
  pub IsRead-after :
      (s t : Books) (r : Books × Option String)
      → last_issued id t.past ≡ last_issued id s.past
      → IsRead t r
      → IsRead s r
  IsRead-after s t r same q = record { kept = q.kept; read = q.read; issued = q.issued ∙ same }

  poll_serial-IsRead :
      (port : ℕ) (wanted : Option String) (deadline rounds : ℕ) (s : Books) (serial : Option String)
      → P s
      → last_reading id s.past ≡ some serial
      → IsRead s (poll_serial w id port wanted deadline rounds s serial)
  unfolding poll_serial note last_reading last_issued
  poll_serial-IsRead port wanted deadline zero s serial k read = record {
    kept = k;
    read = read;
    issued = refl;
  }
  poll_serial-IsRead port wanted deadline (suc rounds) s serial k read =
      let s₁ = note slept (note looked s) in
      let (s', serial') = probe w id port s₁ in
      let k₁ = p.notes slept (note looked s) refl (p.notes looked s refl k) in
      let q = probe-IsRead port s₁ k₁ in
      let later = poll_serial-IsRead port wanted deadline rounds s' serial' q.kept q.read in
      if_ind (IsRead s) (same_serial serial wanted) _ _
        (λ _. record { kept = k; read = read; issued = refl })
        (λ _.
          if_ind (IsRead s) (ltb (w.monotonic s.past) deadline) _ _
            (λ _. IsRead-after s s' _ (q.issued ∙ refl) later)
            (λ _. record { kept = p.notes looked s refl k; read = read; issued = refl }))

  pub await_serial-IsRead :
      (port : ℕ) (wanted : Option String) (s : Books)
      → P s
      → IsRead s (await_serial w id port wanted s)
  unfolding await_serial note last_issued
  await_serial-IsRead port wanted s k =
      let (s', serial) = probe w id port (note looked s) in
      let q = probe-IsRead port (note looked s) (p.notes looked s refl k) in
      IsRead-after s s' _ q.issued (
        poll_serial-IsRead port wanted (w.monotonic s.past + ticks settle_seconds)
          (suc (ticks settle_seconds)) s' serial q.kept q.read)

  pub reload_and_read-IsRead :
      (port : ℕ) (wanted : Option String) (s : Books)
      → P s
      → IsRead s (reload_and_read w id port wanted s)
  unfolding reload_and_read note last_issued
  reload_and_read-IsRead port wanted s k =
      let s' = note (reloaded id) s in
      let k' = p.notes (reloaded id) s refl k in
      if_ind (IsRead s) (w.reloads id s.past) _ _
        (λ _. IsRead-after s s' _ refl (await_serial-IsRead port wanted s' k'))
        (λ _. IsRead-after s s' _ refl (probe-IsRead port s' k'))
