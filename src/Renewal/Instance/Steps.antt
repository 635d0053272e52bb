-- ===== src/Renewal/Instance/Steps.antt =====
-- What `renew_one` preserves, given what its cheap steps, a report and a due renewal preserve.
use greffer.Renewal.Instance.{
  RenewalStatus, renewed, not_due, skipped, InstanceOutcome, outcome, skip, probe, renew_due,
  due_for_renewal, count_blind, renew_settled, renew_on_port, on_port, renew_locked, report_debt_on,
  report_debt_locked, report_debt, on_lock, renew_one,
}
use greffer.Renewal.Report.{report}
use greffer.Renewal.{
  looked, probed, World, Config, Books, Raised, returned, note, has_key, in_backoff, clear_backoff,
}
use greffer.Prelude.{
  ℕ, String, ◌≡◌, refl, Bool, true, false, not, ◌&&◌, Option, none, some, nat_eq, string_eq, if_ind,
}

abbrev pub Ending : Type 0
Ending = Books × Raised InstanceOutcome

unfoldable pub is_renewed_status : RenewalStatus → Bool
is_renewed_status renewed = true
is_renewed_status _ = false

abbrev pub is_renewed : Raised InstanceOutcome → Bool
is_renewed (returned o) = is_renewed_status o.status
is_renewed _ = false

-- `P` holds of the books on the way, and `Q` of them and the result at the end.
pub record IsStable (P : Books → Type 0) (Q : Ending → Type 0) (w : World) (c : Config)
    (id : String) : Type 0 where
  pub looks : (s : Books) → P s → P (note looked s)
  pub reads : (port : ℕ) (s : Books) → P s → P (probe w id port s).0
  pub counts : (serial : Option String) (s : Books) → P s → P (count_blind serial s)
  pub eases : (s : Books) → P s → P (clear_backoff id s)
  pub reports : (serial : Option String) (s : Books) → P s → P (report w id serial s)
  pub renews :
      (port : ℕ) (before : Option String) (s : Books) → P s → Q (renew_due w c id port before s)
  pub ends : (s : Books) (r : Raised InstanceOutcome) → is_renewed r ≡ false → P s → Q (s, r)

module _ {P : Books → Type 0} {Q : Ending → Type 0} {w : World} {c : Config} {id : String}
    (p : IsStable P Q w c id) where
  renew_settled-IsStable :
      (port : ℕ) (force : Bool) (s : Books) → P s → Q (renew_settled w c id port force s)
  unfolding renew_settled probe is_renewed_status
  renew_settled-IsStable port force s k =
      let (serial, expiry) = w.served port s.past in
      let s₀ = note (probed id serial) s in
      let s₁ = note looked (count_blind serial s₀) in
      let k₁ = p.looks (count_blind serial s₀) (p.counts serial s₀ (p.reads port s k)) in
      if_ind Q (not force && not (due_for_renewal c.window_days (w.wall_clock s₁.past) expiry)) _ _
        (λ _. p.ends (clear_backoff id s₁) (returned (outcome not_due serial)) refl (p.eases s₁ k₁))
        (λ _. p.renews port serial s₁ k₁)

  renew_on_port-IsStable :
      (port : ℕ) (force : Bool) (s : Books) → P s → Q (renew_on_port w c id port force s)
  unfolding renew_on_port is_renewed_status
  renew_on_port-IsStable port force s k =
      let s₁ = note looked s in
      let s₂ = note looked s₁ in
      let k₁ = p.looks s k in
      let k₂ = p.looks s₁ k₁ in
      if_ind Q (w.is_inflight id s.past) _ _ (λ _. p.ends s₁ (skip "compose_inflight") refl k₁)
        (λ _.
          if_ind Q (w.is_settling id s₁.past) _ _ (λ _. p.ends s₂ (skip "sidecar_settling") refl k₂)
            (λ _. renew_settled-IsStable port force s₂ k₂))

  on_port-IsStable :
      (force : Bool) (port : Option ℕ) (s : Books) → P s → Q (on_port w c id force port s)
  unfolding on_port is_renewed_status
  on_port-IsStable force none s k = p.ends s (returned (outcome skipped none)) refl k
  on_port-IsStable force (some port) s k = renew_on_port-IsStable port force s k

  renew_locked-IsStable : (force : Bool) (s : Books) → P s → Q (renew_locked w c id force s)
  unfolding renew_locked is_renewed_status
  renew_locked-IsStable force s k =
      let s₁ = note looked s in
      let k₁ = p.looks s k in
      if_ind Q (in_backoff w id s && not force) _ _
        (λ _. p.ends s₁ (returned (outcome skipped none)) refl k₁)
        (λ _. on_port-IsStable force (w.host_port id s₁.past) (note looked s₁) (p.looks s₁ k₁))

  report_debt_on-IsStable : (port : Option ℕ) (s : Books) → P s → P (report_debt_on w c id port s)
  unfolding report_debt_on
  report_debt_on-IsStable none s k = k
  report_debt_on-IsStable (some port) s k =
      let (s', serial) = probe w id port s in p.reports serial s' (p.reads port s k)

  report_debt_locked-IsStable :
      (refusal : Option String) (s : Books) → P s → P (report_debt_locked w c id refusal s)
  unfolding report_debt_locked
  report_debt_locked-IsStable (some refusal) s k = k
  report_debt_locked-IsStable none s k =
      report_debt_on-IsStable (w.host_port id s.past) (note looked s) (p.looks s k)

  report_debt-IsStable : (s : Books) → P s → P (report_debt w c id s)
  unfolding report_debt
  report_debt-IsStable s k =
      let s₁ = note looked s in
      let s₂ = note looked s₁ in
      let k₁ = p.looks s k in
      let k₂ = p.looks s₁ k₁ in
      if_ind P (not (has_key s.unconfirmed id)) _ _ (λ _. k)
        (λ _.
          if_ind P (w.is_inflight id s.past) _ _ (λ _. k₁)
            (λ _.
              if_ind P (w.is_settling id s₁.past) _ _ (λ _. k₂)
                (λ _.
                  report_debt_locked-IsStable (w.lock_refusal id s₂.past) (note looked s₂)
                    (p.looks s₂ k₂))))

  on_lock-IsStable :
      (force : Bool) (refusal : Option String) (s : Books)
      → P s
      → Q (on_lock w c id force refusal s)
  unfolding on_lock skip is_renewed_status
  on_lock-IsStable force (some refusal) s k = p.ends s (skip refusal) refl k
  on_lock-IsStable force none s k = renew_locked-IsStable force s k

  pub renew_one-IsStable : (force : Bool) (s : Books) → P s → Q (renew_one w c id force s)
  unfolding renew_one
  renew_one-IsStable force s k =
      let s₁ = report_debt w c id s in
      on_lock-IsStable force (w.lock_refusal id s₁.past) (note looked s₁)
        (p.looks s₁ (report_debt-IsStable s k))
