-- ===== src/Renewal/Instance/Closed.antt =====
-- What the ledger and a report preserve, given what the single acts of a renewal preserve; with what
-- the worker knows when it restarts the sidecar and when it reports success.
use greffer.Renewal.Seen.{IsMismatch, IsServed}
use greffer.Renewal.Instance.Steps.{Ending, is_renewed}
use greffer.Renewal.{
  Act, slept, saved, restarted, report_sent, World, Config, Books, Raised, returned, note, has_key,
  save_unconfirmed, owe, clear_debt, note_failure, clear_backoff,
}
use greffer.Renewal.Report.{
  Settlement, settled, stands, again, settlement, report_attempts, conclude, attempts, report,
}
use greffer.Renewal.Instance.{renewed, InstanceOutcome, outcome}
use greffer.Prelude.{
  ℕ, zero, suc, String, ◌≡◌, refl, Bool, true, false, Option, if◌then◌else◌, ◌==◌, nat_eq,
  string_eq, or_else, Dict, put, pop, if_ind,
}

abbrev pub is_restart : Act → Bool
is_restart (restarted id) = true
is_restart _ = false

-- `P` is preserved by each act; a restart of the sidecar needs a mismatch, and a success that the
-- certificate is served.
pub record IsClosed (P : Books → Type 0) (Q : Ending → Type 0) (w : World) (c : Config)
    (id : String) : Type 0 where
  pub notes : (act : Act) (s : Books) → is_restart act ≡ false → P s → P (note act s)
  pub restarts : (s : Books) → IsMismatch id s.past → P s → P (note (restarted id) s)
  pub files :
      (debts file : Dict String String) (s : Books)
      → P s
      → P (record s { unconfirmed = debts; file = file })
  pub fails : (s : Books) → P s → P (note_failure w c id s)
  pub blinds : (streak : ℕ) (s : Books) → P s → P (record s { blind_streak = streak })
  pub eases : (s : Books) → P s → P (clear_backoff id s)
  pub lands :
      (serial : Option String) (s : Books)
      → IsServed id serial s.past
      → P s
      → Q (clear_backoff id s, returned (outcome renewed serial))
  pub ends : (s : Books) (r : Raised InstanceOutcome) → is_renewed r ≡ false → P s → Q (s, r)

module _ {P : Books → Type 0} {Q : Ending → Type 0} {w : World} {c : Config} {id : String}
    (p : IsClosed P Q w c id) where
  save_unconfirmed-IsClosed : (s : Books) → P s → P (save_unconfirmed w s)
  unfolding save_unconfirmed
  save_unconfirmed-IsClosed s k = p.notes saved _ refl (
      if_ind P (w.is_writable s.past) (record s { file = s.unconfirmed }) s
        (λ _. p.files s.unconfirmed s.unconfirmed s k) (λ _. k))

  pub owe-IsClosed : (serial : Option String) (s : Books) → P s → P (owe w id serial s)
  unfolding owe
  owe-IsClosed serial s k =
      let debts = put s.unconfirmed id (or_else serial "") in
      save_unconfirmed-IsClosed (record s { unconfirmed = debts }) (p.files debts s.file s k)

  pub clear_debt-IsClosed : (s : Books) → P s → P (clear_debt w id s)
  unfolding clear_debt
  clear_debt-IsClosed s k =
      let debts = pop s.unconfirmed id in
      if_ind P (has_key s.unconfirmed id) _ s
        (λ _.
          save_unconfirmed-IsClosed (record s { unconfirmed = debts }) (p.files debts s.file s k))
        (λ _. k)

  conclude-IsClosed :
      (v : Settlement) (retry : Books → Books) (s : Books)
      → ((r : Books) → P r → P (retry r))
      → P s
      → P (conclude w id v retry s)
  unfolding conclude
  conclude-IsClosed settled retry s later k = clear_debt-IsClosed s k
  conclude-IsClosed stands retry s later k = k
  conclude-IsClosed again retry s later k = later s k

  attempts-IsClosed :
      (serial : Option String) (left : ℕ) (s : Books) → P s → P (attempts w id serial left s)
  unfolding attempts
  attempts-IsClosed serial zero s k = k
  attempts-IsClosed serial (suc left) s k =
      let answer = w.report_answer id s.past in
      conclude-IsClosed (settlement answer)
        (λ r. attempts w id serial left (if left == 0 then r else note slept r))
        (note (report_sent id serial answer) s)
        (λ r kept.
          attempts-IsClosed serial left (if left == 0 then r else note slept r)
            (if_ind P (left == 0) r (note slept r) (λ _. kept) (λ _. p.notes slept r refl kept)))
        (p.notes (report_sent id serial answer) s refl k)

  pub report-IsClosed : (serial : Option String) (s : Books) → P s → P (report w id serial s)
  unfolding report
  report-IsClosed serial s k =
      attempts-IsClosed serial report_attempts (owe w id serial s) (owe-IsClosed serial s k)
