-- ===== src/Renewal/Report.antt =====
-- `_report` of app/workers/cert_renewal.py.
use greffer.Renewal.Serial.{occurs}
use greffer.Prelude.{
  ℕ, zero, suc, String, not, ◌&&◌, ◌||◌, Option, ltb, if◌then◌else◌, ◌==◌, nat_eq, string_eq,
}
use greffer.Renewal.{
  Http, Answered, http, lost, slept, report_sent, World, Books, note, owe, clear_debt,
}

-- What an attempt means for the debt: it is settled, it stands, or it is tried again.
pub data Settlement : Type 0 where
  settled stands again : Settlement

unfoldable pub settlement_of : Http → Settlement
unfolding occurs
settlement_of res =
    if res.status == 200
    then settled
    else if res.status == 409
    then settled
    else if res.status == 401 || res.status == 403
    then stands
    else if res.status == 404 && not (occurs "not_found" res.text)
    then stands
    else if ltb res.status 500
    then settled
    else again

unfoldable pub settlement : Answered → Settlement
unfolding settlement_of
settlement lost = again
settlement (http res) = settlement_of res

-- `_REPORT_ATTEMPTS`
abbrev pub report_attempts : ℕ
report_attempts = 3

-- After an attempt; the sleep is only between two attempts.
unfoldable pub conclude : World → String → Settlement → (Books → Books) → Books → Books
unfolding clear_debt
conclude w id settled retry s = clear_debt w id s
conclude w id stands retry s = s
conclude w id again retry s = retry s

-- The attempts that are left.
unfoldable pub attempts : World → String → Option String → ℕ → Books → Books
unfolding conclude settlement note
attempts w id serial zero s = s
attempts w id serial (suc left) s =
    let answer = w.report_answer id s.past in
    conclude w id (settlement answer)
      (λ r. attempts w id serial left (if left == 0 then r else note slept r))
      (note (report_sent id serial answer) s)

unfoldable pub report : World → String → Option String → Books → Books
unfolding attempts owe
report w id serial s = attempts w id serial report_attempts (owe w id serial s)
