-- ===== src/Renewal/Owed/Sent.antt =====
-- A mint and a report leave the ledger in order, and so does all that one renewal sends.
use greffer.Renewal.Owed.Quiet.{note-IsQuiet, IsQuiet-refl, note_failure-IsQuiet}
use greffer.Renewal.Owed.{
  report_sent-IsKept, clear_debt-IsKept, IsQuiet-IsKept, may_be_issued, is_final, is_unresolved,
  IsKept, IsQuiet, owe-IsKept,
}
use greffer.Renewal.{
  report_sent, slept, Http, Answered, http, lost, Past, World, Config, Books, Raised, returned,
  renewal_unavailable, node_rate_limited, node_auth_lost, crashed, note, owe, note_failure,
}
use greffer.Renewal.Serial.{occurs}
use greffer.Renewal.Mint.{parsed, on_minted, on_mint_answer}
use greffer.Renewal.Report.{
  Settlement, settled, stands, again, settlement, report_attempts, conclude, attempts, report,
}
use greffer.Prelude.{
  ℕ, zero, suc, String, ◌≡◌, refl, Bool, true, false, ◌||◌, Option, none, some, arith, eq_iff,
  if◌then◌else◌, ◌==◌, ◌!=◌, nat_eq, string_eq, if_ind,
}

-- The manager refused: no certificate, and no doubt about it.
abbrev pub is_refusal : Raised (Option (Option String)) → Bool
is_refusal crashed = false
is_refusal (returned (some wanted)) = false
is_refusal (returned none) = true
is_refusal renewal_unavailable = true
is_refusal node_rate_limited = true
is_refusal node_auth_lost = true

parsed-is_refusal : (json : Option (Option String)) → is_refusal (parsed json) ≡ false
unfolding parsed
parsed-is_refusal none = refl
parsed-is_refusal (some serial) = refl

-- What holds of the answers of `_mint`, whatever the branch.
pub on_minted_ind :
    (P : Books × Raised (Option (Option String)) → Type 0) (w : World) (c : Config) (id : String)
    (res : Http) (s : Books)
    → ((r : Raised (Option (Option String)))
        → (res.status == 200) ≡ false
        → is_refusal r ≡ true
        → P (s, r))
    → ((res.status == 200) ≡ false → P (note_failure w c id s, returned none))
    → ((res.status == 200) ≡ true → P (s, parsed res.json))
    → P (on_minted w c id res s)
unfolding on_minted
on_minted_ind P w c id res s refused backed_off answered =
    if_ind P (res.status == 404) _ _
      (λ gone.
        if_ind P (occurs "not_found" res.text) _ _
          (λ _. refused (returned none) (ground (arith, gone)) refl)
          (λ _. refused renewal_unavailable (ground (arith, gone)) refl))
      (λ _.
        if_ind P (res.status == 429) _ _
          (λ limited.
            if_ind P (occurs "rate_limited" res.text) _ _
              (λ _. refused node_rate_limited (ground (arith, limited)) refl)
              (λ _. backed_off (ground (arith, limited))))
          (λ _.
            if_ind P (res.status == 401 || res.status == 403) _ _
              (λ rejected. refused node_auth_lost (ground (arith, rejected)) refl)
              (λ _.
                if_ind P (res.status != 200) _ _ (λ other. backed_off (ground (arith, other)))
                  (λ ok. answered (ground (arith, ok))))))

module _ (w : World) (c : Config) (id : String) where
  on_minted-IsQuiet : (res : Http) (s : Books) → IsQuiet s (on_minted w c id res s).0
  on_minted-IsQuiet res s =
      on_minted_ind (λ r. IsQuiet s r.0) w c id res s (λ r _ _. IsQuiet-refl s)
        (λ _. note_failure-IsQuiet w c id s) (λ _. IsQuiet-refl s)

  pub on_mint_answer-IsQuiet :
      (answer : Answered) (s : Books) → IsQuiet s (on_mint_answer w c id answer s).0
  unfolding on_mint_answer
  on_mint_answer-IsQuiet lost s = IsQuiet-refl s
  on_mint_answer-IsQuiet (http res) s = on_minted-IsQuiet res s

  -- A refusal is certain: nothing was issued.
  pub on_mint_answer_refused :
      (answer : Answered) (s : Books)
      → is_refusal (on_mint_answer w c id answer s).1 ≡ true
      → may_be_issued answer ≡ false
  unfolding on_mint_answer may_be_issued
  on_mint_answer_refused lost s h = cc h
  on_mint_answer_refused (http res) s h =
      on_minted_ind (λ r. is_refusal r.1 ≡ true → (res.status == 200) ≡ false) w c id res s
        (λ r not_ok _ _. not_ok) (λ not_ok _. not_ok)
        (λ _ impossible. cc (parsed-is_refusal res.json, impossible)) h

slept-IsKept : (s : Books) → IsKept s → IsKept (note slept s)
unfolding is_unresolved
slept-IsKept s k = IsQuiet-IsKept (note-IsQuiet slept s λ j. refl) k

module _ (w : World) (writable : (past : Past) → w.is_writable past ≡ true) (id : String) where
  -- A report that is concluded as settled was dealt with.
  settled_final : (answer : Answered) → settlement answer ≡ settled → is_final answer ≡ true
  unfolding settlement is_final
  settled_final lost e = cc e
  settled_final (http res) e = ground (arith, e)

  conclude-IsKept :
      (serial : Option String) (answer : Answered) (v : Settlement) (retry : Books → Books)
      (s : Books)
      → settlement answer ≡ v
      → ((r : Books) → IsKept r → IsKept (retry r))
      → IsKept (note (report_sent id serial answer) s)
      → IsKept (conclude w id v retry (note (report_sent id serial answer) s))
  unfolding conclude note is_unresolved
  conclude-IsKept serial answer settled retry s e later k =
      clear_debt-IsKept w writable id (note (report_sent id serial answer) s)
        (ground (arith, settled_final answer e, eq_iff id id)) k
  conclude-IsKept serial answer stands retry s e later k = k
  conclude-IsKept serial answer again retry s e later k =
      later (note (report_sent id serial answer) s) k

  attempts-IsKept :
      (serial : Option String) (left : ℕ) (s : Books)
      → IsKept s
      → IsKept (attempts w id serial left s)
  unfolding attempts
  attempts-IsKept serial zero s k = k
  attempts-IsKept serial (suc left) s k =
      let answer = w.report_answer id s.past in
      conclude-IsKept serial answer (settlement answer)
        (λ r. attempts w id serial left (if left == 0 then r else note slept r)) s refl
        (λ r kept.
          attempts-IsKept serial left (if left == 0 then r else note slept r)
            (if_ind IsKept (left == 0) r (note slept r) (λ _. kept) (λ _. slept-IsKept r kept)))
        (report_sent-IsKept w writable id serial answer s k)

  pub report-IsKept :
      (serial : Option String) (s : Books) → IsKept s → IsKept (report w id serial s)
  unfolding report
  report-IsKept serial s k =
      attempts-IsKept serial report_attempts (owe w id serial s)
        (owe-IsKept w writable id serial s k)
