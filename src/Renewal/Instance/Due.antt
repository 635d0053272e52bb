-- ===== src/Renewal/Instance/Due.antt =====
-- What a due renewal, and so `renew_one`, preserves, with what it knows at a restart of the sidecar
-- and at its end.
use greffer.Renewal.Seen.{last_reading, last_issued, issued_serial, IsMismatch, IsServed}
use greffer.Renewal.Owed.Sent.{is_refusal, on_minted_ind}
use greffer.Renewal.Instance.Steps.{Ending, is_renewed_status, renew_one-IsStable}
use greffer.Renewal.Instance.Closed.{IsClosed, report-IsClosed, clear_debt-IsClosed, owe-IsClosed}
use greffer.Renewal.Instance.Told.{report-IsTold}
use greffer.Renewal.Instance.Sidecar.{await_serial-IsRead, reload_and_read-IsRead}
use greffer.Renewal.{
  Answered, http, lost, looked, probed, mint_sent, installed, restarted, World, Config, Books,
  Raised, returned, renewal_unavailable, node_rate_limited, node_auth_lost, crashed, note, has_key,
  owe, clear_debt, note_failure,
}
use greffer.Renewal.Serial.{same_serial}
use greffer.Renewal.Mint.{parsed, on_mint_answer, mint}
use greffer.Renewal.Report.{report}
use greffer.Renewal.Instance.{
  count_blind, failed, outcome, probe, await_serial, escalate, reload_and_read, judge_served,
  on_issued, unless_owed, on_certificate, renew_due, renew_one,
}
use greffer.Prelude.{
  ℕ, suc, String, ◌≡◌, refl, ap, ◌∙◌, Bool, true, false, Option, none, some, arith, eq_iff,
  if◌then◌else◌, nat_eq, string_eq, if_ind,
}

parsed-some :
    (json : Option (Option String)) (wanted : Option String)
    → parsed json ≡ returned (some wanted)
    → json ≡ some wanted
unfolding parsed
parsed-some none wanted e = cc e
parsed-some (some serial) wanted e = cc e

module _ {P : Books → Type 0} {Q : Ending → Type 0} {w : World} {c : Config} {id : String}
    (p : IsClosed P Q w c id) where
  -- What `escalate` gives: a serial that matches was read.
  record IsEscalated (wanted : Option String) (s : Books) (r : Books × Option String) : Type 0 where
    kept : P r.0
    read : same_serial r.1 wanted ≡ true → last_reading id r.0.past ≡ some r.1
    issued : last_issued id r.0.past ≡ last_issued id s.past

  restart-IsEscalated :
      (port : ℕ) (wanted : Option String) (serial : String) (s : Books)
      → IsMismatch id s.past
      → same_serial (some serial) wanted ≡ false
      → P s
      → IsEscalated wanted s (
          if w.restarts id s.past
          then await_serial w id port wanted (note (restarted id) s)
          else (note (restarted id) s, some serial))
  unfolding note last_issued
  restart-IsEscalated port wanted serial s mismatch differs k =
      let s' = note (restarted id) s in
      let k' = p.restarts s mismatch k in
      let q = await_serial-IsRead p port wanted s' k' in
      if_ind (IsEscalated wanted s) (w.restarts id s.past) _ _
        (λ _. record { kept = q.kept; read = λ _. q.read; issued = q.issued })
        (λ _. record { kept = k'; read = λ e. cc (e, differs); issued = refl })

  escalate-IsEscalated :
      (port : ℕ) (wanted first : Option String) (s : Books)
      → last_reading id s.past ≡ some first
      → last_issued id s.past ≡ some wanted
      → P s
      → IsEscalated wanted s (escalate w id port wanted first s)
  unfolding escalate
  escalate-IsEscalated port wanted none s read issued k = record {
    kept = k;
    read = λ _. read;
    issued = refl;
  }
  escalate-IsEscalated port wanted (some serial) s read issued k =
      if_ind (IsEscalated wanted s) (same_serial (some serial) wanted) _ _
        (λ _. record { kept = k; read = λ _. read; issued = refl })
        (λ differs.
          restart-IsEscalated port wanted serial s
            (record {
              serial = serial;
              wanted = wanted;
              read = read;
              issued = issued;
              differs = differs;
            })
            differs k)

  judge_served-IsClosed :
      (wanted serial : Option String) (s : Books)
      → (same_serial serial wanted ≡ true → IsServed id serial s.past)
      → P s
      → Q (judge_served w c id wanted serial s)
  unfolding judge_served is_renewed_status
  judge_served-IsClosed wanted serial s served k =
      if_ind Q (same_serial serial wanted) _ _ (λ same. p.lands serial s (served same) k)
        (λ _. p.ends (note_failure w c id s) (returned (outcome failed serial)) refl (p.fails s k))

  -- After a report of what was read.
  reported-IsServed :
      (wanted serial : Option String) (s : Books)
      → last_issued id s.past ≡ some wanted
      → last_reading id s.past ≡ some serial
      → same_serial serial wanted ≡ true
      → IsServed id serial (report w id serial s).past
  reported-IsServed wanted serial s issued read same =
      let t = report-IsTold w id serial s in
      record {
        wanted = wanted;
        read = t.read ∙ read;
        issued = t.issued ∙ issued;
        sent = t.told;
        same = same;
      }

  on_issued-IsClosed :
      (port : ℕ) (before wanted : Option String) (s : Books)
      → last_issued id s.past ≡ some wanted
      → P s
      → Q (on_issued w c id port before wanted s)
  unfolding on_issued is_renewed_status note last_issued
  on_issued-IsClosed port before wanted s issued k =
      let s₀ = note (installed id) s in
      let k₀ = p.notes (installed id) s refl k in
      let (s₁, first) = reload_and_read w id port wanted s₀ in
      let q = reload_and_read-IsRead p port wanted s₀ k₀ in
      let (s₂, serial) = escalate w id port wanted first s₁ in
      let e = escalate-IsEscalated port wanted first s₁ q.read (q.issued ∙ issued) q.kept in
      let stale = report w id before s₀ in
      if_ind Q (w.installs id s.past) _ _
        (λ _.
          judge_served-IsClosed wanted serial (report w id serial s₂)
            (λ same.
              reported-IsServed wanted serial s₂ (e.issued ∙ q.issued ∙ issued) (e.read same) same)
            (report-IsClosed p serial s₂ e.kept))
        (λ _.
          p.ends (note_failure w c id stale) (returned (outcome failed before)) refl
            (p.fails stale (report-IsClosed p before s₀ k₀)))

  unless_owed-IsClosed : (owed : Bool) (s : Books) → P s → P (unless_owed w id owed s)
  unfolding unless_owed
  unless_owed-IsClosed owed s k =
      if_ind P owed s (clear_debt w id s) (λ _. k) (λ _. clear_debt-IsClosed p s k)

  on_certificate-IsClosed :
      (port : ℕ) (before : Option String) (owed : Bool) (s : Books)
      (r : Raised (Option (Option String)))
      → ((wanted : Option String)
          → r ≡ returned (some wanted)
          → last_issued id s.past ≡ some wanted)
      → P s
      → Q (on_certificate w c id port before owed (s, r))
  unfolding on_certificate is_renewed_status
  on_certificate-IsClosed port before owed s renewal_unavailable issued k =
      p.ends (unless_owed w id owed s) renewal_unavailable refl (unless_owed-IsClosed owed s k)
  on_certificate-IsClosed port before owed s node_rate_limited issued k =
      p.ends (unless_owed w id owed s) node_rate_limited refl (unless_owed-IsClosed owed s k)
  on_certificate-IsClosed port before owed s node_auth_lost issued k =
      p.ends (unless_owed w id owed s) node_auth_lost refl (unless_owed-IsClosed owed s k)
  on_certificate-IsClosed port before owed s crashed issued k = p.ends s crashed refl k
  on_certificate-IsClosed port before owed s (returned none) issued k =
      p.ends (unless_owed w id owed s) (returned (outcome failed before)) refl
        (unless_owed-IsClosed owed s k)
  on_certificate-IsClosed port before owed s (returned (some wanted)) issued k =
      on_issued-IsClosed port before wanted s (issued wanted refl) k

  -- An answer to a mint, and what it issued.
  record IsAnswered (r : Books × Raised (Option (Option String))) : Type 0 where
    kept : P r.0
    issued :
        (wanted : Option String)
        → r.1 ≡ returned (some wanted)
        → last_issued id r.0.past ≡ some wanted

  on_mint_answer-IsAnswered :
      (answer : Answered) (s : Books)
      → last_issued id s.past ≡ issued_serial answer
      → P s
      → IsAnswered (on_mint_answer w c id answer s)
  unfolding on_mint_answer issued_serial
  on_mint_answer-IsAnswered lost s issued k = record { kept = k; issued = λ wanted e. cc e }
  on_mint_answer-IsAnswered (http res) s issued k =
      on_minted_ind IsAnswered w c id res s
        (λ r _ refused. record { kept = k; issued = λ wanted e. cc (ap is_refusal e, refused) })
        (λ _. record { kept = p.fails s k; issued = λ wanted e. cc e })
        (λ ok. record {
          kept = k;
          issued = λ wanted e. issued ∙ rw ok (parsed-some res.json wanted e);
        })

  renew_due-IsClosed :
      (port : ℕ) (before : Option String) (s : Books) → P s → Q (renew_due w c id port before s)
  unfolding renew_due mint note last_issued
  renew_due-IsClosed port before s k =
      let owed = has_key s.unconfirmed id in
      let filed : Books = if owed then s else owe w id before s in
      let kept = if_ind P owed s (owe w id before s) (λ _. k) (λ _. owe-IsClosed p before s k) in
      let answer = w.mint_answer id filed.past in
      let t = note (mint_sent id answer) filed in
      let run = on_mint_answer w c id answer t in
      let a =
        on_mint_answer-IsAnswered answer t (ground (arith, eq_iff id id))
          (p.notes (mint_sent id answer) filed refl kept) in
      on_certificate-IsClosed port before owed run.0 run.1 a.issued a.kept

  count_blind-IsClosed : (serial : Option String) (s : Books) → P s → P (count_blind serial s)
  unfolding count_blind
  count_blind-IsClosed none s k = p.blinds (suc s.blind_streak) s k
  count_blind-IsClosed (some serial) s k = p.blinds 0 s k

  pub renew_one-IsClosed : (force : Bool) (s : Books) → P s → Q (renew_one w c id force s)
  unfolding probe
  renew_one-IsClosed = renew_one-IsStable {P = P} {Q = Q} {w = w} {c = c} {id = id} (record {
    looks = λ s. p.notes looked s refl;
    reads = λ port s. p.notes (probed id (w.served port s.past).0) s refl;
    counts = count_blind-IsClosed;
    eases = p.eases;
    reports = report-IsClosed p;
    renews = renew_due-IsClosed;
    ends = p.ends;
  })
