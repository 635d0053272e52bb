-- ===== src/Renewal/Owed/Instances.antt =====
-- A renewal of one instance leaves the ledger in order, however it ends.
use greffer.Renewal.Instance.Steps.{Ending, renew_one-IsStable}
use greffer.Renewal.Owed.Quiet.{
  note_failure-IsQuiet, clear_backoff-IsQuiet, note-IsQuiet, looked-IsQuiet, count_blind-IsQuiet,
  probe-IsQuiet, escalate-IsQuiet, reload_and_read-IsQuiet, judge_served-IsQuiet,
}
use greffer.Renewal.Owed.Sent.{
  is_refusal, on_mint_answer-IsQuiet, on_mint_answer_refused, report-IsKept,
}
use greffer.Renewal.Owed.{
  may_be_issued, is_unresolved, IsKept, IsQuiet-trans, IsQuiet-IsKept, clear_debt-IsKept,
  owe-IsKept, has_key-put,
}
use greffer.Renewal.{
  Answered, mint_sent, installed, Past, World, Config, Books, Raised, returned, renewal_unavailable,
  node_rate_limited, node_auth_lost, crashed, note, has_key, save_unconfirmed, owe,
}
use greffer.Renewal.Mint.{on_mint_answer, mint}
use greffer.Renewal.Report.{report}
use greffer.Renewal.Instance.{
  escalate, reload_and_read, on_issued, unless_owed, on_certificate, renew_due, renew_one,
  renew_one,
}
use greffer.Prelude.{
  ℕ, String, ◌≡◌, refl, ◌∙◌, inl, inr, Bool, true, false, Option, none, some, arith, eq_iff,
  if◌then◌else◌, ◌==◌, nat_eq, string_eq, Bool-cases, or_else, put, if_ind,
}

module _ (w : World) (writable : (past : Past) → w.is_writable past ≡ true) (c : Config)
    (id : String) where
  minted-IsKept :
      (answer : Answered) (s : Books)
      → has_key s.unconfirmed id ≡ true
      → IsKept s
      → IsKept (note (mint_sent id answer) s)
  unfolding note is_unresolved
  minted-IsKept answer s there k = record {
    synced = k.synced;
    owed = λ j h. elim (Bool-cases (id == j)) [
      | inl same ↦ rw (← (eq_iff id j).0 same) there
      | inr other ↦ k.owed j (ground (arith, h, other))
    ];
  }

  mint_resolved :
      (answer : Answered) (s : Books)
      → may_be_issued answer ≡ false
      → is_unresolved id s.past ≡ false
      → is_unresolved id (note (mint_sent id answer) s).past ≡ false
  unfolding note is_unresolved
  mint_resolved answer s refused resolved = ground (arith, refused, resolved)

  owe_filed :
      (serial : Option String) (s : Books) → has_key (owe w id serial s).unconfirmed id ≡ true
  unfolding owe save_unconfirmed note
  owe_filed serial s =
      let t : Books = record s { unconfirmed = put s.unconfirmed id (or_else serial "") } in
      let there =
        has_key-put s.unconfirmed id id (or_else serial "") ∙ ground (arith, eq_iff id id) in
      if_ind (λ (r : Books). has_key r.unconfirmed id ≡ true) (w.is_writable s.past)
        (record t { file = t.unconfirmed }) t (λ _. there) (λ _. there)

  owe_past :
      (serial : Option String) (s : Books)
      → is_unresolved id (owe w id serial s).past ≡ is_unresolved id s.past
  unfolding owe save_unconfirmed note is_unresolved
  owe_past serial s =
      let t : Books = record s { unconfirmed = put s.unconfirmed id (or_else serial "") } in
      if_ind (λ (r : Books). is_unresolved id r.past ≡ is_unresolved id s.past)
        (w.is_writable s.past) (record t { file = t.unconfirmed }) t (λ _. refl) (λ _. refl)

  unless_owed-IsKept :
      (owed : Bool) (s : Books)
      → (owed ≡ false → is_unresolved id s.past ≡ false)
      → IsKept s
      → IsKept (unless_owed w id owed s)
  unfolding unless_owed
  unless_owed-IsKept true s resolved k = k
  unless_owed-IsKept false s resolved k = clear_debt-IsKept w writable id s (resolved refl) k

  module _ (port : ℕ) where
    on_issued-IsKept :
        (before wanted : Option String) (s : Books)
        → IsKept s
        → IsKept (on_issued w c id port before wanted s).0
    unfolding on_issued is_unresolved
    on_issued-IsKept before wanted s k =
        let put_in = note-IsQuiet (installed id) s λ j. refl in
        let (s₁, first) = reload_and_read w id port wanted (note (installed id) s) in
        let (s₂, serial) = escalate w id port wanted first s₁ in
        let quiet = IsQuiet-trans put_in (
          IsQuiet-trans (reload_and_read-IsQuiet w id port wanted (note (installed id) s))
            (escalate-IsQuiet w id port wanted first s₁)) in
        let reported = report-IsKept w writable id serial s₂ (IsQuiet-IsKept quiet k) in
        let unchanged =
          report-IsKept w writable id before (note (installed id) s) (IsQuiet-IsKept put_in k) in
        if_ind (λ (r : Ending). IsKept r.0) (w.installs id s.past) _ _
          (λ _.
            IsQuiet-IsKept (judge_served-IsQuiet w c id wanted serial (report w id serial s₂))
              reported)
          (λ _.
            IsQuiet-IsKept
              (note_failure-IsQuiet w c id (report w id before (note (installed id) s))) unchanged)

    on_certificate-IsKept :
        (before : Option String) (owed : Bool) (s : Books) (r : Raised (Option (Option String)))
        → IsKept s
        → (is_refusal r ≡ true → owed ≡ false → is_unresolved id s.past ≡ false)
        → IsKept (on_certificate w c id port before owed (s, r)).0
    unfolding on_certificate
    on_certificate-IsKept before owed s renewal_unavailable k resolved =
        unless_owed-IsKept owed s (resolved refl) k
    on_certificate-IsKept before owed s node_rate_limited k resolved =
        unless_owed-IsKept owed s (resolved refl) k
    on_certificate-IsKept before owed s node_auth_lost k resolved =
        unless_owed-IsKept owed s (resolved refl) k
    on_certificate-IsKept before owed s crashed k resolved = k
    on_certificate-IsKept before owed s (returned none) k resolved =
        unless_owed-IsKept owed s (resolved refl) k
    on_certificate-IsKept before owed s (returned (some wanted)) k resolved =
        on_issued-IsKept before wanted s k

    -- The books with the debt of the mint in them.
    record IsFiled (owed : Bool) (s : Books) : Type 0 where
      kept : IsKept s
      filed : has_key s.unconfirmed id ≡ true
      was_resolved : owed ≡ false → is_unresolved id s.past ≡ false

    mint-IsKept :
        (before : Option String) (owed : Bool) (s : Books)
        → IsFiled owed s
        → IsKept (on_certificate w c id port before owed (mint w c id s)).0
    unfolding mint
    mint-IsKept before owed s f =
        let answer = w.mint_answer id s.past in
        let t = note (mint_sent id answer) s in
        let run = on_mint_answer w c id answer t in
        let quiet = on_mint_answer-IsQuiet w c id answer t in
        on_certificate-IsKept before owed run.0 run.1
          (IsQuiet-IsKept quiet (minted-IsKept answer s f.filed f.kept))
          (λ refused fresh.
            quiet.same_past id
            ∙ mint_resolved answer s (on_mint_answer_refused w c id answer t refused)
                (f.was_resolved fresh))

    -- What is not owed is resolved.
    unowed_resolved :
        (s : Books) → IsKept s → has_key s.unconfirmed id ≡ false → is_unresolved id s.past ≡ false
    unowed_resolved s k e = elim (Bool-cases (is_unresolved id s.past)) [
      | inl open_still ↦ cc (k.owed id open_still, e)
      | inr resolved ↦ resolved
    ]

    debt-IsFiled :
        (before : Option String) (owed : Bool) (s : Books)
        → has_key s.unconfirmed id ≡ owed
        → IsKept s
        → IsFiled owed (if owed then s else owe w id before s)
    debt-IsFiled before true s e k = record { kept = k; filed = e; was_resolved = λ h. cc h }
    debt-IsFiled before false s e k = record {
      kept = owe-IsKept w writable id before s k;
      filed = owe_filed before s;
      was_resolved = λ _. owe_past before s ∙ unowed_resolved s k e;
    }

    renew_due-IsKept :
        (before : Option String) (s : Books) → IsKept s → IsKept (renew_due w c id port before s).0
    unfolding renew_due
    renew_due-IsKept before s k =
        let owed = has_key s.unconfirmed id in
        mint-IsKept before owed (if owed then s else owe w id before s)
          (debt-IsFiled before owed s refl k)

  pub renew_one-IsKept : (force : Bool) (s : Books) → IsKept s → IsKept (renew_one w c id force s).0
  renew_one-IsKept = renew_one-IsStable {P = IsKept} {Q = λ r. IsKept r.0} (record {
    looks = λ s. IsQuiet-IsKept (looked-IsQuiet s);
    reads = λ port s. IsQuiet-IsKept (probe-IsQuiet w id port s);
    counts = λ serial s. IsQuiet-IsKept (count_blind-IsQuiet serial s);
    eases = λ s. IsQuiet-IsKept (clear_backoff-IsQuiet id s);
    reports = report-IsKept w writable id;
    renews = renew_due-IsKept;
    ends = λ s r _ k. k;
  })
