-- ===== src/Renewal/Instance/Told.antt =====
-- What a report tells the manager, and that it reads nothing.
use greffer.Renewal.Seen.{last_reading, last_issued, last_report}
use greffer.Renewal.{
  Answered, slept, saved, report_sent, World, Books, note, has_key, save_unconfirmed, owe,
  clear_debt,
}
use greffer.Renewal.Report.{
  Settlement, settled, stands, again, settlement, conclude, attempts, report,
}
use greffer.Prelude.{
  ℕ, zero, suc, String, ◌≡◌, refl, ap, ◌∙◌, Option, some, ◌∷◌, arith, eq_iff, if◌then◌else◌, ◌==◌,
  nat_eq, string_eq, or_else, put, pop, if_ind,
}

-- A report sends a serial and reads nothing.
pub record IsTold (id : String) (serial : Option String) (s t : Books) : Type 0 where
  pub told : last_report id t.past ≡ some serial
  pub read : last_reading id t.past ≡ last_reading id s.past
  pub issued : last_issued id t.past ≡ last_issued id s.past

save_past : (w : World) (s : Books) → (save_unconfirmed w s).past ≡ saved ∷ s.past
unfolding save_unconfirmed note
save_past w s =
    if_ind (λ (r : Books). saved ∷ r.past ≡ saved ∷ s.past) (w.is_writable s.past)
      (record s { file = s.unconfirmed }) s (λ _. refl) (λ _. refl)

-- Nothing was sent to the manager and nothing was read.
record IsIdle (id : String) (s t : Books) : Type 0 where
  same_told : last_report id t.past ≡ last_report id s.past
  same_read : last_reading id t.past ≡ last_reading id s.past
  same_issued : last_issued id t.past ≡ last_issued id s.past

IsIdle-refl : (id : String) (s : Books) → IsIdle id s s
IsIdle-refl id s = record { same_told = refl; same_read = refl; same_issued = refl }

save-IsIdle : (w : World) (id : String) (s : Books) → IsIdle id s (save_unconfirmed w s)
unfolding last_report last_reading last_issued
save-IsIdle w id s = record {
  same_told = ap (last_report id) (save_past w s);
  same_read = ap (last_reading id) (save_past w s);
  same_issued = ap (last_issued id) (save_past w s);
}

clear_debt-IsIdle : (w : World) (id : String) (s : Books) → IsIdle id s (clear_debt w id s)
unfolding clear_debt
clear_debt-IsIdle w id s =
    if_ind (IsIdle id s) (has_key s.unconfirmed id) _ s
      (λ _.
        let q = save-IsIdle w id (record s { unconfirmed = pop s.unconfirmed id }) in
        record { same_told = q.same_told; same_read = q.same_read; same_issued = q.same_issued })
      (λ _. IsIdle-refl id s)

module _ (w : World) (id : String) (serial : Option String) where
  IsIdle-IsTold : (s t u : Books) → IsIdle id t u → IsTold id serial s t → IsTold id serial s u
  IsIdle-IsTold s t u q told = record {
    told = q.same_told ∙ told.told;
    read = q.same_read ∙ told.read;
    issued = q.same_issued ∙ told.issued;
  }

  IsTold-sent :
      (answer : Answered) (s t : Books)
      → last_reading id t.past ≡ last_reading id s.past
      → last_issued id t.past ≡ last_issued id s.past
      → IsTold id serial s (note (report_sent id serial answer) t)
  unfolding note last_report last_reading last_issued
  IsTold-sent answer s t read issued = record {
    told = ground (arith, eq_iff id id);
    read = read;
    issued = issued;
  }

  conclude-IsTold :
      (v : Settlement) (retry : Books → Books) (s t : Books)
      → ((r : Books) → IsTold id serial s r → IsTold id serial s (retry r))
      → IsTold id serial s t
      → IsTold id serial s (conclude w id v retry t)
  unfolding conclude
  conclude-IsTold settled retry s t later told =
      IsIdle-IsTold s t (clear_debt w id t) (clear_debt-IsIdle w id t) told
  conclude-IsTold stands retry s t later told = told
  conclude-IsTold again retry s t later told = later t told

  slept-IsIdle : (s : Books) → IsIdle id s (note slept s)
  unfolding note last_report last_reading last_issued
  slept-IsIdle s = record { same_told = refl; same_read = refl; same_issued = refl }

  attempt-IsTold :
      (left : ℕ) (s t : Books)
      → last_reading id t.past ≡ last_reading id s.past
      → last_issued id t.past ≡ last_issued id s.past
      → ((r : Books) → IsTold id serial s r → IsTold id serial s (attempts w id serial left r))
      → IsTold id serial s (attempts w id serial (suc left) t)
  unfolding attempts
  attempt-IsTold left s t read issued later =
      let answer = w.report_answer id t.past in
      conclude-IsTold (settlement answer)
        (λ r. attempts w id serial left (if left == 0 then r else note slept r)) s
        (note (report_sent id serial answer) t)
        (λ r so_far. later (if left == 0 then r else note slept r) (
          if_ind (IsTold id serial s) (left == 0) r (note slept r) (λ _. so_far)
            (λ _. IsIdle-IsTold s r (note slept r) (slept-IsIdle r) so_far)))
        (IsTold-sent answer s t read issued)

  attempts_none :
      (s t : Books) → IsTold id serial s t → IsTold id serial s (attempts w id serial zero t)
  unfolding attempts
  attempts_none s t told = told

  attempts-IsTold :
      (left : ℕ) (s t : Books)
      → IsTold id serial s t
      → IsTold id serial s (attempts w id serial left t)
  attempts-IsTold zero s t told = attempts_none s t told
  attempts-IsTold (suc left) s t told =
      attempt-IsTold left s t told.read told.issued (attempts-IsTold left s)

  owe-IsIdle : (s : Books) → IsIdle id s (owe w id serial s)
  unfolding owe
  owe-IsIdle s =
      let q =
        save-IsIdle w id (record s { unconfirmed = put s.unconfirmed id (or_else serial "") }) in
      record { same_told = q.same_told; same_read = q.same_read; same_issued = q.same_issued }

  pub report-IsTold : (s : Books) → IsTold id serial s (report w id serial s)
  unfolding report
  report-IsTold s =
      let q = owe-IsIdle s in
      attempt-IsTold 2 s (owe w id serial s) q.same_read q.same_issued (attempts-IsTold 2 s)
