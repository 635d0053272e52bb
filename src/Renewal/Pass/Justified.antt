-- ===== src/Renewal/Pass/Justified.antt =====
-- Why sidecars are restarted, over any history.
use greffer.Renewal.Owed.Histories.{fresh}
use greffer.Renewal.Seen.{IsMismatch}
use greffer.Renewal.Pass.Runs.{IsPassStable, history-IsPassStable}
use greffer.Renewal.Instance.Closed.{IsClosed, is_restart}
use greffer.Renewal.Instance.Due.{renew_one-IsClosed}
use greffer.Renewal.Instance.Steps.{Ending}
use greffer.Renewal.Worker.{Happening, history}
use greffer.Renewal.{
  Act, looked, slept, saved, probed, mint_sent, installed, reloaded, restarted, report_sent,
  forgotten, Past, World, Config, Books, note, save_unconfirmed, set_defaults, load_unconfirmed,
  note_failure, clear_backoff,
}
use greffer.Prelude.{String, ◌≡◌, false, List, [], ◌∷◌, nat_eq, string_eq, if_ind}

-- At each restart the sidecar had been read, and served another certificate than the one issued.
abbrev pub IsJustified : Past → Type 0
IsJustified [] = Unit
IsJustified (restarted id ∷ past) = IsMismatch id past × IsJustified past
IsJustified (_ ∷ past) = IsJustified past

-- Another act needs no reason.
IsJustified-cons :
    (act : Act) (past : Past) → is_restart act ≡ false → IsJustified past → IsJustified (act ∷ past)
IsJustified-cons looked past e k = k
IsJustified-cons slept past e k = k
IsJustified-cons saved past e k = k
IsJustified-cons (probed id serial) past e k = k
IsJustified-cons (mint_sent id answer) past e k = k
IsJustified-cons (installed id) past e k = k
IsJustified-cons (reloaded id) past e k = k
IsJustified-cons (restarted id) past e k = cc e
IsJustified-cons (report_sent id serial answer) past e k = k
IsJustified-cons (forgotten id) past e k = k

abbrev Tidy : Books → Type 0
Tidy s = IsJustified s.past

module _ (w : World) (c : Config) where
  Tidy-IsClosed : (id : String) → IsClosed Tidy (λ (r : Ending). Tidy r.0) w c id
  unfolding note note_failure clear_backoff
  Tidy-IsClosed id = record {
    notes = λ act s e k. IsJustified-cons act s.past e k;
    restarts = λ s mismatch k. (mismatch, k);
    files = λ debts file s k. k;
    fails = λ s k. k;
    blinds = λ streak s k. k;
    eases = λ s k. k;
    lands = λ serial s served k. k;
    ends = λ s r e k. k;
  }

  Tidy-save_unconfirmed : (s : Books) → Tidy s → Tidy (save_unconfirmed w s)
  unfolding save_unconfirmed note
  Tidy-save_unconfirmed s k =
      if_ind Tidy (w.is_writable s.past) (record s { file = s.unconfirmed }) s (λ _. k) (λ _. k)

  Tidy-load_unconfirmed : (s : Books) → Tidy s → Tidy (load_unconfirmed w s)
  unfolding load_unconfirmed note
  Tidy-load_unconfirmed s k =
      if_ind Tidy (w.is_readable s.past)
        (record s { unconfirmed = set_defaults s.file s.unconfirmed }) s (λ _. k) (λ _. k)

  Tidy-IsPassStable : IsPassStable Tidy Tidy w c
  unfolding note note_failure
  Tidy-IsPassStable = record {
    looks = λ s k. k;
    fails = λ id s k. k;
    blinds = λ streak s k. k;
    renews = λ id. renew_one-IsClosed (Tidy-IsClosed id);
    forgets = λ id s k. k;
    prunes = λ statuses s k. k;
    saves = Tidy-save_unconfirmed;
    loads = Tidy-load_unconfirmed;
    goes_on = λ s k. k;
    restarts = λ s k. k;
  }

  -- In any history of passes and restarts of the process, whatever is forced, a sidecar is
  -- restarted only if its latest reading, since it was last touched, found a certificate, and not
  -- the one that was last issued: never one that could not be read, and never without a mint.
  pub restarts-IsJustified :
      (happenings : List Happening) → IsJustified (history w c happenings fresh).past
  restarts-IsJustified happenings = history-IsPassStable Tidy-IsPassStable happenings fresh tt
