-- ===== src/Renewal/Pass/Muted.antt =====
-- For how long the backoff mutes an instance.
use greffer.Renewal.Pass.{known}
use greffer.Renewal.Worker.{Happening, history}
use greffer.Renewal.{backoff_cap, delay_after, failures_of}
use greffer.Renewal.Owed.Histories.{fresh}
use greffer.Renewal.Pass.Runs.{IsPassStable, history-IsPassStable}
use greffer.Renewal.Instance.Closed.{IsClosed}
use greffer.Renewal.Instance.Due.{renew_one-IsClosed}
use greffer.Renewal.Instance.Steps.{Ending}
use greffer.Renewal.{
  Act, looked, saved, restarted, forgotten, Past, World, Config, Books, note, has_key,
  save_unconfirmed, set_defaults, load_unconfirmed, note_failure, clear_backoff, ticks,
}
use greffer.Prelude.{
  ℕ, ◌+◌, ◌≤◌, String, ◌≡◌, none, some, List, [], ◌∷◌, arith, eq_iff, if◌then◌else◌, ◌==◌, nat_eq,
  string_eq, Dict, get, put, pop, get-put, get-pop, if_ind,
}

delay_after-le : (interval failures : ℕ) → delay_after interval failures ≤ backoff_cap
unfolding delay_after
delay_after-le interval failures = ground arith

get-known :
    (statuses : Dict String String) (d : Dict String (ℕ × ℕ)) (id : String)
    → get (known statuses d) id ≡ (if has_key statuses id then get d id else none)
unfolding known get
get-known statuses [] id = ground arith
get-known statuses ((j, v) ∷ d) id =
    if_ind
      (λ e.
        get e id ≡ (if has_key statuses id then (if j == id then some v else get d id) else none))
      (has_key statuses j) ((j, v) ∷ known statuses d) (known statuses d)
      (λ there. ground (arith, there, eq_iff j id, get-known statuses d id))
      (λ gone. ground (arith, gone, eq_iff j id, get-known statuses d id))

module _ (w : World) (c : Config)
    (steady : (act : Act) (past : Past) → w.monotonic past ≤ w.monotonic (act ∷ past)) where
  -- No entry of the backoff reaches further than the cap.
  abbrev pub IsBounded : Books → Type 0
  IsBounded s =
      (id : String) (failures deadline : ℕ)
      → get s.backoff id ≡ some (failures, deadline)
      → deadline ≤ w.monotonic s.past + ticks backoff_cap

  noted-IsBounded : (act : Act) (s : Books) → IsBounded s → IsBounded (note act s)
  unfolding note
  noted-IsBounded act s k id failures deadline h =
      omega (arith, k id failures deadline h, steady act s.past)

  failed-IsBounded : (id : String) (s : Books) → IsBounded s → IsBounded (note_failure w c id s)
  unfolding note_failure
  failed-IsBounded id s k =
      let n = failures_of (get s.backoff id) + 1 in
      let entry : ℕ × ℕ = (n, w.monotonic s.past + ticks (delay_after c.interval n)) in
      noted-IsBounded looked (record s { backoff = put s.backoff id entry })
        λ j failures deadline h. ground (
          arith,
          get-put s.backoff id j entry,
          h,
          k j failures deadline,
          delay_after-le c.interval n,
        )

  eased-IsBounded : (id : String) (s : Books) → IsBounded s → IsBounded (clear_backoff id s)
  unfolding clear_backoff
  eased-IsBounded id s k j failures deadline h =
      k j failures deadline (ground (arith, get-pop s.backoff id j, h))

  save-IsBounded : (s : Books) → IsBounded s → IsBounded (save_unconfirmed w s)
  unfolding save_unconfirmed
  save-IsBounded s k =
      noted-IsBounded saved (if w.is_writable s.past then record s { file = s.unconfirmed } else s)
        (if_ind IsBounded (w.is_writable s.past) (record s { file = s.unconfirmed }) s (λ _. k)
          (λ _. k))

  load-IsBounded : (s : Books) → IsBounded s → IsBounded (load_unconfirmed w s)
  unfolding load_unconfirmed
  load-IsBounded s k =
      noted-IsBounded looked
        (if w.is_readable s.past
          then record s { unconfirmed = set_defaults s.file s.unconfirmed }
          else s)
        (if_ind IsBounded (w.is_readable s.past)
          (record s { unconfirmed = set_defaults s.file s.unconfirmed }) s (λ _. k) (λ _. k))

  IsBounded-IsClosed : (id : String) → IsClosed IsBounded (λ (r : Ending). IsBounded r.0) w c id
  IsBounded-IsClosed id = record {
    notes = λ act s e. noted-IsBounded act s;
    restarts = λ s mismatch. noted-IsBounded (restarted id) s;
    files = λ debts file s k. k;
    fails = failed-IsBounded id;
    blinds = λ streak s k. k;
    eases = eased-IsBounded id;
    lands = λ serial s served. eased-IsBounded id s;
    ends = λ s r e k. k;
  }

  prune-IsBounded :
      (statuses : Dict String String) (s : Books)
      → IsBounded s
      → IsBounded (record s { backoff = known statuses s.backoff })
  prune-IsBounded statuses s k id failures deadline h =
      k id failures deadline (ground (arith, get-known statuses s.backoff id, h))

  restart-IsBounded :
      (s : Books) → IsBounded (record s { backoff = []; unconfirmed = []; blind_streak = 0 })
  unfolding get
  restart-IsBounded s id failures deadline h = cc h

  IsBounded-IsPassStable : IsPassStable IsBounded IsBounded w c
  IsBounded-IsPassStable = record {
    looks = noted-IsBounded looked;
    fails = failed-IsBounded;
    blinds = λ streak s k. k;
    renews = λ id. renew_one-IsClosed (IsBounded-IsClosed id);
    forgets =
        λ id s. noted-IsBounded (forgotten id) (record s { unconfirmed = pop s.unconfirmed id });
    prunes = prune-IsBounded;
    saves = save-IsBounded;
    loads = load-IsBounded;
    goes_on = λ s k. k;
    restarts = λ s k. restart-IsBounded s;
  }

  -- On a clock that does not run backwards, after any history of passes and restarts, and however
  -- often an instance has failed, its backoff ends within a day.
  pub backoff_ends_within_a_day :
      (happenings : List Happening) (id : String) (failures deadline : ℕ)
      → get (history w c happenings fresh).backoff id ≡ some (failures, deadline)
      → deadline ≤ w.monotonic (history w c happenings fresh).past + ticks backoff_cap
  backoff_ends_within_a_day happenings =
      history-IsPassStable IsBounded-IsPassStable happenings fresh (restart-IsBounded fresh)
