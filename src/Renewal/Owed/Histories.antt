-- ===== src/Renewal/Owed/Histories.antt =====
-- Over passes and restarts, the file holds every confirmation that is owed.
use greffer.Renewal.Owed.Quiet.{note_failure-IsQuiet, looked-IsQuiet}
use greffer.Renewal.Owed.Instances.{renew_one-IsKept}
use greffer.Renewal.Pass.Runs.{IsPassStable, history-IsPassStable}
use greffer.Renewal.Worker.{Happening, history}
use greffer.Renewal.Owed.{
  is_unresolved, IsKept, IsQuiet-IsKept, has_key-pop, has_key-set_defaults, save_unconfirmed-IsKept,
}
use greffer.Renewal.{forgotten, Past, World, Config, Books, note, has_key, load_unconfirmed}
use greffer.Prelude.{String, ◌≡◌, ◌∙◌, true, List, [], arith, nat_eq, string_eq, get, pop}

-- What a restart leaves in order.
record IsDurable (s : Books) : Type 0 where
  synced : (j : String) → has_key s.unconfirmed j ≡ true → has_key s.file j ≡ true
  owed : (j : String) → is_unresolved j s.past ≡ true → has_key s.file j ≡ true

-- A node that never ran a pass.
abbrev pub fresh : Books
fresh = record { backoff = []; unconfirmed = []; file = []; blind_streak = 0; past = [] }

fresh-IsDurable : IsDurable fresh
unfolding is_unresolved
fresh-IsDurable = record { synced = λ j h. cc h; owed = λ j h. cc h }

restart-IsDurable :
    (s : Books)
    → IsDurable s
    → IsDurable (record s { backoff = []; unconfirmed = []; blind_streak = 0 })
unfolding get has_key
restart-IsDurable s d = record { synced = λ j h. cc h; owed = d.owed }

forgotten-IsKept :
    (id : String) (s : Books)
    → IsKept s
    → IsKept (note (forgotten id) (record s { unconfirmed = pop s.unconfirmed id }))
unfolding note is_unresolved
forgotten-IsKept id s k = record {
  synced = λ j h. k.synced j (ground (arith, has_key-pop s.unconfirmed id j, h));
  owed = λ j h. has_key-pop s.unconfirmed id j ∙ ground (arith, k.owed j, h);
}

module _ (w : World) (writable : (past : Past) → w.is_writable past ≡ true)
    (readable : (past : Past) → w.is_readable past ≡ true) (c : Config) where
  load_unconfirmed-IsKept : (s : Books) → IsDurable s → IsKept (load_unconfirmed w s)
  unfolding load_unconfirmed note is_unresolved
  load_unconfirmed-IsKept s d = rw (readable s.past) (record {
    synced = λ j h. ground (arith, d.synced j, has_key-set_defaults s.file s.unconfirmed j, h);
    owed = λ j h. has_key-set_defaults s.file s.unconfirmed j ∙ ground (arith, d.owed j h);
  })

  IsKept-IsPassStable : IsPassStable IsDurable IsKept w c
  IsKept-IsPassStable = record {
    looks = λ s. IsQuiet-IsKept (looked-IsQuiet s);
    fails = λ id s. IsQuiet-IsKept (note_failure-IsQuiet w c id s);
    blinds = λ streak s k. record { synced = k.synced; owed = k.owed };
    renews = renew_one-IsKept w writable c;
    forgets = forgotten-IsKept;
    prunes = λ statuses s k. record { synced = k.synced; owed = k.owed };
    saves = λ s k. save_unconfirmed-IsKept w writable s k.owed;
    loads = load_unconfirmed-IsKept;
    goes_on = λ s k. record { synced = k.synced; owed = λ j h. k.synced j (k.owed j h) };
    restarts = restart-IsDurable;
  }

  -- If the ledger file can be read and written, then after any history of renewal passes and
  -- restarts of the process the file holds a debt for every instance for which a mint was answered
  -- with a certificate, or not answered at all, and no report since then was dealt with by the
  -- manager; unless the instance was dropped as gone from the node.
  pub mints_are_owed :
      (happenings : List Happening) (id : String)
      → is_unresolved id (history w c happenings fresh).past ≡ true
      → has_key (history w c happenings fresh).file id ≡ true
  mints_are_owed happenings id h =
      let d = history-IsPassStable IsKept-IsPassStable happenings fresh fresh-IsDurable in
      d.owed id h
