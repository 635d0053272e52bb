-- ===== src/Renewal/Owed.antt =====
-- The ledger of owed confirmations: what it must hold, and the steps that keep it so.
pub mod Quiet
pub mod Sent
pub mod Instances
pub mod Histories
use greffer.Prelude.{
  String, ◌≡◌, refl, sym, ap, ◌∙◌, inl, inr, Bool, true, false, not, ◌&&◌, ◌||◌, Option, [], ◌∷◌,
  arith, eq_iff, ltb, if◌then◌else◌, ◌==◌, ◌!=◌, nat_eq, string_eq, Bool-cases, or_else, Dict, get,
  put, pop, get-put, get-pop, if_ind,
}
use greffer.Renewal.{
  Answered, http, lost, looked, mint_sent, report_sent, forgotten, Past, World, Books, note,
  has_key, save_unconfirmed, set_defaults, owe, clear_debt,
}
use greffer.Renewal.Serial.{occurs}

-- A mint that the manager may have issued a certificate for.
unfoldable pub may_be_issued : Answered → Bool
may_be_issued lost = true
may_be_issued (http res) = res.status == 200

-- A report that the manager has dealt with: it answered, and neither with an error of its own, nor
-- with a rejected token, nor as a manager whose renewal is switched off.
unfoldable pub is_final : Answered → Bool
is_final lost = false
is_final (http res) =
    ltb res.status 500
    && res.status != 401
    && res.status != 403
    && not (res.status == 404 && not (occurs "not_found" res.text))

-- Whether the manager may still wait to hear what an instance serves: a mint that it may have
-- issued, with no report dealt with since, of an instance that was not removed.
unfoldable pub is_unresolved : String → Past → Bool
unfolding may_be_issued is_final
is_unresolved j [] = false
is_unresolved j (looked ∷ past) = is_unresolved j past
is_unresolved j (mint_sent id answer ∷ past) =
    (id == j && may_be_issued answer) || is_unresolved j past
is_unresolved j (report_sent id serial answer ∷ past) =
    not (id == j && is_final answer) && is_unresolved j past
is_unresolved j (forgotten id ∷ past) = not (id == j) && is_unresolved j past
is_unresolved j (_ ∷ past) = is_unresolved j past

-- In memory: each unresolved mint is owed. On disk: all that is owed is in the file.
pub record IsKept (s : Books) : Type 0 where
  pub synced : (j : String) → has_key s.unconfirmed j ≡ true → has_key s.file j ≡ true
  pub owed : (j : String) → is_unresolved j s.past ≡ true → has_key s.unconfirmed j ≡ true

-- Nothing was written and nothing was sent.
pub record IsQuiet (s t : Books) : Type 0 where
  pub same_debts : t.unconfirmed ≡ s.unconfirmed
  pub same_file : t.file ≡ s.file
  pub same_past : (j : String) → is_unresolved j t.past ≡ is_unresolved j s.past

pub IsQuiet-trans : {s t u : Books} → IsQuiet s t → IsQuiet t u → IsQuiet s u
IsQuiet-trans q r = record {
  same_debts = r.same_debts ∙ q.same_debts;
  same_file = r.same_file ∙ q.same_file;
  same_past = λ j. r.same_past j ∙ q.same_past j;
}

pub IsQuiet-IsKept : {s t : Books} → IsQuiet s t → IsKept s → IsKept t
IsQuiet-IsKept {s} {t} q k = record {
  synced = λ j h.
      ap (λ d. has_key d j) q.same_file ∙ k.synced j (sym (ap (λ d. has_key d j) q.same_debts) ∙ h);
  owed = λ j h. ap (λ d. has_key d j) q.same_debts ∙ k.owed j (sym (q.same_past j) ∙ h);
}

pub has_key-put :
    (d : Dict String String) (id j v : String) → has_key (put d id v) j ≡ ((id == j) || has_key d j)
unfolding has_key
has_key-put d id j v = elim (Bool-cases (id == j)) [
  | inl same ↦ rw (get-put d id j v, same)
  | inr other ↦ rw (get-put d id j v, other)
]

pub has_key-pop :
    (d : Dict String String) (id j : String) → has_key (pop d id) j ≡ (not (id == j) && has_key d j)
unfolding has_key
has_key-pop d id j = elim (Bool-cases (id == j)) [
  | inl same ↦ rw (get-pop d id j, same)
  | inr other ↦ rw (get-pop d id j, other)
]

pub has_key-nil : (j : String) → has_key {V = String} [] j ≡ false
unfolding has_key get
has_key-nil j = refl

has_key-cons :
    (id v j : String) (stored : Dict String String)
    → has_key ((id, v) ∷ stored) j ≡ ((id == j) || has_key stored j)
unfolding has_key get
has_key-cons id v j stored = ground arith

-- A key that is there already is not lost and not added.
has_key-present :
    (d : Dict String String) (id j : String)
    → has_key d id ≡ true
    → has_key d j ≡ ((id == j) || has_key d j)
has_key-present d id j there = elim (Bool-cases (id == j)) [
  | inl same ↦ rw (same, ← (eq_iff id j).0 same) there
  | inr other ↦ rw other
]

has_key-default :
    (d : Dict String String) (id j v : String)
    → has_key (if has_key d id then d else put d id v) j ≡ ((id == j) || has_key d j)
has_key-default d id j v =
    if_ind (λ e. has_key e j ≡ ((id == j) || has_key d j)) (has_key d id) d (put d id v)
      (has_key-present d id j) (λ _. has_key-put d id j v)

pub has_key-set_defaults :
    (stored d : Dict String String) (j : String)
    → has_key (set_defaults stored d) j ≡ (has_key d j || has_key stored j)
unfolding set_defaults
has_key-set_defaults [] d j = ground (arith, has_key-nil j)
has_key-set_defaults ((id, v) ∷ stored) d j = ground (
  arith,
  has_key-cons id v j stored,
  has_key-default d id j v,
  has_key-set_defaults stored (if has_key d id then d else put d id v) j,
)

module _ (w : World) (writable : (past : Past) → w.is_writable past ≡ true) where
  pub save_unconfirmed-IsKept :
      (s : Books)
      → ((j : String) → is_unresolved j s.past ≡ true → has_key s.unconfirmed j ≡ true)
      → IsKept (save_unconfirmed w s)
  unfolding save_unconfirmed note is_unresolved
  save_unconfirmed-IsKept s owed = rw (writable s.past) (record { synced = λ j h. h; owed = owed })

  pub owe-IsKept :
      (id : String) (serial : Option String) (s : Books) → IsKept s → IsKept (owe w id serial s)
  unfolding owe
  owe-IsKept id serial s k =
      save_unconfirmed-IsKept (record s { unconfirmed = put s.unconfirmed id (or_else serial "") })
        λ j h. has_key-put s.unconfirmed id j (or_else serial "") ∙ ground (arith, k.owed j h)

  pub clear_debt-IsKept :
      (id : String) (s : Books)
      → is_unresolved id s.past ≡ false
      → IsKept s
      → IsKept (clear_debt w id s)
  unfolding clear_debt
  clear_debt-IsKept id s resolved k =
      if_ind IsKept (has_key s.unconfirmed id) _ _
        (λ there.
          save_unconfirmed-IsKept (record s { unconfirmed = pop s.unconfirmed id })
            (λ j h.
              has_key-pop s.unconfirmed id j
              ∙ ground (arith, k.owed j h, eq_iff id j, resolved, h)))
        (λ gone. k)

  -- The acts of a report only settle what is open.
  pub report_sent-IsKept :
      (id : String) (serial : Option String) (answer : Answered) (s : Books)
      → IsKept s
      → IsKept (note (report_sent id serial answer) s)
  unfolding note is_unresolved
  report_sent-IsKept id serial answer s k = record {
    synced = k.synced;
    owed = λ j h. k.owed j (ground (arith, h));
  }
