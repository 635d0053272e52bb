-- ===== src/Backup/Locks/Reserved.antt =====
-- What a reserved handoff keeps through each operation.
use greffer.Backup.Locks.Owned.{admit_if}
use greffer.Backup.Locks.Rules.{acquire-taken, acquire-handoff, give_back-handoff}
use greffer.Backup.Locks.{
  Locks, is_locked, acquire, handoff_window, reserve_handoff, clear_handoff, pending_until,
  pending_locked, unless_pending, acquire_unless_handoff, Thread, handler, renewal, job, Process,
  process, serve_op, admit, try_renewal, give_back, spawn_job,
}
use greffer.Prelude.{
  ℕ, ◌+◌, ◌≤◌, ◌<◌, String, ◌≡◌, refl, sym, ap, ◌∙◌, inl, inr, Bool, true, false, ◌||◌, Option,
  none, some, List, [], ◌∷◌, ◌++◌, arith, leb, ◌==◌, nat_eq, string_eq, Bool-cases, any, get,
  get-put, get-pop, if_ind,
}

abbrev pub is_renewal : String → Thread → Bool
is_renewal id (renewal j) = j == id
is_renewal id (handler j) = false
is_renewal id (job j held) = false

-- What stands from the reservation on.
pub record IsReserved (id : String) (since : ℕ) (p : Process) : Type 0 where
  pub deadline : ℕ
  pub kept : get p.shared.handoff id ≡ some deadline
  pub late : since + handoff_window ≤ deadline
  pub passed : since ≤ p.now
  pub clear : any (is_renewal id) p.threads ≡ false

unequal : (j id : String) → (j ≡ id → ⊥) → (j == id) ≡ false
unequal j id other = ground (arith, string_eq.beq_iff j id, other)

none-some : {n : ℕ} → none ≡ some n → ⊥
none-some e = cc e

some-inj : {m n : ℕ} → some m ≡ some n → m ≡ n
some-inj e = cc e

pub any-append :
    (id : String) (before after : List Thread)
    → any (is_renewal id) (before ++ after)
      ≡ (any (is_renewal id) before || any (is_renewal id) after)
unfolding any
any-append id [] after = refl
any-append id (t ∷ before) after = ground (arith, any-append id before after)

pub any_fewer :
    (id : String) (t : Thread) (before after : List Thread)
    → any (is_renewal id) (before ++ t ∷ after) ≡ false
    → any (is_renewal id) (before ++ after) ≡ false
unfolding any
any_fewer id t before after h =
    ground (arith, h, any-append id before (t ∷ after), any-append id before after)

pub any_freed :
    (id j : String) (held : Bool) (before after : List Thread)
    → any (is_renewal id) (before ++ job j held ∷ after) ≡ false
    → any (is_renewal id) (before ++ job j false ∷ after) ≡ false
unfolding any
any_freed id j held before after h =
    any-append id before (job j false ∷ after) ∙ sym (any-append id before (job j held ∷ after)) ∙ h

pending_until-kept :
    (id j : String) (now deadline : ℕ) (o : Option ℕ) (s : Locks)
    → get s.handoff j ≡ o
    → get s.handoff id ≡ some deadline
    → now < deadline
    → (get (pending_until now j o s).1.handoff id ≡ some deadline)
      × (j ≡ id → (pending_until now j o s).0 ≡ true)
unfolding pending_until clear_handoff
pending_until-kept id j now deadline none s found kept early =
    (kept, λ same. absurd (none-some (sym found ∙ ap (get s.handoff) same ∙ kept)))
pending_until-kept id j now deadline (some d) s found kept early =
    if_ind (λ (r : Bool × Locks). (get r.1.handoff id ≡ some deadline) × (j ≡ id → r.0 ≡ true))
      (leb d now) _ _
      (λ over.
        let other : j ≡ id → ⊥ = λ same.
          let agree : d ≡ deadline = some-inj (sym found ∙ ap (get s.handoff) same ∙ kept) in
          ground (arith, over, early, agree) in
        (get-pop s.handoff j id ∙ rw (unequal j id other) kept, λ same. absurd (other same)))
      (λ pending. (kept, λ _. refl))

unless_pending-clear :
    (id j : String) (pending : Bool) (s : Locks) (threads : List Thread)
    → (j ≡ id → pending ≡ true)
    → any (is_renewal id) threads ≡ false
    → ((unless_pending j (pending, s)).1.handoff ≡ s.handoff)
      × (any (is_renewal id) (admit (unless_pending j (pending, s)).0 j threads) ≡ false)
unfolding unless_pending any
unless_pending-clear id j true s threads pending clear = (refl, clear)
unless_pending-clear id j false s threads pending clear = (
  acquire-handoff j s,
  ap (any (is_renewal id)) (admit_if (acquire j s).0 j threads)
      ∙ if_ind (λ ts. any (is_renewal id) ts ≡ false) (acquire j s).0 _ _
          (λ _. rw (unequal j id (λ same. cc (pending same))) clear) (λ _. clear),
)

pub renewal-IsReserved :
    (id j : String) (since : ℕ) (p : Process)
    → p.now < since + handoff_window
    → IsReserved id since p
    → IsReserved id since (try_renewal j p)
unfolding try_renewal acquire_unless_handoff pending_locked
renewal-IsReserved id j since p early r =
    let looked =
      pending_until-kept id j p.now r.deadline (get p.shared.handoff j) p.shared refl r.kept
        (omega (arith, early, r.late)) in
    let tried =
      unless_pending-clear id j (pending_locked p.now j p.shared).0
        (pending_locked p.now j p.shared).1 p.threads looked.1 r.clear in
    record {
      deadline = r.deadline;
      kept = ap (λ h. get h id) tried.0 ∙ looked.0;
      late = r.late;
      passed = r.passed;
      clear = tried.1;
    }

pub op-IsReserved :
    (id j : String) (since : ℕ) (p : Process)
    → ¬ ((j ≡ id) × (is_locked id p.shared ≡ false))
    → IsReserved id since p
    → IsReserved id since (serve_op j p)
unfolding serve_op clear_handoff any
op-IsReserved id j since p unserved r =
    if_ind (λ (q : Process). IsReserved id since q) (acquire j p.shared).0 _ _
      (λ got.
        let other : j ≡ id → ⊥ = λ same. unserved (
          same,
          ground (arith, got, acquire-taken j p.shared, ap (λ i. is_locked i p.shared) same),
        ) in
        record {
          deadline = r.deadline;
          kept =
              get-pop (acquire j p.shared).1.handoff j id
              ∙ rw (unequal j id other) (ap (λ h. get h id) (acquire-handoff j p.shared) ∙ r.kept);
          late = r.late;
          passed = r.passed;
          clear = r.clear;
        })
      (λ busy. record {
        deadline = r.deadline;
        kept = ap (λ h. get h id) (acquire-handoff j p.shared) ∙ r.kept;
        late = r.late;
        passed = r.passed;
        clear = r.clear;
      })

unchanged :
    (id : String) (since : ℕ) (p : Process) (s : Locks) (threads : List Thread)
    → s.handoff ≡ p.shared.handoff
    → any (is_renewal id) threads ≡ false
    → IsReserved id since p
    → IsReserved id since (process p.now s threads)
unchanged id since p s threads same clear r = record {
  deadline = r.deadline;
  kept = ap (λ h. get h id) same ∙ r.kept;
  late = r.late;
  passed = r.passed;
  clear = clear;
}

pub spawn-IsReserved :
    (id j : String) (since : ℕ) (starts : Bool) (p : Process)
    → IsReserved id since p
    → IsReserved id since (spawn_job starts j p)
unfolding spawn_job any
spawn-IsReserved id j since starts p r =
    let tried = (acquire j p.shared).1 in
    if_ind (IsReserved id since) (acquire j p.shared).0 _ _
      (λ _.
        if_ind (IsReserved id since) starts _ _
          (λ _.
            unchanged id since p tried (job j true ∷ p.threads) (acquire-handoff j p.shared) r.clear
              r)
          (λ _.
            unchanged id since p (give_back j tried) p.threads
              (give_back-handoff j tried ∙ acquire-handoff j p.shared) r.clear r))
      (λ _. unchanged id since p tried p.threads (acquire-handoff j p.shared) r.clear r)

pub reserve-IsReserved :
    (id j : String) (since : ℕ) (p : Process)
    → IsReserved id since p
    → IsReserved id since (process p.now (reserve_handoff p.now j p.shared) p.threads)
unfolding reserve_handoff
reserve-IsReserved id j since p r = elim (Bool-cases (j == id)) [
  | inl same ↦ record {
    deadline = p.now + handoff_window;
    kept = get-put p.shared.handoff j id (p.now + handoff_window) ∙ rw same refl;
    late = omega (arith, r.passed);
    passed = r.passed;
    clear = r.clear;
  }
  | inr other ↦ record {
    deadline = r.deadline;
    kept = get-put p.shared.handoff j id (p.now + handoff_window) ∙ rw other r.kept;
    late = r.late;
    passed = r.passed;
    clear = r.clear;
  }
]
