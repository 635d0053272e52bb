-- ===== src/Migrations/Batch/Runs.antt =====
-- The batches that finish, as a relation.
use mathlib.Core.Path.{subst₂}
use greffer.Migrations.Base.{Result, Migration}
use greffer.Migrations.Runner.{Host, Node, Options, run_single}
use greffer.Migrations.Batch.{
  is_passed_over, is_halting, downgrade, Batch, cons_result, after_run, run_batch, dry_result,
}
use greffer.Prelude.{
  ◌≡◌, refl, inl, inr, true, false, Option, none, some, List, [], ◌∷◌, nat_eq, string_eq,
  Bool-cases,
}

module _ {W : Type 0} (host : Host W) (opts : Options) where
  pub data Runs : List (Migration W) → Node W → List Result → Node W → Type 0 where
    done : {s : Node W} → Runs [] s [] s
    pass :
        {m : Migration W} {ms : List (Migration W)} {s s' : Node W} {rs : List Result}
        → is_passed_over opts m s.applied ≡ true
        → Runs ms s rs s'
        → Runs (m ∷ ms) s rs s'
    rehearse :
        {m : Migration W} {ms : List (Migration W)} {s s' : Node W} {rs : List Result}
        → is_passed_over opts m s.applied ≡ false
        → opts.dry_run ≡ true
        → Runs ms s rs s'
        → Runs (m ∷ ms) s (dry_result m ∷ rs) s'
    halt :
        {m : Migration W} {ms : List (Migration W)} {s t : Node W} (r : Result)
        → is_passed_over opts m s.applied ≡ false
        → opts.dry_run ≡ false
        → run_single host m s ≡ (some r, t)
        → is_halting opts m r ≡ true
        → Runs (m ∷ ms) s (downgrade m true r ∷ []) t
    go :
        {m : Migration W} {ms : List (Migration W)} {s t s' : Node W} {rs : List Result}
        (r : Result)
        → is_passed_over opts m s.applied ≡ false
        → opts.dry_run ≡ false
        → run_single host m s ≡ (some r, t)
        → is_halting opts m r ≡ false
        → Runs ms t rs s'
        → Runs (m ∷ ms) s (downgrade m false r ∷ rs) s'

  cons_result-some :
      (r : Result) (b : Batch W) (rs : List Result) (s : Node W)
      → cons_result r b ≡ (some rs, s)
      → (rs' : List Result) × (b ≡ (some rs', s)) × (rs ≡ r ∷ rs')
  unfolding cons_result
  cons_result-some r (none, t) rs s e = cc
  cons_result-some r (some rs', t) rs s e = (rs', cc e, cc e)

  after_run-Runs :
      (m : Migration W) (ms : List (Migration W)) (s : Node W) (x : Option Result × Node W)
      (rs : List Result) (s' : Node W)
      → is_passed_over opts m s.applied ≡ false
      → opts.dry_run ≡ false
      → run_single host m s ≡ x
      → ((t : Node W) (rs' : List Result)
          → run_batch host opts ms t ≡ (some rs', s')
          → Runs ms t rs' s')
      → after_run opts m (run_batch host opts ms) x ≡ (some rs, s')
      → Runs (m ∷ ms) s rs s'
  unfolding after_run
  after_run-Runs m ms s (none, t) rs s' due wet ran ih e = cc
  after_run-Runs m ms s (some r, t) rs s' due wet ran ih e =
      elim (Bool-cases (is_halting opts m r)) [
        | inl stop ↦
            let e' = rw stop at e in
            subst₂ (λ q u. Runs (m ∷ ms) s q u) (cc e') (cc e') (halt r due wet ran stop)
        | inr on ↦
            let e' = rw on at e in
            let (rs', b, split) =
              cons_result-some (downgrade m false r) (run_batch host opts ms t) rs s' e' in
            rw split (go r due wet ran on (ih t rs' b))
      ]

  pub run_batch-Runs :
      (ms : List (Migration W)) (s : Node W) (rs : List Result) (s' : Node W)
      → run_batch host opts ms s ≡ (some rs, s')
      → Runs ms s rs s'
  unfolding run_batch
  run_batch-Runs [] s rs s' e = subst₂ (λ q u. Runs [] s q u) (cc e) (cc e) done
  run_batch-Runs (m ∷ ms) s rs s' e = elim (Bool-cases (is_passed_over opts m s.applied)) [
    | inl over ↦ pass over (run_batch-Runs ms s rs s' (rw over at e))
    | inr due ↦ elim (Bool-cases opts.dry_run) [
      | inl dry ↦
          let (rs', b, split) =
            cons_result-some (dry_result m) (run_batch host opts ms s) rs s'
              (simp (due, dry) at e) in
          rw split (rehearse due dry (run_batch-Runs ms s rs' s' b))
      | inr wet ↦
          after_run-Runs m ms s (run_single host m s) rs s' due wet refl
            (λ t rs' b. run_batch-Runs ms t rs' s' b) (simp (due, wet) at e)
    ]
  ]
