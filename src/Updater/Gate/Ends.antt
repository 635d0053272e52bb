-- ===== src/Updater/Gate/Ends.antt =====
-- The gate returns: the clock moves on from round to round.
use greffer.Updater.Gate.{Verdict, gate_timeout, Gate, Poll, health_gate, poll_outcome, or_rest}
use greffer.Prelude.{
  ℕ, zero, suc, ◌+◌, ◌-◌, ◌≤◌, ◌<◌, ◌≡◌, refl, ap, ◌∙◌, inl, inr, false, Option, none, some, arith,
  ltb, if◌then◌else◌, nat_eq, string_eq, Bool-cases,
}

or_rest-some :
    (o rest : Option Verdict)
    → ((r : Verdict) × (rest ≡ some r))
    → (r : Verdict) × (or_rest o rest ≡ some r)
unfolding or_rest
or_rest-some (some o) rest h = (o, refl)
or_rest-some none rest h = h

health_gate_within :
    (g : Gate) (polls : ℕ → Poll) (fuel k : ℕ)
    → ((j : ℕ) → (polls j).now < (polls (suc j)).now)
    → g.deadline ≤ (polls k).now + fuel
    → (o : Verdict) × (health_gate g polls (suc fuel) k ≡ some o)
unfolding health_gate
health_gate_within g polls zero k moves enough =
    let late : ltb (polls k).now g.deadline ≡ false = ground arith in
    (
      gate_timeout,
      ap (λ b. if b then or_rest (poll_outcome g (polls k)) none else some gate_timeout) late,
    )
health_gate_within g polls (suc fuel) k moves enough =
    let rest = health_gate g polls (suc fuel) (suc k) in
    let moved = moves k in
    let (o, e) =
      or_rest-some (poll_outcome g (polls k)) rest
        (health_gate_within g polls fuel (suc k) moves (omega arith)) in
    elim (Bool-cases (ltb (polls k).now g.deadline)) [
      | inl early ↦ (
        o,
        ap (λ b. if b then or_rest (poll_outcome g (polls k)) rest else some gate_timeout) early
            ∙ e,
      )
      | inr late ↦ (
        gate_timeout,
        ap (λ b. if b then or_rest (poll_outcome g (polls k)) rest else some gate_timeout) late,
      )
    ]

-- If the clock moves on from each round to the next, the gate returns after at most as many rounds
-- as there are ticks from its first reading to the deadline, and one more.
pub health_gate_returns :
    (g : Gate) (polls : ℕ → Poll)
    → ((j : ℕ) → (polls j).now < (polls (suc j)).now)
    → (o : Verdict) × (health_gate g polls (suc (g.deadline - (polls 0).now)) 0 ≡ some o)
health_gate_returns g polls moves =
    health_gate_within g polls (g.deadline - (polls 0).now) 0 moves (omega arith)
