-- ===== src/Ports/Free/Lowest.antt =====
-- What the range pick promises: the least free port, or none when every port is taken.
use greffer.Prelude.{
  ℕ, zero, suc, ◌+◌, ◌-◌, ◌≤◌, ◌<◌, ◌≡◌, inl, inr, true, false, Option, none, some, List, arith,
  nat_eq, string_eq, Bool-cases, Option-cases, contains,
}
use greffer.Ports.Free.{first_free, lowest_free_port}

-- The port that a pick may return, described without the loop.
pub record IsLeastFree (start end : ℕ) (taken : List ℕ) (port : ℕ) : Type 0 where
  pub above : start ≤ port
  pub below : port ≤ end
  pub free : contains port taken ≡ false
  pub least : (q : ℕ) → start ≤ q → q < port → contains q taken ≡ true

-- What the pick says of the range.
abbrev pub Picked : ℕ → ℕ → List ℕ → Option ℕ → Type 0
Picked start end taken none = (q : ℕ) → start ≤ q → q ≤ end → contains q taken ≡ true
Picked start end taken (some port) = IsLeastFree start end taken port

module _ (taken : List ℕ) where
  first_free-some :
      (rounds candidate port : ℕ)
      → first_free rounds candidate taken ≡ some port
      → (candidate ≤ port)
        × (port < candidate + rounds)
        × (contains port taken ≡ false)
        × ((q : ℕ) → candidate ≤ q → q < port → contains q taken ≡ true)
  unfolding first_free
  first_free-some zero c port h = cc
  first_free-some (suc rounds) c port h = elim (Bool-cases (contains c taken)) [
    | inl held ↦
        let (above, below, free, least) = first_free-some rounds (suc c) port (rw held at h) in
        (omega arith, omega arith, free, λ q low high. ground (arith, least q))
    | inr spare ↦ ground arith
  ]

  first_free-none :
      (rounds candidate q : ℕ)
      → first_free rounds candidate taken ≡ none
      → candidate ≤ q
      → q < candidate + rounds
      → contains q taken ≡ true
  unfolding first_free
  first_free-none zero c q h above below = absurd (omega arith)
  first_free-none (suc rounds) c q h above below = ground (arith, first_free-none rounds (suc c) q)

-- The pick is the lowest port of `[start, end]` outside `taken`, and it gives up exactly when
-- every port of the range is in `taken`.
pub lowest_free_port-Picked :
    (start end : ℕ) (taken : List ℕ) → Picked start end taken (lowest_free_port start end taken)
unfolding lowest_free_port
lowest_free_port-Picked start end taken =
    elim (Option-cases (first_free (end + 1 - start) start taken)) [
      | inl e ↦
          rw e (λ q low high. first_free-none taken (end + 1 - start) start q e low (omega arith))
      | inr (port, e) ↦
          let (above, below, free, least) = first_free-some taken (end + 1 - start) start port e in
          rw e (record { above = above; below = omega arith; free = free; least = least })
    ]
