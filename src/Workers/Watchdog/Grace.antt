-- ===== src/Workers/Watchdog/Grace.antt =====
-- The watchdog acts exactly on a fatal condition that is sustained for the grace window.
use greffer.Workers.Watchdog.{
  Tick, is_fatal, Watch, watching, terminated, tick, on_fatal, unless_terminated, watch,
}
use greffer.Prelude.{
  ℕ, ◌-◌, ◌≤◌, ◌≡◌, refl, ap, ◌∙◌, inl, inr, Bool, true, false, ◌&&◌, ◌||◌, Option, none, some,
  List, [], ◌∷◌, arith, leb, nat_eq, string_eq, Bool-cases,
}

abbrev pub is_terminated : Watch → Bool
is_terminated (watching _) = false
is_terminated (terminated _) = true

-- The ticks at the front of the list are fatal up to one that comes `grace` or more after
-- `since`.
unfoldable pub fatal_through : ℕ → ℕ → List Tick → Bool
fatal_through grace since [] = false
fatal_through grace since (t ∷ ts) =
    let rest = fatal_through grace since ts in is_fatal t && (leb grace (t.now - since) || rest)

-- Some fatal tick is followed by fatal ticks only, up to one that comes `grace` or more later.
unfoldable pub sustained : ℕ → List Tick → Bool
unfolding fatal_through
sustained grace [] = false
sustained grace (t ∷ ts) =
    let rest = sustained grace ts in (is_fatal t && fatal_through grace t.now ts) || rest

-- The monotonic clock: no tick is earlier than `since` or than the tick before it.
abbrev pub Ascending : ℕ → List Tick → Type 0
Ascending since [] = Unit
Ascending since (t ∷ ts) = (since ≤ t.now) × Ascending t.now ts

Ascending-weaken : (a b : ℕ) (ts : List Tick) → a ≤ b → Ascending b ts → Ascending a ts
Ascending-weaken a b [] le h = tt
Ascending-weaken a b (t ∷ ts) le (h, hs) = (omega arith, hs)

fatal_through_mono :
    (grace a b : ℕ) (ts : List Tick)
    → a ≤ b
    → fatal_through grace b ts ≡ true
    → fatal_through grace a ts ≡ true
unfolding fatal_through
fatal_through_mono grace a b [] le h = h
fatal_through_mono grace a b (t ∷ ts) le h = ground (arith, fatal_through_mono grace a b ts le)

tick-over :
    (grace since : ℕ) (t : Tick)
    → is_fatal t ≡ true
    → leb grace (t.now - since) ≡ true
    → tick grace t (some since) ≡ terminated t.now
unfolding tick on_fatal
tick-over grace since t bad over = rw bad (rw over refl)

tick-under :
    (grace since : ℕ) (t : Tick)
    → is_fatal t ≡ true
    → leb grace (t.now - since) ≡ false
    → tick grace t (some since) ≡ watching (some since)
unfolding tick on_fatal
tick-under grace since t bad under = rw bad (rw under refl)

tick-first : (grace : ℕ) (t : Tick) → is_fatal t ≡ true → tick grace t none ≡ watching (some t.now)
unfolding tick on_fatal
tick-first grace t bad = rw bad refl

tick-clear :
    (grace : ℕ) (s : Option ℕ) (t : Tick) → is_fatal t ≡ false → tick grace t s ≡ watching none
unfolding tick
tick-clear grace s t good = rw good refl

-- The loop's answer without and with a running grace clock.
watch-since :
    (grace since : ℕ) (ts : List Tick)
    → Ascending since ts
    → (is_terminated (watch grace ts none) ≡ sustained grace ts)
      × (is_terminated (watch grace ts (some since))
          ≡ (fatal_through grace since ts || sustained grace ts))
unfolding watch fatal_through sustained unless_terminated
watch-since grace since [] h = (refl, refl)
watch-since grace since (t ∷ ts) (le, h) =
    let after = λ (w : Watch). is_terminated (unless_terminated w (watch grace ts)) in
    let (_, from_now) = watch-since grace t.now ts h in
    let (idle, from_since) = watch-since grace since ts (Ascending-weaken since t.now ts le h) in
    let mono = fatal_through_mono grace since t.now ts le in
    elim (Bool-cases (is_fatal t)) [
      | inl bad ↦ (
        ap after (tick-first grace t bad) ∙ from_now ∙ ground (arith, bad),
        elim (Bool-cases (leb grace (t.now - since))) [
          | inl over ↦ ap after (tick-over grace since t bad over) ∙ ground (arith, bad, over)
          | inr under ↦
              ap after (tick-under grace since t bad under)
              ∙ from_since
              ∙ ground (arith, bad, under, mono)
        ],
      )
      | inr good ↦ (
        ap after (tick-clear grace none t good) ∙ idle ∙ ground (arith, good),
        ap after (tick-clear grace (some since) t good) ∙ idle ∙ ground (arith, good),
      )
    ]

-- On a monotonic clock the watchdog sends SIGTERM exactly if some fatal observation is followed by
-- fatal observations only, up to one that comes the grace window or more later: a condition that
-- clears in between, or a degraded node, is never restarted, and a sustained one always is.
pub watch-sustained :
    (grace since : ℕ) (ts : List Tick)
    → Ascending since ts
    → is_terminated (watch grace ts none) ≡ sustained grace ts
watch-sustained grace since ts h = (watch-since grace since ts h).0
