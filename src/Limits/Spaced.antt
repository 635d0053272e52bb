-- ===== src/Limits/Spaced.antt =====
-- What `_last_warned` knows of the warnings that were logged.
use greffer.Limits.{Key, key_eq, key_beq_iff, Warned, prune_last_warned, is_recent}
use greffer.Prelude.{
  ℕ, ◌-◌, ◌≤◌, ◌≡◌, refl, sym, ap, ◌∙◌, inl, inr, Bool, true, false, not, ◌&&◌, ◌||◌, Option, none,
  some, List, [], ◌∷◌, arith, leb, if◌then◌else◌, ◌==◌, nat_eq, string_eq, Bool-cases, every, get,
  put, get-put, Unique,
}

-- No entry of the log for the key is within `rewarn` of the time.
abbrev pub clear_of : ℕ → Key → ℕ → List (Key × ℕ) → Bool
clear_of rewarn key clock log = every (λ e. not (e.0 == key) || leb rewarn (clock - e.1)) log

-- Two warnings of one service are at least `rewarn` apart; the newest one comes first.
abbrev pub IsSpaced : ℕ → List (Key × ℕ) → Type 0
IsSpaced rewarn [] = Unit
IsSpaced rewarn ((key, t) ∷ log) = (clear_of rewarn key t log ≡ true) × IsSpaced rewarn log

-- A last warning at or after `t`.
unfoldable pub covers : ℕ → ℕ → Option ℕ → Bool
covers t clock none = false
covers t clock (some last) = leb t last && leb last clock

-- A warning at `t` is out of the window, or the last one is no earlier.
unfoldable pub is_known : ℕ → ℕ → ℕ → Option ℕ → Bool
unfolding covers
is_known rewarn clock t last = leb rewarn (clock - t) || covers t clock last

abbrev pub IsKnown : ℕ → ℕ → Warned → List (Key × ℕ) → Type 0
IsKnown rewarn clock w log = every (λ e. is_known rewarn clock e.1 (get w e.0)) log ≡ true

known-quiet :
    (rewarn clock t : ℕ) (last : Option ℕ)
    → is_recent rewarn clock last ≡ false
    → is_known rewarn clock t last ≡ true
    → leb rewarn (clock - t) ≡ true
unfolding is_known is_recent
known-quiet rewarn clock t none quiet known = ground (arith, known)
known-quiet rewarn clock t (some last) quiet known = ground (arith, quiet, known)

pub known_later :
    (rewarn clock later t : ℕ) (last : Option ℕ)
    → clock ≤ later
    → is_known rewarn clock t last ≡ true
    → is_known rewarn later t last ≡ true
unfolding is_known
known_later rewarn clock later t none le known = ground (arith, known)
known_later rewarn clock later t (some last) le known = ground (arith, known)

known-now :
    (rewarn clock t : ℕ) (last : Option ℕ)
    → is_known rewarn clock t last ≡ true
    → is_known rewarn clock t (some clock) ≡ true
unfolding is_known
known-now rewarn clock t none known = ground (arith, known)
known-now rewarn clock t (some last) known = ground (arith, known)

-- What pruning leaves of a last warning.
unfoldable pub keep : ℕ → ℕ → Option ℕ → Option ℕ
keep rewarn clock none = none
keep rewarn clock (some last) = if leb rewarn (clock - last) then none else some last

pub known-keep :
    (rewarn clock t : ℕ) (last : Option ℕ)
    → is_known rewarn clock t last ≡ true
    → is_known rewarn clock t (keep rewarn clock last) ≡ true
unfolding keep is_known
known-keep rewarn clock t none known = known
known-keep rewarn clock t (some last) known = elim (Bool-cases (leb rewarn (clock - last))) [
  | inl stale ↦ rw stale (ground (arith, known, stale))
  | inr recent ↦ rw recent (ground (arith, known))
]

keep-stale :
    (rewarn clock t : ℕ) → leb rewarn (clock - t) ≡ true → keep rewarn clock (some t) ≡ none
unfolding keep
keep-stale rewarn clock t stale = rw stale refl

keep-recent :
    (rewarn clock t : ℕ) → leb rewarn (clock - t) ≡ false → keep rewarn clock (some t) ≡ some t
unfolding keep
keep-recent rewarn clock t recent = rw recent refl

pub both : {a b : Bool} → a ≡ true → b ≡ true → (a && b) ≡ true
both h h' = ground (arith, h, h')

pub prune-get :
    (rewarn clock : ℕ) (w : Warned) (k : Key)
    → Unique w
    → get (prune_last_warned rewarn clock w) k ≡ keep rewarn clock (get w k)
unfolding prune_last_warned get keep
prune-get rewarn clock [] k u = refl
prune-get rewarn clock ((j, t) ∷ w) k (fresh, u) =
    let rest = prune-get rewarn clock w k u in
    elim (Bool-cases (leb rewarn (clock - t))) [
      | inl stale ↦ elim (Bool-cases (j == k)) [
        | inl same ↦
            let gone = ap (get w) (sym ((key_beq_iff j k).0 same)) ∙ fresh in
            rw stale (
              rest
              ∙ ap (keep rewarn clock) gone
              ∙ sym (keep-stale rewarn clock t stale)
              ∙ ap (λ b. keep rewarn clock (if b then some t else get w k)) (sym same))
        | inr other ↦
            rw stale
              (rest ∙ ap (λ b. keep rewarn clock (if b then some t else get w k)) (sym other))
      ]
      | inr recent ↦ elim (Bool-cases (j == k)) [
        | inl same ↦ rw recent (
            ap (λ b. if b then some t else get (prune_last_warned rewarn clock w) k) same
            ∙ sym (keep-recent rewarn clock t recent)
            ∙ ap (λ b. keep rewarn clock (if b then some t else get w k)) (sym same))
        | inr other ↦ rw recent (
            ap (λ b. if b then some t else get (prune_last_warned rewarn clock w) k) other
            ∙ rest
            ∙ ap (λ b. keep rewarn clock (if b then some t else get w k)) (sym other))
      ]
    ]

-- An entry that is known does not forbid its key.
pub spaced_by :
    (rewarn clock : ℕ) (key : Key) (w : Warned) (log : List (Key × ℕ))
    → is_recent rewarn clock (get w key) ≡ false
    → IsKnown rewarn clock w log
    → clear_of rewarn key clock log ≡ true
unfolding every
spaced_by rewarn clock key w [] quiet known = refl
spaced_by rewarn clock key w ((k, t) ∷ log) quiet known =
    let rest = spaced_by rewarn clock key w log quiet (ground (arith, known)) in
    let here : is_known rewarn clock t (get w k) ≡ true = ground (arith, known) in
    elim (Bool-cases (k == key)) [
      | inl same ↦
          let old = known-quiet rewarn clock t (get w key) quiet (
            ap (λ j. is_known rewarn clock t (get w j)) (sym ((key_beq_iff k key).0 same))
            ∙ here) in
          ground (arith, old, rest)
      | inr other ↦ ground (arith, other, rest)
    ]

pub put-IsKnown :
    (rewarn clock : ℕ) (key : Key) (w : Warned) (log : List (Key × ℕ))
    → IsKnown rewarn clock w log
    → IsKnown rewarn clock (put w key clock) log
unfolding every
put-IsKnown rewarn clock key w [] known = refl
put-IsKnown rewarn clock key w ((k, t) ∷ log) known =
    let here : is_known rewarn clock t (get w k) ≡ true = ground (arith, known) in
    let rest = put-IsKnown rewarn clock key w log (ground (arith, known)) in
    let moved = get-put w key k clock in
    elim (Bool-cases (key == k)) [
      | inl same ↦
          both
            (ap (is_known rewarn clock t) (moved ∙ ap (λ b. if b then some clock else get w k) same)
              ∙ known-now rewarn clock t (get w k) here)
            rest
      | inr other ↦
          both
            (ap (is_known rewarn clock t)
                (moved ∙ ap (λ b. if b then some clock else get w k) other)
              ∙ here)
            rest
    ]
