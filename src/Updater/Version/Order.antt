-- ===== src/Updater/Version/Order.antt =====
-- The order of versions: components from the left, with zero for a component that is missing.
use greffer.Updater.Version.{
  version_tuple, zeros, pad, tuple_lt, max, padded_lt, compare_versions, is_downgrade, below_floor,
}
use greffer.Prelude.{
  ℕ, zero, suc, ◌+◌, ◌-◌, String, ◌≡◌, refl, sym, ap, ◌∙◌, inl, inr, Bool, true, false, ◌&&◌, ◌||◌,
  Option, none, some, List, [], ◌∷◌, ◌++◌, arith, ltb, if◌then◌else◌, ◌==◌, nat_eq, string_eq,
  Bool-cases, length,
}

-- The order on versions of any lengths.
unfoldable pub precedes : List ℕ → List ℕ → Bool
precedes [] [] = false
precedes [] (y ∷ ys) = let rest = precedes [] ys in ltb 0 y || rest
precedes (x ∷ xs) [] = false
precedes (x ∷ xs) (y ∷ ys) = let rest = precedes xs ys in ltb x y || (x == y && rest)

precedes-nil : (xs : List ℕ) → precedes xs [] ≡ false
unfolding precedes
precedes-nil [] = refl
precedes-nil (x ∷ xs) = refl

zeros-zeros : (m n : ℕ) → m ≡ n → tuple_lt (zeros m) (zeros n) ≡ false
unfolding zeros tuple_lt
zeros-zeros zero zero e = refl
zeros-zeros zero (suc n) e = absurd (omega arith)
zeros-zeros (suc m) zero e = absurd (omega arith)
zeros-zeros (suc m) (suc n) e = zeros-zeros m n (omega arith)

tuple_lt-zeros :
    (xs ys : List ℕ) (m n : ℕ)
    → length xs + m ≡ length ys + n
    → tuple_lt (xs ++ zeros m) (ys ++ zeros n) ≡ precedes xs ys
unfolding tuple_lt zeros precedes
tuple_lt-zeros [] [] m n e = zeros-zeros m n (omega arith)
tuple_lt-zeros [] (y ∷ ys) zero n e = absurd (omega arith)
tuple_lt-zeros [] (y ∷ ys) (suc m) n e = ground (arith, tuple_lt-zeros [] ys m n)
tuple_lt-zeros (x ∷ xs) [] m zero e = absurd (omega arith)
tuple_lt-zeros (x ∷ xs) [] m (suc n) e = ground (arith, tuple_lt-zeros xs [] m n, precedes-nil xs)
tuple_lt-zeros (x ∷ xs) (y ∷ ys) m n e = ground (arith, tuple_lt-zeros xs ys m n)

padded_lt-precedes : (xs ys : List ℕ) → padded_lt xs ys ≡ precedes xs ys
unfolding padded_lt pad max
padded_lt-precedes xs ys =
    let width = max (length xs) (length ys) in
    tuple_lt-zeros xs ys (width - length xs) (width - length ys) (ground arith)

precedes_asymm : (xs ys : List ℕ) → precedes xs ys ≡ true → precedes ys xs ≡ false
unfolding precedes
precedes_asymm [] [] h = refl
precedes_asymm [] (y ∷ ys) h = refl
precedes_asymm (x ∷ xs) [] h = cc h
precedes_asymm (x ∷ xs) (y ∷ ys) h = ground (arith, precedes_asymm xs ys)

precedes_trans :
    (xs ys zs : List ℕ) → precedes xs ys ≡ true → precedes ys zs ≡ true → precedes xs zs ≡ true
unfolding precedes
precedes_trans [] [] zs h h' = cc
precedes_trans [] (y ∷ ys) [] h h' = cc h'
precedes_trans [] (y ∷ ys) (z ∷ zs) h h' = ground (arith, precedes_trans [] ys zs)
precedes_trans (x ∷ xs) [] zs h h' = cc h
precedes_trans (x ∷ xs) (y ∷ ys) [] h h' = cc h'
precedes_trans (x ∷ xs) (y ∷ ys) (z ∷ zs) h h' = ground (arith, precedes_trans xs ys zs)

-- Two versions that have an order are compared component by component, a missing component being
-- zero: trailing zeros make no difference.
pub is_downgrade-precedes :
    (current target : Option String) (cur tgt : List ℕ)
    → version_tuple current ≡ some cur
    → version_tuple target ≡ some tgt
    → is_downgrade current target ≡ some (precedes tgt cur)
unfolding is_downgrade compare_versions
is_downgrade-precedes current target cur tgt e e' =
    rw (e, e') (ap some (padded_lt-precedes tgt cur))

some-inj : {A : Type 0} {x y : A} → some x ≡ some y → x ≡ y
some-inj e = cc e

compared :
    (s t : Option (List ℕ))
    → compare_versions s t ≡ some true
    → (xs ys : List ℕ) × (s ≡ some xs) × (t ≡ some ys) × (precedes xs ys ≡ true)
unfolding compare_versions
compared none t h = cc h
compared (some xs) none h = cc h
compared (some xs) (some ys) h = (xs, ys, refl, refl, sym (padded_lt-precedes xs ys) ∙ some-inj h)

compared_back :
    (s t : Option (List ℕ)) (xs ys : List ℕ)
    → s ≡ some xs
    → t ≡ some ys
    → compare_versions s t ≡ some (precedes xs ys)
unfolding compare_versions
compared_back s t xs ys e e' = rw (e, e') (ap some (padded_lt-precedes xs ys))

-- A move that goes backwards goes forwards the other way: never are both directions refused.
pub is_downgrade_asymm :
    (a b : Option String) → is_downgrade a b ≡ some true → is_downgrade b a ≡ some false
unfolding is_downgrade
is_downgrade_asymm a b h =
    let (xs, ys, ex, ey, lt) = compared (version_tuple b) (version_tuple a) h in
    compared_back (version_tuple a) (version_tuple b) ys xs ey ex
    ∙ ap some (precedes_asymm xs ys lt)

compare_versions_trans :
    (s t u : Option (List ℕ))
    → compare_versions s t ≡ some true
    → compare_versions t u ≡ some true
    → compare_versions s u ≡ some true
compare_versions_trans s t u h h' =
    let (xs, ys, ex, ey, lt) = compared s t h in
    let (ys', zs, ey', ez, lt') = compared t u h' in
    let same : ys' ≡ ys = some-inj (sym ey' ∙ ey) in
    compared_back s u xs zs ex ez
    ∙ ap some (precedes_trans xs ys zs lt (ap (λ vs. precedes vs zs) (sym same) ∙ lt'))

-- Two moves backwards in a row are one move backwards.
pub is_downgrade_trans :
    (a b c : Option String)
    → is_downgrade a b ≡ some true
    → is_downgrade b c ≡ some true
    → is_downgrade a c ≡ some true
unfolding is_downgrade
is_downgrade_trans a b c h h' =
    compare_versions_trans (version_tuple c) (version_tuple b) (version_tuple a) h' h

below_floor-none : (t : Option String) → below_floor t none ≡ none
unfolding below_floor
below_floor-none t = refl

below_floor-named :
    (t : Option String) (floor : String) (b : Bool)
    → (floor == "") ≡ b
    → below_floor t (some floor)
      ≡ (if b then none else compare_versions (version_tuple t) (version_tuple (some floor)))
unfolding below_floor
below_floor-named t floor b e =
    ap (λ c. if c then none else compare_versions (version_tuple t) (version_tuple (some floor))) e

below_floor-compare :
    (t : Option String) (floor : String)
    → below_floor t (some floor) ≡ some true
    → (floor == "") ≡ false
below_floor-compare t floor h = elim (Bool-cases (floor == "")) [
  | inl empty ↦ absurd (cc (h, below_floor-named t floor true empty))
  | inr named ↦ named
]

-- What is older than a version below the floor is below the floor.
pub below_floor_older :
    (floor target older : Option String)
    → below_floor target floor ≡ some true
    → is_downgrade target older ≡ some true
    → below_floor older floor ≡ some true
unfolding is_downgrade
below_floor_older none target older h h' = absurd (cc (h, below_floor-none target))
below_floor_older (some floor) target older h h' =
    let named = below_floor-compare target floor h in
    below_floor-named older floor false named
    ∙ compare_versions_trans (version_tuple older) (version_tuple target)
        (version_tuple (some floor)) h' (sym (below_floor-named target floor false named) ∙ h)

-- A floor that is given is compared as a version that runs is.
pub below_floor-is_downgrade :
    (target : Option String) (floor : String)
    → (floor == "") ≡ false
    → below_floor target (some floor) ≡ is_downgrade (some floor) target
unfolding below_floor is_downgrade
below_floor-is_downgrade target floor given =
    ap
      (λ (b : Bool).
        if b then none else compare_versions (version_tuple target) (version_tuple (some floor)))
      given
