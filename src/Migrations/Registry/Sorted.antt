-- ===== src/Migrations/Registry/Sorted.antt =====
-- The registry's invariant, and the order in which migrations run.
use mathlib.Core.Path.{subst}
use Prim.Native.Nat.{Ordering, compare as compare_ℕ}
use Prim.Native.Char.{code}
use Prim.Native.String.{compare, then as chain}
use Prim.Native.String.compare as Compare
use greffer.Migrations.Base.{Migration}
use greffer.Migrations.Registry.{Registry, id_le, insert_sorted, all_migrations}
use greffer.Prelude.{
  ℕ, String, ◌≡◌, refl, sym, ap, ap₂, ◌∙◌, inl, inr, true, false, ◌&&◌, List, [], ◌∷◌, arith,
  eq_iff, if◌then◌else◌, ◌==◌, nat_eq, string_eq, Bool-cases, All, put, Unique,
}

abbrev swap : Ordering → Ordering
swap Ordering.lt = Ordering.gt
swap Ordering.eq = Ordering.eq
swap Ordering.gt = Ordering.lt

compare_ℕ-swap : (m n : ℕ) → compare_ℕ n m ≡ swap (compare_ℕ m n)
compare_ℕ-swap m n = ground arith

swap-chain : (o p : Ordering) → swap (chain o p) ≡ chain (swap o) (swap p)
swap-chain Ordering.lt p = refl
swap-chain Ordering.eq p = refl
swap-chain Ordering.gt p = refl

compare-swap : (s t : String) → compare t s ≡ swap (compare s t)
compare-swap String.[] String.[] = refl
compare-swap String.[] (String.◌∷◌ d t) =
    Compare.cons-nil d t ∙ ap swap (sym (Compare.nil-cons d t))
compare-swap (String.◌∷◌ c s) String.[] =
    Compare.nil-cons c s ∙ ap swap (sym (Compare.cons-nil c s))
compare-swap (String.◌∷◌ c s) (String.◌∷◌ d t) =
    Compare.cons-cons d c t s
    ∙ ap₂ chain (compare_ℕ-swap (code c) (code d)) (compare-swap s t)
    ∙ sym (swap-chain (compare_ℕ (code c) (code d)) (compare s t))
    ∙ ap swap (sym (Compare.cons-cons c d s t))

-- Of two ids one is at most the other.
id_le-total : (a b : String) → id_le a b ≡ false → id_le b a ≡ true
unfolding id_le
id_le-total a b h = ground (arith, compare-swap a b)

module _ {W : Type 0} where
  -- The first migration of the list has an id that is not below `a`.
  abbrev pub StartsAbove : String → List (Migration W) → Type 0
  StartsAbove a [] = Unit
  StartsAbove a (m ∷ ms) = id_le a m.id ≡ true

  -- Each migration runs after those with smaller ids.
  abbrev pub IsSorted : List (Migration W) → Type 0
  IsSorted [] = Unit
  IsSorted (m ∷ ms) = StartsAbove m.id ms × IsSorted ms

  insert_sorted-StartsAbove :
      (a : String) (m : Migration W) (ms : List (Migration W))
      → id_le a m.id ≡ true
      → StartsAbove a ms
      → StartsAbove a (insert_sorted m ms)
  unfolding insert_sorted
  insert_sorted-StartsAbove a m [] le h = le
  insert_sorted-StartsAbove a m (n ∷ ms) le h = elim (Bool-cases (id_le m.id n.id)) [
    | inl here ↦ rw (here, insert_sorted) le
    | inr later ↦ rw (later, insert_sorted) h
  ]

  insert_sorted-IsSorted :
      (m : Migration W) (ms : List (Migration W)) → IsSorted ms → IsSorted (insert_sorted m ms)
  unfolding insert_sorted
  insert_sorted-IsSorted m [] h = (tt, tt)
  insert_sorted-IsSorted m (n ∷ ms) (above, h) = elim (Bool-cases (id_le m.id n.id)) [
    | inl here ↦
        subst IsSorted (sym (ap (λ b. if b then m ∷ n ∷ ms else n ∷ insert_sorted m ms) here))
          (here, (above, h))
    | inr later ↦
        subst IsSorted (sym (ap (λ b. if b then m ∷ n ∷ ms else n ∷ insert_sorted m ms) later)) (
          insert_sorted-StartsAbove n.id m ms (id_le-total m.id n.id later) above,
          insert_sorted-IsSorted m ms h,
        )
  ]

  -- What every class of the registry satisfies, every migration of the batch satisfies.
  insert_sorted-All :
      (P : Migration W → Type 0) (m : Migration W) (ms : List (Migration W))
      → P m
      → All P ms
      → All P (insert_sorted m ms)
  unfolding insert_sorted
  insert_sorted-All P m [] h hs = (h, tt)
  insert_sorted-All P m (n ∷ ms) h (hn, hs) = elim (Bool-cases (id_le m.id n.id)) [
    | inl here ↦
        subst (All P) (sym (ap (λ b. if b then m ∷ n ∷ ms else n ∷ insert_sorted m ms) here))
          (h, (hn, hs))
    | inr later ↦
        subst (All P) (sym (ap (λ b. if b then m ∷ n ∷ ms else n ∷ insert_sorted m ms) later))
          (hn, insert_sorted-All P m ms h hs)
  ]

  -- An entry of the registry: the class under its own id, which is not empty, and never both
  -- advisory and stopping the batch.
  pub record IsEntry (e : String × Migration W) : Type 0 where
    pub keyed : e.0 ≡ e.1.id
    pub named : (e.1.id == "") ≡ false
    pub consistent : (e.1.advisory && e.1.stop_on_failure) ≡ false

  -- What registrations from the empty registry keep: distinct ids and consistent classes.
  pub record IsValid (reg : Registry W) : Type 0 where
    pub unique : Unique reg
    pub entries : All IsEntry reg

  pub put-All :
      (reg : Registry W) (m : Migration W)
      → IsEntry (m.id, m)
      → All IsEntry reg
      → All IsEntry (put reg m.id m)
  unfolding put
  put-All [] m h hs = (h, tt)
  put-All ((j, n) ∷ reg) m h (hn, hs) = elim (Bool-cases (j == m.id)) [
    | inl same ↦
        subst (All IsEntry)
          (sym (ap (λ b. if b then (j, m) ∷ reg else (j, n) ∷ put reg m.id m) same))
          (
            record { keyed = (eq_iff j m.id).0 same; named = h.named; consistent = h.consistent },
            hs,
          )
    | inr other ↦
        subst (All IsEntry)
          (sym (ap (λ b. if b then (j, m) ∷ reg else (j, n) ∷ put reg m.id m) other))
          (hn, put-All reg m h hs)
  ]

  -- Whatever was registered, in whatever order, a batch runs in the order of the ids, compared by
  -- code points.
  pub all_migrations-IsSorted : (reg : Registry W) → IsSorted (all_migrations reg)
  unfolding all_migrations
  all_migrations-IsSorted [] = tt
  all_migrations-IsSorted ((_, cls) ∷ reg) =
      insert_sorted-IsSorted cls (all_migrations reg) (all_migrations-IsSorted reg)

  -- What the classes of the registry satisfy, the batch satisfies.
  pub all_migrations-All :
      (P : Migration W → Type 0) (reg : Registry W)
      → All (λ e. P e.1) reg
      → All P (all_migrations reg)
  unfolding all_migrations
  all_migrations-All P [] hs = tt
  all_migrations-All P ((_, cls) ∷ reg) (h, hs) =
      insert_sorted-All P cls (all_migrations reg) h (all_migrations-All P reg hs)
