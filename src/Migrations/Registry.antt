-- ===== src/Migrations/Registry.antt =====
-- apps/utils/ops_migrations/registry.py.
pub mod Sorted
pub mod Register
use Prim.Native.Nat.{Ordering}
use Prim.Native.String.{compare}
use greffer.Migrations.Base.{Migration}
use greffer.Prelude.{
  ℕ, zero, suc, ◌+◌, ◌-◌, ◌*◌, ◌≤◌, ◌<◌, String, ◌≡◌, refl, sym, ap, ◌∙◌, ◌≢◌, ◌↔◌, ◌⊎◌, inl, inr,
  Bool, true, false, not, ◌&&◌, ◌||◌, Option, none, some, List, [], ◌∷◌, ◌++◌, map, arith, eq_iff,
  ltb, leb, if◌then◌else◌, Eq, ◌==◌, ◌!=◌, nat_eq, string_eq, Bool-cases, Option-cases, or_else,
  or_false, All, All-append, length, select, any, every, contains, contains-append, Dict, get,
  get_or, put, pop, get-put, get-pop, lower, lower_char, Unique, put-Unique, get-put_self,
}

pub data RegisterError : Type 0 where
  no_id advisory_and_stop duplicate : RegisterError

-- `_REGISTRY`, by migration id.
abbrev pub Registry : Type 0 → Type 0
Registry W = Dict String (Migration W)

-- `a <= b` on ids, by code points.
unfoldable pub id_le : String → String → Bool
id_le a b = elim (compare a b) [ Ordering.gt ↦ false | _ ↦ true ]

module _ {W : Type 0} where
  register_new : Registry W → Migration W → Option (Migration W) → Registry W ⊎ RegisterError
  register_new reg cls none = inl (put reg cls.id cls)
  register_new reg cls (some existing) = inr duplicate

  -- The registry after `register`, or the exception that it raises.
  unfoldable pub register : Registry W → Migration W → Registry W ⊎ RegisterError
  unfolding register_new
  register reg cls =
      if cls.id == ""
      then inr no_id
      else if cls.advisory && cls.stop_on_failure
      then inr advisory_and_stop
      else register_new reg cls (get reg cls.id)

  unfoldable pub insert_sorted : Migration W → List (Migration W) → List (Migration W)
  unfolding id_le
  insert_sorted m [] = m ∷ []
  insert_sorted m (n ∷ ms) =
      let rest = insert_sorted m ms in if id_le m.id n.id then m ∷ n ∷ ms else n ∷ rest

  -- `[cls() for _id, cls in sorted(_REGISTRY.items())]`
  unfoldable pub all_migrations : Registry W → List (Migration W)
  unfolding insert_sorted
  all_migrations [] = []
  all_migrations ((_, cls) ∷ reg) = insert_sorted cls (all_migrations reg)
