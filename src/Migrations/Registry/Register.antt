-- ===== src/Migrations/Registry/Register.antt =====
-- What `register` accepts, and what it leaves in the registry.
use greffer.Migrations.Base.{Migration}
use greffer.Migrations.Registry.{Registry, register, register_new, all_migrations, insert_sorted}
use greffer.Migrations.Registry.Sorted.{IsEntry, IsValid, put-All, all_migrations-All}
use greffer.Migrations.Batch.Gate.{IsRegistered}
use greffer.Prelude.{
  String, ◌≡◌, refl, inl, inr, Bool, false, ◌&&◌, ◌||◌, Option, none, some, List, [], ◌∷◌, arith,
  if◌then◌else◌, ◌==◌, nat_eq, string_eq, Bool-cases, All, any, get, put, get-put, put-Unique,
}

module _ {W : Type 0} where
  -- What an accepted registration says of the class.
  pub record Accepted (reg : Registry W) (cls : Migration W) (reg' : Registry W) : Type 0 where
    pub named : (cls.id == "") ≡ false
    pub consistent : (cls.advisory && cls.stop_on_failure) ≡ false
    pub fresh : get reg cls.id ≡ none
    pub added : reg' ≡ put reg cls.id cls

  register_new-Accepted :
      (reg : Registry W) (cls : Migration W) (reg' : Registry W) (o : Option (Migration W))
      → (cls.id == "") ≡ false
      → (cls.advisory && cls.stop_on_failure) ≡ false
      → get reg cls.id ≡ o
      → register_new reg cls o ≡ inl reg'
      → Accepted reg cls reg'
  unfolding register_new
  register_new-Accepted reg cls reg' none n c f e = record {
    named = n;
    consistent = c;
    fresh = f;
    added = cc e;
  }
  register_new-Accepted reg cls reg' (some x) n c f e = cc e

  pub register-Accepted :
      (reg : Registry W) (cls : Migration W) (reg' : Registry W)
      → register reg cls ≡ inl reg'
      → Accepted reg cls reg'
  unfolding register
  register-Accepted reg cls reg' e = elim (Bool-cases (cls.id == "")) [
    | inl empty ↦ let e' = rw empty at e in cc e'
    | inr named ↦ elim (Bool-cases (cls.advisory && cls.stop_on_failure)) [
      | inl both ↦ let e' = rw (named, both) at e in cc e'
      | inr fine ↦
          register_new-Accepted reg cls reg' (get reg cls.id) named fine refl
            (rw (named, fine) at e)
    ]
  ]

  -- A registration that is accepted keeps the registry valid: distinct ids, each class under its
  -- own id, which is not empty, and no class both advisory and stopping the batch.
  pub register-IsValid :
      (reg : Registry W) (cls : Migration W) (reg' : Registry W)
      → IsValid reg
      → register reg cls ≡ inl reg'
      → IsValid reg'
  register-IsValid reg cls reg' valid e =
      let a = register-Accepted reg cls reg' e in
      let entry : IsEntry (cls.id, cls) = record {
        keyed = refl;
        named = a.named;
        consistent = a.consistent;
      } in
      rw a.added (record {
        unique = put-Unique reg cls.id cls valid.unique;
        entries = put-All reg cls entry valid.entries;
      })

  -- A registration that is accepted adds the class under an id that was free, and leaves every
  -- other id as it was: no class is ever replaced.
  pub register-get :
      (reg : Registry W) (cls : Migration W) (reg' : Registry W) (k : String)
      → register reg cls ≡ inl reg'
      → (get reg cls.id ≡ none) × (get reg' k ≡ (if cls.id == k then some cls else get reg k))
  register-get reg cls reg' k e =
      let a = register-Accepted reg cls reg' e in (a.fresh, rw a.added (get-put reg cls.id k cls))

  IsEntry-IsRegistered : (reg : Registry W) → All IsEntry reg → All (λ e. IsRegistered e.1) reg
  IsEntry-IsRegistered [] hs = tt
  IsEntry-IsRegistered (e ∷ reg) (h, hs) = (h.consistent, IsEntry-IsRegistered reg hs)

  -- No migration of a valid registry is both advisory and stopping the batch.
  pub all_migrations-IsRegistered :
      (reg : Registry W) → IsValid reg → All IsRegistered (all_migrations reg)
  all_migrations-IsRegistered reg valid =
      all_migrations-All IsRegistered reg (IsEntry-IsRegistered reg valid.entries)

  insert_sorted-any :
      (f : Migration W → Bool) (m : Migration W) (ms : List (Migration W))
      → any f (insert_sorted m ms) ≡ (f m || any f ms)
  unfolding insert_sorted any
  insert_sorted-any f m [] = refl
  insert_sorted-any f m (n ∷ ms) = ground (arith, insert_sorted-any f m ms)

  -- A batch offers a migration exactly if its class is registered: sorting loses and adds none.
  pub all_migrations-any :
      (f : Migration W → Bool) (reg : Registry W)
      → any f (all_migrations reg) ≡ any (λ e. f e.1) reg
  unfolding all_migrations any
  all_migrations-any f [] = refl
  all_migrations-any f ((_, cls) ∷ reg) =
      rw (insert_sorted-any f cls (all_migrations reg), all_migrations-any f reg) refl
