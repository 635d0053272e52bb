-- ===== src/Prelude/Dicts.antt =====
-- Python's `dict` as an association list in insertion order: an assignment to a present key
-- keeps its place.
use mathlib.Core.Path.{◌≡◌, refl}
use mathlib.Core.Option.{Option, none, some}
use mathlib.Core.List.{List, [], ◌∷◌}
use native.Mathlib.Omega.{arith}
use mathlib.Core.Logic.{inl, inr}
use greffer.Prelude.Tests.{Eq, ◌==◌, if◌then◌else◌, or_else, Bool-cases}

abbrev pub Dict {ℓ κ} : Type ℓ → Type κ → Type (ℓ ⊔ κ)
Dict K V = List (K × V)

module _ {ℓ κ} {K : Type ℓ} {V : Type κ} ⦃e : Eq K⦄ where
  -- d.get(k)
  unfoldable pub get : Dict K V → K → Option V
  get [] k = none
  get ((j, v) ∷ d) k = if j == k then some v else get d k

  -- d.get(k, default)
  abbrev pub get_or : Dict K V → K → V → V
  get_or d k v = or_else (get d k) v

  -- d[k] = v
  unfoldable pub put : Dict K V → K → V → Dict K V
  put [] k v = (k, v) ∷ []
  put ((j, w) ∷ d) k v = if j == k then (j, v) ∷ d else (j, w) ∷ put d k v

  -- d.pop(k, None)
  unfoldable pub pop : Dict K V → K → Dict K V
  pop [] k = []
  pop ((j, w) ∷ d) k = let rest = pop d k in if j == k then rest else (j, w) ∷ rest

  pub get-put :
      (d : Dict K V) (k asked : K) (v : V)
      → get (put d k v) asked ≡ (if k == asked then some v else get d asked)
  unfolding get put
  get-put [] k asked v = refl
  get-put ((i, w) ∷ d) k asked v =
      ground (arith, e.beq_iff k asked, e.beq_iff i k, e.beq_iff i asked, get-put d k asked v)

  pub get-pop : (d : Dict K V) (k j : K) → get (pop d k) j ≡ (if k == j then none else get d j)
  unfolding get pop
  get-pop [] k j = ground arith
  get-pop ((i, w) ∷ d) k j =
      ground (arith, e.beq_iff k j, e.beq_iff i k, e.beq_iff i j, get-pop d k j)

  pub get-put_self : (d : Dict K V) (k : K) (v : V) → get (put d k v) k ≡ some v
  get-put_self d k v = ground (arith, get-put d k k v, e.beq_iff k k)

  -- No key twice.
  abbrev pub Unique : Dict K V → Type κ
  Unique [] = Unit
  Unique ((k, v) ∷ d) = (get d k ≡ none) × Unique d

  pub put-Unique : (d : Dict K V) (k : K) (v : V) → Unique d → Unique (put d k v)
  unfolding get put
  put-Unique [] k v u = (refl, tt)
  put-Unique ((j, w) ∷ d) k v (fresh, u) = elim (Bool-cases (j == k)) [
    | inl same ↦ rw same (fresh, u)
    | inr other ↦
        rw other (ground (arith, get-put d k j v, e.beq_iff j k, e.beq_iff k j), put-Unique d k v u)
  ]
