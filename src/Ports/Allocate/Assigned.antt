-- ===== src/Ports/Allocate/Assigned.antt =====
-- The successful runs of the allocation loop, as a relation: each L4 entry gets what `choose`
-- picks at the progress made so far.
use mathlib.Core.Path.{subst₂}
use greffer.Ports.Allocate.{
  Port, is_l4, Result, ok, raise, Progress, Request, taken, choose, advance, commit, Action, resume,
  step, assign,
}
use greffer.Prelude.{
  ℕ, suc, ◌≡◌, refl, inl, inr, true, false, some, List, [], ◌∷◌, nat_eq, string_eq, Bool-cases, get,
}

-- What `choose` is called with for an entry.
abbrev pub chosen : Request → Port → Progress → Result ℕ
chosen r p s = choose r p (taken r s.batch p.protocol) (get r.sticky p.port_name)

pub data Assigned (r : Request) : ℕ → List Port → Progress → List Port → Progress → Type 0 where
  done : {i : ℕ} {s : Progress} → Assigned r i [] s [] s
  skip :
      {i : ℕ} {p : Port} {ps ps' : List Port} {s s' : Progress}
      → is_l4 p ≡ false
      → Assigned r (suc i) ps s ps' s'
      → Assigned r i (p ∷ ps) s (p ∷ ps') s'
  give :
      {i : ℕ} {p : Port} {ps ps' : List Port} {s s' : Progress} (port : ℕ)
      → is_l4 p ≡ true
      → chosen r p s ≡ ok port
      → Assigned r (suc i) ps (advance r i p s port) ps' s'
      → Assigned r i (p ∷ ps) s (record p { port_host = some port } ∷ ps') s'

resume-ok :
    {A B : Type 0} (m : Result A × Progress) (f : A → Action B) (b : B) (s : Progress)
    → resume m f ≡ (ok b, s)
    → (a : A) × (s' : Progress) × (m ≡ (ok a, s')) × (f a s' ≡ (ok b, s))
resume-ok (ok a, s') f b s h = (a, s', refl, h)
resume-ok (raise e, s') f b s h = cc

-- A successful step either leaves an entry that is not L4 alone, or gives it the chosen port.
pub data Stepped (r : Request) (i : ℕ) (p : Port) (s : Progress) : Port → Progress → Type 0 where
  left : is_l4 p ≡ false → Stepped r i p s p s
  gave :
      (port : ℕ)
      → is_l4 p ≡ true
      → chosen r p s ≡ ok port
      → Stepped r i p s (record p { port_host = some port }) (advance r i p s port)

commit-Stepped :
    (r : Request) (i : ℕ) (p : Port) (s : Progress) (c : Result ℕ) (p' : Port) (s' : Progress)
    → is_l4 p ≡ true
    → chosen r p s ≡ c
    → commit r i p s c ≡ (ok p', s')
    → Stepped r i p s p' s'
unfolding commit
commit-Stepped r i p s (ok port) p' s' l4 e h =
    subst₂ (λ q t. Stepped r i p s q t) (cc h) (cc h) (gave port l4 e)
commit-Stepped r i p s (raise x) p' s' l4 e h = cc

step-Stepped :
    (r : Request) (i : ℕ) (p : Port) (s : Progress) (p' : Port) (s' : Progress)
    → step r i p s ≡ (ok p', s')
    → Stepped r i p s p' s'
unfolding step
step-Stepped r i p s p' s' h = elim (Bool-cases (is_l4 p)) [
  | inl l4 ↦ commit-Stepped r i p s (chosen r p s) p' s' l4 refl (rw l4 at h)
  | inr other ↦
      let h' = rw other at h in subst₂ (λ q t. Stepped r i p s q t) (cc h') (cc h') (left other)
]

Assigned-cons :
    {r : Request} {i : ℕ} {p p' : Port} {ps ps' : List Port} {s t s' : Progress}
    → Stepped r i p s p' t
    → Assigned r (suc i) ps t ps' s'
    → Assigned r i (p ∷ ps) s (p' ∷ ps') s'
Assigned-cons (left other) a = skip other a
Assigned-cons (gave port l4 e) a = give port l4 e a

pub assign-Assigned :
    (r : Request) (i : ℕ) (ps : List Port) (s : Progress) (ps' : List Port) (s' : Progress)
    → assign r i ps s ≡ (ok ps', s')
    → Assigned r i ps s ps' s'
unfolding assign
assign-Assigned r i [] s ps' s' h = subst₂ (λ q t. Assigned r i [] s q t) (cc h) (cc h) done
assign-Assigned r i (p ∷ ps) s ps' s' h =
    let (p', t, first, h') = resume-ok (step r i p s) _ ps' s' h in
    let (qs, t', rest, h'') = resume-ok (assign r (suc i) ps t) _ ps' s' h' in
    subst₂ (λ q u. Assigned r i (p ∷ ps) s q u) (cc h'') (cc h'')
      (Assigned-cons (step-Stepped r i p s p' t first) (assign-Assigned r (suc i) ps t qs t' rest))
