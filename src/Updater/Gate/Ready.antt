-- ===== src/Updater/Gate/Ready.antt =====
-- What a gate that reports success has seen.
use greffer.Updater.Gate.{
  Verdict, gate_ready, gate_wrong_id, gate_fatal, gate_degraded_other, Gate, Poll, parse_readyz,
  is_text, is_wrong_id, tolerable, is_applied_image, all_applied, on_ready, decide, or_crash_loop,
  poll_outcome, or_rest, health_gate,
}
use greffer.Prelude.{
  ℕ, zero, suc, ◌<◌, String, ◌≡◌, refl, sym, ap, ap₂, ◌∙◌, ◌≢◌, ◌⊎◌, inl, inr, Bool, true, false,
  not, ◌&&◌, ◌||◌, Option, none, some, List, [], ◌∷◌, arith, ltb, if◌then◌else◌, ◌==◌, ◌!=◌, nat_eq,
  string_eq, Bool-cases, or_else, any, every, contains, get,
}

-- One round in which the updated stack is healthy.
pub record IsHealthy (g : Gate) (p : Poll) : Type 0 where
  pub answered : (parse_readyz p.body).answered ≡ true
  pub same_node :
      (wanted id : String)
      → g.greffer_id ≡ some wanted
      → (parse_readyz p.body).id ≡ some id
      → wanted ≢ ""
      → id ≢ ""
      → id ≡ wanted
  pub status : (parse_readyz p.body).status ≡ some "ready"
  pub applied :
      g.check_version ≡ true
      → (name image : String) → contains name g.service_names ≡ true
      → get g.applied_image_ids name ≡ some (some image)
      → image ≢ ""
      → p.image_id name ≡ some image
  pub running : (name : String) → contains name g.service_names ≡ true → p.is_running name ≡ true

differs : (s t : String) → s ≢ t → (s == t) ≡ false
differs s t other = elim (Bool-cases (s == t)) [
  | inl same ↦ absurd (other ((string_eq.beq_iff s t).0 same))
  | inr apart ↦ apart
]

text-path : (o : Option String) (s : String) → is_text o s ≡ true → o ≡ some s
unfolding is_text
text-path none s h = cc h
text-path (some t) s h = ap some ((string_eq.beq_iff t s).0 h)

right-path :
    (expected answered : Option String) (wanted id : String)
    → is_wrong_id expected answered ≡ false
    → expected ≡ some wanted
    → answered ≡ some id
    → wanted ≢ ""
    → id ≢ ""
    → id ≡ wanted
unfolding is_wrong_id
right-path expected answered wanted id h e e' full full' =
    let here : (wanted != "" && id != "" && id != wanted) ≡ false =
      ap₂ is_wrong_id (sym e) (sym e') ∙ h in
    elim (Bool-cases (id == wanted)) [
      | inl same ↦ (string_eq.beq_iff id wanted).0 same
      | inr other ↦
          absurd (ground (arith, here, differs wanted "" full, differs id "" full', other))
    ]

-- What holds for every entry holds for the one.
every-one :
    (f : String → Bool) (xs : List String) (name : String)
    → every f xs ≡ true
    → contains name xs ≡ true
    → f name ≡ true
unfolding every contains
every-one f [] name all there = cc there
every-one f (x ∷ xs) name all there = elim (Bool-cases (x == name)) [
  | inl same ↦ ap f (sym ((string_eq.beq_iff x name).0 same)) ∙ ground (arith, all)
  | inr other ↦ every-one f xs name (ground (arith, all)) (ground (arith, there, other))
]

applied-path :
    (expected : Option (Option String)) (running : Option String) (image : String)
    → is_applied_image (or_else expected none) running ≡ true
    → expected ≡ some (some image)
    → image ≢ ""
    → running ≡ some image
unfolding is_applied_image
applied-path expected running image h e full =
    let here : (image == "" || is_text running image) ≡ true =
      ap (λ o. is_applied_image (or_else o none) running) (sym e) ∙ h in
    text-path running image (ground (arith, here, differs image "" full))

all_applied-path :
    (g : Gate) (p : Poll) (name image : String)
    → all_applied g p ≡ true
    → contains name g.service_names ≡ true
    → get g.applied_image_ids name ≡ some (some image)
    → image ≢ ""
    → p.image_id name ≡ some image
unfolding all_applied
all_applied-path g p name image h there e full =
    applied-path (get g.applied_image_ids name) (p.image_id name) image
      (every-one (λ n. is_applied_image (or_else (get g.applied_image_ids n) none) (p.image_id n))
        g.service_names name h there)
      e full

on_ready-ready :
    (g : Gate) (p : Poll)
    → on_ready g p ≡ some gate_ready
    → (g.check_version ≡ true → all_applied g p ≡ true)
      × (every p.is_running g.service_names ≡ true)
unfolding on_ready
on_ready-ready g p h = (λ checked. ground (arith, h), ground (arith, h))

-- The chain of returns of one round, in its order.
returns-ready :
    (answered wrong fatal other is_ready : Bool) (last : Option Verdict)
    → (if not answered
        then none
        else if wrong
        then some gate_wrong_id
        else if fatal
        then some gate_fatal
        else if other
        then some gate_degraded_other
        else if is_ready
        then last
        else none)
      ≡ some gate_ready
    → (answered ≡ true) × (wrong ≡ false) × (is_ready ≡ true) × (last ≡ some gate_ready)
returns-ready true false false false true last h = (refl, refl, refl, h)
returns-ready false w f d s last h = cc h
returns-ready true true f d s last h = cc h
returns-ready true false true d s last h = cc h
returns-ready true false false true s last h = cc h
returns-ready true false false false false last h = cc h

decide-ready :
    (g : Gate) (p : Poll) → decide g p (parse_readyz p.body) ≡ some gate_ready → IsHealthy g p
unfolding decide
decide-ready g p h =
    let r = parse_readyz p.body in
    let (answered, right, is_ready, last) =
      returns-ready r.answered (is_wrong_id g.greffer_id r.id) (is_text r.status "fatal")
        (is_text r.status "degraded" && any (λ reason. not (contains reason tolerable)) r.reasons)
        (is_text r.status "ready") (on_ready g p) h in
    let (applied, running) = on_ready-ready g p last in
    record {
      answered = answered;
      same_node = λ wanted id. right-path g.greffer_id r.id wanted id right;
      status = text-path r.status "ready" is_ready;
      applied = λ checked name image. all_applied-path g p name image (applied checked);
      running = λ name. every-one p.is_running g.service_names name running;
    }

undecided :
    (g : Gate) (p : Poll) (o : Option Verdict)
    → or_crash_loop g p o ≡ some gate_ready
    → o ≡ some gate_ready
unfolding or_crash_loop
undecided g p (some o) h = h
undecided g p none h = absurd (ground (arith, h))

or_rest-ready :
    (o rest : Option Verdict)
    → or_rest o rest ≡ some gate_ready
    → (o ≡ some gate_ready) ⊎ (rest ≡ some gate_ready)
unfolding or_rest
or_rest-ready (some o) rest h = inl h
or_rest-ready none rest h = inr h

poll_outcome-ready : (g : Gate) (p : Poll) → poll_outcome g p ≡ some gate_ready → IsHealthy g p
unfolding poll_outcome
poll_outcome-ready g p h = decide-ready g p (undecided g p (decide g p (parse_readyz p.body)) h)

-- A gate that reports success has seen, before the deadline, one round in which the node answered
-- ready and, where both are given, under the expected id; every container of the stack was
-- running; and, unless that is not checked, every container whose expected image is known ran that
-- image.
pub health_gate-IsHealthy :
    (g : Gate) (polls : ℕ → Poll) (fuel k : ℕ)
    → health_gate g polls fuel k ≡ some gate_ready
    → (j : ℕ) × ((polls j).now < g.deadline) × IsHealthy g (polls j)
unfolding health_gate
health_gate-IsHealthy g polls zero k h = cc h
health_gate-IsHealthy g polls (suc fuel) k h = elim (Bool-cases (ltb (polls k).now g.deadline)) [
  | inl early ↦
      let chosen = rw early at h in
      elim (or_rest-ready (poll_outcome g (polls k)) (health_gate g polls fuel (suc k)) chosen) [
        | inl here ↦ (k, ground arith, poll_outcome-ready g (polls k) here)
        | inr later ↦ health_gate-IsHealthy g polls fuel (suc k) later
      ]
  | inr late ↦ let timed_out = rw late at h in absurd (cc timed_out)
]
