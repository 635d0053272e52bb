-- ===== src/Controller/Inflight.antt =====
-- An instance is in flight exactly while a thread waits for a child of it.
use greffer.Controller.{
  release_compose_child, compose_inflight, count_child, Happening, untracked, tracked, exited,
  Tracker, without_one, track_compose_child, child_exits, happen_to, tracked_after, Inflight,
}
use greffer.Prelude.{
  ℕ, ◌+◌, ◌-◌, ◌≤◌, String, ◌≡◌, refl, sym, ap, ◌∙◌, inl, inr, Bool, true, false, Option, none,
  some, List, [], ◌∷◌, arith, ltb, ◌==◌, nat_eq, string_eq, Bool-cases, or_else, contains, get,
  get_or, get-put, get-pop, if_ind,
}

abbrev one_if : Bool → ℕ
one_if true = 1
one_if false = 0

unfoldable children : String → List String → ℕ
children id [] = 0
children id (j ∷ ids) = one_if (j == id) + children id ids

same_name : (id j : String) → (id == j) ≡ true → id ≡ j
same_name id j h = (string_eq.beq_iff id j).0 h

count_child-get :
    (id j : String) (d : Inflight) → get_or (count_child id d) j 0 ≡ one_if (id == j) + get_or d j 0
unfolding count_child
count_child-get id j d =
    ap (λ o. or_else o 0) (get-put d id j (get_or d id 0 + 1)) ∙ elim (Bool-cases (id == j)) [
      | inl same ↦ rw same (omega (arith, ap (λ k. get_or d k 0) (same_name id j same)))
      | inr other ↦ rw other (omega arith)
    ]

less_one : (o : Option ℕ) → or_else o 1 - 1 ≡ or_else o 0 - 1
less_one none = omega arith
less_one (some n) = refl

release_compose_child-get :
    (id j : String) (d : Inflight)
    → get_or (release_compose_child id d) j 0 ≡ get_or d j 0 - one_if (id == j)
unfolding release_compose_child
release_compose_child-get id j d =
    if_ind (λ e. get_or e j 0 ≡ get_or d j 0 - one_if (id == j)) (ltb 0 (get_or d id 1 - 1)) _ _
      (λ left.
        ap (λ o. or_else o 0) (get-put d id j (get_or d id 1 - 1)) ∙ elim (Bool-cases (id == j)) [
          | inl same ↦
              rw same (less_one (get d id) ∙ ap (λ k. get_or d k 0 - 1) (same_name id j same))
          | inr other ↦ rw other (omega arith)
        ])
      (λ last. ap (λ o. or_else o 0) (get-pop d id j) ∙ elim (Bool-cases (id == j)) [
        | inl same ↦ rw same (
            ground (arith, last, less_one (get d id), ap (λ k. get_or d k 0) (same_name id j same)))
        | inr other ↦ rw other (omega arith)
      ])

children-contains :
    (id j : String) (ids : List String) → contains id ids ≡ true → one_if (id == j) ≤ children j ids
unfolding children contains
children-contains id j [] h = cc h
children-contains id j (k ∷ ids) h = elim (Bool-cases (k == id)) [
  | inl same ↦ let here = ap (λ i. one_if (i == j)) (same_name k id same) in omega (arith, here)
  | inr other ↦ let there = children-contains id j ids (rw other at h) in omega (arith, there)
]

children-without_one :
    (id j : String) (ids : List String)
    → contains id ids ≡ true
    → children j (without_one id ids) ≡ children j ids - one_if (id == j)
unfolding children without_one contains
children-without_one id j [] h = cc h
children-without_one id j (k ∷ ids) h = elim (Bool-cases (k == id)) [
  | inl same ↦
      let here = ap (λ i. one_if (i == j)) (same_name k id same) in rw same (omega (arith, here))
  | inr other ↦
      let there = children-contains id j ids (rw other at h) in
      let rest = children-without_one id j ids (rw other at h) in
      rw other (omega (arith, there, rest))
]

-- The counter counts the children for which a thread waits.
abbrev IsCounted : Tracker → Type 0
IsCounted t = (id : String) → get_or t.inflight id 0 ≡ children id t.waiting

track_compose_child-IsCounted :
    (id : String) (starts : Bool) (t : Tracker)
    → IsCounted t
    → IsCounted (track_compose_child id starts t)
unfolding track_compose_child children
track_compose_child-IsCounted id true t counted j =
    count_child-get id j t.inflight ∙ ap (λ n. one_if (id == j) + n) (counted j)
track_compose_child-IsCounted id false t counted j =
    release_compose_child-get id j (count_child id t.inflight)
    ∙ ap (λ n. n - one_if (id == j)) (count_child-get id j t.inflight)
    ∙ omega (arith, counted j)

child_exits-IsCounted : (id : String) (t : Tracker) → IsCounted t → IsCounted (child_exits id t)
unfolding child_exits
child_exits-IsCounted id t counted j =
    if_ind (λ (u : Tracker). get_or u.inflight j 0 ≡ children j u.waiting) (contains id t.waiting) _
      _
      (λ there.
        release_compose_child-get id j t.inflight
        ∙ ap (λ n. n - one_if (id == j)) (counted j)
        ∙ sym (children-without_one id j t.waiting there))
      (λ _. counted j)

tracked_after-IsCounted :
    (happenings : List Happening) (t : Tracker)
    → IsCounted t
    → IsCounted (tracked_after happenings t)
unfolding tracked_after happen_to
tracked_after-IsCounted [] t counted = counted
tracked_after-IsCounted (untracked id ∷ happenings) t counted =
    tracked_after-IsCounted happenings t counted
tracked_after-IsCounted (tracked id starts ∷ happenings) t counted =
    tracked_after-IsCounted happenings (track_compose_child id starts t)
      (track_compose_child-IsCounted id starts t counted)
tracked_after-IsCounted (exited id ∷ happenings) t counted =
    tracked_after-IsCounted happenings (child_exits id t) (child_exits-IsCounted id t counted)

ltb_suc : (n : ℕ) → ltb 0 (1 + n) ≡ true
ltb_suc n = ground arith

plus_none : (n : ℕ) → 0 + n ≡ n
plus_none n = omega arith

children_present : (id : String) (ids : List String) → ltb 0 (children id ids) ≡ contains id ids
unfolding children contains
children_present id [] = refl
children_present id (j ∷ ids) = elim (Bool-cases (j == id)) [
  | inl same ↦ rw same (ltb_suc (children id ids))
  | inr other ↦ rw other (ap (ltb 0) (plus_none (children id ids)) ∙ children_present id ids)
]

-- Whatever children are tracked, exit or get no thread, from a fresh process: an instance is in
-- flight exactly if a thread waits for a child of it, so a child that ends never hides a sibling
-- that runs, and no mark outlives the last child.
pub compose_inflight-waiting :
    (happenings : List Happening) (id : String)
    → let t = tracked_after happenings (record { inflight = []; waiting = [] }) in
      compose_inflight id t.inflight ≡ contains id t.waiting
unfolding compose_inflight children get
compose_inflight-waiting happenings id =
    let t = tracked_after happenings (record { inflight = []; waiting = [] }) in
    ap (ltb 0)
      (tracked_after-IsCounted happenings (record { inflight = []; waiting = [] }) (λ j. refl) id)
    ∙ children_present id t.waiting
