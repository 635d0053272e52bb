-- ===== src/Renewal/Pass/Runs.antt =====
-- What a pass preserves, given what a renewal of one instance and the pass's own steps preserve.
use greffer.Renewal.Pass.{
  PassResult, nothing_done, Flow, onward, broken, broken_unauthorized, broken_capped, Sweeping,
  PassEnd, unless_blind, on_renewed, is_passed_by, renew_next, go_onward, by_flow, renew_each,
  known, forget, prune_stale, end_pass, is_unknown, on_statuses, renew_all_locked, renew_all,
}
use greffer.Renewal.Worker.{Happening, pass_of, restart, happen, history}
use greffer.Renewal.{
  looked, forgotten, World, Config, Books, Raised, returned, renewal_unavailable, node_rate_limited,
  node_auth_lost, crashed, note, has_key, save_unconfirmed, load_unconfirmed, note_failure,
}
use greffer.Renewal.Instance.{InstanceOutcome, renew_one}
use greffer.Prelude.{
  ℕ, suc, String, Bool, Option, none, some, List, [], ◌∷◌, nat_eq, string_eq, Dict, pop, if_ind,
}

by_flow_ind :
    (P : Sweeping → Type 0) (f : Flow) (t : Sweeping) (rest : PassResult → Books → Sweeping)
    → P t
    → P (rest t.counts t.books)
    → P (by_flow f t rest)
unfolding by_flow
by_flow_ind P onward t rest ended later = later
by_flow_ind P broken t rest ended later = ended
by_flow_ind P broken_unauthorized t rest ended later = ended
by_flow_ind P broken_capped t rest ended later = ended

-- The loop ends after an instance, or goes on with the next one.
pub go_onward_ind :
    (P : Sweeping → Type 0) (t : Sweeping) (rest : PassResult → Books → Sweeping)
    → P t
    → P (rest t.counts t.books)
    → P (go_onward t rest)
unfolding go_onward
go_onward_ind P t rest ended later = by_flow_ind P t.flow t rest ended later

-- `D` holds before a pass, `P` of the books once the ledger is loaded.
pub record IsPassStable (D P : Books → Type 0) (w : World) (c : Config) : Type 0 where
  pub looks : (s : Books) → P s → P (note looked s)
  pub fails : (id : String) (s : Books) → P s → P (note_failure w c id s)
  pub blinds : (streak : ℕ) (s : Books) → P s → P (record s { blind_streak = streak })
  pub renews : (id : String) (force : Bool) (s : Books) → P s → P (renew_one w c id force s).0
  pub forgets :
      (id : String) (s : Books)
      → P s
      → P (note (forgotten id) (record s { unconfirmed = pop s.unconfirmed id }))
  pub prunes :
      (statuses : Dict String String) (s : Books)
      → P s
      → P (record s { backoff = known statuses s.backoff })
  pub saves : (s : Books) → P s → P (save_unconfirmed w s)
  pub loads : (s : Books) → D s → P (load_unconfirmed w s)
  pub goes_on : (s : Books) → P s → D s
  pub restarts :
      (s : Books) → D s → D (record s { backoff = []; unconfirmed = []; blind_streak = 0 })

module _ {D P : Books → Type 0} {w : World} {c : Config} (p : IsPassStable D P w c) where
  on_renewed-IsPassStable :
      (only : Option String) (id : String) (n : PassResult) (s : Books) (r : Raised InstanceOutcome)
      → P s
      → P (on_renewed w c only id n (s, r)).books
  unfolding on_renewed unless_blind
  on_renewed-IsPassStable only id n s (returned o) k = k
  on_renewed-IsPassStable only id n s renewal_unavailable k = k
  on_renewed-IsPassStable only id n s node_auth_lost k = k
  on_renewed-IsPassStable only id n s node_rate_limited k = k
  on_renewed-IsPassStable only id n s crashed k = p.fails id s k

  renew_next-IsPassStable :
      (only : Option String) (force : Bool) (id : String) (n : PassResult) (s : Books)
      → P s
      → P (renew_next w c only force id n s).books
  unfolding renew_next
  renew_next-IsPassStable only force id n s k =
      let s₁ = note looked s in
      let k₁ = p.looks s k in
      let run = renew_one w c id force s₁ in
      if_ind (λ (t : Sweeping). P t.books) (w.is_stopped s.past) _ _ (λ _. k₁)
        (λ _.
          on_renewed-IsPassStable only id (record n { considered = suc n.considered }) run.0 run.1
            (p.renews id force s₁ k₁))

  renew_each-IsPassStable :
      (only : Option String) (force : Bool) (statuses : Dict String String) (n : PassResult)
      (s : Books)
      → P s
      → P (renew_each w c only force statuses n s).books
  unfolding renew_each
  renew_each-IsPassStable only force [] n s k = k
  renew_each-IsPassStable only force ((id, status) ∷ statuses) n s k =
      let later = renew_each-IsPassStable only force statuses in
      if_ind (λ (t : Sweeping). P t.books) (is_passed_by only id status) _ _ (λ _. later n s k)
        (λ _.
          let t = renew_next w c only force id n s in
          let k' = renew_next-IsPassStable only force id n s k in
          go_onward_ind (λ t. P t.books) t (renew_each w c only force statuses) k'
            (later t.counts t.books k'))

  forget-IsPassStable :
      (statuses owed : Dict String String) (s : Books) → P s → P (forget statuses owed s)
  unfolding forget
  forget-IsPassStable statuses [] s k = k
  forget-IsPassStable statuses ((id, serial) ∷ owed) s k =
      forget-IsPassStable statuses owed _
        (if_ind P (has_key statuses id) s _ (λ _. k) (λ _. p.forgets id s k))

  prune_stale-IsPassStable :
      (statuses : Dict String String) (s : Books) → P s → P (prune_stale w statuses s)
  unfolding prune_stale
  prune_stale-IsPassStable statuses s k =
      let s₁ : Books = record s { backoff = known statuses s.backoff } in
      p.saves (forget statuses s.unconfirmed s₁)
        (forget-IsPassStable statuses s.unconfirmed s₁ (p.prunes statuses s k))

  on_statuses-IsPassStable :
      (only : Option String) (force : Bool) (statuses : Option (Dict String String)) (s : Books)
      → P s
      → P (on_statuses w c only force statuses s).0
  unfolding on_statuses end_pass
  on_statuses-IsPassStable only force none s k = k
  on_statuses-IsPassStable only force (some statuses) s k =
      let s₁ = note looked s in
      let k₁ = p.looks s k in
      if_ind (λ (r : Books × PassEnd). P r.0) (w.is_stopped s.past) _ _ (λ _. k₁)
        (λ _.
          if_ind (λ (r : Books × PassEnd). P r.0) (is_unknown only statuses) _ _ (λ _. k₁)
            (λ _.
              prune_stale-IsPassStable statuses
                (renew_each w c only force statuses nothing_done s₁).books
                (renew_each-IsPassStable only force statuses nothing_done s₁ k₁)))

  renew_all_locked-IsPassStable :
      (only : Option String) (force : Bool) (s : Books)
      → D s
      → P (renew_all_locked w c only force s).0
  unfolding renew_all_locked
  renew_all_locked-IsPassStable only force s d =
      let loaded = load_unconfirmed w s in
      let s₁ : Books = record loaded { blind_streak = 0 } in
      let k₁ = p.blinds 0 loaded (p.loads s d) in
      let s₂ = note looked s₁ in
      let k₂ = p.looks s₁ k₁ in
      if_ind (λ (r : Books × PassEnd). P r.0) (w.is_stopped s₁.past) _ _ (λ _. k₂)
        (λ _.
          on_statuses-IsPassStable only force (w.status_map s₂.past) (note looked s₂)
            (p.looks s₂ k₂))

  happen-IsPassStable : (h : Happening) (s : Books) → D s → D (happen w c h s)
  unfolding happen renew_all
  happen-IsPassStable restart s d = p.restarts s d
  happen-IsPassStable (pass_of only force busy) s d =
      if_ind (λ (r : Books × PassEnd). D r.0) busy _ _ (λ _. d)
        (λ _. p.goes_on _ (renew_all_locked-IsPassStable only force s d))

  -- Any history of passes and restarts.
  pub history-IsPassStable :
      (happenings : List Happening) (s : Books) → D s → D (history w c happenings s)
  unfolding history
  history-IsPassStable [] s d = d
  history-IsPassStable (h ∷ later) s d =
      history-IsPassStable later (happen w c h s) (happen-IsPassStable h s d)
