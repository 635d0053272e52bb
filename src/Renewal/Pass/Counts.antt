-- ===== src/Renewal/Pass/Counts.antt =====
-- The counts of a pass and the delay to the next one.
use greffer.Renewal.Pass.{
  PassResult, nothing_done, Flow, onward, broken, broken_unauthorized, broken_capped, Sweeping,
  PassEnd, passed, already_running, instance_not_found, pass_auth_lost, node_capped, pass_crashed,
  unless_blind, on_renewed, is_passed_by, renew_next, renew_each, end_pass, is_unknown, on_statuses,
  renew_all_locked, renew_all, select_status, count_status, end_of,
}
use greffer.Renewal.Worker.{next_delay, deferred_retry_seconds}
use greffer.Renewal.Pass.Runs.{go_onward_ind}
use greffer.Renewal.{
  looked, World, Config, Books, Raised, returned, renewal_unavailable, node_rate_limited,
  node_auth_lost, crashed, note, load_unconfirmed,
}
use greffer.Renewal.Instance.{
  RenewalStatus, renewed, not_due, skipped, failed, InstanceOutcome, renew_one,
}
use greffer.Prelude.{
  suc, ◌+◌, ◌≤◌, String, ◌≡◌, Bool, true, false, Option, none, some, [], ◌∷◌, arith, ◌!=◌, nat_eq,
  string_eq, Dict, if_ind,
}

-- What is counted was considered, what is deferred was skipped, and the selected instance is among
-- what is counted.
pub record IsCounted (n : PassResult) : Type 0 where
  pub considered : n.renewals + n.skips + n.errors ≤ n.considered
  pub deferred : n.deferred ≤ n.skips
  pub selected_failed : n.selected ≡ some failed → 1 ≤ n.errors
  pub selected_renewed : n.selected ≡ some renewed → 1 ≤ n.renewals

nothing_done-IsCounted : IsCounted nothing_done
nothing_done-IsCounted = record {
  considered = omega arith;
  deferred = omega arith;
  selected_failed = λ e. cc e;
  selected_renewed = λ e. cc e;
}

-- One more instance with its status.
count_status-IsCounted :
    (only reason : Option String) (id : String) (status : RenewalStatus) (n : PassResult)
    → IsCounted n
    → IsCounted (
        count_status reason status
          (select_status only id status (record n { considered = suc n.considered })))
unfolding count_status select_status
count_status-IsCounted only reason id renewed n k =
    ground (arith, k.selected_failed, k.selected_renewed)
count_status-IsCounted only reason id not_due n k =
    ground (arith, k.selected_failed, k.selected_renewed)
count_status-IsCounted only reason id skipped n k =
    ground (arith, k.selected_failed, k.selected_renewed)
count_status-IsCounted only reason id failed n k =
    ground (arith, k.selected_failed, k.selected_renewed)

-- The pass that is worth a second look soon.
abbrev pub is_pressing : PassEnd → Bool
is_pressing (passed n) = n.deferred != 0
is_pressing already_running = true
is_pressing pass_auth_lost = true
is_pressing _ = false

module _ (w : World) (c : Config) (only : Option String) where
  on_renewed-IsCounted :
      (id : String) (n : PassResult) (s : Books) (r : Raised InstanceOutcome)
      → IsCounted n
      → IsCounted
          (on_renewed w c only id (record n { considered = suc n.considered }) (s, r)).counts
  unfolding on_renewed unless_blind select_status
  on_renewed-IsCounted id n s (returned o) k = count_status-IsCounted only o.reason id o.status n k
  on_renewed-IsCounted id n s renewal_unavailable k =
      ground (arith, k.selected_failed, k.selected_renewed)
  on_renewed-IsCounted id n s node_auth_lost k = record {
    considered = omega (arith, k.considered);
    deferred = k.deferred;
    selected_failed = k.selected_failed;
    selected_renewed = k.selected_renewed;
  }
  on_renewed-IsCounted id n s node_rate_limited k = record {
    considered = omega (arith, k.considered);
    deferred = k.deferred;
    selected_failed = k.selected_failed;
    selected_renewed = k.selected_renewed;
  }
  on_renewed-IsCounted id n s crashed k = ground (arith, k.selected_failed, k.selected_renewed)

  renew_next-IsCounted :
      (force : Bool) (id : String) (n : PassResult) (s : Books)
      → IsCounted n
      → IsCounted (renew_next w c only force id n s).counts
  unfolding renew_next
  renew_next-IsCounted force id n s k =
      let run = renew_one w c id force (note looked s) in
      if_ind (λ (t : Sweeping). IsCounted t.counts) (w.is_stopped s.past) _ _ (λ _. k)
        (λ _. on_renewed-IsCounted id n run.0 run.1 k)

  renew_each-IsCounted :
      (force : Bool) (statuses : Dict String String) (n : PassResult) (s : Books)
      → IsCounted n
      → IsCounted (renew_each w c only force statuses n s).counts
  unfolding renew_each
  renew_each-IsCounted force [] n s k = k
  renew_each-IsCounted force ((id, status) ∷ statuses) n s k =
      let later = renew_each-IsCounted force statuses in
      let t = renew_next w c only force id n s in
      let k' = renew_next-IsCounted force id n s k in
      if_ind (λ (t : Sweeping). IsCounted t.counts) (is_passed_by only id status) _ _
        (λ _. later n s k)
        (λ _.
          go_onward_ind (λ t. IsCounted t.counts) t (renew_each w c only force statuses) k'
            (later t.counts t.books k'))

  -- A pass that ends with a result has sound counts.
  abbrev pub IsSound : PassEnd → Type 0
  IsSound (passed n) = IsCounted n
  IsSound _ = Unit

  end_of-IsSound : (f : Flow) (n : PassResult) → IsCounted n → IsSound (end_of f n)
  unfolding end_of
  end_of-IsSound onward n k = k
  end_of-IsSound broken n k = k
  end_of-IsSound broken_unauthorized n k = tt
  end_of-IsSound broken_capped n k = tt

  on_statuses-IsSound :
      (force : Bool) (statuses : Option (Dict String String)) (s : Books)
      → IsSound (on_statuses w c only force statuses s).1
  unfolding on_statuses end_pass
  on_statuses-IsSound force none s = tt
  on_statuses-IsSound force (some statuses) s =
      let t = renew_each w c only force statuses nothing_done (note looked s) in
      if_ind (λ (r : Books × PassEnd). IsSound r.1) (w.is_stopped s.past) _ _
        (λ _. nothing_done-IsCounted)
        (λ _.
          if_ind (λ (r : Books × PassEnd). IsSound r.1) (is_unknown only statuses) _ _ (λ _. tt)
            (λ _. end_of-IsSound t.flow t.counts (
              renew_each-IsCounted force statuses nothing_done (note looked s)
                nothing_done-IsCounted)))

  renew_all_locked-IsSound :
      (force : Bool) (s : Books) → IsSound (renew_all_locked w c only force s).1
  unfolding renew_all_locked
  renew_all_locked-IsSound force s =
      let loaded = load_unconfirmed w s in
      let s₁ : Books = record loaded { blind_streak = 0 } in
      let s₂ = note looked s₁ in
      if_ind (λ (r : Books × PassEnd). IsSound r.1) (w.is_stopped s₁.past) _ _
        (λ _. nothing_done-IsCounted)
        (λ _. on_statuses-IsSound force (w.status_map s₂.past) (note looked s₂))

  -- The counts that a pass returns add up: what was renewed, skipped or failed was considered,
  -- what is deferred was skipped, and a selected instance that failed or was renewed is counted as
  -- such. So a targeted pass without an error has not failed its instance.
  pub renew_all-IsSound :
      (force busy : Bool) (s : Books) → IsSound (renew_all w c only force busy s).1
  unfolding renew_all
  renew_all-IsSound force busy s =
      if_ind (λ (r : Books × PassEnd). IsSound r.1) busy _ _ (λ _. tt)
        (λ _. renew_all_locked-IsSound force s)

-- Whatever ended a pass, the worker waits at least a second and at most its interval before the
-- next one; and at most two minutes if the pass deferred an instance, found another pass running,
-- or lost its token.
pub next_delay_bounds :
    (c : Config) (ended : PassEnd)
    → 1 ≤ c.interval
    → (1 ≤ next_delay c ended)
      × (next_delay c ended ≤ c.interval)
      × (is_pressing ended ≡ true → next_delay c ended ≤ deferred_retry_seconds)
unfolding next_delay
next_delay_bounds c (passed n) h = ground arith
next_delay_bounds c already_running h = ground arith
next_delay_bounds c instance_not_found h = ground arith
next_delay_bounds c pass_auth_lost h = ground arith
next_delay_bounds c node_capped h = ground arith
next_delay_bounds c pass_crashed h = ground arith
