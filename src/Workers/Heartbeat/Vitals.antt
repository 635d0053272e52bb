-- ===== src/Workers/Heartbeat/Vitals.antt =====
-- The bounds of the CPU share, and the beats that are degraded.
use mathlib.Core.Path.{subst}
use greffer.Workers.Monitor.{Published}
use greffer.Workers.Heartbeat.{
  is_fresh, collect, collect_or_reuse, CpuSample, Share, share_of, host_cpu,
}
use greffer.Prelude.{
  ℕ, ◌+◌, ◌-◌, ◌≤◌, ◌<◌, String, ◌≡◌, refl, inl, inr, Bool, true, false, not, ◌&&◌, Option, none,
  some, map, arith, leb, if◌then◌else◌, nat_eq, string_eq, Bool-cases, Dict,
}

some-inj : {A : Type 0} {x y : A} → some x ≡ some y → x ≡ y
some-inj e = cc e

none-some : {A : Type 0} {x : A} → none ≡ some x → ⊥
none-some e = cc e

capped : (busy elapsed : ℕ) → (if leb busy elapsed then busy else elapsed) ≤ elapsed
capped busy elapsed = ground arith

share_of-bounds :
    (prev cur : CpuSample) (s : Share)
    → share_of prev cur ≡ some s
    → (0 < s.elapsed) × (s.busy ≤ s.elapsed)
unfolding share_of
share_of-bounds prev cur s e =
    let elapsed = cur.total - prev.total in
    let busy = (cur.total + prev.idle) - (prev.total + cur.idle) in
    let share : Share = record {
      busy = if leb busy elapsed then busy else elapsed;
      elapsed = elapsed;
    } in
    elim (Bool-cases (leb cur.total prev.total)) [
      | inl stuck ↦ absurd (none-some (rw stuck at e))
      | inr moved ↦
          let same : share ≡ s = some-inj (rw moved at e) in
          subst (λ (x : Share). (0 < x.elapsed) × (x.busy ≤ x.elapsed)) same
            (ground (arith, moved), capped busy elapsed)
    ]

-- A share that a beat reports has a positive elapsed time and lies between nothing and all of it,
-- also when a counter was reset or the idle time ran backwards.
pub host_cpu-bounds :
    (prev cur : Option CpuSample) (s : Share)
    → (host_cpu prev cur).0 ≡ some s
    → (0 < s.elapsed) × (s.busy ≤ s.elapsed)
unfolding host_cpu
host_cpu-bounds none cur s e = cc e
host_cpu-bounds (some prev) none s e = cc e
host_cpu-bounds (some prev) (some cur) s e = share_of-bounds prev cur s e

-- Whether there is a sweep young enough to reuse.
unfoldable pub has_fresh : ℕ → ℕ → Option Published → Bool
unfolding is_fresh
has_fresh now window none = false
has_fresh now window (some cached) = is_fresh now window cached

unfoldable pub failed_to_collect : Option (Dict String String) → Bool
failed_to_collect none = true
failed_to_collect (some map) = false

collect-degraded :
    (now_iso : ℕ) (collected : Option (Dict String String))
    → (collect now_iso collected).degraded ≡ failed_to_collect collected
unfolding collect failed_to_collect
collect-degraded now_iso none = refl
collect-degraded now_iso (some map) = refl

-- A beat is degraded exactly if there is no sweep young enough to reuse and its own collection
-- fails.
pub collect_or_reuse-degraded :
    (now now_iso monitor heartbeat : ℕ) (cached : Option Published)
    (collected : Option (Dict String String))
    → (collect_or_reuse now now_iso monitor heartbeat cached collected).degraded
      ≡ (not (has_fresh now (monitor + heartbeat) cached) && failed_to_collect collected)
unfolding collect_or_reuse has_fresh failed_to_collect collect
collect_or_reuse-degraded now now_iso monitor heartbeat none none = refl
collect_or_reuse-degraded now now_iso monitor heartbeat none (some map) = refl
collect_or_reuse-degraded now now_iso monitor heartbeat (some cached) collected =
    elim (Bool-cases (is_fresh now (monitor + heartbeat) cached)) [
      | inl fresh ↦ rw fresh refl
      | inr stale ↦ rw stale (collect-degraded now_iso collected)
    ]
