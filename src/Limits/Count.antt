-- ===== src/Limits/Count.antt =====
-- The count that the check returns.
use greffer.Limits.{
  InstanceLimits, Usage, prune_last_warned, is_exceeding, is_over, is_none, key_of, Telemetry, warn,
  check_entries, is_off, check_limits_observed,
}
use greffer.Prelude.{
  ℕ, suc, ◌+◌, String, ◌≡◌, refl, sym, ◌∙◌, inl, inr, true, false, Option, none, some, List, [],
  ◌∷◌, arith, if◌then◌else◌, nat_eq, string_eq, Bool-cases,
}

-- The containers of a digest that exceed a limit.
unfoldable pub count_exceeding : InstanceLimits → List Usage → ℕ
count_exceeding limits [] = 0
count_exceeding limits (e ∷ es) =
    let rest = count_exceeding limits es in if is_exceeding limits e then suc rest else rest

check_entries-count :
    (rewarn clock : ℕ) (instance_id : String) (limits : InstanceLimits) (es : List Usage) (n : ℕ)
    (s : Telemetry)
    → (check_entries rewarn clock instance_id limits es (n, s)).0 ≡ count_exceeding limits es + n
unfolding check_entries count_exceeding
check_entries-count rewarn clock instance_id limits [] n s = omega arith
check_entries-count rewarn clock instance_id limits (e ∷ es) n s =
    elim (Bool-cases (is_exceeding limits e)) [
      | inl over ↦ rw over (
          check_entries-count rewarn clock instance_id limits es (suc n)
            (warn rewarn clock (key_of instance_id e) s)
          ∙ omega arith)
      | inr under ↦ rw under (check_entries-count rewarn clock instance_id limits es n s)
    ]

is_over-none : (limit used : Option ℕ) → is_none limit ≡ true → is_over limit used ≡ false
unfolding is_over is_none
is_over-none none used h = refl
is_over-none (some l) used h = cc h

is_exceeding-off :
    (limits : InstanceLimits) (e : Usage) → is_off limits ≡ true → is_exceeding limits e ≡ false
unfolding is_exceeding is_off
is_exceeding-off limits e off =
    let mem = is_over-none limits.mem_bytes e.mem_used_bytes (ground (arith, off)) in
    let cpu = is_over-none limits.cpu_limit_percent e.cpu_percent (ground (arith, off)) in
    ground (arith, mem, cpu)

count_exceeding-off :
    (limits : InstanceLimits) (es : List Usage)
    → is_off limits ≡ true
    → count_exceeding limits es ≡ 0
unfolding count_exceeding
count_exceeding-off limits [] off = refl
count_exceeding-off limits (e ∷ es) off =
    rw (is_exceeding-off limits e off) (count_exceeding-off limits es off)

-- The check returns the number of the containers that exceed a limit, whatever was warned before,
-- also with both limits off.
pub check_limits_observed-count :
    (rewarn clock : ℕ) (instance_id : String) (limits : InstanceLimits) (digest : List Usage)
    (s : Telemetry)
    → (check_limits_observed rewarn clock instance_id limits digest s).0
      ≡ count_exceeding limits digest
unfolding check_limits_observed
check_limits_observed-count rewarn clock instance_id limits digest s =
    elim (Bool-cases (is_off limits)) [
      | inl off ↦ rw off (sym (count_exceeding-off limits digest off))
      | inr on ↦ rw on (
          check_entries-count rewarn clock instance_id limits digest 0
            (record s { last_warned = prune_last_warned rewarn clock s.last_warned })
          ∙ omega arith)
    ]
