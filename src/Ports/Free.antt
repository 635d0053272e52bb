-- ===== src/Ports/Free.antt =====
-- `lowest_free_port` of apps/utils/docker/l4_ports.py.
pub mod Lowest
use greffer.Prelude.{
  ℕ, zero, suc, ◌+◌, ◌-◌, ◌*◌, ◌≤◌, ◌<◌, String, ◌≡◌, refl, sym, ap, ◌∙◌, ◌≢◌, ◌↔◌, ◌⊎◌, inl, inr,
  Bool, true, false, not, ◌&&◌, ◌||◌, Option, none, some, List, [], ◌∷◌, ◌++◌, map, arith, eq_iff,
  ltb, leb, if◌then◌else◌, Eq, ◌==◌, ◌!=◌, nat_eq, string_eq, Bool-cases, Option-cases, or_else,
  All, All-append, length, select, any, every, contains, contains-append, Dict, get, get_or, put,
  pop, get-put, get-pop, lower,
}

-- The loop over `range(candidate, candidate + rounds)`.
unfoldable pub first_free : ℕ → ℕ → List ℕ → Option ℕ
first_free zero candidate taken = none
first_free (suc rounds) candidate taken =
    let rest = first_free rounds (suc candidate) taken in
    if contains candidate taken then rest else some candidate

-- `range(start, end + 1)` has `end + 1 - start` members, none if `end < start`.
unfoldable pub lowest_free_port : ℕ → ℕ → List ℕ → Option ℕ
unfolding first_free
lowest_free_port start end taken = first_free (end + 1 - start) start taken
