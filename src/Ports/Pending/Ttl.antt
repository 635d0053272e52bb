-- ===== src/Ports/Pending/Ttl.antt =====
-- `_pending_ttl_seconds` of apps/utils/docker/l4_ports.py.
use greffer.Prelude.{ℕ, zero, suc, ◌*◌, ◌<◌, arith, nat_eq, string_eq}

-- What `float(raw)` gives: no number (ValueError), a number that is not finite, or a finite one
-- as a count of clock ticks with its sign.
pub data Reading : Type 0 where
  invalid : Reading
  not_finite : Reading
  negative : ℕ → Reading
  nonnegative : ℕ → Reading

module _ (ticks_per_second : ℕ) where
  default_ttl : ℕ
  default_ttl = 300 * ticks_per_second

  unfoldable pub pending_ttl : Reading → ℕ
  unfolding default_ttl
  pending_ttl invalid = default_ttl
  pending_ttl not_finite = default_ttl
  pending_ttl (negative n) = default_ttl
  pending_ttl (nonnegative zero) = default_ttl
  pending_ttl (nonnegative (suc n)) = suc n

  -- Whatever the variable holds, the lifetime of a reservation is positive.
  pub pending_ttl_pos : (raw : Reading) → 0 < ticks_per_second → 0 < pending_ttl raw
  unfolding pending_ttl
  pending_ttl_pos (nonnegative (suc n)) h = omega arith
  pending_ttl_pos _ h = omega arith
