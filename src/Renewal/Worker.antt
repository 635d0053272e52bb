-- ===== src/Renewal/Worker.antt =====
-- `cert_renewal_worker` of app/workers/cert_renewal.py: the delays, and the passes that a process and
-- its successors run.
use greffer.Renewal.{World, Config, Books}
use greffer.Renewal.Pass.{PassEnd, passed, already_running, pass_auth_lost, node_capped, renew_all}
use greffer.Prelude.{
  ℕ, ◌*◌, String, Bool, Option, List, [], ◌∷◌, leb, if◌then◌else◌, ◌==◌, nat_eq, string_eq,
}

-- `_DEFERRED_RETRY_SECONDS` and `_CAPPED_RETRY_SECONDS`
abbrev pub deferred_retry_seconds : ℕ
deferred_retry_seconds = 120

abbrev pub capped_retry_seconds : ℕ
capped_retry_seconds = 60 * 60

unfoldable pub min : ℕ → ℕ → ℕ
min a b = if leb a b then a else b

-- The delay of `cert_renewal_worker` after a pass that ended so.
unfoldable pub next_delay : Config → PassEnd → ℕ
unfolding min
next_delay c (passed n) =
    if n.deferred == 0 then c.interval else min deferred_retry_seconds c.interval
next_delay c already_running = min deferred_retry_seconds c.interval
next_delay c pass_auth_lost = min deferred_retry_seconds c.interval
next_delay c node_capped = min capped_retry_seconds c.interval
next_delay c _ = c.interval

-- What happens to a node's renewal: a pass, or a restart of the process, which keeps the file only.
pub data Happening : Type 0 where
  pass_of : Option String → Bool → Bool → Happening
  restart : Happening

unfoldable pub happen : World → Config → Happening → Books → Books
unfolding renew_all
happen w c (pass_of only force busy) s = (renew_all w c only force busy s).0
happen w c restart s = record s { backoff = []; unconfirmed = []; blind_streak = 0 }

unfoldable pub history : World → Config → List Happening → Books → Books
unfolding happen
history w c [] s = s
history w c (h ∷ later) s = history w c later (happen w c h s)
