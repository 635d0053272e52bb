-- ===== src/Renewal/Pass/Confirmed.antt =====
-- What it takes to count an instance as renewed.
use greffer.Renewal.Seen.{IsServed}
use greffer.Renewal.Instance.Closed.{IsClosed}
use greffer.Renewal.Instance.Due.{renew_one-IsClosed}
use greffer.Renewal.Instance.Steps.{Ending, is_renewed, is_renewed_status}
use greffer.Renewal.{
  World, Config, Books, Raised, returned, renewal_unavailable, node_rate_limited, node_auth_lost,
  crashed, clear_backoff,
}
use greffer.Renewal.Instance.{renewed, InstanceOutcome, outcome, renew_one}
use greffer.Prelude.{
  String, ◌≡◌, Bool, true, false, Option, none, arith, eq_iff, nat_eq, string_eq, get, get-pop,
}

-- A result of `renewed` means: the serial of the result was read last, it is the one issued last,
-- a report of it was sent last, and no failure is kept.
abbrev pub IsConfirmed : String → Ending → Type 0
IsConfirmed id (s, returned o) =
    is_renewed_status o.status ≡ true → IsServed id o.serial s.past × (get s.backoff id ≡ none)
IsConfirmed id (s, renewal_unavailable) = Unit
IsConfirmed id (s, node_rate_limited) = Unit
IsConfirmed id (s, node_auth_lost) = Unit
IsConfirmed id (s, crashed) = Unit

other-IsConfirmed :
    (id : String) (s : Books) (r : Raised InstanceOutcome)
    → is_renewed r ≡ false
    → IsConfirmed id (s, r)
other-IsConfirmed id s (returned o) e = λ h. cc (e, h)
other-IsConfirmed id s renewal_unavailable e = tt
other-IsConfirmed id s node_rate_limited e = tt
other-IsConfirmed id s node_auth_lost e = tt
other-IsConfirmed id s crashed e = tt

eased-IsConfirmed :
    (id : String) (serial : Option String) (s : Books)
    → IsServed id serial s.past
    → IsConfirmed id (clear_backoff id s, returned (outcome renewed serial))
unfolding clear_backoff outcome
eased-IsConfirmed id serial s served _ =
    (served, ground (arith, get-pop s.backoff id id, eq_iff id id))

abbrev Anything : Books → Type 0
Anything s = Unit

IsConfirmed-IsClosed :
    (w : World) (c : Config) (id : String) → IsClosed Anything (IsConfirmed id) w c id
IsConfirmed-IsClosed w c id = record {
  notes = λ act s e k. tt;
  restarts = λ s mismatch k. tt;
  files = λ debts file s k. tt;
  fails = λ s k. tt;
  blinds = λ streak s k. tt;
  eases = λ s k. tt;
  lands = λ serial s served k. eased-IsConfirmed id serial s served;
  ends = λ s r e k. other-IsConfirmed id s r e;
}

-- An instance counts as renewed only if its sidecar, as it was read last, serves the certificate
-- that was issued last, the report sent last to the manager, whatever its answer, was of that very
-- serial, and no failure of it is kept, whatever reload, restart, report and debt came before, and also when the renewal is forced.
pub renew_one-IsConfirmed :
    (w : World) (c : Config) (id : String) (force : Bool) (s : Books)
    → IsConfirmed id (renew_one w c id force s)
renew_one-IsConfirmed w c id force s = renew_one-IsClosed (IsConfirmed-IsClosed w c id) force s tt
