-- ===== src/Limits/Tests.antt =====
-- Checks of one instance, one of whose services uses too much memory.
use greffer.Limits.{InstanceLimits, Usage, check_limits_observed, prune_last_warned}
use greffer.Limits.Spaced.{IsSpaced}
use greffer.Limits.Rate.{Reading, observe, quiet_start, warnings-IsSpaced}
use greffer.Prelude.{ℕ, ◌≡◌, refl, none, some, List, [], ◌∷◌, arith, nat_eq, string_eq, get, put}

abbrev two_gigabytes : InstanceLimits
two_gigabytes = record { mem_bytes = some 2147483648; cpu_limit_percent = some 200 }

abbrev usage : List Usage
usage =
    record {
      mem_used_bytes = some 3000000000;
      cpu_percent = some 10;
      service = some "db";
      name = none;
    }
    ∷ record { mem_used_bytes = none; cpu_percent = some 20; service = none; name = some "web" }
    ∷ []

abbrev at_clock : ℕ → Reading
at_clock t = record { clock = t; instance_id = "i1"; limits = two_gigabytes; digest = usage }

abbrev polled : List Reading
polled = at_clock 5 ∷ at_clock 300 ∷ at_clock 700 ∷ []

two_warnings :
    (observe 600 polled quiet_start).log
    ≡ (record { instance_id = "i1"; service = "db" }, 700)
      ∷ (record { instance_id = "i1"; service = "db" }, 5)
      ∷ []
unfolding observe check_limits_observed get prune_last_warned put
two_warnings = refl

warnings-IsSpaced_example : IsSpaced 600 (observe 600 polled quiet_start).log
warnings-IsSpaced_example =
    warnings-IsSpaced 600 0 polled (omega arith, (omega arith, (omega arith, tt)))
