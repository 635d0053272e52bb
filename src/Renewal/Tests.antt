-- ===== src/Renewal/Tests.antt =====
-- Renewals on a node with one running instance, whose sidecar takes a new certificate only when it
-- is restarted, and whose manager cannot be told.
use greffer.Renewal.{
  Answered, http, lost, restarted, Past, World, Config, has_key, ticks, backoff_cap,
}
use greffer.Renewal.Serial.{same_serial}
use greffer.Renewal.Instance.{await_serial, renew_one}
use greffer.Renewal.Pass.{PassResult}
use greffer.Renewal.Worker.{Happening, pass_of, restart, history}
use greffer.Renewal.Pass.Muted.{backoff_ends_within_a_day}
use greffer.Renewal.Pass.Confirmed.{IsConfirmed, renew_one-IsConfirmed}
use greffer.Renewal.Pass.Justified.{IsJustified, restarts-IsJustified}
use greffer.Renewal.Owed.{is_unresolved}
use greffer.Renewal.Owed.Histories.{fresh, mints_are_owed}
use greffer.Renewal.Instance.Waits.{await_serial_waits}
use greffer.Prelude.{
  ◌+◌, ◌≤◌, ◌≡◌, refl, ◌⊎◌, Bool, true, false, none, some, List, [], ◌∷◌, arith, if◌then◌else◌,
  nat_eq, string_eq, length, get, put,
}

abbrev was_restarted : Past → Bool
was_restarted [] = false
was_restarted (restarted id ∷ past) = true
was_restarted (_ ∷ past) = was_restarted past

abbrev issued : Answered
issued = http (record { status = 200; text = ""; json = some (some "b1") })

abbrev node : World
node = record {
  monotonic = length;
  wall_clock = λ past. 1000;
  is_writable = λ past. true;
  is_readable = λ past. true;
  host_port = λ id past. some 45347;
  is_inflight = λ id past. false;
  is_settling = λ id past. false;
  lock_refusal = λ id past. none;
  served = λ port past. (some (if was_restarted past then "0B1" else "0A"), some 500);
  mint_answer = λ id past. issued;
  installs = λ id past. true;
  reloads = λ id past. false;
  restarts = λ id past. true;
  report_answer = λ id past. lost;
  is_stopped = λ past. false;
  status_map = λ past. some (("a", "running") ∷ []);
}

abbrev config : Config
config = record { interval = 21600; window_days = 7 }

abbrev two_passes : List Happening
two_passes = pass_of none false false ∷ restart ∷ pass_of none false false ∷ []

mints_are_owed_example : has_key (history node config two_passes fresh).file "a" ≡ true
unfolding history is_unresolved get put
mints_are_owed_example =
    mints_are_owed node (λ past. refl) (λ past. refl) config two_passes "a" refl

restarts-IsJustified_example : IsJustified (history node config two_passes fresh).past
restarts-IsJustified_example = restarts-IsJustified node config two_passes

renew_one-IsConfirmed_example : IsConfirmed "a" (renew_one node config "a" false fresh)
renew_one-IsConfirmed_example = renew_one-IsConfirmed node config "a" false fresh

abbrev passed_counts : PassResult
passed_counts = record {
  considered = 3;
  renewals = 1;
  skips = 1;
  errors = 0;
  selected = none;
  deferred = 1;
}

await_serial_waits_example :
    (same_serial (await_serial node "a" 45347 (some "b1") fresh).1 (some "b1") ≡ true)
    ⊎ (40 ≤ length (await_serial node "a" 45347 (some "b1") fresh).0.past)
await_serial_waits_example =
    await_serial_waits node (λ act past. omega arith) (λ past. omega arith) "a" 45347 (some "b1")
      fresh

abbrev mute : World
mute = record node { mint_answer = λ id past. lost }

backoff_ends_within_a_day_example :
    43240 ≤ length (history mute config two_passes fresh).past + ticks backoff_cap
unfolding history get put
backoff_ends_within_a_day_example =
    backoff_ends_within_a_day mute config (λ act past. omega arith) two_passes "a" 1 43240 refl
