-- ===== src/Updater/Tests.antt =====
-- Runs of the updater on a node with one container.
use greffer.Updater.Gate.{Gate, Poll, Verdict, object, health_gate}
use greffer.Updater.Gate.Ends.{health_gate_returns}
use greffer.Updater.Gate.Ready.{IsHealthy, health_gate-IsHealthy}
use greffer.Updater.Version.{version_tuple, is_downgrade, below_floor}
use greffer.Updater.Version.Order.{precedes, is_downgrade-precedes}
use greffer.Updater.Engine.{
  Docker, Request, Container, Inspect, yes, no, raised, exit_ok, exit_rolled_back,
  run_remote_update, name_of_service,
}
use greffer.Updater.Engine.Undone.{recreated, IsUndone}
use greffer.Updater.Engine.Settled.{remote_update_refused, remote_update_rolls_back}
use greffer.Updater.Host.{lock_taken, Command, Installed, decide_update}
use greffer.Updater.Host.Guards.{IsSafe, host_update-IsSafe}
use greffer.Prelude.{
  ℕ, ◌<◌, String, ◌≡◌, refl, ap, ◌∙◌, ◌≢◌, true, false, Option, none, some, [], ◌∷◌, arith, nat_eq,
  string_eq, any, every, contains, get, put,
}

is_downgrade-precedes_example :
    is_downgrade (some "0.9") (some "0.8.1") ≡ some (precedes (0 ∷ 8 ∷ 1 ∷ []) (0 ∷ 9 ∷ []))
unfolding version_tuple every
is_downgrade-precedes_example =
    is_downgrade-precedes (some "0.9") (some "0.8.1") (0 ∷ 9 ∷ []) (0 ∷ 8 ∷ 1 ∷ []) refl refl

abbrev own : Container
own = record { container_id = "c1"; service = "greffer"; repo = "greffon/greffer" }

abbrev healthy_poll : ℕ → Poll
healthy_poll k = record {
  now = k;
  body = object (some "n1") (some "ready") none;
  image_id = λ _. some "new";
  is_running = λ _. true;
  restart_count = 0;
}

abbrev gate : Gate
gate = record {
  greffer_id = some "n1";
  applied_image_ids = ("greffer-1", some "new") ∷ [];
  service_names = "greffer-1" ∷ [];
  check_version = true;
  deadline = 3;
  base_restarts = 0;
}

health_gate_returns_example : (o : Verdict) × (health_gate gate healthy_poll 4 0 ≡ some o)
health_gate_returns_example = health_gate_returns gate healthy_poll (λ j. omega arith)

health_gate-IsHealthy_example : (j : ℕ) × (j < 3) × IsHealthy gate (healthy_poll j)
unfolding health_gate every get
health_gate-IsHealthy_example = health_gate-IsHealthy gate healthy_poll 4 0 refl

abbrev node : Docker
node = record {
  stack = own ∷ [];
  exec_version = λ _ _. some "0.9.0";
  verify_and_pull = λ _ _. some "sha256:d1";
  inspect = λ _. some (record { name = some "/greffer-1"; image = some "old" });
  current_image_id = λ _. none;
  image_id = λ _ _. some "new";
  tag_raises = λ _. false;
  retag = λ _. yes;
  recreate = λ _. yes;
  rolls_back = λ _. true;
  check_raises = λ _. false;
  now = λ _. 0;
  restart_count = λ _. 0;
  polls = λ _. healthy_poll;
}

-- The same node, where a recreate fails.
abbrev failing : Docker
failing = record node { recreate = λ _. no }

abbrev wanted : Request
wanted = record { greffer_id = some "n1"; target_tag = none; timeout = 3 }

remote_update_refused_example :
    (run_remote_update node (record wanted { target_tag = some "0.8.0" })).1 ≡ []
unfolding run_remote_update is_downgrade every
remote_update_refused_example =
    remote_update_refused node (record wanted { target_tag = some "0.8.0" }) refl

no-raised : no ≢ raised
no-raised e = cc e

some-none : (image : String) → some image ≢ none
some-none image e = cc e

not_ok : exit_rolled_back ≢ exit_ok
not_ok e = cc e

remote_update_rolls_back_example :
    IsUndone failing "greffer"
      ((run_remote_update failing wanted).0 ≡ exit_rolled_back)
      (run_remote_update failing wanted).1
unfolding run_remote_update recreated health_gate every get put any name_of_service
remote_update_rolls_back_example =
    remote_update_rolls_back failing wanted "greffer" (λ u. no-raised)
      (λ c i e e'.
        some-none "old"
          (ap (λ (o : Option Inspect). elim o [ none ↦ some "old" | some j ↦ j.image ]) e ∙ e'))
      not_ok refl

-- The node was on 0.8 when it was first read, and on 0.9.0 under the lock.
abbrev advanced : Installed
advanced = record {
  manifest =
      some (record { latest = some "0.9.1"; min_supported = some "0.6"; no_rollback_from = [] });
  greffer_id = some "n1";
  current_version = some "0.8";
  locked_version = some "0.9.0";
  data_volume_is_named = true;
  running_id = some "a";
  image_id = λ repo. none;
  host_lock = lock_taken;
}

abbrev auto_latest : Command
auto_latest = record { target = none; confirm_no_rollback = false; check_only = false }

host_update-IsSafe_example : IsSafe auto_latest advanced (λ tag. true) "0.9.1"
unfolding decide_update every below_floor is_downgrade contains
host_update-IsSafe_example = host_update-IsSafe auto_latest advanced (λ tag. true) "0.9.1" refl
