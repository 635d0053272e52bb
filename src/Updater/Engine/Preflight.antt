-- ===== src/Updater/Engine/Preflight.antt =====
-- How a run begins: refused with nothing changed, or with every image verified and every
-- container inspected.
use greffer.Updater.Engine.{
  Container, Snap, Docker, Request, exit_refused, Run, find_service, verify_all, snapshot_all,
  mutate, on_snaps, on_verified, on_greffer, run_remote_update, is_backwards, tag_of,
}
use greffer.Prelude.{
  String, ◌≡◌, refl, inl, inr, false, Option, none, some, List, [], nat_eq, string_eq, Bool-cases,
  Dict,
}

module _ (docker : Docker) (req : Request) where
  pub data Preflight : Run → Type 0 where
    refuse : Preflight (exit_refused, [])
    start :
        (own : Container) (verified : Dict String String) (snaps : List Snap)
        → find_service "greffer" docker.stack ≡ some own
        → is_backwards req.target_tag (docker.exec_version [] own.container_id) ≡ false
        → verify_all docker req (tag_of req.target_tag) docker.stack [] ≡ some verified
        → snapshot_all docker req docker.stack ≡ some snaps
        → Preflight
            (mutate docker req verified (docker.exec_version [] own.container_id) snaps snaps [] [])

  module _ (own : Container) (found : find_service "greffer" docker.stack ≡ some own)
      (forwards : is_backwards req.target_tag (docker.exec_version [] own.container_id)
        ≡ false) where
    on_snaps-Preflight :
        (verified : Dict String String) (o : Option (List Snap))
        → verify_all docker req (tag_of req.target_tag) docker.stack [] ≡ some verified
        → snapshot_all docker req docker.stack ≡ o
        → Preflight (on_snaps docker req verified (docker.exec_version [] own.container_id) o)
    unfolding on_snaps
    on_snaps-Preflight verified none e e' = refuse
    on_snaps-Preflight verified (some snaps) e e' = start own verified snaps found forwards e e'

    on_verified-Preflight :
        (o : Option (Dict String String))
        → verify_all docker req (tag_of req.target_tag) docker.stack [] ≡ o
        → Preflight (on_verified docker req (docker.exec_version [] own.container_id) o)
    unfolding on_verified
    on_verified-Preflight none e = refuse
    on_verified-Preflight (some verified) e =
        on_snaps-Preflight verified (snapshot_all docker req docker.stack) e refl

  on_greffer-Preflight :
      (o : Option Container)
      → find_service "greffer" docker.stack ≡ o
      → Preflight (on_greffer docker req o)
  unfolding on_greffer
  on_greffer-Preflight none e = refuse
  on_greffer-Preflight (some own) e =
      elim (Bool-cases (is_backwards req.target_tag (docker.exec_version [] own.container_id))) [
        | inl backwards ↦ rw backwards refuse
        | inr forwards ↦ rw forwards (
            on_verified-Preflight own e forwards
              (verify_all docker req (tag_of req.target_tag) docker.stack []) refl)
      ]

  pub run_remote_update-Preflight : Preflight (run_remote_update docker req)
  unfolding run_remote_update
  run_remote_update-Preflight = on_greffer-Preflight (find_service "greffer" docker.stack) refl
