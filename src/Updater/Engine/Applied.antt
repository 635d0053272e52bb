-- ===== src/Updater/Engine/Applied.antt =====
-- What a run that succeeds has done and seen.
use greffer.Updater.Engine.{
  Container, Snap, tag_previous, retag_latest, recreate_one, Trace, Docker, Request, Run,
  verify_all, snapshot_all, tag_of,
}
use greffer.Updater.Engine.Preflight.{Preflight}
use greffer.Prelude.{String, ◌≡◌, some, List, [], ◌∷◌, nat_eq, string_eq, Dict, get_or}
use greffer.Updater.Engine.Success.{Success}

-- The changes of an update that meets no failure, container by container.
unfoldable pub forward : Dict String String → List Snap → Trace
forward verified [] = []
forward verified (s ∷ ss) =
    tag_previous s.container.repo s.old_image_id
    ∷ retag_latest s.container.repo (get_or verified s.container.repo "")
    ∷ recreate_one s.container.service
    ∷ forward verified ss

module _ (docker : Docker) (req : Request) where
  -- The whole of a run that succeeded.
  pub record IsUpdated (run : Run) : Type 0 where
    pub own : Container
    pub verified : Dict String String
    pub snaps : List Snap
    pub all_verified : verify_all docker req (tag_of req.target_tag) docker.stack [] ≡ some verified
    pub all_inspected : snapshot_all docker req docker.stack ≡ some snaps
    pub success :
        Success docker req verified
          (docker.exec_version [] own.container_id)
          snaps
          (forward verified snaps)
          run
