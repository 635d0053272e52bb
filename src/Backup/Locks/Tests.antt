-- ===== src/Backup/Locks/Tests.antt =====
-- A restore of one instance reserves the handoff and releases its lock, and a renewal comes then.
use greffer.Backup.Locks.Steps.{
  waits, renewal_arrives, job_spawned, releases_early, Steps, here, next,
}
use greffer.Backup.Locks.Owned.{IsOwned, reached-IsOwned, end_thread-some}
use greffer.Backup.Locks.Reserved.{is_renewal}
use greffer.Backup.Locks.Handoff.{reserved-unrenewed}
use greffer.Backup.Locks.{
  Locks, no_locks, instance_lock, with_lock, acquire, release, release_once, reserve_handoff, job,
  end_thread, Process, process, spawn_job, try_renewal,
}
use greffer.Prelude.{◌≡◌, refl, true, false, some, [], ◌∷◌, arith, nat_eq, string_eq, any, get, put}

abbrev spawned : Process
spawned = spawn_job true "a" (process 0 no_locks [])

abbrev reached : Steps (process 0 no_locks []) spawned
reached = next here (job_spawned (process 0 no_locks []) "a" true)

reached-IsOwned_example : IsOwned spawned
reached-IsOwned_example = reached-IsOwned spawned reached

end_thread-some_example : (u : Locks) × (end_thread (job "a" true) spawned.shared ≡ some u)
unfolding spawn_job acquire instance_lock with_lock get put
end_thread-some_example = end_thread-some spawned [] [] (job "a" true) reached refl

-- The locks after the reservation, and after the release.
abbrev held : Locks
held = record { locks = ("a", true) ∷ []; handoff = ("a", 90) ∷ [] }

abbrev free : Locks
free = record { locks = ("a", false) ∷ []; handoff = ("a", 90) ∷ [] }

reserved-unrenewed_example :
    any (is_renewal "a") (try_renewal "a" (process 7 free (job "a" false ∷ []))).threads ≡ false
unfolding spawn_job acquire instance_lock with_lock get put reserve_handoff release_once release
    try_renewal
reserved-unrenewed_example =
    reserved-unrenewed spawned (try_renewal "a" (process 7 free (job "a" false ∷ []))) "a" [] []
      reached refl
      (next
        (next (next here (releases_early 0 held free [] [] "a" true refl))
          (waits (process 0 free (job "a" false ∷ [])) 7))
        (renewal_arrives (process 7 free (job "a" false ∷ [])) "a"))
      (λ w. ground (arith, w)) (omega arith)
