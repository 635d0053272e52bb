-- ===== src/Backup/Restore/Rules.antt =====
-- Rules for the steps of a restore: what holds where it goes on, returns or is left by an exception.
use greffer.Backup.{Called, done, backup_error, threw, Effect}
use greffer.Backup.Job.{
  Restoring, Progressed, goes, returns, raises_backup_error, raises, and_then, log, call,
}
use greffer.Prelude.{◌≡◌, refl, nat_eq, string_eq}

-- `Q` where the body goes on, `R` where it returns, `X` where an exception leaves it.
abbrev pub Holds :
    (Restoring → Type 0) → (Restoring → Type 0) → (Restoring → Type 0) → Progressed → Type 0
Holds Q R X (goes r) = Q r
Holds Q R X (returns r) = R r
Holds Q R X (raises_backup_error code r) = X r
Holds Q R X (raises r) = X r

module _ (P Q R X : Restoring → Type 0) where
  pub and_then-Holds :
      (m : Progressed) (next : Restoring → Progressed)
      → Holds P R X m
      → ((r : Restoring) → P r → Holds Q R X (next r))
      → Holds Q R X (and_then m next)
  unfolding and_then
  and_then-Holds (goes r) next h step = step r h
  and_then-Holds (returns r) next h step = h
  and_then-Holds (raises_backup_error code r) next h step = h
  and_then-Holds (raises r) next h step = h

module _ (Q R X : Restoring → Type 0) where
  pub call-Holds :
      {A : Type 0} (e : Effect) (answer : Called A) (r : Restoring)
      (next : A → Restoring → Progressed)
      → X (log e r)
      → ((a : A) → answer ≡ done a → Holds Q R X (next a (log e r)))
      → Holds Q R X (call e answer r next)
  unfolding call
  call-Holds e (done a) r next left step = step a refl
  call-Holds e (backup_error code) r next left step = left
  call-Holds e threw r next left step = left
