-- ===== src/Backup/Snapshot/Gated.antt =====
-- What a part of a hot backup that returns has passed.
use greffer.Backup.{Called, done, backup_error, threw}
use greffer.Backup.Mounts.{join_text}
use greffer.Renewal.Serial.{starts_with}
use greffer.Backup.Job.{is_empty}
use greffer.Backup.Artifacts.{
  Snapped, Dumped, BackupAct, snapped, dumped, BackupActs, Backing, Ended, chain, total_bytes,
  dump_and_backup,
}
use greffer.Prelude.{
  ℕ, String, ◌≡◌, refl, ap, ◌∙◌, ◌⊎◌, inl, inr, false, Option, some, List, [], ◌∷◌, arith, ltb,
  ◌==◌, ◌!=◌, nat_eq, string_eq, Bool-cases, length, Dict, get, put, get-put, if_ind,
}

-- The act came before.
abbrev pub Occurred : BackupAct → BackupActs → Type 0
Occurred a [] = ⊥
Occurred a (b ∷ past) = (b ≡ a) ⊎ Occurred a past

-- What holds if a part ends with a value.
abbrev pub OnDone : {A : Type 0} → (A → Backing → Type 0) → Ended A → Type 0
OnDone Q (done a, s) = Q a s
OnDone Q (backup_error code, s) = Unit
OnDone Q (threw, s) = Unit

pub chain-OnDone :
    {A B : Type 0} (P : A → Backing → Type 0) (Q : B → Backing → Type 0) (m : Ended A)
    (next : A → Backing → Ended B)
    → OnDone P m
    → ((a : A) (s : Backing) → P a s → OnDone Q (next a s))
    → OnDone Q (chain m next)
unfolding chain
chain-OnDone P Q (done a, s) next h step = step a s h
chain-OnDone P Q (backup_error code, s) next h step = tt
chain-OnDone P Q (threw, s) next h step = tt

pub answered :
    {A : Type 0} (answer : Called A) (s : Backing)
    → OnDone (λ a t. (answer ≡ done a) × (t ≡ s)) (answer, s)
answered (done a) s = (refl, refl)
answered (backup_error code) s = tt
answered threw s = tt

-- A dump whose both ends succeeded, with its snapshot in the manifest.
pub record HasDump (service : String) (manifest : Dict String String) (acts : BackupActs)
    : Type 0 where
  pub raw : Dumped
  pub did : Occurred (dumped service (done raw)) acts
  pub dump_ok : raw.producer ≡ 0
  pub restic_ok : raw.consumer.code ≡ 0
  pub nonempty : (total_bytes raw.consumer.bytes == 0) ≡ false
  pub entry : get manifest (join_text "db:" service) ≡ some raw.consumer.id

-- A data snapshot that succeeded, in the manifest, unless there is nothing to mount.
abbrev pub HasData : List String → Dict String String → BackupActs → Type 0
HasData mounts manifest acts =
    (mounts ≡ [])
    ⊎ ((res : Snapped) × Occurred (snapped mounts (done res)) acts
        × (res.code ≡ 0)
        × (get manifest "data" ≡ some res.id))

pub db_key : (service : String) → (join_text "db:" service == "data") ≡ false
unfolding join_text starts_with
db_key service = elim (Bool-cases (join_text "db:" service == "data")) [
  | inl same ↦
      cc (ap (starts_with "db") ((string_eq.beq_iff (join_text "db:" service) "data").0 same))
  | inr other ↦ other
]

-- What a dump that returns has passed.
abbrev pub Gated : Dumped → Backing → String × Option ℕ → Backing → Type 0
Gated d s res t =
    (t ≡ s)
    × (res.0 ≡ d.consumer.id)
    × (d.producer ≡ 0)
    × (d.consumer.code ≡ 0)
    × ((total_bytes d.consumer.bytes == 0) ≡ false)

pub gated : (d : Dumped) (s : Backing) → OnDone (Gated d s) (dump_and_backup d, s)
unfolding dump_and_backup
gated d s =
    if_ind (λ (c : Called (String × Option ℕ)). OnDone (Gated d s) (c, s)) d.timed_out _ _ (λ _. tt)
      (λ _.
        if_ind (λ (c : Called (String × Option ℕ)). OnDone (Gated d s) (c, s)) (d.producer != 0) _ _
          (λ _. tt)
          (λ produced.
            if_ind (λ (c : Called (String × Option ℕ)). OnDone (Gated d s) (c, s))
              (d.consumer.code != 0) _ _ (λ _. tt)
              (λ consumed.
                if_ind (λ (c : Called (String × Option ℕ)). OnDone (Gated d s) (c, s))
                  (total_bytes d.consumer.bytes == 0) _ _ (λ _. tt)
                  (λ full.
                    (refl, refl, ground (arith, produced), ground (arith, consumed), full)))))

-- A dump's entry leaves the data snapshot's entry.
pub data_kept :
    (mounts : List String) (service id : String) (a : BackupAct) (manifest : Dict String String)
    (acts : BackupActs)
    → HasData mounts manifest acts
    → HasData mounts (put manifest (join_text "db:" service) id) (a ∷ acts)
data_kept mounts service id a manifest acts (inl empty) = inl empty
data_kept mounts service id a manifest acts (inr k) = inr (
  k.0,
  inr k.1,
  k.2,
  get-put manifest (join_text "db:" service) "data" id ∙ rw (db_key service) k.3,
)

pub the_one :
    (hooks : List String)
    → ltb 1 (length hooks) ≡ false
    → is_empty hooks ≡ false
    → (service : String) × (hooks ≡ service ∷ [])
unfolding is_empty
the_one [] few full = cc full
the_one (h ∷ []) few full = (h, refl)
the_one (h ∷ g ∷ hooks) few full = ground (arith, few)

pub onward :
    {A : Type 0} (P Q : A → Backing → Type 0) (m : Ended A)
    → OnDone P m
    → ((a : A) (s : Backing) → P a s → Q a s)
    → OnDone Q m
onward P Q (done a, s) h weaker = weaker a s h
onward P Q (backup_error code, s) h weaker = tt
onward P Q (threw, s) h weaker = tt

pub anything : {A : Type 0} (answer : Called A) (s : Backing) → OnDone (λ a t. Unit) (answer, s)
anything (done a) s = tt
anything (backup_error code) s = tt
anything threw s = tt
