-- ===== src/Backup/Mounts.antt =====
-- The mounts of a backup and the classes of restic's errors, of app/backup.py.
pub mod Names
pub mod Chosen
use greffer.Renewal.Serial.{occurs, starts_with}
use greffer.Backup.{Called, done, backup_error, threw}
use greffer.Prelude.{
  String, Bool, ◌||◌, Option, none, some, List, [], ◌∷◌, ◌++◌, if◌then◌else◌, ◌==◌, nat_eq,
  string_eq, any, Dict, get, lower,
}

-- `_classify`
unfoldable pub classify : String → String
unfolding occurs lower
classify err =
    let text = lower err in
    if occurs "wrong password" text || occurs "invalid password" text
    then "auth_failed"
    else if occurs "unable to open config" text || occurs "does not exist" text
    then "repo_uninitialized"
    else if any (λ k. occurs k text) ("no space" ∷ "disk full" ∷ "out of space" ∷ [])
    then "disk_full"
    else if any (λ k. occurs k text)
        ("connection refused" ∷ "timeout" ∷ "no route" ∷ "dial tcp" ∷ [])
    then "repo_unreachable"
    else "snapshot_failed"

-- `_restore_classify`
unfoldable pub restore_classify : String → String
unfolding classify
restore_classify err =
    let base = classify err in if base == "snapshot_failed" then "restore_failed" else base

unfoldable pub join_text : String → String → String
join_text String.[] t = t
join_text (String.◌∷◌ c s) t = String.◌∷◌ c (join_text s t)

-- s[len(prefix):] where s starts with the prefix.
unfoldable pub drop_prefix : String → String → String
drop_prefix String.[] s = s
drop_prefix (String.◌∷◌ c p) String.[] = String.[]
drop_prefix (String.◌∷◌ c p) (String.◌∷◌ d s) = drop_prefix p s

unfoldable pub compose_name : String → String → String
unfolding join_text starts_with drop_prefix
compose_name id volume =
    let prefix = join_text id "_" in
    if starts_with prefix volume then drop_prefix prefix volume else volume

-- What a volume's class makes of it: it is mounted, passed over, or refused.
pub data Choice : Type 0 where
  mounted passed_over unclassified : Choice

unfoldable pub choice : Option String → Choice
choice none = unclassified
choice (some cls) =
    if cls == "data"
    then mounted
    else if cls == "regenerable" || cls == "database"
    then passed_over
    else unclassified

unfoldable pub add_choice : String → Choice → Called (List String) → Called (List String)
add_choice volume unclassified rest = backup_error "volume_unclassified"
add_choice volume passed_over rest = rest
add_choice volume mounted (done mounts) = done (volume ∷ mounts)
add_choice volume mounted (backup_error code) = backup_error code
add_choice volume mounted threw = threw

-- The loop of `_hot_backup_mounts`.
unfoldable pub data_mounts : String → Dict String String → List String → Called (List String)
unfolding choice compose_name add_choice
data_mounts id classes [] = done []
data_mounts id classes (volume ∷ volumes) =
    add_choice volume (choice (get classes (compose_name id volume)))
      (data_mounts id classes volumes)

abbrev pub l4_ports_file : String
l4_ports_file = "l4_ports.json"

unfoldable pub with_l4_ports : Bool → List String → List String
with_l4_ports exists mounts = if exists then mounts ++ l4_ports_file ∷ [] else mounts

unfoldable pub with_l4_if_any : Bool → List String → List String
unfolding with_l4_ports
with_l4_if_any exists [] = []
with_l4_if_any exists (m ∷ mounts) = with_l4_ports exists (m ∷ mounts)

unfoldable pub map_called {ℓ κ} : {A : Type ℓ} {B : Type κ} → (A → B) → Called A → Called B
map_called f (done a) = done (f a)
map_called f (backup_error code) = backup_error code
map_called f threw = threw

-- `_hot_backup_mounts` on the instance's data volumes.
unfoldable pub hot_backup_mounts :
    String → Dict String String → Bool → List String → Called (List String)
unfolding data_mounts with_l4_if_any map_called
hot_backup_mounts id classes exists volumes =
    map_called (with_l4_if_any exists) (data_mounts id classes volumes)
