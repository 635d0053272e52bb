-- ===== src/Backup/Mounts/Chosen.antt =====
-- Which volumes a hot backup mounts.
use greffer.Backup.{done, backup_error}
use greffer.Backup.Mounts.{
  compose_name, choice, add_choice, data_mounts, with_l4_if_any, map_called, hot_backup_mounts,
  with_l4_ports,
}
use greffer.Backup.Mounts.Names.{IsNamed, IsNamed-compose_name, compose_name-IsNamed}
use greffer.Prelude.{
  String, ◌≡◌, refl, sym, ap, ap₂, ◌∙◌, inl, inr, Bool, true, false, not, ◌||◌, Option, none, some,
  List, [], ◌∷◌, ◌++◌, arith, if◌then◌else◌, ◌==◌, nat_eq, string_eq, Bool-cases, select, any,
  contains, contains-append, Dict, get, if_ind,
}

-- The volume's class.
abbrev pub class_of : String → Dict String String → String → Option String
class_of id classes volume = get classes (compose_name id volume)

-- No class that a backup knows.
abbrev pub has_no_class : Option String → Bool
has_no_class none = true
has_no_class (some cls) = not (cls == "data" || cls == "regenerable" || cls == "database")

abbrev pub is_data : Option String → Bool
is_data none = false
is_data (some cls) = cls == "data"

add_choice_lem :
    (o : Option String) (volume : String) (refused : Bool) (mounts : List String)
    → add_choice volume
        (choice o)
        (if refused then backup_error "volume_unclassified" else done mounts)
      ≡ (if has_no_class o || refused
          then backup_error "volume_unclassified"
          else done (if is_data o then volume ∷ mounts else mounts))
unfolding choice add_choice
add_choice_lem none volume refused mounts = refl
add_choice_lem (some cls) volume refused mounts = ground (arith)

data_mounts_lem :
    (id : String) (classes : Dict String String) (volumes : List String)
    → data_mounts id classes volumes ≡ (
        if any (λ v. has_no_class (class_of id classes v)) volumes
        then backup_error "volume_unclassified"
        else done (select (λ v. is_data (class_of id classes v)) volumes))
unfolding data_mounts any select
data_mounts_lem id classes [] = refl
data_mounts_lem id classes (v ∷ volumes) =
    ap (add_choice v (choice (class_of id classes v))) (data_mounts_lem id classes volumes)
    ∙ add_choice_lem (class_of id classes v) v
        (any (λ w. has_no_class (class_of id classes w)) volumes)
        (select (λ w. is_data (class_of id classes w)) volumes)

map_called_if :
    (f : List String → List String) (b : Bool) (code : String) (mounts : List String)
    → map_called f (if b then backup_error code else done mounts)
      ≡ (if b then backup_error code else done (f mounts))
unfolding map_called
map_called_if f true code mounts = refl
map_called_if f false code mounts = refl

named :
    (id : String) (classes : Dict String String) (name_of : String → String)
    → ((v : String) → IsNamed id v (name_of v))
    → (v : String) → class_of id classes v ≡ get classes (name_of v)
named id classes name_of names v =
    ap (get classes) (IsNamed-compose_name id v (name_of v) (names v))

any-same : {A : Type 0} (f g : A → Bool) (xs : List A) → ((x : A) → f x ≡ g x) → any f xs ≡ any g xs
unfolding any
any-same f g [] h = refl
any-same f g (x ∷ xs) h = ap₂ (λ a b. a || b) (h x) (any-same f g xs h)

select-same :
    {A : Type 0} (f g : A → Bool) (xs : List A) → ((x : A) → f x ≡ g x) → select f xs ≡ select g xs
unfolding select
select-same f g [] h = refl
select-same f g (x ∷ xs) h =
    ap₂ (λ (b : Bool) rest. if b then x ∷ rest else rest) (h x) (select-same f g xs h)

-- The volumes, and the L4 port file behind them if it exists and there is any volume.
abbrev pub and_ports : Bool → List String → List String
and_ports exists [] = []
and_ports true (v ∷ volumes) = v ∷ volumes ++ "l4_ports.json" ∷ []
and_ports false (v ∷ volumes) = v ∷ volumes

with_l4_if_any-and_ports :
    (exists : Bool) (volumes : List String)
    → with_l4_if_any exists volumes ≡ and_ports exists volumes
unfolding with_l4_if_any with_l4_ports
with_l4_if_any-and_ports exists [] = refl
with_l4_if_any-and_ports true (v ∷ volumes) = refl
with_l4_if_any-and_ports false (v ∷ volumes) = refl

-- A volume's name is what follows the instance's id and `_`, or the whole volume if it does not
-- begin so. The mounts of a hot backup are the volumes whose name has the class data, in order and
-- with the L4 port file behind them if it exists and any volume is mounted; if the name of any
-- volume has no known class, the backup is refused.
pub hot_backup_mounts_lem :
    (id : String) (classes : Dict String String) (exists : Bool) (volumes : List String)
    (name_of : String → String)
    → ((v : String) → IsNamed id v (name_of v))
    → hot_backup_mounts id classes exists volumes ≡ (
        if any (λ v. has_no_class (get classes (name_of v))) volumes
        then backup_error "volume_unclassified"
        else done (and_ports exists (select (λ v. is_data (get classes (name_of v))) volumes)))
unfolding hot_backup_mounts
hot_backup_mounts_lem id classes exists volumes name_of names =
    let same = named id classes name_of names in
    ap (map_called (with_l4_if_any exists)) (data_mounts_lem id classes volumes)
    ∙ map_called_if (with_l4_if_any exists)
        (any (λ v. has_no_class (class_of id classes v)) volumes) "volume_unclassified"
        (select (λ v. is_data (class_of id classes v)) volumes)
    ∙ ap₂ (λ (b : Bool) mounts. if b then backup_error "volume_unclassified" else done mounts)
        (any-same _ (λ v. has_no_class (get classes (name_of v))) volumes
          (λ v. ap has_no_class (same v)))
        (with_l4_if_any-and_ports exists _
          ∙ ap (and_ports exists) (
              select-same _ (λ v. is_data (get classes (name_of v))) volumes
                (λ v. ap is_data (same v))))

contains-select :
    (f : String → Bool) (v : String) (xs : List String)
    → f v ≡ true
    → contains v xs ≡ true
    → contains v (select f xs) ≡ true
unfolding contains select
contains-select f v [] h there = cc there
contains-select f v (x ∷ xs) h there =
    if_ind (λ kept. contains v kept ≡ true) (f x) (x ∷ select f xs) (select f xs)
      (λ taken. elim (Bool-cases (x == v)) [
        | inl same ↦ ap (λ b. b || contains v (select f xs)) same
        | inr other ↦ ground (arith, contains-select f v xs h (ground (arith, there, other)))
      ])
      (λ dropped. elim (Bool-cases (x == v)) [
        | inl same ↦
            let alike : f x ≡ true = ap f ((string_eq.beq_iff x v).0 same) ∙ h in
            cc (dropped, alike)
        | inr other ↦ contains-select f v xs h (ground (arith, there, other))
      ])

contains-and_ports :
    (exists : Bool) (v : String) (xs : List String)
    → contains v xs ≡ true
    → contains v (and_ports exists xs) ≡ true
unfolding contains
contains-and_ports exists v [] h = cc h
contains-and_ports true v (x ∷ xs) h =
    contains-append v (x ∷ xs) ("l4_ports.json" ∷ []) ∙ ground (arith, h)
contains-and_ports false v (x ∷ xs) h = h

chosen-path :
    (b : Bool) (xs mounts : List String)
    → (if b then backup_error "volume_unclassified" else done xs) ≡ done mounts
    → xs ≡ mounts
chosen-path true xs mounts h = cc h
chosen-path false xs mounts h = cc h

-- A volume whose name has the class data is among the mounts.
pub data-mounted :
    (id : String) (classes : Dict String String) (exists : Bool) (volumes mounts : List String)
    → hot_backup_mounts id classes exists volumes ≡ done mounts
    → (v name : String) → contains v volumes ≡ true
    → IsNamed id v name
    → get classes name ≡ some "data"
    → contains v mounts ≡ true
data-mounted id classes exists volumes mounts h v name there names class =
    let f : String → Bool = λ w. is_data (get classes (compose_name id w)) in
    let path = chosen-path _ _ mounts (
      sym (
        hot_backup_mounts_lem id classes exists volumes (compose_name id) (compose_name-IsNamed id))
      ∙ h) in
    let is_kept : f v ≡ true =
      ap (λ n. is_data (get classes n)) (IsNamed-compose_name id v name names) ∙ ap is_data class in
    ap (contains v) (sym path)
    ∙ contains-and_ports exists v (select f volumes) (contains-select f v volumes is_kept there)
