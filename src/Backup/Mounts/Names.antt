-- ===== src/Backup/Mounts/Names.antt =====
-- The name that a volume has in its compose file.
use Prim.Native.Char.{code}
use text.Mathlib.TextEquality.{Char-path}
use greffer.Renewal.Serial.{starts_with}
use greffer.Backup.Mounts.{join_text, drop_prefix, compose_name}
use greffer.Prelude.{
  String, ◌≡◌, refl, sym, ap, ap₂, ◌∙◌, ◌≢◌, ◌⊎◌, inl, inr, Bool, true, ◌&&◌, arith, ◌==◌, nat_eq,
  string_eq, if_ind,
}

-- The name of a volume: what follows the instance's id and `_`, or the whole volume if it does not
-- begin so.
abbrev pub IsNamed : String → String → String → Type 0
IsNamed id volume name =
    (volume ≡ join_text (join_text id "_") name)
    ⊎ (((rest : String) → volume ≢ join_text (join_text id "_") rest) × (name ≡ volume))

starts_with-join_text : (p r : String) → starts_with p (join_text p r) ≡ true
unfolding starts_with join_text
starts_with-join_text String.[] r = refl
starts_with-join_text (String.◌∷◌ c p) r =
    ground (arith, nat_eq.beq_iff (code c) (code c), starts_with-join_text p r)

drop_prefix-join_text : (p r : String) → drop_prefix p (join_text p r) ≡ r
unfolding drop_prefix join_text
drop_prefix-join_text String.[] r = refl
drop_prefix-join_text (String.◌∷◌ c p) r = drop_prefix-join_text p r

both : (a b : Bool) → (a && b) ≡ true → (a ≡ true) × (b ≡ true)
both a b h = (ground (arith, h), ground (arith, h))

join_text-drop_prefix : (p s : String) → starts_with p s ≡ true → s ≡ join_text p (drop_prefix p s)
unfolding starts_with join_text drop_prefix
join_text-drop_prefix String.[] s h = refl
join_text-drop_prefix (String.◌∷◌ c p) String.[] h = cc h
join_text-drop_prefix (String.◌∷◌ c p) (String.◌∷◌ d s) h =
    let (same, rest) = both (code c == code d) (starts_with p s) h in
    ap₂ (λ a t. String.◌∷◌ a t) (sym (Char-path c d ((nat_eq.beq_iff (code c) (code d)).0 same)))
      (join_text-drop_prefix p s rest)

pub IsNamed-compose_name :
    (id volume name : String) → IsNamed id volume name → compose_name id volume ≡ name
unfolding compose_name
IsNamed-compose_name id volume name (inl h) =
    let here : starts_with (join_text id "_") volume ≡ true =
      ap (starts_with (join_text id "_")) h ∙ starts_with-join_text (join_text id "_") name in
    rw here (ap (drop_prefix (join_text id "_")) h ∙ drop_prefix-join_text (join_text id "_") name)
IsNamed-compose_name id volume name (inr (other, same)) =
    if_ind (λ n. n ≡ name) (starts_with (join_text id "_") volume) _ _
      (λ here. absurd (
        other (drop_prefix (join_text id "_") volume)
          (join_text-drop_prefix (join_text id "_") volume here)))
      (λ _. sym same)

pub compose_name-IsNamed : (id volume : String) → IsNamed id volume (compose_name id volume)
unfolding compose_name
compose_name-IsNamed id volume =
    if_ind (IsNamed id volume) (starts_with (join_text id "_") volume) _ _
      (λ here. inl (join_text-drop_prefix (join_text id "_") volume here))
      (λ elsewhere. inr (
        (λ rest h.
            let here =
              ap (starts_with (join_text id "_")) h
              ∙ starts_with-join_text (join_text id "_") rest in
            cc (elsewhere, here)),
        refl,
      ))
