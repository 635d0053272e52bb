-- ===== src/Updater/Version.antt =====
-- The version rules of cli/greffer_cli/update.py: `version_tuple`, `is_downgrade`, `below_floor`.
pub mod Order
use Prim.Native.Char.{code}
use greffer.Prelude.{
  ℕ, zero, suc, ◌+◌, ◌-◌, ◌*◌, ◌≤◌, ◌<◌, String, ◌≡◌, refl, sym, ap, ap₂, ◌∙◌, ◌≢◌, ◌↔◌, ◌⊎◌, inl,
  inr, Bool, true, false, not, ◌&&◌, ◌||◌, Option, none, some, List, [], ◌∷◌, ◌++◌, map, arith,
  eq_iff, ltb, leb, if◌then◌else◌, Eq, ◌==◌, ◌!=◌, nat_eq, string_eq, Bool-cases, Option-cases,
  or_else, or_false, All, All-append, length, select, any, every, contains, contains-append, Dict,
  get, get_or, put, pop, get-put, get-pop, lower, lower_char, Unique, put-Unique, get-put_self,
}

codes : String → List ℕ
codes String.[] = []
codes (String.◌∷◌ c s) = code c ∷ codes s

extend_part : ℕ → List (List ℕ) → List (List ℕ)
extend_part c [] = (c ∷ []) ∷ []
extend_part c (p ∷ ps) = (c ∷ p) ∷ ps

-- `value.split('.')`, on code points.
split_dots : List ℕ → List (List ℕ)
unfolding extend_part
split_dots [] = [] ∷ []
split_dots (c ∷ cs) = let rest = split_dots cs in if c == 46 then [] ∷ rest else extend_part c rest

-- An ASCII digit.
is_digit : ℕ → Bool
is_digit c = leb 48 c && leb c 57

-- `p.isascii() and p.isdigit() and 0 < len(p) <= 18`
is_number : List ℕ → Bool
unfolding is_digit
is_number p = every is_digit p && ltb 0 (length p) && leb (length p) 18

-- `int(p)`
int_of : List ℕ → ℕ → ℕ
int_of [] n = n
int_of (c ∷ cs) n = int_of cs (n * 10 + (c - 48))

unfoldable pub version_tuple : Option String → Option (List ℕ)
unfolding codes split_dots is_number int_of
version_tuple none = none
version_tuple (some value) =
    let parts = split_dots (codes value) in
    if value == ""
    then none
    else if not (every is_number parts)
    then none
    else some (map (λ p. int_of p 0) parts)

unfoldable pub zeros : ℕ → List ℕ
zeros zero = []
zeros (suc n) = 0 ∷ zeros n

-- `t + (0,) * (width - len(t))`
unfoldable pub pad : ℕ → List ℕ → List ℕ
unfolding zeros
pad width t = t ++ zeros (width - length t)

-- Python's `<` on tuples.
unfoldable pub tuple_lt : List ℕ → List ℕ → Bool
tuple_lt [] [] = false
tuple_lt [] (y ∷ ys) = true
tuple_lt (x ∷ xs) [] = false
tuple_lt (x ∷ xs) (y ∷ ys) = let rest = tuple_lt xs ys in if x == y then rest else ltb x y

unfoldable pub max : ℕ → ℕ → ℕ
max m n = if leb m n then n else m

-- The comparison on a common length.
unfoldable pub padded_lt : List ℕ → List ℕ → Bool
unfolding pad tuple_lt max
padded_lt s t = let width = max (length s) (length t) in tuple_lt (pad width s) (pad width t)

-- `none` where either side has no order.
unfoldable pub compare_versions : Option (List ℕ) → Option (List ℕ) → Option Bool
unfolding padded_lt
compare_versions none _ = none
compare_versions (some s) none = none
compare_versions (some s) (some t) = some (padded_lt s t)

unfoldable pub is_downgrade : Option String → Option String → Option Bool
unfolding version_tuple compare_versions
is_downgrade current target = compare_versions (version_tuple target) (version_tuple current)

unfoldable pub below_floor : Option String → Option String → Option Bool
unfolding version_tuple compare_versions
below_floor target none = none
below_floor target (some min_supported) =
    if min_supported == ""
    then none
    else compare_versions (version_tuple target) (version_tuple (some min_supported))
