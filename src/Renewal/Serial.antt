-- ===== src/Renewal/Serial.antt =====
-- The texts of app/workers/cert_renewal.py: `_same_serial`, and `in` on a response's text.
use Prim.Native.Char.{Char, code}
use greffer.Prelude.{
  String, Bool, true, false, ◌&&◌, ◌||◌, Option, none, some, leb, if◌then◌else◌, nat_eq, string_eq,
  ◌==◌, ◌!=◌, lower,
}

-- `str.isspace` of one character.
unfoldable pub is_space : Char → Bool
is_space c =
    (leb 9 (code c) && leb (code c) 13)
    || (leb 28 (code c) && leb (code c) 32)
    || (code c == 133)
    || (code c == 160)
    || (code c == 5760)
    || (leb 8192 (code c) && leb (code c) 8202)
    || (code c == 8232)
    || (code c == 8233)
    || (code c == 8239)
    || (code c == 8287)
    || (code c == 12288)

unfoldable pub lstrip : String → String
unfolding is_space
lstrip String.[] = String.[]
lstrip (String.◌∷◌ c s) = let rest = lstrip s in if is_space c then rest else String.◌∷◌ c s

unfoldable pub rstrip : String → String
unfolding is_space
rstrip String.[] = String.[]
rstrip (String.◌∷◌ c s) =
    let rest = rstrip s in if is_space c && rest == "" then String.[] else String.◌∷◌ c rest

-- s.lstrip('0')
unfoldable pub lstrip_zeros : String → String
lstrip_zeros String.[] = String.[]
lstrip_zeros (String.◌∷◌ c s) =
    let rest = lstrip_zeros s in if code c == b'0' then rest else String.◌∷◌ c s

-- a.strip().lower().lstrip('0')
unfoldable pub normalized : String → String
unfolding lstrip rstrip lstrip_zeros lower
normalized s = lstrip_zeros (lower (rstrip (lstrip s)))

-- `_same_serial`
unfoldable pub same_serial : Option String → Option String → Bool
unfolding normalized
same_serial none b = false
same_serial (some a) none = false
same_serial (some a) (some b) = a != "" && b != "" && normalized a == normalized b

unfoldable pub starts_with : String → String → Bool
starts_with String.[] s = true
starts_with (String.◌∷◌ c p) String.[] = false
starts_with (String.◌∷◌ c p) (String.◌∷◌ d s) = code c == code d && starts_with p s

-- `p in s`
unfoldable pub occurs : String → String → Bool
unfolding starts_with
occurs p String.[] = starts_with p String.[]
occurs p (String.◌∷◌ c s) = starts_with p (String.◌∷◌ c s) || occurs p s
