-- ===== src/Prelude/Text.antt =====
-- `str.lower` on the ASCII letters, for the texts that the code compares without case.
use Prim.Native.Nat.{ℕ, ◌+◌, ◌<◌, compare, Ordering}
use Prim.Native.Char.{Char, char, code, IsScalar}
use Prim.Native.String.{String}
use mathlib.Core.Path.{◌≡◌}
use mathlib.Core.Bool.{◌&&◌}
use mathlib.Core.Logic.{dite}
use native.Mathlib.Omega.{arith}
use native.Mathlib.Decide.{dec_lt}
use greffer.Prelude.Tests.{leb, if◌then◌else◌}

scalar_of_lt : (n : ℕ) → n < 55296 → IsScalar n
scalar_of_lt n h = let e : compare n 55296 ≡ Ordering.lt = ground arith in rw e tt

-- The character with a given number; used for numbers of ASCII letters.
pub char_of : ℕ → Char
char_of n = dite (dec_lt n 55296) (λ h. char n (scalar_of_lt n h)) (λ _. char 0 tt)

unfoldable pub lower_char : Char → Char
unfolding char_of scalar_of_lt dec_lt
lower_char c = if leb b'A' (code c) && leb (code c) b'Z' then char_of (code c + 32) else c

-- s.lower()
unfoldable pub lower : String → String
unfolding lower_char
lower String.[] = String.[]
lower (String.◌∷◌ c s) = String.◌∷◌ (lower_char c) (lower s)
