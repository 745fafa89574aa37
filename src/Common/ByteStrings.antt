-- ===== src/Common/ByteStrings.antt =====
-- Bytes, text literals, and the library functions `memcmp`, `tolower` and `strncasecmp`.
use Prim.Native.Nat.{ℕ, zero, suc, ◌+◌}
use Prim.Native.Char.{code}
use Prim.Native.String.{String}
use mathlib.Core.Path.{◌≡◌, refl}
use mathlib.Core.Bool.{Bool, true, false, ◌&&◌, ◌||◌}
use mathlib.Core.List.{List, [], ◌∷◌}
use native.Mathlib.Omega.{arith}
use mukite.Common.Tests.{◌==◌, leb, if◌then◌else◌}

abbrev pub Bytes : Type 0
Bytes = List ℕ

-- The bytes of a text literal.
abbrev pub lit : String → Bytes
lit String.[] = []
lit (String.◌∷◌ c s) = code c ∷ lit s

-- Two blocks have the same size and the same bytes: a comparison of sizes, then `memcmp`.
unfoldable pub bytes_eq : Bytes → Bytes → Bool
bytes_eq [] [] = true
bytes_eq [] (y ∷ b) = false
bytes_eq (x ∷ a) [] = false
bytes_eq (x ∷ a) (y ∷ b) = x == y && bytes_eq a b

pub bytes_eq_refl : (a : Bytes) → bytes_eq a a ≡ true
unfolding bytes_eq
bytes_eq_refl [] = refl
bytes_eq_refl (x ∷ a) = ground (arith, bytes_eq_refl a)

pub bytes_eq→eq : (a b : Bytes) → bytes_eq a b ≡ true → a ≡ b
unfolding bytes_eq
bytes_eq→eq [] [] h = refl
bytes_eq→eq [] (y ∷ b) h = ground arith
bytes_eq→eq (x ∷ a) [] h = ground arith
bytes_eq→eq (x ∷ a) (y ∷ b) h = ground (arith, bytes_eq→eq a b)

-- `tolower` in the C locale.
unfoldable pub to_lower : ℕ → ℕ
to_lower c = if leb b'A' c && leb c b'Z' then c + 32 else c

-- `strncasecmp(a, b, n) == 0`: at most n bytes are compared, and a null byte ends the comparison.
unfoldable pub case_eq : ℕ → Bytes → Bytes → Bool
case_eq zero a b = true
case_eq (suc n) [] b = true
case_eq (suc n) (x ∷ a) [] = true
case_eq (suc n) (x ∷ a) (y ∷ b) = to_lower x == to_lower y && (x == 0 || case_eq n a b)

-- Only the null byte is lowered to what the null byte is lowered to.
pub to_lower-zero : (x y : ℕ) → to_lower x ≡ to_lower y → (x == 0) ≡ (y == 0)
unfolding to_lower
to_lower-zero x y h = ground arith
