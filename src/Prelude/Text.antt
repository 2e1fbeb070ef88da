-- ===== src/Prelude/Text.antt =====
-- std::string as its list of bytes, and what the program uses of <string> and <cctype>.
use Prim.Native.Nat.{ℕ, ◌+◌}
use Prim.Native.Char.{code}
use Prim.Native.String.{String}
use mathlib.Core.Path.{◌≡◌, refl}
use mathlib.Core.Logic.{◌↔◌, ◌≢◌}
use mathlib.Core.Bool.{Bool, true, false, ◌&&◌, ◌||◌}
use mathlib.Core.List.{List, [], ◌∷◌}
use native.Mathlib.Omega.{arith}
use acx_contact_cli.Prelude.Tests.{ltb, leb, ◌==◌, if◌then◌else◌}

abbrev pub Bytes : Type 0
Bytes = List ℕ

-- The bytes of an ASCII literal.
abbrev pub codes : String → Bytes
codes String.[] = []
codes (String.◌∷◌ c s) = code c ∷ codes s

-- std::string's operator==
unfoldable pub same : Bytes → Bytes → Bool
same [] [] = true
same (x ∷ xs) (y ∷ ys) = x == y && same xs ys
same _ _ = false

pub same_iff : (a b : Bytes) → (same a b ≡ true) ↔ (a ≡ b)
unfolding same
same_iff (x ∷ a) (y ∷ b) = ground (arith, same_iff a b)
same_iff _ _ = ground arith

pub same_refl : (a : Bytes) → same a a ≡ true
same_refl a = (same_iff a a).1 refl

pub same-false : (a b : Bytes) → a ≢ b → same a b ≡ false
same-false a b h = ground (arith, same_iff a b)

-- std::string's operator<, on unsigned bytes
unfoldable pub before : Bytes → Bytes → Bool
before [] [] = false
before [] (y ∷ ys) = true
before (x ∷ xs) [] = false
before (x ∷ xs) (y ∷ ys) = ltb x y || (x == y && before xs ys)

abbrev within : ℕ → ℕ → ℕ → Bool
within lo hi c = leb lo c && leb c hi

-- <cctype> on single bytes, in a locale whose letters are the ASCII ones
unfoldable pub isdigit : ℕ → Bool
isdigit c = within b'0' b'9' c

unfoldable pub isalpha : ℕ → Bool
isalpha c = within b'A' b'Z' c || within b'a' b'z' c

unfoldable pub isspace : ℕ → Bool
isspace c = c == b' ' || within 9 13 c

unfoldable pub tolower : ℕ → ℕ
tolower c = if within b'A' b'Z' c then c + 32 else c
