-- ===== src/Base/Text.antt =====
-- Go strings that the program walks through, as lists of code points, with the parts of Go's
-- standard library it uses on them. `unicode.ToLower` is a table of that library and a parameter.
use almanaut.Base.Tests.{ltb, if◌then◌else◌, leb}
use almanaut.Base.Equality.{nat_eq, ◌==◌}
use Prim.Native.Nat.{ℕ, ◌+◌}
use Prim.Native.Char.{code}
use Prim.Native.String.{String}
use mathlib.Core.Bool.{Bool, true, false, ◌&&◌, ◌||◌}
use mathlib.Core.Path.{◌≡◌, refl}
use native.Mathlib.Omega.{arith}
use mathlib.Core.List.{List, [], ◌∷◌, reverse}

abbrev pub Text : Type 0
Text = List ℕ

abbrev pub text_of : String → Text
text_of String.[] = []
text_of (String.◌∷◌ letter rest) = code letter ∷ text_of rest

-- `unicode.IsSpace`: the code points with the property White_Space.
unfoldable pub is_space : ℕ → Bool
is_space c =
    (leb 9 c && leb c 13)
    || c == 32
    || c == 0x85
    || c == 0xA0
    || c == 0x1680
    || (leb 0x2000 c && leb c 0x200A)
    || c == 0x2028
    || c == 0x2029
    || c == 0x202F
    || c == 0x205F
    || c == 0x3000

unfoldable pub trim_left : Text → Text
trim_left [] = []
trim_left (c ∷ s) = if is_space c then trim_left s else c ∷ s

-- `strings.TrimSpace`
unfoldable pub trim_space : Text → Text
unfolding trim_left
trim_space s = reverse (trim_left (reverse (trim_left s)))

-- `unicode.ToLower` on ASCII, for runs of the model.
unfoldable pub ascii_lower : ℕ → ℕ
ascii_lower c = if leb 65 c && leb c 90 then c + 32 else c

-- `<` on strings. UTF-8 orders as the code points do.
unfoldable pub text_lt : Text → Text → Bool
text_lt s [] = false
text_lt [] (d ∷ t) = true
text_lt (c ∷ s) (d ∷ t) = if ltb c d then true else c == d && text_lt s t

pub text_lt_asym : (s t : Text) → text_lt s t ≡ true → text_lt t s ≡ false
unfolding text_lt
text_lt_asym [] [] h = refl
text_lt_asym [] (d ∷ t) h = refl
text_lt_asym (c ∷ s) [] h = absurd (ground arith)
text_lt_asym (c ∷ s) (d ∷ t) h = ground (arith, text_lt_asym s t)
