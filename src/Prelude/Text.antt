-- ===== src/Prelude/Text.antt =====
-- C strings as lists of bytes, and the calls of the C library that the sources make on them.
pub mod Decimal
pub mod Copy
use Prim.Native.Char.{code}
use Prim.Native.String.{String}
use team.Prelude.{
  ℕ, zero, suc, ◌+◌, ◌-◌, ◌*◌, ◌/◌, ◌%◌, Bool, true, false, ◌&&◌, ◌||◌, List, [], ◌∷◌, ◌++◌, ltb,
  leb, ◌==◌, if◌then◌else◌,
}
use team.Prelude.Int.{ℤ, pos, ◌-ℤ◌}

-- The bytes of an ASCII literal, without the terminator.
abbrev pub codes : String → List ℕ
codes String.[] = []
codes (String.◌∷◌ c s) = code c ∷ codes s

-- What a `char *` reads as: the bytes before the first NUL.
abbrev pub c_str : List ℕ → List ℕ
c_str [] = []
c_str (c ∷ s) = if c == 0 then [] else c ∷ c_str s

-- `strncpy (dst, src, n)`: the n bytes that are written.
abbrev pub strncpy : ℕ → List ℕ → List ℕ
strncpy zero s = []
strncpy (suc n) [] = 0 ∷ strncpy n []
strncpy (suc n) (c ∷ s) = c ∷ strncpy n (if c == 0 then [] else s)

-- Whether two byte strings are the same.
abbrev pub same : List ℕ → List ℕ → Bool
same [] [] = true
same [] (b ∷ t) = false
same (a ∷ s) [] = false
same (a ∷ s) (b ∷ t) = a == b && same s t

-- The decimal digits of a number, with fuel.
pub digits : ℕ → ℕ → List ℕ
digits zero n = []
digits (suc f) n =
    let rest = digits f (n / 10) in if ltb n 10 then (48 + n) ∷ [] else rest ++ (48 + n % 10) ∷ []

-- A number has fewer digits than its value plus one, so this fuel suffices.
unfoldable pub print_dec : ℕ → List ℕ
unfolding digits
print_dec n = digits (suc n) n

-- `%ld` of a 32-bit word.
unfoldable pub print_ld : ℕ → List ℕ
unfolding print_dec
print_ld w = if ltb w 2147483648 then print_dec w else 45 ∷ print_dec (4294967296 - w)

abbrev pub is_digit : ℕ → Bool
is_digit c = leb 48 c && leb c 57

unfoldable pub scan_dec : ℕ → List ℕ → ℕ
scan_dec acc [] = acc
scan_dec acc (c ∷ s) =
    let rest = scan_dec (acc * 10 + (c - 48)) s in if is_digit c then rest else acc

abbrev pub is_space : ℕ → Bool
is_space c = c == 32 || leb 9 c && leb c 13

abbrev scan_sign : List ℕ → ℤ
scan_sign [] = pos 0
scan_sign (c ∷ s) =
    if c == 45
    then pos 0 -ℤ pos (scan_dec 0 s)
    else if c == 43
    then pos (scan_dec 0 s)
    else pos (scan_dec 0 (c ∷ s))

-- `atoi` and `atol`: spaces, a sign, digits. A value that does not fit a `long` is undefined in C
-- and is not reduced here.
unfoldable pub atol : List ℕ → ℤ
unfolding scan_dec ◌-ℤ◌
atol [] = pos 0
atol (c ∷ s) = let rest = atol s in if is_space c then rest else scan_sign (c ∷ s)
