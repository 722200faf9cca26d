-- ===== src/Prelude/Text/Copy.antt =====
-- Copying strings that hold no NUL.
use team.Prelude.{
  ℕ, zero, suc, ◌≤◌, ◌≡◌, refl, Bool, true, ◌&&◌, not, List, [], ◌∷◌, ◌++◌, length, arith, ◌==◌,
}
use team.Prelude.Text.{c_str, strncpy}

abbrev pub no_nul : List ℕ → Bool
no_nul [] = true
no_nul (c ∷ s) = not (c == 0) && no_nul s

pub c_str-no_nul : (s : List ℕ) → no_nul (c_str s) ≡ true
c_str-no_nul [] = refl
c_str-no_nul (c ∷ s) = ground (arith, c_str-no_nul s)

pub c_str_self : (s : List ℕ) → no_nul s ≡ true → c_str s ≡ s
c_str_self [] h = refl
c_str_self (c ∷ s) h = ground (arith, c_str_self s)

pub strncpy_self : (n : ℕ) (s : List ℕ) → no_nul s ≡ true → length s ≡ n → strncpy n s ≡ s
strncpy_self zero [] h e = refl
strncpy_self (suc n) [] h e = absurd (omega arith)
strncpy_self zero (c ∷ s) h e = absurd (omega arith)
strncpy_self (suc n) (c ∷ s) h e = ground (arith, strncpy_self n s)

pub no_nul-append : (s t : List ℕ) → no_nul s ≡ true → no_nul t ≡ true → no_nul (s ++ t) ≡ true
no_nul-append [] t h k = k
no_nul-append (c ∷ s) t h k = ground (arith, no_nul-append s t)

pub length-c_str : (s : List ℕ) → length (c_str s) ≤ length s
length-c_str [] = omega arith
length-c_str (c ∷ s) = ground (arith, length-c_str s)

pub length-strncpy : (n : ℕ) (s : List ℕ) → length (strncpy n s) ≡ n
length-strncpy zero s = refl
length-strncpy (suc n) [] = omega (arith, length-strncpy n [])
length-strncpy (suc n) (c ∷ s) = omega (arith, length-strncpy n _)
