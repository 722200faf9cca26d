-- ===== src/Prelude/Text/Decimal.antt =====
-- Printing a number in decimal and reading it back.
use team.Prelude.{
  ℕ, zero, suc, ◌+◌, ◌-◌, ◌*◌, ◌/◌, ◌%◌, ◌^◌, ◌≤◌, ◌<◌, ◌≡◌, ◌≢◌, refl, ◌∙◌, inl, inr, Bool, true,
  ◌&&◌, List, [], ◌∷◌, ◌++◌, length, length-append, arith, ltb, Bool-cases,
}
use native.Mathlib.Nat.{pow-suc}
use team.Prelude.Int.{pos}
use team.Prelude.Text.Copy.{no_nul}
use team.Prelude.Text.{digits, print_dec, print_ld, is_digit, scan_dec, atol}

abbrev pub all_digits : List ℕ → Bool
all_digits [] = true
all_digits (c ∷ s) = is_digit c && all_digits s

all_digits-append :
    (s : List ℕ) (d : ℕ) → all_digits s ≡ true → is_digit d ≡ true → all_digits (s ++ d ∷ []) ≡ true
all_digits-append [] d h k = ground arith
all_digits-append (c ∷ s) d h k = ground (arith, all_digits-append s d)

scan_dec-append :
    (acc : ℕ) (s : List ℕ) (d : ℕ)
    → all_digits s ≡ true
    → is_digit d ≡ true
    → scan_dec acc (s ++ d ∷ []) ≡ scan_dec acc s * 10 + (d - 48)
unfolding scan_dec
scan_dec-append acc [] d h k = ground arith
scan_dec-append acc (c ∷ s) d h k = ground (arith, scan_dec-append (acc * 10 + (c - 48)) s d)

pub digits-all_digits : (f n : ℕ) → all_digits (digits f n) ≡ true
unfolding digits
digits-all_digits zero n = refl
digits-all_digits (suc f) n =
    ground
      (arith, digits-all_digits f (n / 10), all_digits-append (digits f (n / 10)) (48 + n % 10))

scan_dec-digits : (f n : ℕ) → n < f → scan_dec 0 (digits f n) ≡ n
unfolding digits
scan_dec-digits zero n h = elim h [ ]
scan_dec-digits (suc f) n h = elim (Bool-cases (ltb n 10)) [
  | inl small ↦ rw small (unfold scan_dec in ground arith)
  | inr big ↦ rw big (
      scan_dec-append 0 (digits f (n / 10)) (48 + n % 10) (digits-all_digits f (n / 10))
        (ground arith)
      ∙ omega (arith, scan_dec-digits f (n / 10) (ground arith)))
]

atol_of_digits : (s : List ℕ) → all_digits s ≡ true → atol s ≡ pos (scan_dec 0 s)
unfolding atol
atol_of_digits [] h = refl
atol_of_digits (c ∷ s) h = ground arith

-- Reading the decimal digits of a number gives the number.
pub atol-print_dec : (n : ℕ) → atol (print_dec n) ≡ pos n
unfolding print_dec
atol-print_dec n =
    atol_of_digits _ (digits-all_digits (suc n) n)
    ∙ ap_pos (scan_dec-digits (suc n) n (omega arith))
  where
    ap_pos : {a b : ℕ} → a ≡ b → pos a ≡ pos b
    ap_pos e = cc

-- A word that is positive as a signed number is printed by `%ld` and read back unchanged.
pub atol-print_ld : (n : ℕ) → n < 2147483648 → atol (print_ld n) ≡ pos n
unfolding print_ld
atol-print_ld n h = ground (arith, atol-print_dec n)

-- A number below 10 ^ (k + 1) has at most k + 1 digits.
length-digits : (k f n : ℕ) → n < 10 ^ suc k → length (digits f n) ≤ suc k
unfolding digits
length-digits k zero n h = omega arith
length-digits zero (suc f) n h = ground arith
length-digits (suc k) (suc f) n h =
    let shorter : n / 10 < 10 ^ suc k = omega (arith, pow-suc 10 (suc k)) in
    ground (
      arith,
      length-digits k f (n / 10) shorter,
      length-append (digits f (n / 10)) ((48 + n % 10) ∷ []),
    )

-- What `%ld` prints has at most 11 bytes.
pub length-print_ld : (w : ℕ) → w < 4294967296 → length (print_ld w) ≤ 11
unfolding print_ld print_dec
length-print_ld w h = ground (
  arith,
  length-digits 9 (suc w) w (omega arith),
  length-digits 9 (suc (4294967296 - w)) (4294967296 - w),
)

digits-ne-nil : (f n : ℕ) → digits (suc f) n ≢ []
unfolding digits
digits-ne-nil f n e = ground (arith, append-ne-nil (digits f (n / 10)) (48 + n % 10))
  where
    append-ne-nil : (s : List ℕ) (d : ℕ) → s ++ d ∷ [] ≢ []
    append-ne-nil [] d h = cc
    append-ne-nil (c ∷ s) d h = cc

no_nul_of_digits : (s : List ℕ) → all_digits s ≡ true → no_nul s ≡ true
no_nul_of_digits [] h = refl
no_nul_of_digits (c ∷ s) h = ground (arith, no_nul_of_digits s)

-- What `%ld` prints is a string of at least one byte.
pub print_ld-no_nul : (w : ℕ) → (no_nul (print_ld w) ≡ true) × (print_ld w ≢ [])
unfolding print_ld print_dec
print_ld-no_nul w =
    let m = 4294967296 - w in
    ground (
      arith,
      no_nul_of_digits (digits (suc w) w) (digits-all_digits (suc w) w),
      no_nul_of_digits (digits (suc m) m) (digits-all_digits (suc m) m),
      digits-ne-nil w w,
    )
