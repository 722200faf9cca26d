-- ===== src/Senml/Writes.antt =====
-- What the encoder's writes leave in the array.
use mathlib.Core.List.{append_assoc, append-nil}
use team.Prelude.{
  ℕ, zero, suc, ◌+◌, ◌-◌, ◌≤◌, ◌<◌, ◌≡◌, refl, ◌∙◌, sym, ap, some, List, [], ◌∷◌, ◌++◌, length,
  take, set, length-append, length-take, length-set, arith, lt→ltb, Bool-cases, inl, inr, ◌==◌,
}
use team.Senml.{write_at, snprintf}

module _ {ℓ} {A : Type ℓ} where
  pub take-set :
      (l : List A) (i : ℕ) (c : A) → i < length l → take (suc i) (set l i c) ≡ take i l ++ c ∷ []
  take-set [] i c h = elim h [ ]
  take-set (x ∷ l) zero c h = refl
  take-set (x ∷ l) (suc i) c h = ap (λ (t : List A). x ∷ t) (take-set l i c (omega arith))

  pub take-take : (n m : ℕ) (l : List A) → n ≤ m → take n (take m l) ≡ take n l
  take-take zero m l h = refl
  take-take (suc n) zero l h = elim h [ ]
  take-take (suc n) (suc m) [] h = refl
  take-take (suc n) (suc m) (x ∷ l) h = ap (λ (t : List A). x ∷ t) (take-take n m l (omega arith))

  pub take-append_exact : (a b : List A) (n : ℕ) → length a ≡ n → take n (a ++ b) ≡ a
  take-append_exact [] b zero h = refl
  take-append_exact [] b (suc n) h = absurd (omega arith)
  take-append_exact (x ∷ a) b zero h = absurd (omega arith)
  take-append_exact (x ∷ a) b (suc n) h =
      ap (λ (t : List A). x ∷ t) (take-append_exact a b n (omega arith))

  pub take_all : (a : List A) (n : ℕ) → length a ≤ n → take n a ≡ a
  take_all [] zero h = refl
  take_all [] (suc n) h = refl
  take_all (x ∷ a) zero h = elim h [ ]
  take_all (x ∷ a) (suc n) h = ap (λ (t : List A). x ∷ t) (take_all a n (omega arith))

pub write_at_lem :
    (out : List ℕ) (i : ℕ) (s : List ℕ)
    → i + length s ≤ length out
    → (out' : List ℕ) × (write_at out i s ≡ some out')
      × (length out' ≡ length out)
      × (take (i + length s) out' ≡ take i out ++ s)
unfolding write_at
write_at_lem out i [] h =
    let e : i + 0 ≡ i = omega arith in (out, refl, refl, rw e (sym (append-nil (take i out))))
write_at_lem out i (c ∷ s) h =
    let (out', runs, same, text) =
      write_at_lem (set out i c) (i + 1) s (omega (arith, length-set out i c)) in
    let fits : i < length out = omega arith in
    let e : i + suc (length s) ≡ i + 1 + length s = omega arith in
    let e1 : i + 1 ≡ suc i = omega arith in
    let first : take (i + 1) (set out i c) ≡ take i out ++ c ∷ [] = rw e1 (take-set out i c fits) in
    let all : take (i + 1 + length s) out' ≡ take i out ++ c ∷ s =
      text ∙ (ap (λ (t : List ℕ). t ++ s) first ∙ append_assoc (take i out) (c ∷ []) s) in
    (out', rw (lt→ltb i (length out) fits) runs, same ∙ length-set out i c, rw e all)

-- What was wanted, when all of it was written with its NUL.
fits_all :
    (out out' : List ℕ) (i n : ℕ) (s : List ℕ)
    → length s < n
    → i ≤ length out
    → take (i + length (take (n - 1) s ++ 0 ∷ [])) out' ≡ take i out ++ (take (n - 1) s ++ 0 ∷ [])
    → take (i + length s) out' ≡ take i out ++ s
fits_all out out' i n s fits le text =
    let all : take (n - 1) s ≡ s = take_all s (n - 1) (omega arith) in
    let text' = rw all at text in
    let more : i + length s ≤ i + length (s ++ 0 ∷ []) = omega (arith, length-append s (0 ∷ [])) in
    let size : length (take i out ++ s) ≡ i + length s =
      omega (arith, length-append (take i out) s, length-take i out) in
    sym (take-take (i + length s) (i + length (s ++ 0 ∷ [])) out' more)
    ∙ (ap (take (i + length s)) (text' ∙ sym (append_assoc (take i out) s (0 ∷ [])))
        ∙ take-append_exact (take i out ++ s) (0 ∷ []) (i + length s) size)

-- An `snprintf` within the array leaves its size; the text is there, behind what stood before, if
-- it fits.
pub snprintf_lem :
    (out : List ℕ) (i n : ℕ) (s : List ℕ)
    → i + n ≤ length out
    → (out' : List ℕ) × (snprintf out i n s ≡ some out')
      × (length out' ≡ length out)
      × (length s < n → take (i + length s) out' ≡ take i out ++ s)
unfolding snprintf
snprintf_lem out i n s h = elim (Bool-cases (n == 0)) [
  | inl z ↦ (out, rw z, refl, λ fits. absurd (ground (arith, z, fits)))
  | inr nz ↦
      let (out', runs, same, text) =
        write_at_lem out i (take (n - 1) s ++ 0 ∷ [])
          (ground (arith, nz, length-append (take (n - 1) s) (0 ∷ []), length-take (n - 1) s)) in
      (out', rw nz runs, same, λ fits. fits_all out out' i n s fits (omega arith) text)
]
