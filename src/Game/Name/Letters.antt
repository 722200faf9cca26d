-- ===== src/Game/Name/Letters.antt =====
-- Lists that begin with characters of the alphabet.
use team.Prelude.{
  ℕ, zero, suc, ◌≤◌, ◌<◌, ◌≡◌, refl, Bool, true, false, ◌&&◌, ◌||◌, List, [], ◌∷◌, some, length,
  get_elem?, get_or, set, take, arith, leb, ◌==◌,
}
use team.Prelude.Text.{c_str}

abbrev pub is_letter : ℕ → Bool
is_letter c = c == b'_' || leb b'A' c && leb c b'Z'

-- The first n entries are there, and are letters.
abbrev pub letters : ℕ → List ℕ → Bool
letters zero s = true
letters (suc n) [] = false
letters (suc n) (c ∷ s) = is_letter c && letters n s

pub get_elem?-letters :
    (n i : ℕ) (s : List ℕ)
    → i < n
    → letters n s ≡ true
    → (get_elem? s i ≡ some (get_or s i 0)) × (is_letter (get_or s i 0) ≡ true)
get_elem?-letters zero i s h l = elim h [ ]
get_elem?-letters (suc n) i [] h l = ground arith
get_elem?-letters (suc n) zero (c ∷ s) h l = (refl, ground arith)
get_elem?-letters (suc n) (suc i) (c ∷ s) h l = get_elem?-letters n i s (omega arith) (ground arith)

-- A letter behind n letters makes n + 1.
pub letters-set :
    (n : ℕ) (s : List ℕ) (c : ℕ)
    → n < length s
    → letters n s ≡ true
    → is_letter c ≡ true
    → letters (suc n) (set s n c) ≡ true
letters-set n [] c h l k = elim h [ ]
letters-set zero (x ∷ s) c h l k = ground arith
letters-set (suc n) (x ∷ s) c h l k = ground (arith, letters-set n s c)

-- A write behind the letters leaves them.
pub letters-set_behind :
    (n i : ℕ) (s : List ℕ) (c : ℕ) → n ≤ i → letters n s ≡ true → letters n (set s i c) ≡ true
letters-set_behind zero i s c h l = refl
letters-set_behind (suc n) i [] c h l = l
letters-set_behind (suc n) zero (x ∷ s) c h l = absurd (omega arith)
letters-set_behind (suc n) (suc i) (x ∷ s) c h l = ground (arith, letters-set_behind n i s c)

-- Letters with a NUL behind them are a C string.
pub c_str-letters :
    (n : ℕ) (s : List ℕ)
    → letters n s ≡ true
    → get_elem? s n ≡ some 0
    → (c_str s ≡ take n s) × (length (c_str s) ≡ n)
c_str-letters n [] h e = absurd (ground arith)
c_str-letters zero (c ∷ s) h e = ground arith
c_str-letters (suc n) (c ∷ s) h e = ground (arith, c_str-letters n s)
