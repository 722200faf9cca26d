-- ===== src/Senml/Growth.antt =====
-- The draft grows behind its opening bracket and stays within its room.
use mathlib.Core.Option.{some-injective}
use mathlib.Core.Path.{subst}
use team.Prelude.{
  ℕ, zero, suc, ◌+◌, ◌-◌, ◌≤◌, ◌<◌, ◌≡◌, refl, ◌∙◌, sym, Option, none, some, List, [], ◌∷◌, ◌++◌,
  length, take, get_elem?, length-append, length-take, arith, ltb, ltb→lt, Bool-cases, Option-cases,
  inl, inr, ◌⊎◌,
}
use team.Prelude.Text.{codes}
use team.Senml.Draft.{Draft, add, add_all}

module _ {ℓ} {A : Type ℓ} where
  pub get_elem?-take : (l : List A) (n i : ℕ) → i < n → get_elem? (take n l) i ≡ get_elem? l i
  get_elem?-take l zero i h = elim h [ ]
  get_elem?-take [] (suc n) i h = refl
  get_elem?-take (x ∷ l) (suc n) zero h = refl
  get_elem?-take (x ∷ l) (suc n) (suc i) h = get_elem?-take l n i (omega arith)

  pub get_elem?-append :
      (l m : List A) (i : ℕ) → i < length l → get_elem? (l ++ m) i ≡ get_elem? l i
  get_elem?-append [] m i h = absurd (omega arith)
  get_elem?-append (x ∷ l) m zero h = refl
  get_elem?-append (x ∷ l) m (suc i) h = get_elem?-append l m i (omega arith)

  pub get_elem?-append_end : (l : List A) (x : A) → get_elem? (l ++ x ∷ []) (length l) ≡ some x
  get_elem?-append_end [] x = refl
  get_elem?-append_end (y ∷ l) x = get_elem?-append_end l x

  pub length-but_last : (l : List A) → length (take (length l - 1) l) ≡ length l - 1
  length-but_last l = omega (arith, length-take (length l - 1) l)

-- An opening bracket, and no more than the room.
pub record IsGood (room : ℕ) (t : List ℕ) : Type 0 where
  pub bracket : get_elem? t 0 ≡ some 91
  pub some_text : 0 < length t
  pub within : length t ≤ room

-- Members either leave the text alone or add to it with a byte to spare.
pub record Grows (room : ℕ) (d d' : Draft) : Type 0 where
  pub good : IsGood room d'.text
  pub same_brace : d'.opens ≡ d.opens
  pub longer : length d.text ≤ length d'.text
  pub spare : (d' ≡ d) ⊎ ((length d.text < length d'.text) × (length d'.text < room))

pub none_or_some {ℓ} : {A : Type ℓ} {a : A} → ◌≡◌ {A = Option A} none (some a) → ⊥
none_or_some e = cc

unchanged : (room : ℕ) (d : Draft) → IsGood room d.text → Grows room d d
unchanged room d g = record { good = g; same_brace = refl; longer = omega arith; spare = inl refl }

appended :
    (room : ℕ) (s : List ℕ) (d : Draft)
    → IsGood room d.text
    → 0 < length s
    → length d.text + length s < room
    → Grows room d (record d { text = d.text ++ s })
appended room s d g ne under =
    let size_of = length-append d.text s in
    record {
      good = record {
        bracket = get_elem?-append d.text s 0 g.some_text ∙ g.bracket;
        some_text = omega (arith, g, size_of);
        within = omega (arith, under, size_of);
      };
      same_brace = refl;
      longer = omega (arith, size_of);
      spare = inr (omega (arith, ne, size_of), omega (arith, under, size_of));
    }

trans_spare :
    {room : ℕ} (d d1 d2 : Draft)
    → (d1 ≡ d) ⊎ ((length d.text < length d1.text) × (length d1.text < room))
    → (d2 ≡ d1) ⊎ ((length d1.text < length d2.text) × (length d2.text < room))
    → (d2 ≡ d) ⊎ ((length d.text < length d2.text) × (length d2.text < room))
trans_spare d d1 d2 (inl e) (inl e') = inl (e' ∙ e)
trans_spare {room} d d1 d2 (inl e) (inr b) =
    inr (subst (λ (x : Draft). (length x.text < length d2.text) × (length d2.text < room)) e b)
trans_spare {room} d d1 d2 (inr b) (inl e) =
    inr (subst (λ (x : Draft). (length d.text < length x.text) × (length x.text < room)) (sym e) b)
trans_spare d d1 d2 (inr b) (inr b') = inr (omega (arith, b, b'), b'.1)

Grows-trans : (room : ℕ) (d d1 d2 : Draft) → Grows room d d1 → Grows room d1 d2 → Grows room d d2
Grows-trans room d d1 d2 g h = record {
  good = h.good;
  same_brace = h.same_brace ∙ g.same_brace;
  longer = omega (arith, g, h);
  spare = trans_spare d d1 d2 g.spare h.spare;
}

add-Grows :
    (room : ℕ) (s : List ℕ) (d d' : Draft)
    → IsGood room d.text
    → 0 < length s
    → add room s d ≡ some d'
    → Grows room d d'
add-Grows room s d d' g ne e = elim (Bool-cases (ltb (length d.text + length s) room)) [
  | inl under ↦
      let added = some-injective _ _ (rw under at e) in
      subst (λ (x : Draft). Grows room d x) added (appended room s d g ne (ltb→lt _ _ under))
  | inr over ↦ absurd (let bad = rw over at e in none_or_some bad)
]

pub add_all-Grows :
    (room : ℕ) (ms : List (List ℕ)) (d d' : Draft)
    → IsGood room d.text
    → add_all room ms d ≡ some d'
    → Grows room d d'
unfolding add_all
add_all-Grows room [] d d' g e =
    subst (λ (x : Draft). Grows room d x) (some-injective _ _ e) (unchanged room d g)
add_all-Grows room (m ∷ ms) d d' g e = elim (Option-cases (add room (m ++ codes ",") d)) [
  | inl none_left ↦ absurd (let bad = rw none_left at e in none_or_some bad)
  | inr (d1, first) ↦
      let ne : 0 < length (m ++ codes ",") = omega (arith, length-append m (codes ",")) in
      let g1 = add-Grows room (m ++ codes ",") d d1 g ne first in
      Grows-trans room d d1 d' g1 (add_all-Grows room ms d1 d' g1.good (rw first at e))
]
