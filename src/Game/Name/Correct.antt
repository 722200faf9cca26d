-- ===== src/Game/Name/Correct.antt =====
-- The entry of a name stays within its arrays and gives 15 letters.
use team.Prelude.{
  ℕ, zero, suc, ◌+◌, ◌<◌, ◌≡◌, ◌≢◌, refl, ◌∙◌, Bool, true, false, List, [], ◌∷◌, some, length,
  get_elem?, get_or, set, take, length-set, get_elem?-set_self, get_elem?-set_ne, arith, leb,
  lt→ltb, Bool-cases, inl, inr, ◌==◌, if◌then◌else◌,
}
use native.Mathlib.Numerals.{add-one}
use team.Prelude.Text.{c_str}
use team.Game.Name.{
  Entry, Outcome, finish, asking, done, fault, alphabet, press, round, name_loop, entry_start,
  get_player_name,
}
use team.Game.Name.Letters.{
  is_letter, letters, get_elem?-letters, letters-set, letters-set_behind, c_str-letters,
}

-- Between two rounds, for the byte `last` at index 15, which is never written.
pub record Inv (last : ℕ) (e : Entry) : Type 0 where
  pub open_name : e.curr_idx < 15
  pub in_alphabet : e.curr_char_idx < 27
  pub size : length e.name ≡ 17
  pub chosen : letters e.curr_idx e.name ≡ true
  pub kept : get_elem? e.name 15 ≡ some last

-- A complete name: 15 letters, the byte that was there, and the terminator.
pub record IsName (last : ℕ) (name : List ℕ) : Type 0 where
  pub size : length name ≡ 17
  pub chosen : letters 15 name ≡ true
  pub kept : get_elem? name 15 ≡ some last
  pub ends : get_elem? name 16 ≡ some 0

abbrev pub Keeps : ℕ → Outcome → Type 0
Keeps last (asking e) = Inv last e
Keeps last (done name) = IsName last name
Keeps last fault = ⊥

alphabet-letters : letters 27 alphabet ≡ true
alphabet-letters = refl

module _ (last c : ℕ) (e : Entry) (i : Inv last e) (letter : is_letter c ≡ true) where
  open e use {curr_idx, name}

  abbrev chosen_name : List ℕ
  chosen_name = set name curr_idx c

  next_size : length chosen_name ≡ 17
  next_size = length-set name curr_idx c ∙ i.size

  next_chosen : letters (suc curr_idx) chosen_name ≡ true
  next_chosen = letters-set curr_idx name c (omega (arith, i)) i.chosen letter

  next_kept : get_elem? chosen_name 15 ≡ some last
  next_kept = get_elem?-set_ne name c (omega (arith, i)) ∙ i.kept

  next-Inv :
      leb 15 (curr_idx + 1) ≡ false
      → Inv last (record { curr_idx = curr_idx + 1; curr_char_idx = 0; name = chosen_name })
  next-Inv h = record {
    open_name = ground arith;
    in_alphabet = omega arith;
    size = next_size;
    chosen = rw add-one next_chosen;
    kept = next_kept;
  }

  next-IsName : leb 15 (curr_idx + 1) ≡ true → IsName last (set chosen_name 16 0)
  next-IsName h = record {
    size = length-set chosen_name 16 0 ∙ next_size;
    chosen = letters-set_behind 15 16 chosen_name 0 (omega arith) fifteen;
    kept = get_elem?-set_ne chosen_name 0 (omega arith) ∙ next_kept;
    ends = get_elem?-set_self chosen_name 16 0 (omega (arith, next_size));
  }
    where
      fifteen : letters 15 chosen_name ≡ true
      fifteen = let e : suc curr_idx ≡ 15 = ground (arith, i.open_name) in rw e at next_chosen

  finish-Keeps :
      Keeps last
        (finish (record { curr_idx = curr_idx + 1; curr_char_idx = 0; name = chosen_name }))
  finish-Keeps = elim (Bool-cases (leb 15 (curr_idx + 1))) [
    | inl h ↦ rw (h, lt→ltb 16 (length chosen_name) (omega (arith, next_size))) (next-IsName h)
    | inr h ↦ rw h (next-Inv h)
  ]

round-Keeps : (last action : ℕ) (e : Entry) → Inv last e → Keeps last (round action e)
unfolding round press
round-Keeps last zero e i =
    let (got, letter) = get_elem?-letters 27 e.curr_char_idx alphabet i.in_alphabet refl in
    rw (got, lt→ltb e.curr_idx (length e.name) (omega (arith, i)))
      (finish-Keeps last (get_or alphabet e.curr_char_idx 0) e i letter)
round-Keeps last (suc zero) e i = ground arith
round-Keeps last (suc (suc zero)) e i = ground arith
round-Keeps last (suc (suc (suc action))) e i = ground arith

-- The rest of the loop, after a round.
abbrev continue : List ℕ → Outcome → Outcome
continue actions (asking e) = name_loop actions e
continue actions (done name) = done name
continue actions fault = fault

name_loop_step :
    (action : ℕ) (actions : List ℕ) (e : Entry)
    → name_loop (action ∷ actions) e ≡ continue actions (round action e)
unfolding name_loop
name_loop_step action actions e = ground arith

continue-Keeps :
    (last : ℕ) (actions : List ℕ)
    → ((e : Entry) → Inv last e → Keeps last (name_loop actions e))
    → (o : Outcome) → Keeps last o
    → Keeps last (continue actions o)
continue-Keeps last actions ih (asking e) k = ih e k
continue-Keeps last actions ih (done name) k = k
continue-Keeps last actions ih fault k = k

name_loop-Keeps :
    (last : ℕ) (actions : List ℕ) (e : Entry) → Inv last e → Keeps last (name_loop actions e)
name_loop-Keeps last [] e i = unfold name_loop in i
name_loop-Keeps last (action ∷ actions) e i = rw name_loop_step (
    continue-Keeps last actions (name_loop-Keeps last actions) (round action e)
      (round-Keeps last action e i))

-- How often the button that takes the letter was pressed.
abbrev pub confirms : List ℕ → ℕ
confirms [] = 0
confirms (action ∷ actions) = (if action == 0 then 1 else 0) + confirms actions

abbrev pub returns : Outcome → Bool
returns (asking e) = false
returns (done name) = true
returns fault = false

abbrev Counts : ℕ → Outcome → Type 0
Counts k (asking e) = (e.curr_idx ≡ k) × (k < 15)
Counts k (done name) = k ≡ 15
Counts k fault = ⊥

round-Counts :
    (last action : ℕ) (e : Entry)
    → Inv last e
    → Counts (e.curr_idx + (if action == 0 then 1 else 0)) (round action e)
unfolding round press
round-Counts last zero e i =
    let (got, letter) = get_elem?-letters 27 e.curr_char_idx alphabet i.in_alphabet refl in
    let size = next_size last (get_or alphabet e.curr_char_idx 0) e i letter in
    rw (got, lt→ltb e.curr_idx (length e.name) (omega (arith, i))) (ground arith)
round-Counts last (suc zero) e i = ground arith
round-Counts last (suc (suc zero)) e i = ground arith
round-Counts last (suc (suc (suc action))) e i = ground arith

returns-name_loop :
    (last : ℕ) (actions : List ℕ) (e : Entry)
    → Inv last e
    → returns (name_loop actions e) ≡ leb 15 (e.curr_idx + confirms actions)
returns-name_loop last [] e i = unfold name_loop in ground arith
returns-name_loop last (action ∷ actions) e i = rw name_loop_step (
    after (returns-name_loop last actions) (round action e) (round-Keeps last action e i)
      (round-Counts last action e i))
  where
    after :
        ((e' : Entry)
          → Inv last e'
          → returns (name_loop actions e') ≡ leb 15 (e'.curr_idx + confirms actions))
        → (o : Outcome) → Keeps last o
        → Counts (e.curr_idx + (if action == 0 then 1 else 0)) o
        → returns (continue actions o) ≡ leb 15 (e.curr_idx + confirms (action ∷ actions))
    after ih (asking e') k n = ground (arith, ih e' k)
    after ih (done name) k n = ground arith
    after ih fault k n = absurd k

start-Inv :
    (last : ℕ) (name : List ℕ)
    → length name ≡ 17
    → get_elem? name 15 ≡ some last
    → Inv last (entry_start name)
start-Inv last name size kept = ground arith

-- Whatever is pressed, the entry of a name into an array of 17 bytes leaves no array: it still
-- asks, with both indices in range and letters of the alphabet chosen so far, or it has returned
-- 15 letters, the byte at index 15 as it was, and a NUL at index 16.
pub get_player_name_safe :
    (last : ℕ) (actions name : List ℕ)
    → length name ≡ 17
    → get_elem? name 15 ≡ some last
    → Keeps last (get_player_name actions name)
unfolding get_player_name
get_player_name_safe last actions name size kept =
    name_loop-Keeps last actions (entry_start name) (start-Inv last name size kept)

-- The entry of a name returns with the fifteenth press of the button that takes the letter, and
-- not before, whatever else is pressed.
pub returns-get_player_name :
    (last : ℕ) (actions name : List ℕ)
    → length name ≡ 17
    → get_elem? name 15 ≡ some last
    → returns (get_player_name actions name) ≡ leb 15 (confirms actions)
unfolding get_player_name
returns-get_player_name last actions name size kept =
    returns-name_loop last actions (entry_start name) (start-Inv last name size kept) ∙ ground arith

-- A complete name whose byte at index 15 is 0 reads as its 15 letters.
pub c_str-IsName :
    (name : List ℕ) → IsName 0 name → (c_str name ≡ take 15 name) × (length (c_str name) ≡ 15)
c_str-IsName name n = c_str-letters 15 name n.chosen n.kept

first_letter : (c : ℕ) (s : List ℕ) → letters 15 (c ∷ s) ≡ true → c_str (c ∷ s) ≢ []
first_letter c s h e = elim (Bool-cases (c == 0)) [
  | inl z ↦ absurd (ground arith)
  | inr nz ↦ let more : c_str (c ∷ s) ≡ c ∷ c_str s = rw nz refl in cc
]

-- A complete name is not empty.
pub c_str-nonempty : (last : ℕ) (name : List ℕ) → IsName last name → c_str name ≢ []
c_str-nonempty last [] n e = absurd (omega (arith, n.size))
c_str-nonempty last (c ∷ s) n e = first_letter c s n.chosen e
