-- ===== src/Senml/Decode/Pairs.antt =====
-- A key and its value stay within the arrays of the decoder (retro11/senml.c, 85-161).
use team.Prelude.{
  ℕ, zero, suc, [], ◌∷◌, get_elem?, get_elem?-set_self, ◌-◌, ◌≤◌, ◌<◌, ◌≡◌, refl, ◌∙◌, sym, Bool,
  true, false, Option, none, some, List, length, set, get_elem?-lt, length-set, arith, ltb, ◌==◌,
  if◌then◌else◌, ◌>>=◌,
}
use team.Senml.Decode.{
  Token, FoundBase, State, end_text, is_object, next, base_field, record_field, set_in, set_base,
  set_record, take_pair, terminated, text_at,
}

none_or_some {ℓ} : {A : Type ℓ} {a : A} → ◌≡◌ {A = Option A} none (some a) → ⊥
none_or_some e = cc

-- What holds of the locals between two tokens.
pub record Good (size num : ℕ) (d : State) : Type 0 where
  pub whole : length d.input ≡ size
  pub recs : length d.records ≡ num
  pub base : FoundBase
  pub has_base : d.base_info ≡ some base
  pub room : d.objects ≤ num
  pub opened : is_object d.last_type ≡ true → 1 ≤ d.objects

-- A string that begins at or before a terminator of the array is read within the array.
terminated_lem :
    (l : List ℕ) (i : ℕ) → get_elem? l i ≡ some 0 → (t : List ℕ) × (terminated l ≡ some t)
unfolding terminated
terminated_lem [] i e = absurd cc
terminated_lem (zero ∷ l) i e = ([], refl)
terminated_lem (suc c ∷ l) zero e = absurd cc
terminated_lem (suc c ∷ l) (suc i) e = let (t, r) = terminated_lem l i e in (suc c ∷ t, rw r refl)

text_at_lem :
    (l : List ℕ) (i j : ℕ) → get_elem? l i ≡ some 0 → j ≤ i → (t : List ℕ) × (text_at l j ≡ some t)
unfolding text_at
text_at_lem l i zero e le = terminated_lem l i e
text_at_lem [] i (suc j) e le = absurd cc
text_at_lem (c ∷ l) zero (suc j) e le = absurd (omega arith)
text_at_lem (c ∷ l) (suc i) (suc j) e le = text_at_lem l i j e (omega arith)

terminator_kept : (l : List ℕ) (i k : ℕ) → get_elem? l i ≡ some 0 → get_elem? (set l k 0) i ≡ some 0
terminator_kept [] i k e = e
terminator_kept (c ∷ l) i zero e = kept_behind i e
  where
    kept_behind : (i : ℕ) → get_elem? (c ∷ l) i ≡ some 0 → get_elem? (0 ∷ l) i ≡ some 0
    kept_behind zero e = refl
    kept_behind (suc i) e = e
terminator_kept (c ∷ l) zero (suc k) e = e
terminator_kept (c ∷ l) (suc i) (suc k) e = terminator_kept l i k e

module _ (number : List ℕ → ℕ) (size num : ℕ) where
  -- A step of a pair, which stays within the arrays.
  abbrev pub Stays : State → Option State → Type 0
  Stays d r =
      (d' : State) × (r ≡ some d')
      × Good size num d'
      × (d'.objects ≡ d.objects)
      × (d'.last_type ≡ d.last_type)

  field-Stays :
      (f : Option FoundBase) (d : State)
      → Good size num d
      → Stays d (elim f [
        | some b' ↦ some (record d { base_info = some b'; found_base_info = true })
        | none ↦ some d
      ])
  field-Stays none d g = (d, refl, g, refl, refl)
  field-Stays (some b') d g = (
    record d { base_info = some b'; found_base_info = true },
    refl,
    record {
      whole = g.whole;
      recs = g.recs;
      base = b';
      has_base = refl;
      room = g.room;
      opened = g.opened;
    },
    refl,
    refl,
  )

  set_in-Stays :
      (i : Option FoundBase) (key val : List ℕ) (at : ℕ) (d : State)
      → Good size num d
      → d.base_info ≡ i
      → Stays d (set_in number i key val at d)
  set_in-Stays none key val at d g e = absurd (none_or_some (sym e ∙ g.has_base))
  set_in-Stays (some b) key val at d g e = field-Stays (base_field number key val at b) d g

  set_base-Stays :
      (key val : List ℕ) (at : ℕ) (d : State)
      → Good size num d
      → Stays d (set_base number key val at d)
  unfolding set_base
  set_base-Stays key val at d g = set_in-Stays d.base_info key val at d g refl

  set_record-Stays :
      (key val : List ℕ) (at : ℕ) (d : State)
      → Good size num d
      → is_object d.last_type ≡ true
      → Stays d (set_record number key val at d)
  unfolding set_record
  set_record-Stays key val at d g e =
      let (r, found) =
        get_elem?-lt d.records (d.objects - 1) (omega (arith, g.recs, g.room, g.opened e)) in
      (
        record d { records = set d.records (d.objects - 1) (record_field number key val at r) },
        rw found refl,
        record {
          whole = g.whole;
          recs = length-set d.records (d.objects - 1) _ ∙ g.recs;
          base = g.base;
          has_base = g.has_base;
          room = g.room;
          opened = g.opened;
        },
        refl,
        refl,
      )

  then-Stays :
      (d : State) (m : Option State) (f : State → Option State)
      → Stays d m
      → ((d' : State) → Good size num d' → d'.last_type ≡ d.last_type → Stays d' (f d'))
      → Stays d (m >>= f)
  then-Stays d m f (d', e, g, o, l) next =
      let (d2, e2, g2, o2, l2) = next d' g l in (d2, rw e e2, g2, o2 ∙ o, l2 ∙ l)

  first-Stays :
      (b : Bool) (key val : List ℕ) (at : ℕ) (d : State)
      → Good size num d
      → Stays d (if b then set_base number key val at d else some d)
  first-Stays true key val at d g = set_base-Stays key val at d g
  first-Stays false key val at d g = (d, refl, g, refl, refl)

  -- A text that begins before a terminator of the input is read within the input.
  pub take_pair-Stays :
      (key val : Token) (d : State)
      → Good size num d
      → (key.start ≤ key.end) × (key.end < size)
      → (val.start ≤ val.end) × (val.end < size)
      → is_object d.last_type ≡ true
      → Stays d (take_pair number key val d)
  unfolding take_pair end_text
  take_pair-Stays key val d g (from, lt) (from', lt') e =
      let set1 = set d.input key.end 0 in
      let set2 = set set1 val.end 0 in
      let long : length set1 ≡ size = length-set d.input key.end 0 ∙ g.whole in
      let nul = get_elem?-set_self d.input key.end 0 (omega (arith, lt, g.whole)) in
      let nul' = get_elem?-set_self set1 val.end 0 (omega (arith, lt', long)) in
      let (k, read) =
        text_at_lem set2 key.end key.start (terminator_kept set1 key.end val.end nul) from in
      let (v, read') = text_at_lem set2 val.end val.start nul' from' in
      let fits : ltb key.end (length d.input) ≡ true = ground (arith, lt, g.whole) in
      let fits' : ltb val.end (length set1) ≡ true = ground (arith, lt', long) in
      let d2 : State = record d { input = set2 } in
      let g2 : Good size num d2 = record {
        whole = length-set set1 val.end 0 ∙ long;
        recs = g.recs;
        base = g.base;
        has_base = g.has_base;
        room = g.room;
        opened = g.opened;
      } in
      rw (fits, fits', read, read')
        (then-Stays d2 (if d.objects == 1 then set_base number k v val.start d2 else some d2)
          (λ d3. set_record number k v val.start d3)
          (first-Stays (d.objects == 1) k v val.start d2 g2)
          (λ d3 g3 l3. set_record-Stays k v val.start d3 g3 (rw l3 e)))
