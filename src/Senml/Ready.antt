-- ===== src/Senml/Ready.antt =====
-- What a record leaves behind it: a text that ends within its room, and more room if another follows.
use mathlib.Core.Option.{some-injective}
use mathlib.Core.Path.{subst}
use team.Prelude.{
  ℕ, ◌+◌, ◌-◌, ◌<◌, ◌≡◌, refl, ◌∙◌, sym, ap, Bool, true, false, ◌&&◌, some, List, [], ◌∷◌, ◌++◌,
  length, get_elem?-lt, length-append, arith, ◌==◌, ==_iff, if◌then◌else◌, Bool-cases, Option-cases,
  inl, inr,
}
use team.Senml.{SenmlRecord, any_left}
use team.Senml.Writes.{take-append_exact}
use team.Senml.Draft.{
  Draft, add_all, add_record, add_records, open_brace, leave_after, leave_empty, close, last?,
  but_last, members,
}
use team.Senml.Growth.{
  get_elem?-take, get_elem?-append, get_elem?-append_end, length-but_last, IsGood, Grows,
  none_or_some, add_all-Grows,
}

-- A record leaves room for the next one, if one follows.
pub record Ready (room : ℕ) (more : Bool) (t : List ℕ) : Type 0 where
  pub good : IsGood room t
  pub next : more ≡ true → length t < room

with_byte :
    (room : ℕ) (t : List ℕ) (c : ℕ) → IsGood room t → length t < room → IsGood room (t ++ c ∷ [])
with_byte room t c g lt = record {
  bracket = get_elem?-append t (c ∷ []) 0 g.some_text ∙ g.bracket;
  some_text = omega (arith, length-append t (c ∷ []));
  within = omega (arith, lt, length-append t (c ∷ []));
}

without_last : (room : ℕ) (t : List ℕ) → IsGood room t → 1 < length t → IsGood room (but_last t)
without_last room t g two = record {
  bracket = get_elem?-take t (length t - 1) 0 (omega (arith, two)) ∙ g.bracket;
  some_text = omega (arith, two, length-but_last t);
  within = omega (arith, g, length-but_last t);
}

pub open_brace-IsGood :
    (room : ℕ) (d : Draft)
    → IsGood room d.text
    → length d.text < room
    → IsGood room (open_brace d).text
open_brace-IsGood room d g lt = elim (Bool-cases d.opens) [
  | inl opens ↦ rw opens (with_byte room d.text 123 g lt)
  | inr not_opens ↦ rw not_opens g
]

-- A brace that was just opened is taken back.
pub leave_brace :
    (t : List ℕ) (b : Bool)
    → leave_empty (record { text = t ++ 123 ∷ []; opens = b }) ≡ record { text = t; opens = b }
unfolding leave_empty
leave_brace t b =
    let e : length (t ++ 123 ∷ []) - 1 ≡ length t = omega (arith, length-append t (123 ∷ [])) in
    let at : last? (t ++ 123 ∷ []) ≡ some 123 = rw e (get_elem?-append_end t 123) in
    rw at (unfold leave_after in rw (e, take-append_exact t (123 ∷ []) (length t) refl))

two_bytes : (room : ℕ) (t : List ℕ) → IsGood room t → last? t ≡ some 123 → 1 < length t
two_bytes room t g e = elim (Bool-cases (length t == 1)) [
  | inl one ↦
      let l : length t - 1 ≡ 0 = ground (arith, one) in
      let e' = rw l at e in ground (arith, e', g.bracket)
  | inr more ↦ ground (arith, more, g.some_text)
]

leave_other :
    (room : ℕ) (more : Bool) (d : Draft)
    → IsGood room d.text
    → length d.text < room
    → Ready room more (leave_empty d).text
unfolding leave_empty
leave_other room more d g lt =
    let (c, at) = get_elem?-lt d.text (length d.text - 1) (omega (arith, g)) in
    rw at (elim (Bool-cases (c == 123)) [
      | inl brace ↦
          let two = two_bytes room d.text g (rw ((==_iff c 123).0 brace) at at) in
          unfold leave_after in
          rw brace (record {
            good = without_last room d.text g two;
            next = λ m. omega (arith, lt, length-but_last d.text);
          })
      | inr other ↦ unfold leave_after in rw other (record { good = g; next = λ m. lt })
    ])

-- An empty record gives its brace back.
leave_empty-Ready :
    (room : ℕ) (more : Bool) (d : Draft)
    → IsGood room d.text
    → length d.text < room
    → Ready room more (leave_empty (open_brace d)).text
leave_empty-Ready room more d g lt = elim (Bool-cases d.opens) [
  | inl opens ↦ simp opens (rw (leave_brace d.text true) (record { good = g; next = λ m. lt }))
  | inr not_opens ↦ simp not_opens (leave_other room more d g lt)
]

close-Ready :
    (room : ℕ) (more : Bool) (d d' : Draft)
    → IsGood room d.text
    → 1 < length d.text
    → length d.text < room
    → close room more d ≡ some d'
    → Ready room more d'.text
unfolding close
close-Ready room more d d' g two lt e =
    let t1 = but_last d.text ++ 125 ∷ [] in
    let size1 : length t1 ≡ length d.text =
      omega (arith, two, length-but_last d.text, length-append (but_last d.text) (125 ∷ [])) in
    let size : length (t1 ++ 44 ∷ []) ≡ length d.text + 1 =
      omega (arith, size1, length-append t1 (44 ∷ [])) in
    let good1 =
      with_byte room (but_last d.text) 125 (without_last room d.text g two)
        (omega (arith, lt, length-but_last d.text)) in
    let good = with_byte room t1 44 good1 (omega (arith, lt, size1)) in
    elim (Bool-cases (more && length (t1 ++ 44 ∷ []) == room)) [
      | inl full ↦ absurd (let bad = rw full at e in none_or_some bad)
      | inr left ↦
          let made = some-injective _ _ (rw left at e) in
          subst (λ (x : Draft). Ready room more x.text) made
            (record { good = good; next = λ m. ground (arith, left, m, size, lt) })
    ]

after_members-Ready :
    (room : ℕ) (more : Bool) (d d2 d' : Draft)
    → IsGood room d.text
    → length d.text < room
    → Grows room (open_brace d) d2
    → (if length d2.text == length (open_brace d).text
        then some (leave_empty d2)
        else close room more d2)
      ≡ some d'
    → Ready room more d'.text
after_members-Ready room more d d2 d' good lt gr e = elim gr.spare [
  | inl same ↦
      let as_long : (length d2.text == length (open_brace d).text) ≡ true =
        (==_iff _ _).1 (ap (λ (x : Draft). length x.text) same) in
      let left = some-injective _ _ (rw as_long at e) in
      subst (λ (x : Draft). Ready room more x.text) (ap leave_empty (sym same) ∙ left)
        (leave_empty-Ready room more d good lt)
  | inr (longer, spare) ↦
      let filled : (length d2.text == length (open_brace d).text) ≡ false =
        ground (arith, longer) in
      let opened = open_brace-IsGood room d good lt in
      close-Ready room more d2 d' gr.good (omega (arith, longer, opened.some_text)) spare
        (rw filled at e)
]

pub add_record-Ready :
    (room : ℕ) (more : Bool) (r : SenmlRecord) (d d' : Draft)
    → IsGood room d.text
    → length d.text < room
    → add_record room more r d ≡ some d'
    → Ready room more d'.text
unfolding add_record
add_record-Ready room more r d d' good lt e =
    elim (Option-cases (add_all room (members r) (open_brace d))) [
      | inl full ↦ absurd (let bad = rw full at e in none_or_some bad)
      | inr (d2, added) ↦
          after_members-Ready room more d d2 d' good lt
            (add_all-Grows room (members r) (open_brace d) d2 (open_brace-IsGood room d good lt)
              added)
            (rw added at e)
    ]

pub add_records-IsGood :
    (room : ℕ) (records : List SenmlRecord) (d d' : Draft)
    → Ready room (any_left records) d.text
    → add_records room records d ≡ some d'
    → IsGood room d'.text
unfolding add_records
add_records-IsGood room [] d d' ready e =
    subst (λ (x : Draft). IsGood room x.text) (some-injective _ _ e) ready.good
add_records-IsGood room (r ∷ records) d d' ready e =
    elim (Option-cases (add_record room (any_left records) r d)) [
      | inl full ↦ absurd (let bad = rw full at e in none_or_some bad)
      | inr (d1, added) ↦
          add_records-IsGood room records d1 d'
            (add_record-Ready room (any_left records) r d d1 ready.good (ready.next refl) added)
            (rw added at e)
    ]
