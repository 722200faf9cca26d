-- ===== src/Senml/Whole.antt =====
-- The encoder against the document: what it returns when every record has a member.
use mathlib.Core.List.{append_assoc, append-nil}
use team.Prelude.{
  ℕ, ◌+◌, ◌-◌, ◌≤◌, ◌<◌, ◌≡◌, ◌≢◌, refl, ◌∙◌, sym, ap, true, false, Option, none, some, List, [],
  ◌∷◌, ◌++◌, map, length, length-append, arith, ltb, leb, ◌==◌, if◌then◌else◌, Bool-cases, inl, inr,
}
use team.Prelude.Text.{codes}
use team.Senml.{BaseInfo, SenmlRecord}
use team.Senml.Draft.{
  Draft, base_members, members, open_brace, add, add_all, draft_head, draft_finish, draft_body,
  draft,
}
use team.Senml.Document.{commas, object, object_of, objects, json, ended, ended-begun, ended-commas}
use team.Senml.Solid.{members-Solid, commas-Solid}
use team.Senml.Fits.{but_last-append, add_all_lem, AllFilled, tail_of, add_records_lem}

pub add_all_fitting :
    (room : ℕ) (ms : List (List ℕ)) (d : Draft)
    → length d.text < room
    → add_all room ms d ≡ add room (ended ms) d
unfolding add_all ended
add_all_fitting room [] d lt =
    let fits : ltb (length d.text + 0) room ≡ true = ground (arith, lt) in
    rw (fits, append-nil d.text) refl
add_all_fitting room (m ∷ ms) d lt = add_all_lem room m ms d

-- The loop and its end, for a text x that the records make with a comma behind.
draft_body_lem :
    (len : ℕ) (r : SenmlRecord) (records : List SenmlRecord) (d : Draft) (x : List ℕ)
    → (open_brace d).text ++ tail_of r records ≡ x ++ codes ","
    → 1 ≤ length d.text
    → length d.text + 2 ≤ length x
    → members r ≢ []
    → AllFilled records
    → draft_body len (r ∷ records) d
      ≡ (if ltb (length (x ++ codes "]")) len then some (x ++ codes "]") else none)
unfolding draft_body draft_finish
draft_body_lem len r records d x e one two ne fs =
    let o = (open_brace d).text in
    let size : length o + length (tail_of r records) ≡ length x + 1 =
      sym (length-append o (tail_of r records))
      ∙ (ap (length {A = ℕ}) e ∙ length-append x (codes ",")) in
    let size_x : length (x ++ codes "]") ≡ length x + 1 = length-append x (codes "]") in
    let size_e : length (x ++ codes ",") ≡ length x + 1 = length-append x (codes ",") in
    elim (Bool-cases (ltb (length (x ++ codes "]")) len)) [
      | inl fits ↦
          let enough : ltb (len - length d.text) 4 ≡ false = ground (arith, fits, size_x, two) in
          let all : leb (length o + length (tail_of r records)) (len - 1) ≡ true =
            ground (arith, fits, size_x, size) in
          let some_added : (length (x ++ codes ",") + 1 == length d.text) ≡ false =
            ground (arith, size_e, two) in
          let long : ltb 1 (length (x ++ codes ",")) ≡ true = ground (arith, size_e, two) in
          rw
            (
              enough,
              add_records_lem (len - 1) r records d ne fs,
              all,
              e,
              some_added,
              long,
              fits,
              but_last-append x 44,
            )
            refl
      | inr over ↦ rw over (elim (Bool-cases (ltb (len - length d.text) 4)) [
        | inl short ↦ rw short refl
        | inr enough ↦
            let none_fit : leb (length o + length (tail_of r records)) (len - 1) ≡ false =
              ground (arith, over, enough, size_x, size, one) in
            rw (enough, add_records_lem (len - 1) r records d ne fs, none_fit) refl
      ])
    ]

pub guarded {ℓ} :
    {A : Type ℓ} (len n : ℕ) (b : Option A) (c : A)
    → 2 ≤ n
    → (3 ≤ len → b ≡ (if ltb n len then some c else none))
    → (if ltb len 3 then none else b) ≡ (if ltb n len then some c else none)
guarded len n b c le e = elim (Bool-cases (ltb len 3)) [
  | inl short ↦ let over : ltb n len ≡ false = ground (arith, short, le) in rw (short, over) refl
  | inr long ↦ rw long (e (ground (arith, long)))
]

pub draft-none :
    (len : ℕ) (r : SenmlRecord) (records : List SenmlRecord)
    → members r ≢ []
    → AllFilled records
    → let doc = json (record { base_info = none; records = r ∷ records }) in
      draft len (record { base_info = none; records = r ∷ records })
      ≡ (if ltb (length doc) len then some doc else none)
unfolding draft draft_head json objects object ended
draft-none len r records ne fs =
    let x = codes "[" ++ commas (object_of r ∷ map object_of records) in
    let d : Draft = record { text = codes "["; opens = true } in
    let shape : codes "[{" ++ tail_of r records ≡ x ++ codes "," =
      rw (← ended-begun (object_of r) (map object_of records)) (simp append_assoc) in
    let size : length (codes "[{") + length (tail_of r records) ≡ length x + 1 =
      sym (length-append (codes "[{") (tail_of r records))
      ∙ (ap (length {A = ℕ}) shape ∙ length-append x (codes ",")) in
    let braces : 2 ≤ length (tail_of r records) =
      omega
        (arith, length-append (commas (members r)) (codes "}," ++ ended (map object_of records))) in
    let size_x : length (x ++ codes "]") ≡ length x + 1 = length-append x (codes "]") in
    guarded len (length (x ++ codes "]")) _ (x ++ codes "]") (omega (arith, size, size_x, braces))
      (λ le.
        draft_body_lem len r records d x shape (omega arith) (omega (arith, size, braces)) ne fs)

first_members :
    (bs ms : List (List ℕ)) (t : List ℕ)
    → ms ≢ []
    → ended bs ++ (commas ms ++ t) ≡ commas (bs ++ ms) ++ t
first_members bs [] t ne = absurd (ne refl)
first_members bs (m ∷ ms) t ne =
    sym (append_assoc (ended bs) (commas (m ∷ ms)) t)
    ∙ ap (λ (u : List ℕ). u ++ t) (ended-commas bs ms m)

-- The base info's members, then those of the first record.
pub draft-some :
    (len : ℕ) (b : BaseInfo) (r : SenmlRecord) (records : List SenmlRecord)
    → members r ≢ []
    → AllFilled records
    → let doc = json (record { base_info = some b; records = r ∷ records }) in
      draft len (record { base_info = some b; records = r ∷ records })
      ≡ (if ltb (length doc) len then some doc else none)
unfolding draft draft_head json objects object ended
draft-some len b r records ne fs =
    let bm = base_members b in
    let x = codes "[" ++ commas (object (bm ++ members r) ∷ map object_of records) in
    let d : Draft = record { text = codes "[{"; opens = false } in
    let h = codes "[{" ++ ended bm in
    let shape : h ++ tail_of r records ≡ x ++ codes "," =
      ap (λ (t : List ℕ). codes "[{" ++ t)
        (first_members bm (members r) (codes "}," ++ ended (map object_of records)) ne)
      ∙ rw (← ended-begun (object (bm ++ members r)) (map object_of records)) (simp append_assoc) in
    let size : length h + length (tail_of r records) ≡ length x + 1 =
      sym (length-append h (tail_of r records))
      ∙ (ap (length {A = ℕ}) shape ∙ length-append x (codes ",")) in
    let size_h : length h ≡ 2 + length (ended bm) =
      omega (arith, length-append (codes "[{") (ended bm)) in
    let braces : 3 ≤ length (tail_of r records) = omega (
      arith,
      length-append (commas (members r)) (codes "}," ++ ended (map object_of records)),
      commas-Solid (members r) (members-Solid r) ne,
    ) in
    let size_x : length (x ++ codes "]") ≡ length x + 1 = length-append x (codes "]") in
    guarded len (length (x ++ codes "]")) _ (x ++ codes "]")
      (omega (arith, size, size_x, braces, size_h))
      (λ le. rw (add_all_fitting len bm d le) (elim (Bool-cases (ltb (2 + length (ended bm)) len)) [
        | inl fits ↦ rw fits (
            draft_body_lem len r records (record { text = h; opens = false }) x shape
              (omega (arith, size_h)) (omega (arith, size, braces)) ne fs)
        | inr over ↦
            let still : ltb (length (x ++ codes "]")) len ≡ false =
              ground (arith, over, size, size_x, braces, size_h) in
            rw (over, still) refl
      ]))
