-- ===== src/Senml/Fits.antt =====
-- What the draft writes when every record has a member, and when it fits.
use mathlib.Core.List.{append_assoc, append-nil}
use mathlib.Core.Path.{fun_ext}
use team.Prelude.{
  ℕ, ◌+◌, ◌-◌, ◌≤◌, ◌<◌, ◌≡◌, ◌≢◌, refl, ◌∙◌, sym, ap, Bool, true, false, ◌&&◌, Option, none, some,
  List, [], ◌∷◌, ◌++◌, map, length, length-append, arith, ltb, ltb→lt, leb, ◌==◌, if◌then◌else◌,
  Bool-cases, inl, inr, ◌>>=◌,
}
use team.Prelude.Text.{codes}
use team.Senml.{SenmlRecord}
use team.Senml.Draft.{
  Draft, add, add_all, open_brace, close, but_last, add_record, add_records, members,
}
use team.Senml.Members.{bind-some}
use team.Senml.Writes.{take-append_exact}
use team.Senml.Document.{commas, object, object_of, ended, ended-begun}

pub but_last-append : (t : List ℕ) (c : ℕ) → but_last (t ++ c ∷ []) ≡ t
but_last-append t c =
    let e : length (t ++ c ∷ []) - 1 ≡ length t = omega (arith, length-append t (c ∷ [])) in
    rw e (take-append_exact t (c ∷ []) (length t) refl)

goes_on :
    (room : ℕ) (more : Bool) (n l : ℕ)
    → l ≡ n + 1
    → n < room
    → (d : Draft)
    → (if more && l == room then none else some d)
      ≡ (if ltb (n + (if more then 1 else 0)) room then some d else none)
goes_on room true n l e lt d = ground arith
goes_on room false n l e lt d = ground arith

-- A record with members: its object and a comma, if both fit and leave room for what follows.
abbrev pub closed : List ℕ → List (List ℕ) → Draft
closed t ms = record { text = t ++ (commas ms ++ codes "},"); opens = true }

-- Every record has a member.
abbrev pub AllFilled : List SenmlRecord → Type 0
AllFilled [] = Unit
AllFilled (r ∷ records) = (members r ≢ []) × AllFilled records

-- The first record with what follows it.
abbrev pub tail_of : SenmlRecord → List SenmlRecord → List ℕ
tail_of r records = commas (members r) ++ (codes "}," ++ ended (map object_of records))

close_text :
    (x t c : List ℕ)
    → x ≡ t ++ (c ++ codes ",")
    → (but_last x ++ codes "}") ++ codes "," ≡ t ++ (c ++ codes "},")
close_text x t c e =
    ap (λ (y : List ℕ). (but_last y ++ codes "}") ++ codes ",")
      (e ∙ sym (append_assoc t c (codes ",")))
    ∙ (ap (λ (y : List ℕ). (y ++ codes "}") ++ codes ",") (but_last-append (t ++ c) 44)
        ∙ simp append_assoc)

next_text :
    (t : List ℕ) (r s : SenmlRecord) (records : List SenmlRecord)
    → ((t ++ (commas (members r) ++ codes "},")) ++ codes "{") ++ tail_of s records
      ≡ t ++ tail_of r (s ∷ records)
unfolding object ended
next_text t r s records = simp append_assoc

module _ (room : ℕ) where
  add-add : (s u : List ℕ) (d : Draft) → (add room s d >>= add room u) ≡ add room (s ++ u) d
  add-add s u d = elim (Bool-cases (ltb (length d.text + length s) room)) [
    | inl fits ↦
        let same : ltb (length (d.text ++ s) + length u) room
            ≡ ltb (length d.text + length (s ++ u)) room =
          ground (arith, length-append d.text s, length-append s u) in
        rw fits (rw (same, append_assoc d.text s u))
    | inr over ↦
        let still : ltb (length d.text + length (s ++ u)) room ≡ false =
          ground (arith, over, length-append s u) in
        rw (over, still)
  ]

  -- Members fit all together or not at all.
  pub add_all_lem :
      (m : List ℕ) (ms : List (List ℕ)) (d : Draft)
      → add_all room (m ∷ ms) d ≡ add room (ended (m ∷ ms)) d
  unfolding add_all ended
  add_all_lem m [] d = rw (append-nil (m ++ codes ",")) (bind-some (add room (m ++ codes ",") d))
  add_all_lem m (n ∷ ms) d =
      ap (λ (k : Draft → Option Draft). add room (m ++ codes ",") d >>= k)
        (fun_ext (add_all_lem n ms))
      ∙ add-add (m ++ codes ",") (ended (n ∷ ms)) d

  close_lem :
      (more : Bool) (d : Draft) (t c : List ℕ) (n : ℕ)
      → length d.text ≡ n
      → d.text ≡ t ++ (c ++ codes ",")
      → n < room
      → close room more d ≡ (
          if ltb (n + (if more then 1 else 0)) room
          then some (record { text = t ++ (c ++ codes "},"); opens = true })
          else none)
  unfolding close
  close_lem more d t c n is_n e lt =
      let made = close_text d.text t c e in
      let size : length (t ++ (c ++ codes "},")) ≡ n + 1 = omega (
        arith,
        is_n,
        ap (length {A = ℕ}) e,
        length-append t (c ++ codes ","),
        length-append c (codes ","),
        length-append t (c ++ codes "},"),
        length-append c (codes "},"),
      ) in
      rw made (goes_on room more n _ size lt (record { text = _; opens = true }))

  add_record_lem :
      (more : Bool) (r : SenmlRecord) (d : Draft) (m : List ℕ) (ms : List (List ℕ))
      → members r ≡ m ∷ ms
      → add_record room more r d ≡ (
          if ltb
            (length (open_brace d).text + length (ended (m ∷ ms)) + (if more then 1 else 0))
            room
          then some (closed (open_brace d).text (m ∷ ms))
          else none)
  unfolding add_record
  add_record_lem more r d m ms has =
      let o = open_brace d in
      let e = ended (m ∷ ms) in
      rw (has, add_all_lem m ms o)
        (elim (Bool-cases (ltb (length o.text + length e) room)) [
          | inl fits ↦
              let size_e : 1 ≤ length e = omega (
                arith,
                ap (length {A = ℕ}) (ended-begun m ms),
                length-append (commas (m ∷ ms)) (codes ","),
              ) in
              let added : (length (o.text ++ e) == length o.text) ≡ false =
                ground (arith, length-append o.text e, size_e) in
              rw (fits, added)
                (close_lem more (record o { text = o.text ++ e }) o.text (commas (m ∷ ms))
                  (length o.text + length e) (length-append o.text e)
                  (ap (λ (t : List ℕ). o.text ++ t) (ended-begun m ms)) (ltb→lt _ _ fits))
          | inr over ↦
              let still : ltb (length o.text + length e + (if more then 1 else 0)) room ≡ false =
                ground (arith, over) in
              rw (over, still)
        ])

  record_as :
      (more : Bool) (r : SenmlRecord) (d : Draft) (ms : List (List ℕ))
      → members r ≡ ms
      → ms ≢ []
      → add_record room more r d ≡ (
          if leb
            (length (open_brace d).text + length (commas ms) + 2 + (if more then 1 else 0))
            room
          then some (closed (open_brace d).text ms)
          else none)
  record_as more r d [] has ne = absurd (ne refl)
  record_as more r d (m ∷ ms) has ne =
      let x = length (open_brace d).text in
      let k : ℕ = if more then 1 else 0 in
      let same : ltb (x + length (ended (m ∷ ms)) + k) room
          ≡ leb (x + length (commas (m ∷ ms)) + 2 + k) room =
        ground (
          arith,
          ap (length {A = ℕ}) (ended-begun m ms),
          length-append (commas (m ∷ ms)) (codes ","),
        ) in
      rw (← same) (add_record_lem more r d m ms has)

  pub add_records_lem :
      (r : SenmlRecord) (records : List SenmlRecord) (d : Draft)
      → members r ≢ []
      → AllFilled records
      → add_records room (r ∷ records) d ≡ (
          if leb (length (open_brace d).text + length (tail_of r records)) room
          then some (record { text = (open_brace d).text ++ tail_of r records; opens = true })
          else none)
  unfolding add_records ended
  add_records_lem r [] d ne fs =
      let size : length (tail_of r []) ≡ length (commas (members r)) + 2 =
        length-append (commas (members r)) (codes "},") in
      let x = length (open_brace d).text in
      let same : leb (x + length (commas (members r)) + 2 + 0) room
          ≡ leb (x + length (tail_of r [])) room =
        ground (arith, size) in
      bind-some (add_record room false r d) ∙ (record_as false r d (members r) refl ne ∙ rw same)
  add_records_lem r (s ∷ records) d ne fs =
      let o = open_brace d in
      let c = length (commas (members r)) in
      let d' = closed o.text (members r) in
      let text : (d'.text ++ codes "{") ++ tail_of s records ≡ o.text ++ tail_of r (s ∷ records) =
        next_text o.text r s records in
      let whole = tail_of r (s ∷ records) in
      let sizes : length (d'.text ++ codes "{") + length (tail_of s records)
          ≡ length o.text + length whole =
        sym (length-append (d'.text ++ codes "{") (tail_of s records))
        ∙ (ap (length {A = ℕ}) text ∙ length-append o.text whole) in
      let before : length (d'.text ++ codes "{") ≡ length o.text + c + 2 + 1 = omega (
        arith,
        length-append d'.text (codes "{"),
        length-append o.text (commas (members r) ++ codes "},"),
        length-append (commas (members r)) (codes "},"),
      ) in
      rw (record_as true r d (members r) refl ne)
        (elim (Bool-cases (leb (length o.text + c + 2 + 1) room)) [
          | inl fits ↦
              let same : leb (length (d'.text ++ codes "{") + length (tail_of s records)) room
                  ≡ leb (length o.text + length whole) room =
                ap (λ (n : ℕ). leb n room) sizes in
              rw fits (add_records_lem s records d' fs.0 fs.1 ∙ rw (same, text))
          | inr over ↦
              let still : leb (length o.text + length whole) room ≡ false =
                ground (arith, over, sizes, before) in
              rw (over, still)
        ])
