-- ===== src/Senml/Hollow.antt =====
-- Base info that no record's members follow (retro11/senml.c, 441-444).
use team.Prelude.{
  ℕ, ◌+◌, ◌-◌, ◌≤◌, ◌<◌, ◌≡◌, ◌≢◌, refl, ◌∙◌, ap, Bool, true, false, Option, some, List, [], ◌∷◌,
  ◌++◌, length, length-append, arith, ltb, ◌==◌,
}
use mathlib.Core.Path.{subst}
use team.Prelude.Text.{codes}
use team.Senml.{BaseInfo, SenmlRecord, Pack, any_left, senml_encode_json_s}
use team.Senml.Draft.{
  Draft, base_members, members, leave_after, last?, add_record, add_records, draft_head,
  draft_finish, draft_body, draft,
}
use team.Senml.Document.{commas, ended, ended-begun}
use team.Senml.Growth.{get_elem?-append_end}
use team.Senml.Fits.{but_last-append}
use team.Senml.Whole.{add_all_fitting}
use team.Senml.Encode.{Returns, senml_encode_json_s-Returns}

-- No record has a member.
abbrev pub AllEmpty : List SenmlRecord → Type 0
AllEmpty [] = Unit
AllEmpty (r ∷ records) = (members r ≡ []) × AllEmpty records

abbrev hollow : List ℕ → Draft
hollow x = record { text = x ++ codes ","; opens = false }

last?-append : (x : List ℕ) → last? (x ++ codes ",") ≡ some 44
last?-append x =
    let at : length (x ++ codes ",") - 1 ≡ length x = omega (arith, length-append x (codes ",")) in
    rw at (get_elem?-append_end x 44)

add_record-hollow :
    (room : ℕ) (more : Bool) (r : SenmlRecord) (x : List ℕ)
    → members r ≡ []
    → add_record room more r (hollow x) ≡ some (hollow x)
unfolding add_record leave_after
add_record-hollow room more r x e =
    let same : (length (x ++ codes ",") == length (x ++ codes ",")) ≡ true = ground arith in
    rw (e, same, last?-append x) refl

add_records-hollow :
    (room : ℕ) (records : List SenmlRecord) (x : List ℕ)
    → AllEmpty records
    → add_records room records (hollow x) ≡ some (hollow x)
unfolding add_records
add_records-hollow room [] x es = refl
add_records-hollow room (r ∷ records) x es =
    rw (add_record-hollow room (any_left records) r x es.0) (add_records-hollow room records x es.1)

draft_body-hollow :
    (len : ℕ) (r : SenmlRecord) (records : List SenmlRecord) (x : List ℕ)
    → AllEmpty (r ∷ records)
    → length x + 5 ≤ len
    → 1 ≤ length x
    → draft_body len (r ∷ records) (hollow x) ≡ some (x ++ codes "]")
unfolding draft_body draft_finish
draft_body-hollow len r records x es le one =
    let size : length (x ++ codes ",") ≡ length x + 1 = length-append x (codes ",") in
    let room : ltb (len - length (x ++ codes ",")) 4 ≡ false = ground (arith, le, size) in
    let same : (length (x ++ codes ",") + 1 == length (x ++ codes ",")) ≡ false = ground arith in
    let two : ltb 1 (length (x ++ codes ",")) ≡ true = ground (arith, size, one) in
    rw (room, add_records-hollow (len - 1) (r ∷ records) x es, same, two, but_last-append x 44) refl

draft-hollow :
    (b : BaseInfo) (r : SenmlRecord) (records : List SenmlRecord) (len : ℕ) (bm : List (List ℕ))
    → base_members b ≡ bm
    → bm ≢ []
    → AllEmpty (r ∷ records)
    → length (commas bm) + 7 ≤ len
    → draft len (record { base_info = some b; records = r ∷ records })
      ≡ some (codes "[{" ++ (commas bm ++ codes "]"))
unfolding draft draft_head
draft-hollow b r records len [] has ne es le = absurd (ne refl)
draft-hollow b r records len (m ∷ ms) has ne es le =
    let x = codes "[{" ++ commas (m ∷ ms) in
    let d : Draft = record { text = codes "[{"; opens = false } in
    let head : codes "[{" ++ ended (m ∷ ms) ≡ x ++ codes "," =
      ap (λ (t : List ℕ). codes "[{" ++ t) (ended-begun m ms) in
    let size : length x ≡ 2 + length (commas (m ∷ ms)) =
      length-append (codes "[{") (commas (m ∷ ms)) in
    let long : ltb len 3 ≡ false = ground (arith, le) in
    let fits : ltb (2 + length (ended (m ∷ ms))) len ≡ true = ground (
      arith,
      le,
      length-append (commas (m ∷ ms)) (codes ","),
      ap (length {A = ℕ}) (ended-begun m ms),
    ) in
    rw (long, has, add_all_fitting len (m ∷ ms) d (ground (arith, le)), fits)
      (ap (λ (t : List ℕ). draft_body len (r ∷ records) (record { text = t; opens = false })) head
        ∙ draft_body-hollow len r records x es (omega (arith, size, le)) (omega (arith, size)))

-- When there is base info with a member and no record has a member, the encoder returns 0 with the
-- base info's members behind `[{` and a `]`, without the brace that closes the object, if the array
-- has 7 bytes more than the members take.
pub senml_encode_json_s-hollow :
    (b : BaseInfo) (r : SenmlRecord) (records : List SenmlRecord) (output : List ℕ) (len : ℕ)
    → base_members b ≢ []
    → AllEmpty (r ∷ records)
    → length (commas (base_members b)) + 7 ≤ len
    → length output ≡ len
    → len < 2147483648
    → Returns len
        (some (codes "[{" ++ (commas (base_members b) ++ codes "]")))
        (senml_encode_json_s (record { base_info = some b; records = r ∷ records }) output len)
senml_encode_json_s-hollow b r records output len ne es le e small =
    let pack : Pack = record { base_info = some b; records = r ∷ records } in
    subst (λ (doc : Option (List ℕ)). Returns len doc (senml_encode_json_s pack output len))
      (draft-hollow b r records len (base_members b) refl ne es le)
      (senml_encode_json_s-Returns pack output len e small)
