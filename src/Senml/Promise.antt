-- ===== src/Senml/Promise.antt =====
-- What the encoder promises its caller: a pack's document, if there is one and if it fits.
use team.Prelude.{
  ℕ, ◌+◌, ◌<◌, ◌≡◌, refl, true, false, Option, none, some, List, [], ◌∷◌, ◌++◌, length,
  length-append, arith, ltb, ◌==◌, if◌then◌else◌, Bool-cases, inl, inr, ◌>>=◌,
}
use team.Prelude.Text.{codes}
use team.Senml.{BaseInfo, SenmlRecord, Pack, senml_encode_json_s}
use team.Senml.Draft.{Draft, base_members, draft_head, draft_body, draft}
use team.Senml.Document.{json, ended, objects, commas}
use team.Senml.Fits.{AllFilled}
use team.Senml.Whole.{guarded, add_all_fitting, draft-none, draft-some}
use team.Senml.Encode.{Returns, senml_encode_json_s-Returns}

-- Base info without records has no document.
unfoldable pub document : Option BaseInfo → List SenmlRecord → Option (List ℕ)
document (some b) [] = none
document none [] = some (json (record { base_info = none; records = [] }))
document base_info (r ∷ records) =
    some (json (record { base_info = base_info; records = r ∷ records }))

-- A document that leaves room for its NUL.
abbrev pub fitting : ℕ → List ℕ → Option (List ℕ)
fitting len doc = if ltb (length doc) len then some doc else none

draft-document :
    (base_info : Option BaseInfo) (records : List SenmlRecord) (len : ℕ)
    → AllFilled records
    → draft len (record { base_info = base_info; records = records })
      ≡ (document base_info records >>= fitting len)
unfolding document draft draft_head draft_body json commas objects
draft-document none [] len fs =
    guarded len 2 _ (codes "[]") (omega arith)
      (λ le. let fits : ltb 2 len ≡ true = ground (arith, le) in rw fits refl)
draft-document (some b) [] len fs = elim (Bool-cases (ltb len 3)) [
  | inl short ↦ rw short refl
  | inr long ↦
      let bm = base_members b in
      let d : Draft = record { text = codes "[{"; opens = false } in
      rw (long, add_all_fitting len bm d (ground (arith, long)))
        (elim (Bool-cases (ltb (2 + length (ended bm)) len)) [
          | inl fits ↦
              let only : (length (codes "[{" ++ ended bm) == 1) ≡ false =
                ground (arith, length-append (codes "[{") (ended bm)) in
              rw (fits, only) refl
          | inr over ↦ rw over refl
        ])
]
draft-document none (r ∷ records) len fs = draft-none len r records fs.0 fs.1
draft-document (some b) (r ∷ records) len fs = draft-some len b r records fs.0 fs.1

-- When every record of the pack has a member, the encoder returns 0 with the pack's document and a
-- NUL exactly if both fit in the array, and it returns -1 if they do not or if there is base info
-- without a record.
pub senml_encode_json_s_lem :
    (base_info : Option BaseInfo) (records : List SenmlRecord) (output : List ℕ) (len : ℕ)
    → AllFilled records
    → length output ≡ len
    → len < 2147483648
    → Returns len
        (document base_info records >>= fitting len)
        (senml_encode_json_s (record { base_info = base_info; records = records }) output len)
senml_encode_json_s_lem base_info records output len fs e small =
    let pack : Pack = record { base_info = base_info; records = records } in
    let returns = senml_encode_json_s-Returns pack output len e small in
    rw (← draft-document base_info records len fs) returns
