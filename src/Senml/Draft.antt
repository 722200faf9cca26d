-- ===== src/Senml/Draft.antt =====
-- The encoder without its array: what is written so far, and how much fits.
use team.Prelude.{
  ℕ, ◌+◌, ◌-◌, Bool, true, false, ◌&&◌, Option, none, some, List, [], ◌∷◌, ◌++◌, length, take,
  get_elem?, ltb, ◌==◌, if◌then◌else◌, ◌>>=◌,
}
use Prim.Native.String.{String}
use team.Prelude.Text.{codes, c_str, print_dec, print_ld}
use team.Senml.{BaseInfo, Value, undef, int, string, bool, binary, SenmlRecord, Pack, any_left}

-- The text, and whether the next record opens a brace.
pub record Draft : Type 0 where
  pub text : List ℕ
  pub opens : Bool

-- The members that a record or the base info has, each without its comma.
abbrev pub string_member : String → Option (List ℕ) → List (List ℕ)
string_member key value = elim value [
  | none ↦ []
  | some s ↦ (codes key ++ (c_str s ++ codes "\"")) ∷ []
]

abbrev pub number_member : String → (ℕ → List ℕ) → ℕ → List (List ℕ)
number_member key print n = if n == 0 then [] else (codes key ++ print n) ∷ []

abbrev pub value_member : Value → List (List ℕ)
value_member undef = []
value_member (int n) = (codes "\"v\":" ++ print_dec n) ∷ []
value_member (string s) = (codes "\"vs\":\"" ++ (c_str s ++ codes "\"")) ∷ []
value_member (bool b) = (codes "\"vb\":" ++ (if b then codes "true" else codes "false")) ∷ []
value_member (binary d) = (codes "\"vd\":\"" ++ (c_str d ++ codes "\"")) ∷ []

unfoldable pub base_members : BaseInfo → List (List ℕ)
base_members b =
    number_member "\"bver\":" print_dec b.version
    ++ (string_member "\"bn\":\"" b.base_name
        ++ (number_member "\"bt\":" print_dec b.base_time
            ++ (string_member "\"bu\":\"" b.base_unit
                ++ (number_member "\"bv\":" print_dec b.base_value
                    ++ number_member "\"bs\":" print_dec b.base_sum))))

unfoldable pub members : SenmlRecord → List (List ℕ)
members r =
    string_member "\"n\":\"" r.name
    ++ (string_member "\"u\":\"" r.unit
        ++ (string_member "\"l\":\"" r.link
            ++ (number_member "\"t\":" print_ld r.time
                ++ (number_member "\"ut\":" print_ld r.update_time
                    ++ (number_member "\"s\":" print_dec r.value_sum ++ value_member r.value)))))

-- The last byte, and the text without it.
abbrev pub last? : List ℕ → Option ℕ
last? t = get_elem? t (length t - 1)

abbrev pub but_last : List ℕ → List ℕ
but_last t = take (length t - 1) t

unfoldable pub leave_after : Option ℕ → Draft → Draft
leave_after none d = d
leave_after (some c) d =
    if c == 123 then record d { text = but_last d.text } else record d { opens = false }

unfoldable pub leave_empty : Draft → Draft
leave_empty d = leave_after (last? d.text) d

abbrev pub open_brace : Draft → Draft
open_brace d = if d.opens then record d { text = d.text ++ 123 ∷ [] } else d

-- What fits into a room of so many bytes, with one to spare.
module _ (room : ℕ) where
  abbrev pub add : List ℕ → Draft → Option Draft
  add s d =
      if ltb (length d.text + length s) room then some (record d { text = d.text ++ s }) else none

  unfoldable pub add_all : List (List ℕ) → Draft → Option Draft
  add_all [] d = some d
  add_all (m ∷ ms) d = add (m ++ codes ",") d >>= add_all ms

  unfoldable pub close : Bool → Draft → Option Draft
  close more d =
      let t = (but_last d.text ++ 125 ∷ []) ++ 44 ∷ [] in
      if more && length t == room then none else some (record { text = t; opens = true })

  unfoldable pub add_record : Bool → SenmlRecord → Draft → Option Draft
  unfolding add_all leave_empty close
  add_record more r d = do
    d' ← add_all (members r) (open_brace d)
    if length d'.text == length (open_brace d).text then some (leave_empty d') else close more d'

  unfoldable pub add_records : List SenmlRecord → Draft → Option Draft
  unfolding add_record
  add_records [] d = some d
  add_records (r ∷ records) d = add_record (any_left records) r d >>= add_records records

-- The document without its NUL, if it is written.
unfoldable pub draft_head : ℕ → Option BaseInfo → Option Draft
draft_head len none = some (record { text = 91 ∷ []; opens = true })
draft_head len (some b) =
    add_all len (base_members b) (record { text = 91 ∷ 123 ∷ []; opens = false })

unfoldable pub draft_finish : ℕ → Draft → Option (List ℕ)
draft_finish after_bi d =
    if length d.text + 1 == after_bi
    then none
    else some ((if ltb 1 (length d.text) then but_last d.text else d.text) ++ 93 ∷ [])

unfoldable pub draft_body : ℕ → List SenmlRecord → Draft → Option (List ℕ)
draft_body len [] d = if length d.text == 1 then some (d.text ++ 93 ∷ []) else none
draft_body len (r ∷ records) d =
    if ltb (len - length d.text) 4
    then none
    else (add_records (len - 1) (r ∷ records) d >>= draft_finish (length d.text))

unfoldable pub draft : ℕ → Pack → Option (List ℕ)
draft len pack =
    if ltb len 3 then none else (draft_head len pack.base_info >>= draft_body len pack.records)
