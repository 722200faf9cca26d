-- ===== src/Senml.antt =====
-- The SenML encoder (retro11/senml.c): packs, the buffer that is written, and every call on it.
-- `snprintf` is the C library's, with its documented behaviour: it writes what fits and a NUL, and
-- returns the length that it wanted.
pub mod Draft
pub mod Writes
pub mod Shows
pub mod Members
pub mod Growth
pub mod Ready
pub mod Records
pub mod Ending
pub mod Encode
pub mod Document
pub mod Fits
pub mod Solid
pub mod Whole
pub mod Promise
pub mod Hollow
pub mod Decode
use Prim.Native.String.{String}
use package.team.Prelude.{
  ℕ, ◌+◌, ◌-◌, ◌%◌, Bool, true, false, ◌&&◌, ◌||◌, Option, none, some, List, [], ◌∷◌, ◌++◌, length,
  take, set, get_elem?, ltb, leb, ◌==◌, if◌then◌else◌,
}
use package.team.Prelude.Int.{ℤ, pos, negsuc}
use package.team.Prelude.Text.{codes, c_str, print_dec, print_ld}

-- `senml_base_info_t`. A `char *` may be NULL, `none`; an `int32_t` is its bits.
pub record BaseInfo : Type 0 where
  pub version : ℕ
  pub base_name : Option (List ℕ)
  pub base_time : ℕ
  pub base_unit : Option (List ℕ)
  pub base_value : ℕ
  pub base_sum : ℕ

-- `senml_value_type_t` with the part of the union that it selects.
pub data Value : Type 0 where
  undef : Value
  int : ℕ → Value
  string : List ℕ → Value
  bool : Bool → Value
  binary : List ℕ → Value

-- `senml_record_t`.
pub record SenmlRecord : Type 0 where
  pub name : Option (List ℕ)
  pub unit : Option (List ℕ)
  pub link : Option (List ℕ)
  pub time : ℕ
  pub update_time : ℕ
  pub value_sum : ℕ
  pub value : Value

-- `senml_pack_t`; `num` is the length of the list.
pub record Pack : Type 0 where
  pub base_info : Option BaseInfo
  pub records : List SenmlRecord

-- The locals of the encoder, with the array that it writes.
pub record Enc : Type 0 where
  pub output : List ℕ
  pub ins_pos : ℕ
  pub buf_len : ℕ
  pub insert_opening_brace : Bool

-- Where the encoder stands: it has left the array, it has returned, or it goes on.
pub data Outcome : Type 0 where
  fault : Outcome
  returned : ℤ → List ℕ → Outcome
  going : Enc → Outcome

infixl 5 ◌>>=◌
abbrev pub ◌>>=◌ : Outcome → (Enc → Outcome) → Outcome
fault >>= f = fault
returned status output >>= f = returned status output
going st >>= f = f st

-- Bytes from place i on; `none` is a write outside the array.
unfoldable pub write_at : List ℕ → ℕ → List ℕ → Option (List ℕ)
write_at output i [] = some output
write_at output i (c ∷ s) =
    if ltb i (length output) then write_at (set output i c) (i + 1) s else none

-- `snprintf (&output[i], n, ...)` of the text s.
unfoldable pub snprintf : List ℕ → ℕ → ℕ → List ℕ → Option (List ℕ)
snprintf output i n s = if n == 0 then some output else write_at output i (take (n - 1) s ++ 0 ∷ [])

-- `output[ins_pos] = c; ins_pos++; buf_len--;`. A `size_t` has 32 bits.
unfoldable pub put : ℕ → Enc → Outcome
put c st =
    if ltb st.ins_pos (length st.output)
    then going (record st {
      output = set st.output st.ins_pos c;
      ins_pos = st.ins_pos + 1;
      buf_len = (st.buf_len + 4294967295) % 4294967296;
    })
    else fault

-- An `snprintf` with the test of its result and the step behind what was written. The test reads
-- the space as an `ssize_t`, which is negative from 2^31 on.
unfoldable pub insert : List ℕ → Enc → Outcome
insert s st = elim (snprintf st.output st.ins_pos st.buf_len s) [
  | none ↦ fault
  | some output ↦
      if leb 2147483648 st.buf_len || leb st.buf_len (length s)
      then returned (negsuc 0) output
      else going (record st {
        output = output;
        ins_pos = st.ins_pos + length s;
        buf_len = st.buf_len - length s;
      })
]

-- A text attribute, if its pointer is not NULL, and a number, if it is not 0.
abbrev pub add_string : String → Option (List ℕ) → Enc → Outcome
add_string key value st = elim value [
  | none ↦ going st
  | some s ↦ insert (codes key ++ (c_str s ++ codes "\",")) st
]

abbrev pub add_number : String → (ℕ → List ℕ) → ℕ → Enc → Outcome
add_number key print n st =
    if n == 0 then going st else insert (codes key ++ (print n ++ codes ",")) st

abbrev pub add_value : Value → Enc → Outcome
add_value undef st = going st
add_value (int n) st = insert (codes "\"v\":" ++ (print_dec n ++ codes ",")) st
add_value (string s) st = insert (codes "\"vs\":\"" ++ (c_str s ++ codes "\",")) st
add_value (bool b) st =
    insert (codes "\"vb\":" ++ ((if b then codes "true" else codes "false") ++ codes ",")) st
add_value (binary d) st = insert (codes "\"vd\":\"" ++ (c_str d ++ codes "\",")) st

unfoldable pub put_base : BaseInfo → Enc → Outcome
put_base b st = do
  st1 ← add_number "\"bver\":" print_dec b.version st
  st2 ← add_string "\"bn\":\"" b.base_name st1
  st3 ← add_number "\"bt\":" print_dec b.base_time st2
  st4 ← add_string "\"bu\":\"" b.base_unit st3
  st5 ← add_number "\"bv\":" print_dec b.base_value st4
  add_number "\"bs\":" print_dec b.base_sum st5

unfoldable pub put_fields : SenmlRecord → Enc → Outcome
put_fields r st = do
  st1 ← add_string "\"n\":\"" r.name st
  st2 ← add_string "\"u\":\"" r.unit st1
  st3 ← add_string "\"l\":\"" r.link st2
  st4 ← add_number "\"t\":" print_ld r.time st3
  st5 ← add_number "\"ut\":" print_ld r.update_time st4
  st6 ← add_number "\"s\":" print_dec r.value_sum st5
  add_value r.value st6

-- An empty record: its brace is taken back, or the next record goes on with the base info.
unfoldable pub drop_empty : Enc → Outcome
drop_empty st = elim (get_elem? st.output (st.ins_pos - 1)) [
  | none ↦ fault
  | some c ↦
      if c == 123
      then going (record st { ins_pos = st.ins_pos - 1; buf_len = st.buf_len + 1 })
      else going (record st { insert_opening_brace = false })
]

-- The end of a record: its trailing comma becomes a brace, and a comma follows.
unfoldable pub close_record : Bool → Enc → Outcome
close_record more st = do
  st1 ← put 125 (record st { ins_pos = st.ins_pos - 1; buf_len = st.buf_len + 1 })
  st2 ← put 44 st1
  if more && st2.buf_len == 0
      then returned (negsuc 0) st2.output
      else going (record st2 { insert_opening_brace = true })

-- One round of the loop. `more` is whether a record follows.
unfoldable pub put_record : Bool → SenmlRecord → Enc → Outcome
put_record more r st = do
  st1 ← if st.insert_opening_brace then put 123 st else going st
  st2 ← put_fields r st1
  if st2.buf_len == st1.buf_len then drop_empty st2 else close_record more st2

abbrev pub any_left : List SenmlRecord → Bool
any_left [] = false
any_left (r ∷ records) = true

unfoldable pub put_records : List SenmlRecord → Enc → Outcome
put_records [] st = going st
put_records (r ∷ records) st = put_record (any_left records) r st >>= put_records records

-- After the loop.
unfoldable pub finish : ℕ → Enc → Outcome
finish ins_pos_after_bi st =
    let at = if ltb 1 st.ins_pos then st.ins_pos - 1 else st.ins_pos in
    let end = put 93 (record st { ins_pos = at; buf_len = st.buf_len + 2 }) >>= put 0 in
    if st.ins_pos + 1 == ins_pos_after_bi then returned (negsuc 0) st.output else end

-- Before the loop.
unfoldable pub put_head : Option BaseInfo → Enc → Outcome
put_head base_info st = do
  st1 ← put 91 st
  elim base_info [
    | none ↦ going st1
    | some b ↦ put 123 st1 >>= (λ st2. put_base b (record st2 { insert_opening_brace = false }))
  ]

-- The loop and what follows, once the head is written.
unfoldable pub put_body : List SenmlRecord → Enc → Outcome
put_body [] st = if st.ins_pos == 1 then put 93 st >>= put 0 else returned (negsuc 0) st.output
put_body (r ∷ records) st =
    let loop = put_records (r ∷ records) (record st { buf_len = st.buf_len - 1 }) in
    if ltb st.buf_len 4 then returned (negsuc 0) st.output else (loop >>= finish st.ins_pos)

-- The array when the function has returned; a step that goes on is the last one, which returns 0.
abbrev pub result_of : Outcome → Option (ℤ × List ℕ)
result_of fault = none
result_of (returned status out) = some (status, out)
result_of (going st) = some (pos 0, st.output)

-- `senml_encode_json_s`: the status and the array; `none` is a write outside the array.
unfoldable pub senml_encode_json_s : Pack → List ℕ → ℕ → Option (ℤ × List ℕ)
senml_encode_json_s pack output len =
    let start : Enc = record {
      output = output;
      ins_pos = 0;
      buf_len = len;
      insert_opening_brace = true;
    } in
    if ltb len 3
    then some (negsuc 0, output)
    else result_of (put_head pack.base_info start >>= put_body pack.records)
