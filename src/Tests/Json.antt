-- ===== src/Tests/Json.antt =====
-- Runs of the SenML encoder and of the client's report, and each theorem on them at one input.
use team.Prelude.{
  ℕ, ◌==◌, ◌+◌, ◌≡◌, refl, ap, true, Option, none, some, List, [], ◌∷◌, ◌++◌, length, replicate,
  arith, if◌then◌else◌, ◌>>=◌,
}
use team.Prelude.Int.{ℤ, pos}
use team.Prelude.Text.{codes, print_dec}
use team.Client.{Text, literal}
use team.Client.Entries.{Entries}
use team.Senml.{
  BaseInfo, undef, int, bool, SenmlRecord, senml_encode_json_s, put_head, put_body, put_base,
  put_records, put_record, put_fields, drop_empty, close_record, finish, put, insert, snprintf,
  write_at,
}
use team.Senml.Draft.{draft, base_members, members}
use team.Senml.Document.{commas}
use team.Senml.Encode.{Returns, senml_encode_json_s-Returns}
use team.Senml.Promise.{document, fitting, senml_encode_json_s_lem}
use team.Senml.Hollow.{senml_encode_json_s-hollow}

abbrev blank_record : SenmlRecord
blank_record = record {
  name = none;
  unit = none;
  link = none;
  time = 0;
  update_time = 0;
  value_sum = 0;
  value = undef;
}

abbrev first : SenmlRecord
first = record blank_record { name = some (codes "ADA"); value = int 250 }

abbrev second : SenmlRecord
second = record blank_record { unit = some (codes "s"); value = bool true }

abbrev some_base : BaseInfo
some_base = record {
  version = 5;
  base_name = none;
  base_time = 0;
  base_unit = none;
  base_value = 0;
  base_sum = 0;
}

abbrev buffer : List ℕ
buffer = replicate 60 7

abbrev encode : Option BaseInfo → List SenmlRecord → ℕ → Option (ℤ × List ℕ)
encode base_info records len =
    senml_encode_json_s (record { base_info = base_info; records = records }) (replicate len 7) len

encoded :
    encode (some some_base) (first ∷ second ∷ []) 60
    ≡ some (
      pos 0,
      codes "[{\"bver\":5,\"n\":\"ADA\",\"v\":250},{\"u\":\"s\",\"vb\":true}]" ++ 0 ∷ replicate 9 7,
    )
unfolding senml_encode_json_s put_head put_body put_base put_records put_record put_fields
    drop_empty close_record finish put insert snprintf write_at print_dec
encoded = refl

-- Two records without base info, and then an empty one: its brace is taken back.
brace_back :
    encode none (first ∷ blank_record ∷ []) 30
    ≡ some (pos 0, codes "[{\"n\":\"ADA\",\"v\":250}]" ++ 0 ∷ replicate 8 7)
unfolding senml_encode_json_s put_head put_body put_base put_records put_record put_fields
    drop_empty close_record finish put insert snprintf write_at print_dec
brace_back = refl

-- Base info and an empty record, then a record: the document is whole.
empty_first :
    encode (some some_base) (blank_record ∷ second ∷ []) 31
    ≡ some (pos 0, codes "[{\"bver\":5,\"u\":\"s\",\"vb\":true}]" ++ 0 ∷ [])
unfolding senml_encode_json_s put_head put_body put_base put_records put_record put_fields
    drop_empty close_record finish put insert snprintf write_at print_dec
empty_first = refl

senml_encode_json_s_lem_example :
    Returns 60 (document (some some_base) (first ∷ second ∷ []) >>= fitting 60) (
      senml_encode_json_s
        (record { base_info = some some_base; records = first ∷ second ∷ [] })
        buffer
        60)
unfolding members
senml_encode_json_s_lem_example =
    senml_encode_json_s_lem (some some_base) (first ∷ second ∷ []) buffer 60
      (
        (λ e. omega (arith, ap (length {A = List ℕ}) e)),
        ((λ e. omega (arith, ap (length {A = List ℕ}) e)), tt),
      )
      refl (omega arith)

senml_encode_json_s-Returns_example :
    Returns 60 (draft 60 (record { base_info = none; records = first ∷ blank_record ∷ [] })) (
      senml_encode_json_s
        (record { base_info = none; records = first ∷ blank_record ∷ [] })
        buffer
        60)
senml_encode_json_s-Returns_example =
    senml_encode_json_s-Returns (record { base_info = none; records = first ∷ blank_record ∷ [] })
      buffer 60 refl (omega arith)

senml_encode_json_s-hollow_example :
    Returns 60 (some (codes "[{" ++ (commas (base_members some_base) ++ codes "]"))) (
      senml_encode_json_s
        (record { base_info = some some_base; records = blank_record ∷ [] })
        buffer
        60)
unfolding members base_members commas print_dec
senml_encode_json_s-hollow_example =
    senml_encode_json_s-hollow some_base blank_record [] buffer 60
      (λ e. omega (arith, ap (length {A = List ℕ}) e)) (refl, tt) (omega arith) refl (omega arith)

abbrev some_entries : Entries
some_entries = record {
  entry_counter = 2;
  nameslist = literal (codes "ADA") ∷ literal (codes "BOB") ∷ literal [] ∷ [];
  resultslist = pos 250 ∷ pos 300 ∷ pos 0 ∷ [];
}

abbrev intact : List ℕ → List ℕ
intact s = s

abbrev blank_memory : ℕ → SenmlRecord
blank_memory i = blank_record

-- The memory of the first record held a time.
abbrev stale_memory : ℕ → SenmlRecord
stale_memory i = if i == 0 then record blank_record { time = 7 } else blank_record

abbrev two_scores : List ℕ
two_scores =
    codes
      "[{\"bver\":5,\"bn\":\"reaction_game\",\"n\":\"ADA\",\"v\":250},{\"n\":\"BOB\",\"v\":300}]"

abbrev long_name : Text
long_name = literal (replicate 15 65)

-- gcoap adds a header of 20 bytes.
abbrev with_header : ℕ → ℤ
with_header n = pos (n + 20)
