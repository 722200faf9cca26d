-- ===== src/Tests/Tokens.antt =====
-- Runs of the SenML decoder on the tokens of a document.
use team.Prelude.{ℕ, ◌≡◌, refl, Option, none, some, List, [], ◌∷◌, ◌++◌, length, arith}
use team.Prelude.Int.{pos, pos_part}
use team.Prelude.Text.{codes, atol}
use team.Senml.Decode.{
  TokenType, undefined, object, array, string, primitive, Token, unset, int, FoundRecord, FoundBase,
  senml_decode_json_s, decode_loop, take_pair, text_at, terminated, end_text, set_base, set_record,
  classify, next, paired,
}
use team.Senml.Decode.Outline.{outline}
use team.Senml.Decode.Takes.{Takes, senml_decode_json_s-Takes}

abbrev some_input : List ℕ
some_input = codes "[{\"bver\":5,\"n\":\"ADA\",\"v\":250}]" ++ 0 ∷ []

abbrev token : TokenType → ℕ → ℕ → Token
token kind start end = record { kind = kind; start = start; end = end }

abbrev some_tokens : List Token
some_tokens =
    token array 0 30
    ∷ token object 1 29
    ∷ token string 3 7
    ∷ token primitive 9 10
    ∷ token string 12 13
    ∷ token string 16 19
    ∷ token string 22 23
    ∷ token primitive 25 28
    ∷ []

abbrev parse : List ℕ → Option (List Token)
parse s = some some_tokens

abbrev number : List ℕ → ℕ
number s = pos_part (atol s)

abbrev no_record : FoundRecord
no_record = record {
  name = none;
  unit = none;
  link = none;
  time = 0;
  update_time = 0;
  value_sum = 0;
  value = unset;
}

abbrev some_base : FoundBase
some_base = record {
  version = 0;
  base_name = none;
  base_time = 0;
  base_unit = none;
  base_value = 0;
  base_sum = 0;
}

decoded_record :
    senml_decode_json_s number parse some_input (some some_base) (no_record ∷ no_record ∷ [])
    ≡ some (
      pos 0,
      codes "[{\"bver"
          ++ 0 ∷ codes ":5"
          ++ 0 ∷ codes "\"n"
          ++ 0 ∷ codes ":\"ADA"
          ++ 0 ∷ codes ",\"v"
          ++ 0 ∷ codes ":250"
          ++ 0 ∷ codes "]"
          ++ 0 ∷ [],
      some (record some_base { version = 5 }),
      record no_record { name = some 16; value = int 250 } ∷ no_record ∷ [],
      1,
    )
unfolding senml_decode_json_s decode_loop take_pair end_text text_at terminated set_base set_record
    classify next paired atol
decoded_record = refl

-- A key without a value, as in `[{"n"}]`: the token behind it is read and there is none.
lone_key :
    senml_decode_json_s number
      (λ s. some (token array 0 7 ∷ token object 1 6 ∷ token string 3 4 ∷ []))
      (codes "[{\"n\"}]" ++ 0 ∷ [])
      (some some_base)
      (no_record ∷ [])
    ≡ none
unfolding senml_decode_json_s decode_loop classify next
lone_key = refl

one_object : outline undefined some_tokens ≡ some 1
unfolding outline
one_object = refl

senml_decode_json_s-Takes_example :
    Takes
      (length some_input)
      2
      1
      (senml_decode_json_s number parse some_input (some some_base) (no_record ∷ no_record ∷ []))
senml_decode_json_s-Takes_example =
    senml_decode_json_s-Takes number parse some_input some_base (no_record ∷ no_record ∷ [])
      (token array 0 30)
      (token object 1 29
        ∷ token string 3 7
        ∷ token primitive 9 10
        ∷ token string 12 13
        ∷ token string 16 19
        ∷ token string 22 23
        ∷ token primitive 25 28
        ∷ [])
      1 refl refl (omega arith) one_object
