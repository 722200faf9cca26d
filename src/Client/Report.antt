-- ===== src/Client/Report.antt =====
-- The highscores as a SenML document, and the response of `/se-app/entries` that carries it
-- (retro11/coap_client.c). GCOAP_PDU_BUF_SIZE, which RIOT configures, is a parameter.
pub mod Document
pub mod Send
use package.team.Prelude.{
  ℕ, suc, zero, ◌+◌, ◌-◌, ◌%◌, ◌≤◌, Bool, true, false, ◌||◌, Option, none, some, List, [], ◌∷◌,
  ◌++◌, length, take, ltb, leb, ◌==◌, if◌then◌else◌, ◌>>=◌,
}
use package.team.Prelude.Int.{ℤ, pos, negsuc, ltb_ℤ}
use package.team.Prelude.Text.{codes, c_str}
use package.team.Client.{Text, read}
use package.team.Client.Entries.{Entries}
use package.team.Senml.{BaseInfo, SenmlRecord, int, snprintf, senml_encode_json_s}

-- `SENML_LEN`.
abbrev pub senml_len : ℕ
senml_len = 75

-- An `int` as the 32 bits of an `int32_t`.
abbrev pub int32 : ℤ → ℕ
int32 (pos n) = n % 4294967296
int32 (negsuc n) = 4294967295 - n % 4294967296

-- Only these fields of a record are set; the others are what the memory of the local array holds.
abbrev pub filled : SenmlRecord → List ℕ → ℤ → SenmlRecord
filled old name result = record old { name = some name; value = int (int32 result) }

abbrev pub is_zero : ℤ → Bool
is_zero (pos n) = n == 0
is_zero (negsuc n) = false

-- What an `int8_t` keeps of an integer.
abbrev int8_of_byte : ℕ → ℤ
int8_of_byte b = if ltb b 128 then pos b else negsuc (255 - b)

unfoldable pub int8 : ℤ → ℤ
int8 (pos n) = int8_of_byte (n % 256)
int8 (negsuc n) = int8_of_byte (255 - n % 256)

unfoldable pub has_percent : List ℕ → Bool
has_percent [] = false
has_percent (c ∷ s) = c == 37 || has_percent s

-- The document goes into the payload, where it is the format of `snprintf`, so a `%` in it asks for
-- an argument that is not there: `none`. `gcoap_finish` answers a length.
unfoldable pub send_json : (ℕ → ℤ) → ℕ → List ℕ → List ℕ → Option (ℤ × List ℕ)
send_json gcoap_finish pdu_size payload json = do
  payload' ← if has_percent json then none else snprintf payload 0 pdu_size json
  some (int8 (gcoap_finish (length json)), payload')

-- After the encoder.
abbrev pub reported : Entries → ℤ × List ℕ → Option (ℤ × List ℕ × Entries)
reported e (res, out) =
    if is_zero res
    then some (pos 0, out, record e { entry_counter = 0 })
    else some (negsuc 0, out, e)

-- The loop over the entries: n of them are left, from the i-th on. A read past an array is
-- undefined: `none`.
module _ (stack : List ℕ → List ℕ) (memory : ℕ → SenmlRecord) where
  unfoldable pub fill_records : ℕ → ℕ → List Text → List ℤ → Option (List SenmlRecord)
  fill_records i zero names results = some []
  fill_records i (suc n) (name ∷ names) (result ∷ results) = do
    records ← fill_records (i + 1) n names results
    some (filled (memory i) (read stack name) result ∷ records)
  fill_records i (suc n) _ _ = none

  -- `senml_json_strout`: its status, the buffer, and the entries; the counter starts again only if
  -- the document was written. An array of no records is undefined: `none`.
  unfoldable pub senml_json_strout : List ℕ → Entries → Option (ℤ × List ℕ × Entries)
  senml_json_strout json_buf e = do
    records ←
        (if e.entry_counter == 0
          then none
          else fill_records 0 e.entry_counter e.nameslist e.resultslist)
    let base_info : BaseInfo = record {
      version = 5;
      base_name = some (codes "reaction_game");
      base_time = 0;
      base_unit = none;
      base_value = 0;
      base_sum = 0;
    }
    senml_encode_json_s (record { base_info = some base_info; records = records }) json_buf
          senml_len
        >>= reported e

  -- `senml_json_send`, and `entry_handler`, which calls it: its result, the payload and the entries.
  -- `json_buf` is what `malloc` returns.
  unfoldable pub entry_handler :
      (ℕ → ℤ) → ℕ → List ℕ → List ℕ → Entries → Option (ℤ × List ℕ × Entries)
  entry_handler gcoap_finish pdu_size payload json_buf e = do
    (senml_res, out, e') ← senml_json_strout json_buf e
    if is_zero senml_res
        then (send_json gcoap_finish pdu_size payload (c_str out) >>= λ (gcoap_res, payload').
            some (gcoap_res, payload', e'))
        else some (negsuc 0, payload, e')
