-- ===== src/Senml/Decode.antt =====
-- The SenML decoder, `senml_decode_json_s` of retro11/senml.c, over the tokens of jsmn. A `char *`
-- that the decoder sets is an offset in its input, which holds its terminator too.
pub mod Outline
pub mod Pairs
pub mod Takes
use package.team.Prelude.{
  ℕ, zero, suc, ◌+◌, ◌-◌, ◌%◌, Bool, true, false, Option, none, some, List, [], ◌∷◌, length, set,
  get_elem?, ltb, leb, ◌==◌, if◌then◌else◌, ◌>>=◌,
}
use package.team.Prelude.Int.{ℤ, pos, negsuc}
use package.team.Prelude.Text.{codes, c_str, same, atol}

-- `jsmntype_t` and the part of `jsmntok_t` that is read.
pub data TokenType : Type 0 where
  undefined object array string primitive : TokenType

pub record Token : Type 0 where
  pub kind : TokenType
  pub start : ℕ
  pub end : ℕ

-- The structures that are filled. A value of type BOOL keeps the old bits of the union, `none`,
-- unless its text is one of the two names.
pub data Found : Type 0 where
  unset : Found
  int : ℕ → Found
  text : ℕ → Found
  bool : Option Bool → Found
  binary : ℕ → Found

pub record FoundRecord : Type 0 where
  pub name : Option ℕ
  pub unit : Option ℕ
  pub link : Option ℕ
  pub time : ℕ
  pub update_time : ℕ
  pub value_sum : ℕ
  pub value : Found

pub record FoundBase : Type 0 where
  pub version : ℕ
  pub base_name : Option ℕ
  pub base_time : ℕ
  pub base_unit : Option ℕ
  pub base_value : ℕ
  pub base_sum : ℕ

-- The locals with what they point to. `objects` is `array_num + 1`.
pub record State : Type 0 where
  pub input : List ℕ
  pub base_info : Option FoundBase
  pub records : List FoundRecord
  pub objects : ℕ
  pub last_type : TokenType
  pub found_base_info : Bool

-- How the decoder ends: with a read or a write outside what it was given, with -1, or with 0.
pub data Decoded : Type 0 where
  fault : Decoded
  refused : State → Decoded
  decoded : State → Decoded

-- A string up to its terminator.
unfoldable pub terminated : List ℕ → Option (List ℕ)
terminated [] = none
terminated (zero ∷ s) = some []
terminated (suc c ∷ s) = terminated s >>= λ t. some (suc c ∷ t)

-- What the string at `&input[i]` reads as: `none` if it begins behind the input, or if the input
-- ends without a terminator.
unfoldable pub text_at : List ℕ → ℕ → Option (List ℕ)
text_at input zero = terminated input
text_at [] (suc i) = none
text_at (c ∷ input) (suc i) = text_at input i

-- `input[i] = '\0'`.

unfoldable pub end_text : Token → State → Option State
end_text t d =
    if ltb t.end (length d.input) then some (record d { input = set d.input t.end 0 }) else none

abbrev byte : ℤ → ℕ
byte (pos n) = n % 256
byte (negsuc n) = 255 - n % 256

abbrev pub is_array : TokenType → Bool
is_array array = true
is_array _ = false

abbrev pub is_object : TokenType → Bool
is_object object = true
is_object _ = false

-- What a token asks for: to go on, to give up, or to be taken as a key.
pub data Demand : Type 0 where
  skip : State → Demand
  refuse : State → Demand
  pair : Demand

unfoldable pub classify : Token → State → Demand
classify t d = elim t.kind [
  | array ↦ skip (record d { last_type = array })
  | object ↦
      let d' : State = record d { last_type = object; objects = d.objects + 1 } in
      if leb (length d.records) d.objects then refuse d' else skip d'
  | string ↦ if is_object d.last_type then pair else skip d
  | _ ↦ skip d
]

-- The way on from a token, and from a pair.
unfoldable pub next : (State → Decoded) → Decoded → Demand → Decoded
next k p (skip d) = k d
next k p (refuse d) = refused d
next k p pair = p

unfoldable pub paired : (State → Decoded) → Option State → Decoded
paired k none = fault
paired k (some d) = k d

-- Whether a key is one of the base info does not depend on what the base info holds.
abbrev no_base : FoundBase
no_base = record {
  version = 0;
  base_name = none;
  base_time = 0;
  base_unit = none;
  base_value = 0;
  base_sum = 0;
}

-- `atof` of the C library with its conversion to `int32_t`.
module _ (number : List ℕ → ℕ) where
  -- The keys of the base info, with the text of the value and its offset; `none` for another key.
  abbrev pub base_field : List ℕ → List ℕ → ℕ → FoundBase → Option FoundBase
  base_field key val at b =
      if same key (codes "bver")
      then some (record b { version = byte (atol val) })
      else if same key (codes "bn")
      then some (record b { base_name = some at })
      else if same key (codes "bt")
      then some (record b { base_time = number val })
      else if same key (codes "bu")
      then some (record b { base_unit = some at })
      else if same key (codes "bv")
      then some (record b { base_value = number val })
      else if same key (codes "bs")
      then some (record b { base_sum = number val })
      else none

  abbrev bool_value : List ℕ → Option Bool
  bool_value val =
      if same val (codes "true")
      then some true
      else if same val (codes "false")
      then some false
      else none

  -- The keys of a record.
  abbrev pub record_field : List ℕ → List ℕ → ℕ → FoundRecord → FoundRecord
  record_field key val at r =
      if same key (codes "n")
      then record r { name = some at }
      else if same key (codes "u")
      then record r { unit = some at }
      else if same key (codes "l")
      then record r { link = some at }
      else if same key (codes "v")
      then record r { value = int (number val) }
      else if same key (codes "vs")
      then record r { value = text at }
      else if same key (codes "vb")
      then record r { value = bool (bool_value val) }
      else if same key (codes "vd")
      then record r { value = binary at }
      else if same key (codes "s")
      then record r { value_sum = number val }
      else if same key (codes "t")
      then record r { time = number val }
      else if same key (codes "ut")
      then record r { update_time = number val }
      else r

  -- The first record's keys go to the base info too. A NULL base info is not looked at before a key
  -- of it is found: `none`.
  abbrev pub set_in : Option FoundBase → List ℕ → List ℕ → ℕ → State → Option State
  set_in (some b) key val at d = elim (base_field key val at b) [
    | some b' ↦ some (record d { base_info = some b'; found_base_info = true })
    | none ↦ some d
  ]
  set_in none key val at d = elim (base_field key val at no_base) [ some b' ↦ none | none ↦ some d ]

  unfoldable pub set_base : List ℕ → List ℕ → ℕ → State → Option State
  set_base key val at d = set_in d.base_info key val at d

  unfoldable pub set_record : List ℕ → List ℕ → ℕ → State → Option State
  set_record key val at d = do
    r ← get_elem? d.records (d.objects - 1)
    some (record d { records = set d.records (d.objects - 1) (record_field key val at r) })

  -- A key and the token behind it.
  unfoldable pub take_pair : Token → Token → State → Option State
  take_pair key val d = do
    d1 ← end_text key d
    d2 ← end_text val d1
    k ← text_at d2.input key.start
    v ← text_at d2.input val.start
    d3 ← if d2.objects == 1 then set_base k v val.start d2 else some d2
    set_record k v val.start d3

  -- The loop over the tokens. A key with no token behind it reads outside the tokens.
  unfoldable pub decode_loop : List Token → State → Decoded
  decode_loop [] d = decoded d
  decode_loop (t ∷ []) d = next decoded fault (classify t d)
  decode_loop (t ∷ v ∷ ts) d =
      next (decode_loop (v ∷ ts)) (paired (decode_loop ts) (take_pair t v d)) (classify t d)

-- What the caller gets: the status, the input, the base info, the records, and `num`.
abbrev pub Result : Type 0
Result = ℤ × List ℕ × Option FoundBase × List FoundRecord × ℕ

abbrev pub result_of : ℕ → Decoded → Option Result
result_of num fault = none
result_of num (refused d) = some (negsuc 0, d.input, d.base_info, d.records, num)
result_of num (decoded d) =
    some (pos 0, d.input, (if d.found_base_info then d.base_info else none), d.records, d.objects)

-- `senml_decode_json_s`. `jsmn_parse` answers the tokens, or `none` on an error; the second parse
-- answers as the first.
unfoldable pub senml_decode_json_s :
    (List ℕ → ℕ)
    → (List ℕ → Option (List Token))
    → List ℕ
    → Option FoundBase
    → List FoundRecord
    → Option Result
senml_decode_json_s number jsmn_parse input base_info records =
    let start : State = record {
      input = input;
      base_info = base_info;
      records = records;
      objects = 0;
      last_type = undefined;
      found_base_info = false;
    } in
    result_of (length records) (elim (jsmn_parse (c_str input)) [
      | none ↦ refused start
      | some [] ↦ fault
      | some (t ∷ ts) ↦ elim (is_array t.kind) [
        | true ↦ decode_loop number (t ∷ ts) start
        | false ↦ refused start
      ]
    ])
