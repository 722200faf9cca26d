-- ===== src/Client.antt =====
-- The CoAP client that runs the game (retro11/coap_client.c): its state, and what it makes of a
-- response.
pub mod Payload
pub mod Entries
pub mod Report
pub mod Poll
pub mod Responses
use package.team.Prelude.{
  ℕ, ◌-◌, Bool, Option, none, some, List, [], length, take, drop, ltb, ◌&&◌, ◌==◌, if◌then◌else◌,
  ◌>>=◌,
}
use package.team.Prelude.Text.{codes, c_str, strncpy, same}

-- `client_state_t`.
pub data ClientState : Type 0 where
  waiting has_name is_working rcvd_result : ClientState

-- A `char *` that the client keeps: to a string literal, or to a local array of a call that has
-- returned, with what the array held at its end.
pub data Text : Type 0 where
  literal : List ℕ → Text
  ended : List ℕ → Text

-- What such a pointer reads as. `stack` is what the memory of an ended call holds by then, given
-- what it held.
abbrev pub read : (List ℕ → List ℕ) → Text → List ℕ
read stack (literal s) = s
read stack (ended s) = stack s

-- `client_t`.
pub record Client : Type 0 where
  pub m0_name : Text
  pub m1_name : Text
  pub m0_result : Text
  pub m1_result : Text
  pub m0_state : ClientState
  pub m1_state : ClientState

unfoldable pub set_name : Text → ℕ → Client → Client
set_name name m c =
    if m == 0
    then record c { m0_name = name; m0_state = has_name }
    else record c { m1_name = name; m1_state = has_name }

unfoldable pub set_is_working : ℕ → Client → Client
set_is_working m c =
    if m == 0 then record c { m0_state = is_working } else record c { m1_state = is_working }

unfoldable pub set_result : Text → ℕ → Client → Client
set_result result m c =
    if m == 0
    then record c { m0_result = result; m0_state = rcvd_result }
    else record c { m1_result = result; m1_state = rcvd_result }

unfoldable pub reset_client_states : Client → Client
reset_client_states c = record {
  m0_name = literal [];
  m1_name = literal [];
  m0_result = literal [];
  m1_result = literal [];
  m0_state = waiting;
  m1_state = waiting;
}

-- What is left of `coap_client_init`: the rest is the network's address and a thread.
unfoldable pub coap_client_init : Client → Client
unfolding reset_client_states
coap_client_init c = reset_client_states c

-- `coap_pkt_t`, as far as the handler reads it.
pub data ContentType : Type 0 where
  text other : ContentType

pub record Pdu : Type 0 where
  pub content_type : ContentType
  pub payload : List ℕ

-- `req_state`: gcoap's verdict on the request.
pub data ReqState : Type 0 where
  memo_timeout memo_err memo_resp : ReqState

-- The two calls of `strcmp` on the first three bytes.
abbrev pub machine_of : List ℕ → Option ℕ
machine_of machine =
    if same (c_str machine) (codes "M0.")
    then some 0
    else if same (c_str machine) (codes "M1.")
    then some 1
    else none

-- `strncmp (pld, subject, 2) == 0`.
abbrev pub is_subject : List ℕ → List ℕ → Bool
is_subject pld subject = same (c_str (take 2 pld)) subject

-- `behind n` is whether the byte behind a local array of n bytes is free. The C language promises it
-- for no array; a compiler may leave padding there.
module _ (behind : ℕ → Bool) where
  -- A local array of n bytes and the write of its terminator, which goes one past it; `none` for an
  -- array with no element, and for a write on memory that is not free.
  abbrev pub has_room : ℕ → Bool
  has_room n = ltb 0 n && behind n

  -- `char value[pldlen - 3]`, filled from `pld + 3`.
  abbrev pub value_of : List ℕ → Option Text
  value_of pld =
      if has_room (length pld - 3)
      then some (ended (c_str (strncpy (length pld - 3) (drop 3 pld))))
      else none

  -- The three tests of the subject, in their order.
  unfoldable pub on_subject : List ℕ → ℕ → Client → Option Client
  unfolding set_is_working set_name set_result
  on_subject pld m c =
      let c' = if is_subject pld (codes "st") then set_is_working m c else c in
      (if is_subject pld (codes "na")
        then value_of pld >>= (λ v. some (set_name v m c'))
        else some c')
      >>= λ c''.
          if is_subject pld (codes "re")
          then value_of pld >>= (λ v. some (set_result v m c''))
          else some c''

  -- A text payload MACHINE.SUBJECT.VALUE, with `char pld[pldlen]` for what follows three bytes.
  unfoldable pub on_payload : List ℕ → Client → Option Client
  unfolding on_subject
  on_payload payload c =
      if has_room (length payload - 3)
      then elim (machine_of (strncpy 3 payload)) [
        | some m ↦ on_subject (strncpy (length payload - 3) (drop 3 payload)) m c
        | none ↦ some c
      ]
      else none

  -- `_resp_handler`; `none` is undefined behaviour.
  unfoldable pub resp_handler : ReqState → Pdu → Client → Option Client
  unfolding on_payload
  resp_handler memo_timeout pdu c = some c
  resp_handler memo_err pdu c = some c
  resp_handler memo_resp pdu c =
      if length pdu.payload == 0
      then some c
      else elim pdu.content_type [ text ↦ on_payload pdu.payload c | other ↦ some c ]
