-- ===== src/Client/Poll.antt =====
-- The client's thread (retro11/coap_client.c): which requests it sends in which state, and how it
-- sends them. A parse of an IPv6 address is RIOT's, and a parameter.
use Prim.Native.String.{String}
use package.team.Prelude.{
  ℕ, ◌%◌, Bool, ◌&&◌, ◌||◌, Option, none, some, List, [], ◌∷◌, ◌++◌, ◌==◌, if◌then◌else◌, ◌>>=◌,
}
use package.team.Prelude.Int.{ℤ, pos_part, ltb_ℤ}
use package.team.Prelude.Text.{codes, atol}
use package.team.Client.{
  Client, ClientState, waiting, has_name, is_working, rcvd_result, read, reset_client_states,
}
use package.team.Client.Entries.{Entries, set_entry_counter}

-- A command line of the client, "coap get ADDRESS 5683 PATH": the machine whose address it names,
-- and the path.
pub record Command : Type 0 where
  pub machine : ℕ
  pub path : String

abbrev pub is_state : ClientState → ClientState → Bool
is_state waiting waiting = Bool.true
is_state has_name has_name = Bool.true
is_state is_working is_working = Bool.true
is_state rcvd_result rcvd_result = Bool.true
is_state _ _ = Bool.false

abbrev pub commands : String → String → List Command
commands path0 path1 =
    record { machine = 0; path = path0 } ∷ record { machine = 1; path = path1 } ∷ []

-- The verdict, if the results differ.
unfoldable pub verdict : ℤ → ℤ → List Command
verdict r0 r1 =
    if ltb_ℤ r0 r1
    then commands "/set/winner" "/set/looser"
    else if ltb_ℤ r1 r0
    then commands "/set/looser" "/set/winner"
    else []

-- What one round of the loop leaves: the commands, in order, and the globals.
pub record Round : Type 0 where
  pub sent : List Command
  pub client : Client
  pub entries : Entries

-- One round of `coap_client_thread_handler`. `stack` is what the memory of ended calls holds
-- during the round; `none` is undefined behaviour.
unfoldable pub client_round : (List ℕ → List ℕ) → Client → Entries → Option Round
unfolding verdict reset_client_states
client_round stack c e =
    if is_state c.m0_state waiting || is_state c.m1_state waiting
    then some (record { sent = commands "/request/name" "/request/name"; client = c; entries = e })
    else if is_state c.m0_state has_name && is_state c.m1_state has_name
    then some (record { sent = commands "/start/game" "/start/game"; client = c; entries = e })
    else if is_state c.m0_state is_working || is_state c.m1_state is_working
    then some
        (record { sent = commands "/request/result" "/request/result"; client = c; entries = e })
    else if is_state c.m0_state rcvd_result && is_state c.m1_state rcvd_result
    then set_entry_counter stack c e >>= (λ e'. some (record {
      sent = verdict (atol (read stack c.m0_result)) (atol (read stack c.m1_result));
      client = reset_client_states c;
      entries = e';
    }))
    else some (record { sent = []; client = c; entries = e })

-- A request as it leaves: the address, the port and the path.
pub record Datagram : Type 0 where
  pub addr : List ℕ
  pub port : ℕ
  pub path : String

-- `_send`: nothing is sent if the address does not parse or the port is 0. A port is a `uint16_t`.
unfoldable pub send : (List ℕ → Option (List ℕ)) → String → List ℕ → List ℕ → List Datagram
send parse path addr_str port_str =
    let port = pos_part (atol port_str) % 65536 in
    elim (parse addr_str) [
      | none ↦ []
      | some addr ↦ if port == 0 then [] else record { addr = addr; port = port; path = path } ∷ []
    ]

-- `gcoap_req_cmd` calls `_send` once for the request and once more in the test of its result.
unfoldable pub gcoap_req_cmd : (List ℕ → Option (List ℕ)) → List ℕ → Command → List Datagram
unfolding send
gcoap_req_cmd parse m0_addr cmd =
    let addr_str = if cmd.machine == 0 then m0_addr else codes "ff02::1:b1:b1" in
    send parse cmd.path addr_str (codes "5683") ++ send parse cmd.path addr_str (codes "5683")
