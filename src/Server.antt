-- ===== src/Server.antt =====
-- The CoAP server: the request handlers of retro11/coap_handler.c and the functions of
-- retro11/main.c that they call. A handler returns the payload of its response; building the
-- packet around it is gcoap's.
pub mod Bounds
pub mod Ping
use Prim.Native.String.{String}
use text.Mathlib.Text.{◌==◌ as str_eq}
use package.team.Prelude.{ℕ, Option, none, some, List, ◌++◌, if◌then◌else◌}
use package.team.Prelude.Text.{codes, c_str, print_ld}
use package.team.Game.{Game, name_ready, start_game, get_result, winner, looser}

abbrev pub result_tag : List ℕ
result_tag = codes ".re"

abbrev pub name_tag : List ℕ
name_tag = codes ".na"

abbrev pub start_tag : List ℕ
start_tag = codes ".st"

-- What `sprintf (value, "%s%s.%s", machine, tag, text)` writes.
abbrev message : List ℕ → List ℕ → List ℕ → List ℕ
message machine tag text = machine ++ (tag ++ (codes "." ++ text))

-- `value` is left as it was unless a name is ready.
unfoldable pub get_name_of_player : List ℕ → Game → List ℕ → List ℕ
get_name_of_player machine g value = elim g.state [
  | name_ready ↦ message machine name_tag (c_str g.playername)
  | _ ↦ value
]

unfoldable pub start_the_game : List ℕ → Game → Game × List ℕ
start_the_game machine g = (record g { state = start_game }, machine ++ start_tag)

-- `value` is left as it was unless a result is ready.
unfoldable pub get_the_result : List ℕ → Game → List ℕ → List ℕ
get_the_result machine g value = elim g.state [
  | get_result ↦ message machine result_tag (print_ld g.reaction_time)
  | _ ↦ value
]

unfoldable pub set_winner : Game → Game
set_winner g = record g { state = winner }

unfoldable pub set_looser : Game → Game
set_looser g = record g { state = looser }

-- A handler: the game after it, and the payload of the response.
abbrev pub Handler : Type 0
Handler = Game → Game × List ℕ

module _ (machine : List ℕ) where
  unfoldable pub request_name_handler : Handler
  unfolding get_name_of_player
  request_name_handler g = (g, get_name_of_player machine g (codes "unknown"))

  unfoldable pub start_game_handler : Handler
  unfolding start_the_game
  start_game_handler g = start_the_game machine g

  unfoldable pub request_result_handler : Handler
  unfolding get_the_result
  request_result_handler g = (g, get_the_result machine g (codes "result"))

  unfoldable pub set_winner_handler : Handler
  unfolding set_winner
  set_winner_handler g = (set_winner g, codes "winner was displayed")

  unfoldable pub set_looser_handler : Handler
  unfolding set_looser
  set_looser_handler g = (set_looser g, codes "looser was displayed")

  -- The table `coap_resources` as gcoap looks a path up in it. The list of the highscores,
  -- "/se-app/entries", does not touch the game and is left out, and so is gcoap's own core list.
  unfoldable pub coap_resources : String → Option Handler
  unfolding request_name_handler request_result_handler set_looser_handler set_winner_handler
      start_game_handler
  coap_resources path =
      if str_eq path "/request/name"
      then some request_name_handler
      else if str_eq path "/request/result"
      then some request_result_handler
      else if str_eq path "/set/looser"
      then some set_looser_handler
      else if str_eq path "/set/winner"
      then some set_winner_handler
      else if str_eq path "/start/game"
      then some start_game_handler
      else none
