-- ===== src/System/Names.antt =====
-- Names from their entry (retro11/game.c) over the server (retro11/coap_handler.c) to the client
-- (retro11/coap_client.c).
use Prim.Native.String.{String}
use text.Mathlib.Text.{◌==◌ as str_eq}
use team.Prelude.{
  ℕ, ◌==◌, Bool-cases, inl, inr, ◌≢◌, ◌<◌, ◌≡◌, Bool, true, false, Option, none, some, List, [],
  ◌∷◌, length, get_elem?-lt, arith, if◌then◌else◌,
}
use team.Prelude.Text.{c_str}
use team.Game.{Game, name_ready}
use team.Game.Name.{get_player_name, done}
use team.Game.Name.Correct.{get_player_name_safe, c_str-nonempty}
use team.Game.Run.{Thread, Event, named, look, pressed, timed_out, game_step, game_entry}
use team.Game.Run.Named.{HasName, IsNamed, IsEntry, game_step-StepNamed}
use team.Server.{
  Handler, coap_resources, request_name_handler, request_result_handler, set_winner_handler,
  set_looser_handler, start_game_handler,
}
use team.Client.{Client, ended, set_name}
use team.Client.Payload.{machine_id}
use team.Client.Poll.{Command}
use team.System.{serve, obey}
use team.System.Exchange.{answer, when_room, name_exchange}

-- A name comes from `get_player_name`, on the 17 bytes of `playername`.
abbrev pub IsTyped : Event → Type 0
IsTyped (named name) =
    (actions : List ℕ) × (before : List ℕ) × (length before ≡ 17)
    × (get_player_name actions before ≡ done name)
IsTyped _ = Unit

unfoldable pub AllTyped : List (List Command × Event) → Type 0
AllTyped [] = Unit
AllTyped ((cmds, e) ∷ steps) = IsTyped e × AllTyped steps

IsTyped-IsEntry : (e : Event) → IsTyped e → IsEntry e
IsTyped-IsEntry (named name) (actions, before, size, ends) =
    let (last, kept) = get_elem?-lt before 15 (omega (arith, size)) in
    let keeps = get_player_name_safe last actions before size kept in
    c_str-nonempty last name (rw ends at keeps)
IsTyped-IsEntry (look now timeout) h = tt
IsTyped-IsEntry (pressed now) h = tt
IsTyped-IsEntry timed_out h = tt

-- A handler leaves no empty name ready.
Preserves : Option Handler → Type 0
Preserves none = Unit
Preserves (some h) =
    (g : Game) → HasName g.state g.playername → HasName (h g).0.state (h g).0.playername

if-Preserves :
    (b : Bool) (o o' : Option Handler)
    → Preserves o
    → Preserves o'
    → Preserves (if b then o else o')
if-Preserves true o o' p p' = p
if-Preserves false o o' p p' = p'

module _ (machine : ℕ) where
  coap_resources-Preserves : (path : String) → Preserves (coap_resources (machine_id machine) path)
  unfolding coap_resources request_name_handler request_result_handler set_winner_handler
      set_looser_handler start_game_handler Preserves
  coap_resources-Preserves path =
      let id = machine_id machine in
      let or_start : Option Handler =
        if str_eq path "/start/game" then some (start_game_handler id) else none in
      let or_winner : Option Handler =
        if str_eq path "/set/winner" then some (set_winner_handler id) else or_start in
      let or_looser : Option Handler =
        if str_eq path "/set/looser" then some (set_looser_handler id) else or_winner in
      let or_result : Option Handler =
        if str_eq path "/request/result" then some (request_result_handler id) else or_looser in
      if-Preserves (str_eq path "/request/name") (some (request_name_handler id)) or_result
        (λ g h. h)
        (if-Preserves (str_eq path "/request/result") (some (request_result_handler id)) or_looser
          (λ g h. h)
          (if-Preserves (str_eq path "/set/looser") (some (set_looser_handler id)) or_winner
            (λ g h. tt)
            (if-Preserves (str_eq path "/set/winner") (some (set_winner_handler id)) or_start
              (λ g h. tt)
              (if-Preserves (str_eq path "/start/game") (some (start_game_handler id)) none
                (λ g h. tt) tt))))

  -- The game thread on events, with the commands that reach its server before each.
  unfoldable pub served_run : List (List Command × Event) → Thread → Thread
  served_run [] t = t
  served_run ((cmds, e) ∷ steps) t = served_run steps (game_step e (obey machine cmds t)).0

  served-Preserves :
      (o : Option Handler) (t : Thread)
      → Preserves o
      → IsNamed t
      → IsNamed (elim o [ none ↦ t | some h ↦ record t { game = (h t.game).0 } ])
  unfolding Preserves
  served-Preserves none t p n = n
  served-Preserves (some h) t p n = p t.game n

  serve-IsNamed : (cmd : Command) (t : Thread) → IsNamed t → IsNamed (serve machine cmd t)
  serve-IsNamed cmd t n = elim (Bool-cases (cmd.machine == machine)) [
    | inl here ↦ rw here (
        served-Preserves (coap_resources (machine_id machine) cmd.path) t
          (coap_resources-Preserves cmd.path) n)
    | inr away ↦ rw away n
  ]

  obey-IsNamed : (cmds : List Command) (t : Thread) → IsNamed t → IsNamed (obey machine cmds t)
  unfolding obey
  obey-IsNamed [] t n = n
  obey-IsNamed (cmd ∷ cmds) t n = obey-IsNamed cmds (serve machine cmd t) (serve-IsNamed cmd t n)

  step-IsNamed : (e : Event) (t : Thread) → IsEntry e → IsNamed t → IsNamed (game_step e t).0
  unfolding team.Game.Run.Named.StepNamed
  step-IsNamed e t x n = game_step-StepNamed t.game t.phase t.enable_btns e x n

  served_run-IsNamed :
      (steps : List (List Command × Event)) (t : Thread)
      → AllTyped steps
      → IsNamed t
      → IsNamed (served_run steps t)
  unfolding served_run AllTyped
  served_run-IsNamed [] t h n = n
  served_run-IsNamed ((cmds, e) ∷ steps) t h n =
      served_run-IsNamed steps (game_step e (obey machine cmds t)).0 h.1
        (step-IsNamed e (obey machine cmds t) (IsTyped-IsEntry e h.0) (obey-IsNamed cmds t n))

  ready-nonempty :
      (t : Thread) → IsNamed t → t.game.state ≡ name_ready → c_str t.game.playername ≢ []
  ready-nonempty t n ready = rw ready at n

  -- From the start of a machine, after any events of its game thread, with names that
  -- `get_player_name` returns, and any commands that its server answers in between: when the thread
  -- has a name ready, the name is not empty, and the client reads exactly this name from the
  -- server's response, provided that a byte is free behind both arrays that the client's handler
  -- terminates; where one is not free the response is undefined.
  pub entered_name-exchange :
      (behind : ℕ → Bool) (steps : List (List Command × Event)) (c : Client)
      → machine < 2
      → AllTyped steps
      → (served_run steps game_entry).game.state ≡ name_ready
      → let g = (served_run steps game_entry).game in
        (c_str g.playername ≢ [])
        × (answer behind c (request_name_handler (machine_id machine) g).1
            ≡ when_room behind
                (length (c_str g.playername))
                (set_name (ended (c_str g.playername)) machine c))
  unfolding game_entry
  entered_name-exchange behind steps c lt typed ready =
      let t = served_run steps game_entry in
      let ne = ready-nonempty t (served_run-IsNamed steps game_entry typed tt) ready in
      (ne, (name_exchange behind machine t.game c lt).0 ready ne)
