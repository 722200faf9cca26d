-- ===== src/Game/Run.antt =====
-- The thread of the game, `game_run` of retro11/game.c, cut at the points where it waits: for the
-- name, for the start, for a button or the timeout, and for the verdict. The other threads act
-- between two cuts, on the shared state only. The calls of the devices are recorded in order.
pub mod Lap
pub mod Named
use package.team.Prelude.{ℕ, ◌+◌, ◌-◌, ◌%◌, Bool, true, false, List, [], ◌∷◌, ◌++◌, length}
use package.team.Prelude.Text.{codes, c_str, print_ld}
use package.team.Game.{
  GameState, Game, init, name_ready, start_game, get_result, winner, looser, failed,
}

-- What the thread asks of the devices and of the client.
pub data Act : Type 0 where
  clear show : Act
  draw_s : ℕ → ℕ → List ℕ → ℕ → Act
  select_button : ℕ → Act
  motor_speed : ℕ → ℕ → Act
  reset_clients : Act
  winner_animation looser_animation : Act

-- Where the thread waits. While it waits for a button it knows when the motors were started.
pub data Phase : Type 0 where
  enter_name wait_start : Phase
  react : ℕ → Phase
  wait_verdict : Phase

-- The thread with what it shares: the game, and `enableBtns` of retro11/main.c.
pub record Thread : Type 0 where
  pub game : Game
  pub phase : Phase
  pub enable_btns : Bool

abbrev pub state_of : Thread → GameState
state_of t = t.game.state

-- What ends a wait: the name is complete, the state is looked at (with the clock and the random
-- timeout that are then read), a message comes at a time, or the timeout passes.
pub data Event : Type 0 where
  named : List ℕ → Event
  look : (now motor_timeout : ℕ) → Event
  pressed : (now : ℕ) → Event
  timed_out : Event

-- A screen with one line of text.
abbrev screen : ℕ → ℕ → List ℕ → ℕ → List Act
screen x y s n = clear ∷ draw_s x y s n ∷ show ∷ []

abbrev append_acts : List Act → List Act → List Act
append_acts [] b = b
append_acts (a ∷ s) b = a ∷ append_acts s b

-- The top of the loop.
next_round : Thread → Thread
next_round t = record t { game = record game { state = init }; phase = enter_name }
  where
    open t use {game}

-- After `get_player_name`.
on_named : List ℕ → Thread → Thread × List Act
on_named name t = (
  record t { game = record game { state = name_ready; playername = name }; phase = wait_start },
  screen 11 28 (codes "WAITING FOR SERVER") 18,
)
  where
    open t use {game}

-- The wait for START_GAME, and the start of the motors after it. "GO" is drawn with n = 18.
on_start : ℕ → ℕ → Thread → Thread × List Act
on_start now motor_timeout t = elim (state_of t) [
  | start_game ↦ (
    record t { phase = react now; enable_btns = true },
    append_acts (screen 11 28 (codes "GO") 18)
        (select_button 0 ∷ motor_speed 200 motor_timeout ∷ []),
  )
  | _ ↦ (t, [])
]

-- A button in time. The clock and the difference are `uint32_t`.
on_pressed : ℕ → ℕ → Thread → Thread × List Act
on_pressed start_time now t =
    let reaction_time = (now + 4294967296 - start_time) % 4294967296 in
    let number = print_ld reaction_time ++ codes "us" in
    (
      record t {
        game = record game { state = get_result; reaction_time = reaction_time };
        phase = wait_verdict;
        enable_btns = false;
      },
      motor_speed 0 0
          ∷ clear
          ∷ draw_s 11 5 (codes "YOU REACTED IN:") 15
          ∷ draw_s 11 15 number (length number)
          ∷ show
          ∷ [],
    )
  where
    open t use {game}

-- No button in time: the state is FAILED only until the loop begins again.
on_timed_out : Thread → Thread × List Act
unfolding next_round
on_timed_out t = (
  next_round (record t { game = record game { state = failed } }),
  motor_speed 0 0 ∷ reset_clients ∷ [],
)
  where
    open t use {game}

-- The wait for the verdict, and its animation.
on_verdict : Thread → Thread × List Act
unfolding next_round
on_verdict t =
    let name = c_str t.game.playername in
    let shown = screen 11 15 name (length name) in
    elim (state_of t) [
      | winner ↦ (next_round t, append_acts shown (winner_animation ∷ []))
      | looser ↦ (next_round t, append_acts shown (looser_animation ∷ []))
      | _ ↦ (t, [])
    ]

-- An event that does not end the wait of the phase leaves the thread where it is.
dispatch : Phase → Event → Thread → Thread × List Act
unfolding on_named on_start on_pressed on_timed_out on_verdict
dispatch enter_name (named name) t = on_named name t
dispatch wait_start (look now motor_timeout) t = on_start now motor_timeout t
dispatch (react start_time) (pressed now) t = on_pressed start_time now t
dispatch (react start_time) timed_out t = on_timed_out t
dispatch wait_verdict (look now motor_timeout) t = on_verdict t
dispatch _ _ t = (t, [])

-- One segment of `game_run`.
unfoldable pub game_step : Event → Thread → Thread × List Act
unfolding dispatch
game_step e t = dispatch t.phase e t

-- The entry of `game_run`, on the global that is zero at the start.
unfoldable pub game_entry : Thread
unfolding next_round
game_entry = next_round (record {
  game = record { state = init; reaction_time = 0; playername = [] };
  phase = enter_name;
  enable_btns = false;
})
