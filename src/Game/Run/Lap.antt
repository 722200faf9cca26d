-- ===== src/Game/Run/Lap.antt =====
-- One lap of the game thread.
use team.Prelude.{ℕ, ◌+◌, ◌-◌, ◌%◌, ◌<◌, ◌≡◌, refl, List, [], ◌∷◌, ◌++◌, arith, length}
use team.Prelude.Text.{codes, print_ld}
use team.Game.{GameState, start_game, get_result}
use team.Server.{request_result_handler}
use team.Game.Run.{
  clear, show, draw_s, motor_speed, Thread, enter_name, named, look, pressed, game_step,
}

-- Another thread sets the state of the game.
abbrev pub told : GameState → Thread → Thread
told s t = record t { game = record g { state = s } }
  where
    open t use {game as g}

module _ (name : List ℕ) (start timeout elapsed : ℕ) (t : Thread) where
  -- The thread after its name is entered, after it was started, and after the button.
  abbrev pub named_thread : Thread
  named_thread = (game_step (named name) t).0

  abbrev pub started : Thread
  started = (game_step (look start timeout) (told start_game named_thread)).0

  abbrev pub reacted : Thread
  reacted = (game_step (pressed ((start + elapsed) % 4294967296)) started).0

  -- A thread that asks for a name waits, once it has one, until it is started, and the button then
  -- ends its lap: it reports exactly the time that has passed since its start, also when the 32-bit
  -- clock wraps in between, and keeps the name; its server answers a request for the result with
  -- the time as `%ld` prints it, and the same number is shown, in microseconds, after the motors are
  -- switched off.
  pub reaction_lap :
      (machine : List ℕ) (before : ℕ)
      → t.phase ≡ enter_name
      → start < 4294967296
      → elapsed < 4294967296
      → (game_step (look before timeout) named_thread ≡ (named_thread, []))
        × (reacted.game ≡ record { state = get_result; reaction_time = elapsed; playername = name })
        × ((request_result_handler machine reacted.game).1
            ≡ machine ++ (codes ".re." ++ print_ld elapsed))
        × ((game_step (pressed ((start + elapsed) % 4294967296)) started).1
            ≡ motor_speed 0 0
              ∷ clear
              ∷ draw_s 11 5 (codes "YOU REACTED IN:") 15
              ∷ draw_s 11 15
                  (print_ld elapsed ++ codes "us")
                  (length (print_ld elapsed ++ codes "us"))
              ∷ show
              ∷ [])
  unfolding game_step request_result_handler
  reaction_lap machine before asks hs he =
      let wrapped : ((start + elapsed) % 4294967296 + 4294967296 - start) % 4294967296 ≡ elapsed =
        omega arith in
      rw asks (refl, cc, rw wrapped refl, rw wrapped)
