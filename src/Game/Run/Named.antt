-- ===== src/Game/Run/Named.antt =====
-- The name that a game thread (retro11/game.c) has ready is never empty.
use team.Prelude.{ℕ, ◌≢◌, Bool, List, []}
use team.Prelude.Text.{c_str}
use team.Game.{GameState, Game, init, name_ready, start_game, get_result, winner, looser, failed}
use team.Game.Run.{
  Phase, enter_name, wait_start, react, wait_verdict, Thread, Event, named, look, pressed,
  timed_out, game_step,
}

-- A name that is ready is not empty.
abbrev pub HasName : GameState → List ℕ → Type 0
HasName name_ready name = c_str name ≢ []
HasName _ name = Unit

abbrev pub IsNamed : Thread → Type 0
IsNamed t = HasName t.game.state t.game.playername

-- A name that is entered is not empty.
abbrev pub IsEntry : Event → Type 0
IsEntry (named name) = c_str name ≢ []
IsEntry _ = Unit

unfoldable pub StepNamed : Game → Phase → Bool → Event → Type 0
StepNamed g p b e =
    IsEntry e
    → HasName g.state g.playername
    → IsNamed (game_step e (record { game = g; phase = p; enable_btns = b })).0

on_start-StepNamed :
    (s : GameState) (g : Game) (b : Bool) (now timeout : ℕ)
    → StepNamed (record g { state = s }) wait_start b (look now timeout)
unfolding StepNamed game_step
on_start-StepNamed init g b now timeout x h = h
on_start-StepNamed name_ready g b now timeout x h = h
on_start-StepNamed start_game g b now timeout x h = h
on_start-StepNamed get_result g b now timeout x h = h
on_start-StepNamed winner g b now timeout x h = h
on_start-StepNamed looser g b now timeout x h = h
on_start-StepNamed failed g b now timeout x h = h

on_verdict-StepNamed :
    (s : GameState) (g : Game) (b : Bool) (now timeout : ℕ)
    → StepNamed (record g { state = s }) wait_verdict b (look now timeout)
unfolding StepNamed game_step
on_verdict-StepNamed init g b now timeout x h = h
on_verdict-StepNamed name_ready g b now timeout x h = h
on_verdict-StepNamed start_game g b now timeout x h = h
on_verdict-StepNamed get_result g b now timeout x h = h
on_verdict-StepNamed winner g b now timeout x h = tt
on_verdict-StepNamed looser g b now timeout x h = tt
on_verdict-StepNamed failed g b now timeout x h = h

pub game_step-StepNamed : (g : Game) (p : Phase) (b : Bool) (e : Event) → StepNamed g p b e
unfolding StepNamed game_step
game_step-StepNamed g enter_name b (named name) x h = x
game_step-StepNamed g wait_start b (look now timeout) x h =
    on_start-StepNamed g.state g b now timeout x h
game_step-StepNamed g (react start) b (pressed now) x h = tt
game_step-StepNamed g (react start) b timed_out x h = tt
game_step-StepNamed g wait_verdict b (look now timeout) x h =
    on_verdict-StepNamed g.state g b now timeout x h
game_step-StepNamed g enter_name b (look now timeout) x h = h
game_step-StepNamed g enter_name b (pressed now) x h = h
game_step-StepNamed g enter_name b timed_out x h = h
game_step-StepNamed g wait_start b (named name) x h = h
game_step-StepNamed g wait_start b (pressed now) x h = h
game_step-StepNamed g wait_start b timed_out x h = h
game_step-StepNamed g (react start) b (named name) x h = h
game_step-StepNamed g (react start) b (look now timeout) x h = h
game_step-StepNamed g wait_verdict b (named name) x h = h
game_step-StepNamed g wait_verdict b (pressed now) x h = h
game_step-StepNamed g wait_verdict b timed_out x h = h
