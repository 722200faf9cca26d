-- ===== src/Game/Buttons.antt =====
-- The interrupt of the buttons, `int_multiplexer_receive` of retro11/main.c, beside the game thread
-- (retro11/game.c): when a press reaches the thread.
use team.Prelude.{ℕ, ◌≡◌, refl, Bool, true, false, Option, none, some, List, [], ◌∷◌, if◌then◌else◌}
use team.Game.{GameState, Game, init, name_ready, start_game, get_result, winner, looser, failed}
use team.Game.Run.{
  Phase, enter_name, wait_start, react, wait_verdict, Thread, Event, named, look, pressed,
  timed_out, game_step,
}

-- `msg_t`, as the interrupt fills it.
pub record Msg : Type 0 where
  pub kind : ℕ
  pub value : ℕ

-- The message to the game thread, if there is one.
unfoldable pub int_multiplexer_receive : Bool → ℕ → Option Msg
int_multiplexer_receive enable_btns curr_addr =
    if enable_btns then some (record { kind = curr_addr; value = 1 }) else none

-- The thread on events, with the game as others leave it before each.
unfoldable pub game_run : List (Game × Event) → Thread → Thread
game_run [] t = t
game_run ((g, e) ∷ steps) t = game_run steps (game_step e (record t { game = g })).0

-- The buttons send while a reaction is waited for, and are silent from the reaction to the verdict.
abbrev pub ButtonsMatch : Phase → Bool → Type 0
ButtonsMatch (react start_time) enable_btns = enable_btns ≡ true
ButtonsMatch wait_verdict enable_btns = enable_btns ≡ false
ButtonsMatch _ enable_btns = Unit

Keeps : Game → Phase → Bool → Event → Type 0
Keeps g p b e =
    let next = (game_step e (record { game = g; phase = p; enable_btns = b })).0 in
    ButtonsMatch p b → ButtonsMatch next.phase next.enable_btns

on_start-Keeps :
    (s : GameState) (g : Game) (b : Bool) (now timeout : ℕ)
    → Keeps (record g { state = s }) wait_start b (look now timeout)
unfolding Keeps game_step
on_start-Keeps init g b now timeout h = tt
on_start-Keeps name_ready g b now timeout h = tt
on_start-Keeps start_game g b now timeout h = refl
on_start-Keeps get_result g b now timeout h = tt
on_start-Keeps winner g b now timeout h = tt
on_start-Keeps looser g b now timeout h = tt
on_start-Keeps failed g b now timeout h = tt

on_verdict-Keeps :
    (s : GameState) (g : Game) (b : Bool) (now timeout : ℕ)
    → Keeps (record g { state = s }) wait_verdict b (look now timeout)
unfolding Keeps game_step
on_verdict-Keeps init g b now timeout h = h
on_verdict-Keeps name_ready g b now timeout h = h
on_verdict-Keeps start_game g b now timeout h = h
on_verdict-Keeps get_result g b now timeout h = h
on_verdict-Keeps winner g b now timeout h = tt
on_verdict-Keeps looser g b now timeout h = tt
on_verdict-Keeps failed g b now timeout h = h

game_step-Keeps : (g : Game) (p : Phase) (b : Bool) (e : Event) → Keeps g p b e
unfolding Keeps game_step
game_step-Keeps g enter_name b (named name) h = tt
game_step-Keeps g enter_name b (look now timeout) h = tt
game_step-Keeps g enter_name b (pressed now) h = tt
game_step-Keeps g enter_name b timed_out h = tt
game_step-Keeps g wait_start b (look now timeout) h = on_start-Keeps g.state g b now timeout h
game_step-Keeps g wait_start b (named name) h = tt
game_step-Keeps g wait_start b (pressed now) h = tt
game_step-Keeps g wait_start b timed_out h = tt
game_step-Keeps g (react start) b (named name) h = h
game_step-Keeps g (react start) b (look now timeout) h = h
game_step-Keeps g (react start) b (pressed now) h = refl
game_step-Keeps g (react start) b timed_out h = tt
game_step-Keeps g wait_verdict b (named name) h = h
game_step-Keeps g wait_verdict b (look now timeout) h = on_verdict-Keeps g.state g b now timeout h
game_step-Keeps g wait_verdict b (pressed now) h = h
game_step-Keeps g wait_verdict b timed_out h = h

game_run-ButtonsMatch :
    (steps : List (Game × Event)) (t : Thread)
    → ButtonsMatch t.phase t.enable_btns
    → ButtonsMatch (game_run steps t).phase (game_run steps t).enable_btns
unfolding game_run Keeps
game_run-ButtonsMatch [] t h = h
game_run-ButtonsMatch ((g, e) ∷ steps) t h =
    game_run-ButtonsMatch steps (game_step e (record t { game = g })).0
      (game_step-Keeps g t.phase t.enable_btns e h)

-- Where a press arrives: the interrupt sends its address while the reaction is waited for, and
-- nothing while the verdict is.
abbrev pub Presses : ℕ → Thread → Type 0
Presses curr_addr t =
    ((start_time : ℕ)
      → t.phase ≡ react start_time
      → int_multiplexer_receive t.enable_btns curr_addr
        ≡ some (record { kind = curr_addr; value = 1 }))
    × (t.phase ≡ wait_verdict → int_multiplexer_receive t.enable_btns curr_addr ≡ none)

Presses_lem :
    (curr_addr : ℕ) (t : Thread) → ButtonsMatch t.phase t.enable_btns → Presses curr_addr t
unfolding int_multiplexer_receive
Presses_lem curr_addr t h = (
  λ start_time e. let on : t.enable_btns ≡ true = rw e at h in rw on refl,
  λ e. let off : t.enable_btns ≡ false = rw e at h in rw off refl,
)

-- From a thread that asks for a name, whatever events follow and whatever the others do to the
-- game in between, a button press is sent to the thread while it waits for the reaction, and is
-- not sent while it waits for the verdict.
pub game_run-Presses :
    (steps : List (Game × Event)) (t : Thread) (curr_addr : ℕ)
    → t.phase ≡ enter_name
    → Presses curr_addr (game_run steps t)
game_run-Presses steps t curr_addr e =
    Presses_lem curr_addr (game_run steps t) (game_run-ButtonsMatch steps t (rw e tt))
