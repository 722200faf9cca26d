-- ===== src/Game/Motors.antt =====
-- The motors beside the game thread (retro11/game.c): which speed it has set last.
use team.Prelude.{ℕ, ◌≡◌, refl, ap, ◌∙◌, Bool, List, [], ◌∷◌}
use team.Game.{GameState, Game, init, name_ready, start_game, get_result, winner, looser, failed}
use team.Game.Run.{
  Phase, enter_name, wait_start, react, wait_verdict, Thread, Event, named, look, pressed,
  timed_out, Act, motor_speed, game_step,
}

-- The speed after some calls.
abbrev pub speed_after : List Act → ℕ → ℕ
speed_after [] v = v
speed_after (motor_speed speed timeout ∷ acts) v = speed_after acts speed
speed_after (_ ∷ acts) v = speed_after acts v

-- The thread and the speed, on events, with the game as others leave it before each.
unfoldable pub motor_run : List (Game × Event) → Thread → ℕ → Thread × ℕ
motor_run [] t v = (t, v)
motor_run ((g, e) ∷ steps) t v =
    let (t', acts) = game_step e (record t { game = g }) in motor_run steps t' (speed_after acts v)

-- The speed that a phase asks for.
abbrev pub wanted_speed : Phase → ℕ
wanted_speed (react start_time) = 200
wanted_speed _ = 0

Keeps : Game → Phase → Bool → Event → Type 0
Keeps g p b e =
    let (t, acts) = game_step e (record { game = g; phase = p; enable_btns = b }) in
    speed_after acts (wanted_speed p) ≡ wanted_speed t.phase

on_start-Keeps :
    (s : GameState) (g : Game) (b : Bool) (now timeout : ℕ)
    → Keeps (record g { state = s }) wait_start b (look now timeout)
unfolding Keeps game_step
on_start-Keeps init g b now timeout = refl
on_start-Keeps name_ready g b now timeout = refl
on_start-Keeps start_game g b now timeout = refl
on_start-Keeps get_result g b now timeout = refl
on_start-Keeps winner g b now timeout = refl
on_start-Keeps looser g b now timeout = refl
on_start-Keeps failed g b now timeout = refl

on_verdict-Keeps :
    (s : GameState) (g : Game) (b : Bool) (now timeout : ℕ)
    → Keeps (record g { state = s }) wait_verdict b (look now timeout)
unfolding Keeps game_step
on_verdict-Keeps init g b now timeout = refl
on_verdict-Keeps name_ready g b now timeout = refl
on_verdict-Keeps start_game g b now timeout = refl
on_verdict-Keeps get_result g b now timeout = refl
on_verdict-Keeps winner g b now timeout = refl
on_verdict-Keeps looser g b now timeout = refl
on_verdict-Keeps failed g b now timeout = refl

game_step-Keeps : (g : Game) (p : Phase) (b : Bool) (e : Event) → Keeps g p b e
unfolding Keeps game_step
game_step-Keeps g wait_start b (look now timeout) = on_start-Keeps g.state g b now timeout
game_step-Keeps g wait_verdict b (look now timeout) = on_verdict-Keeps g.state g b now timeout
game_step-Keeps g enter_name b (named name) = refl
game_step-Keeps g enter_name b (look now timeout) = refl
game_step-Keeps g enter_name b (pressed now) = refl
game_step-Keeps g enter_name b timed_out = refl
game_step-Keeps g wait_start b (named name) = refl
game_step-Keeps g wait_start b (pressed now) = refl
game_step-Keeps g wait_start b timed_out = refl
game_step-Keeps g (react start) b (named name) = refl
game_step-Keeps g (react start) b (look now timeout) = refl
game_step-Keeps g (react start) b (pressed now) = refl
game_step-Keeps g (react start) b timed_out = refl
game_step-Keeps g wait_verdict b (named name) = refl
game_step-Keeps g wait_verdict b (pressed now) = refl
game_step-Keeps g wait_verdict b timed_out = refl

drive_lem :
    (steps : List (Game × Event)) (t : Thread) (v : ℕ)
    → v ≡ wanted_speed t.phase
    → (motor_run steps t v).1 ≡ wanted_speed (motor_run steps t v).0.phase
unfolding motor_run Keeps
drive_lem [] t v h = h
drive_lem ((g, e) ∷ steps) t v h =
    let (t', acts) = game_step e (record t { game = g }) in
    let kept : speed_after acts v ≡ wanted_speed t'.phase =
      ap (λ (w : ℕ). speed_after acts w) h ∙ game_step-Keeps g t.phase t.enable_btns e in
    drive_lem steps t' (speed_after acts v) kept

-- From a thread that asks for a name with the motors off, whatever events follow and whatever the
-- others do to the game in between, the speed that the thread has set last is 200 exactly while it
-- waits for a reaction, so the motors run until the press, and 0 in every other wait.
pub motor_run-wanted_speed :
    (steps : List (Game × Event)) (t : Thread)
    → t.phase ≡ enter_name
    → (motor_run steps t 0).1 ≡ wanted_speed (motor_run steps t 0).0.phase
motor_run-wanted_speed steps t asks = drive_lem steps t 0 (rw asks refl)
