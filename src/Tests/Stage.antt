-- ===== src/Tests/Stage.antt =====
-- The game thread's surroundings: its buttons, its animations, and a request to start.
use team.Prelude.{
  ℕ, ◌+◌, ◌-◌, ◌*◌, get_elem?, ◌≡◌, refl, true, false, List, [], ◌∷◌, ◌++◌, some, arith, replicate,
}
use team.Prelude.Text.{codes}
use team.Game.{Game, init, start_game}
use team.Game.Run.{Thread, Event, enter_name, named, look, pressed, timed_out}
use team.Game.Name.{Entry, alphabet}
use team.Game.Name.Correct.{Inv}
use team.Game.Name.Screen.{draw_entry, draw_entry-Shows}
use team.Font.{font_5x7_col_char}
use team.Lcd.{Ram}
use team.Lcd.Letters.{letter_bit, within}
use team.Game.Buttons.{game_run, Presses, game_run-Presses}
use team.Game.Motors.{wanted_speed, motor_run, motor_run-wanted_speed}
use team.Game.Animation.{green, red, play_winner_animation, play_looser_animation}
use team.Game.Animation.Blink.{Blinks, animations-Blinks}
use team.Neopixel.{Color, Neopixel}
use team.Prelude.Int.{pos}
use team.Motor.{Dcmotor}
use team.Boot.{
  Pins, Answers, Started, Board, Boot, going, main, boot_pwm, boot_motor_a, boot_motor_b,
  boot_controller, boot_stripe, boot_buttons, boot_display, light, show_stripe, threads_of,
  coap_server, game_thread,
}
use team.Boot.Lights.{Ends, Booted, main-Booted}
use team.Client.{Client, literal, has_name}
use team.Server.Ping.{Errno}

abbrev white : Color
white = record { r = 8; g = 8; b = 8 }

abbrev stripe : Neopixel
stripe = record { led_count = 6; data_out = 3; pixels = replicate 6 white }

animations-Blinks_example :
    Blinks green stripe (play_winner_animation stripe)
    × Blinks red stripe (play_looser_animation stripe)
animations-Blinks_example = animations-Blinks stripe (omega arith) (omega arith) (omega arith)

abbrev a_game : Game
a_game = record { state = start_game; reaction_time = 0; playername = codes "ADA" }

abbrev asking : Thread
asking = record { game = a_game; phase = enter_name; enable_btns = false }

abbrev some_steps : List (Game × Event)
some_steps = (a_game, named (codes "ADA")) ∷ (a_game, look 5 20) ∷ (a_game, pressed 90) ∷ []

game_run-Presses_example : Presses 2 (game_run some_steps asking)
game_run-Presses_example = game_run-Presses some_steps asking 2 refl

motor_run-wanted_speed_example :
    (motor_run some_steps asking 0).1 ≡ wanted_speed (motor_run some_steps asking 0).0.phase
motor_run-wanted_speed_example = motor_run-wanted_speed some_steps asking refl

-- After a timeout the buttons are still on.
after_timeout :
    (game_run
      ((a_game, named (codes "ADA")) ∷ (a_game, look 5 20) ∷ (a_game, timed_out) ∷ [])
      asking).enable_btns
    ≡ true
unfolding game_run team.Game.Run.game_step
after_timeout = refl

abbrev a_client : Client
a_client = record {
  m0_name = literal [];
  m1_name = literal [];
  m0_result = literal [];
  m1_result = literal [];
  m0_state = has_name;
  m1_state = has_name;
}

abbrev some_pins : Pins
some_pins = record {
  motor_pwm = 0;
  motor_a_dir_a = 13;
  motor_a_dir_b = 18;
  motor_b_dir_a = 28;
  motor_b_dir_b = 19;
  recv = 22;
  addr_a = 17;
  addr_b = 16;
  addr_c = 23;
  led_stripe = 35;
}

abbrev all_well : Answers
all_well = record {
  act_freq = pos 1000;
  gpio_init = λ pin. pos 0;
  receive_init = pos 0;
  ctrl_pid = pos 4;
  display_found = true;
}

abbrev no_motor : Dcmotor
no_motor = record { pwm = 0; channel = 0; freq = 0; res = 0; dir_a = 0; dir_b = 0 }

abbrev black : Color
black = record { r = 0; g = 0; b = 0 }

abbrev off_board : Board
off_board = record {
  motor_a = no_motor;
  motor_b = no_motor;
  motor_controller = record { motor_a = no_motor; motor_b = no_motor; ctrl_pid = pos 0 };
  led_stripe = record { led_count = 0; data_out = 0; pixels = replicate 128 black };
  multiplexer = record {
    receive = 0;
    addr_a = 0;
    addr_b = 0;
    addr_c = 0;
    curr_addr = 0;
    with_int = pos 0;
  };
  enable_btns = false;
  threads = [];
}

abbrev threads_after : Boot → List Started
threads_after (going b) = b.threads
threads_after _ = []

-- Machine 1 boots without the client.
machine_1 : threads_after (main some_pins all_well false off_board) ≡ coap_server ∷ game_thread ∷ []
unfolding main boot_pwm boot_motor_a boot_motor_b boot_controller boot_stripe boot_buttons
    boot_display light show_stripe team.Motor.dcmotor_init team.Motor.motor_controller_init
    team.Neopixel.neopixel_init team.Multiplexer.multiplexer_init_int team.Lcd.Panel.lcd_spi_init
    team.Neopixel.neopixel_set_pixel_color team.Neopixel.neopixel_show
machine_1 = refl

main-Booted_example : Ends (Booted (threads_of true)) (main some_pins all_well true off_board)
main-Booted_example = main-Booted some_pins all_well true off_board refl

abbrev some_errno : Errno
some_errno = record {
  eafnosupport = 97;
  ehostunreach = 113;
  einval = 22;
  enomem = 12;
  enotconn = 107;
}

-- Two letters are chosen, and the player is at the third of the alphabet.
abbrev in_entry : Entry
in_entry = record { curr_idx = 2; curr_char_idx = 3; name = codes "AB" ++ replicate 15 0 }

in_entry-Inv : Inv 0 in_entry
in_entry-Inv = record {
  open_name = omega arith;
  in_alphabet = omega arith;
  size = refl;
  chosen = refl;
  kept = refl;
}

abbrev dark : Ram
dark x y = 0

draw_entry-Shows_example :
    (ram' : Ram) × (draw_entry in_entry dark ≡ some ram')
    × (letter : ℕ) × (get_elem? alphabet 3 ≡ some letter)
    × (character : List ℕ) × (font_5x7_col_char letter ≡ some character)
    × ((a b : ℕ)
        → within (10 + 2 * 6) 14 5 8 a b ≡ true
        → ram' a b ≡ letter_bit character (a - (10 + 2 * 6)) (b - 14))
draw_entry-Shows_example = draw_entry-Shows 0 in_entry dark in_entry-Inv
