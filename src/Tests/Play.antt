-- ===== src/Tests/Play.antt =====
-- The game, its server, its client and both together.
use team.Prelude.{
  none, not, ◌==◌, if◌then◌else◌, ℕ, ◌+◌, ◌%◌, ◌<◌, ◌≤◌, ◌≡◌, ◌≢◌, refl, Bool, true, false, some,
  List, [], ◌∷◌, length, arith, replicate, ◌++◌, leb, ◌>>=◌,
}
use team.Prelude.Int.{ltb_ℤ}
use team.Prelude.Text.{codes, c_str, print_ld, atol}
use team.Game.{Game, init, name_ready, get_result}
use team.Game.Name.{done, Entry, press, scan, get_player_name}
use team.Game.Name.Correct.{Keeps, confirms, returns, get_player_name_safe, returns-get_player_name}
use team.Game.Name.Scan.{scan_first}
use team.Game.Run.{
  named, game_entry, Thread, enter_name, wait_verdict, look, pressed, game_step, clear, show,
  draw_s, motor_speed, Event, winner_animation, looser_animation,
}
use team.Game.Run.Lap.{named_thread, started, reacted, reaction_lap}
use team.Server.{coap_resources, request_name_handler, request_result_handler}
use team.Client.{Client, rcvd_result, ended, set_name, set_result}
use team.Client.Entries.{
  Entries, IsValid, Holds, no_entries, no_entries-IsValid, set_entry_counter,
  set_entry_counter-IsValid,
}
use team.Client.Payload.{machine_id}
use team.Client.Poll.{Command, commands, Round, client_round}
use team.System.{obey}
use team.System.Exchange.{answer, when_room, name_exchange, result_exchange}
use team.System.Names.{AllTyped, served_run, entered_name-exchange}
use team.System.Told.{IsWaiting, Shows, verdict-Shows}

abbrev intact : List ℕ → List ℕ
intact s = s

-- The client with two results.
abbrev client_with : ℕ → ℕ → Client
client_with t0 t1 = record {
  m0_name = ended (codes "ADA");
  m1_name = ended (codes "BOB");
  m0_result = ended (print_ld t0);
  m1_result = ended (print_ld t1);
  m0_state = rcvd_result;
  m1_state = rcvd_result;
}

abbrev finished : ℕ → Thread
finished t = record {
  game = record { state = get_result; reaction_time = t; playername = codes "ADA" };
  phase = wait_verdict;
  enable_btns = false;
}

finished-IsWaiting : (t : ℕ) → IsWaiting (finished t)
finished-IsWaiting t = record { waits = refl; has_result = refl }

verdict-Shows_example :
    let r0 = atol (print_ld 250) in
    let r1 = atol (print_ld 300) in
    (r : Round) × (client_round intact (client_with 250 300) no_entries ≡ some r)
    × (ltb_ℤ r0 r1 ≡ true
        → Shows 5 9 winner_animation (finished 250) (obey 0 r.sent (finished 250))
          × Shows 5 9 looser_animation (finished 300) (obey 1 r.sent (finished 300)))
    × (ltb_ℤ r1 r0 ≡ true
        → Shows 5 9 looser_animation (finished 250) (obey 0 r.sent (finished 250))
          × Shows 5 9 winner_animation (finished 300) (obey 1 r.sent (finished 300)))
    × (r0 ≡ r1
        → (obey 0 r.sent (finished 250) ≡ finished 250)
          × (obey 1 r.sent (finished 300) ≡ finished 300))
verdict-Shows_example =
    verdict-Shows intact (client_with 250 300) no_entries (finished 250) (finished 300) 5 9 refl
      refl no_entries-IsValid (finished-IsWaiting 250) (finished-IsWaiting 300)

-- The later call has overwritten the array of the earlier one.
abbrev overwritten : List ℕ → List ℕ
overwritten s = print_ld 300

abbrev ready : Game
ready = record { state = name_ready; reaction_time = 0; playername = codes "ADA" }

-- A compiler that rounds arrays up to eight bytes leaves a byte free behind most of them.
abbrev rounded : ℕ → Bool
rounded n = not (n % 8 == 0)

name_exchange_example :
    let result = answer rounded (client_with 1 2) (request_name_handler (machine_id 1) ready).1 in
    (ready.state ≡ name_ready
      → c_str ready.playername ≢ []
      → result
        ≡ when_room rounded
            (length (c_str ready.playername))
            (set_name (ended (c_str ready.playername)) 1 (client_with 1 2)))
    × (ready.state ≡ name_ready → c_str ready.playername ≡ [] → result ≡ none)
    × (ready.state ≢ name_ready → result ≡ (if rounded 4 then some (client_with 1 2) else none))
name_exchange_example = name_exchange rounded 1 ready (client_with 1 2) (omega arith)

result_exchange_example :
    let g = (finished 4321).game in
    let result = answer rounded (client_with 1 2) (request_result_handler (machine_id 0) g).1 in
    (g.state ≡ get_result
      → result
        ≡ when_room rounded
            (length (print_ld 4321))
            (set_result (ended (print_ld 4321)) 0 (client_with 1 2)))
    × (g.state ≢ get_result → result ≡ (if rounded 3 then some (client_with 1 2) else none))
result_exchange_example =
    result_exchange rounded 0 (finished 4321).game (client_with 1 2) (omega arith)

abbrev fresh : Thread
fresh = record {
  game = record { state = init; reaction_time = 0; playername = [] };
  phase = enter_name;
  enable_btns = false;
}

reaction_lap_example :
    (game_step (look 7 5000) (named_thread (codes "ADA") 4294967290 5000 20 fresh)
      ≡ (named_thread (codes "ADA") 4294967290 5000 20 fresh, []))
    × ((reacted (codes "ADA") 4294967290 5000 20 fresh).game
        ≡ record { state = get_result; reaction_time = 20; playername = codes "ADA" })
    × ((request_result_handler (codes "M0") (reacted (codes "ADA") 4294967290 5000 20 fresh).game).1
        ≡ codes "M0" ++ (codes ".re." ++ print_ld 20))
    × ((game_step
          (pressed ((4294967290 + 20) % 4294967296))
          (started (codes "ADA") 4294967290 5000 20 fresh)).1
        ≡ motor_speed 0 0
          ∷ clear
          ∷ draw_s 11 5 (codes "YOU REACTED IN:") 15
          ∷ draw_s 11 15 (print_ld 20 ++ codes "us") (length (print_ld 20 ++ codes "us"))
          ∷ show
          ∷ [])
reaction_lap_example =
    reaction_lap (codes "ADA") 4294967290 5000 20 fresh (codes "M0") 7 refl (omega arith)
      (omega arith)

abbrev empty_name : List ℕ
empty_name = replicate 17 0

abbrev some_presses : List ℕ
some_presses = 1 ∷ 0 ∷ 2 ∷ 2 ∷ 0 ∷ 7 ∷ []

get_player_name_safe_example : Keeps 0 (get_player_name some_presses empty_name)
get_player_name_safe_example = get_player_name_safe 0 some_presses empty_name refl refl

returns-get_player_name_example :
    returns (get_player_name some_presses empty_name) ≡ leb 15 (confirms some_presses)
returns-get_player_name_example = returns-get_player_name 0 some_presses empty_name refl refl

fifteen_letters :
    get_player_name (1 ∷ replicate 15 0) empty_name
    ≡ done (b'A' ∷ (replicate 14 b'_' ++ (0 ∷ 0 ∷ [])))
unfolding get_player_name
fifteen_letters = refl

-- A player who takes a letter fifteen times, and a server that was asked before.
abbrev typed : List (List Command × Event)
typed =
    (commands "/request/name" "/request/name", named (b'A' ∷ (replicate 14 b'_' ++ (0 ∷ 0 ∷ []))))
    ∷ (commands "/request/result" "/request/result", look 5 9)
    ∷ []

typed-AllTyped : AllTyped typed
unfolding AllTyped
typed-AllTyped = ((1 ∷ replicate 15 0, empty_name, refl, fifteen_letters), (tt, tt))

typed_ready : (served_run 1 typed game_entry).game.state ≡ name_ready
unfolding served_run obey game_step game_entry coap_resources request_name_handler
    request_result_handler
typed_ready = refl

entered_name-exchange_example :
    let g = (served_run 1 typed game_entry).game in
    (c_str g.playername ≢ [])
    × (answer rounded (client_with 1 2) (request_name_handler (machine_id 1) g).1
        ≡ when_room rounded
            (length (c_str g.playername))
            (set_name (ended (c_str g.playername)) 1 (client_with 1 2)))
entered_name-exchange_example =
    entered_name-exchange 1 rounded typed (client_with 1 2) (omega arith) typed-AllTyped typed_ready

-- The line is high from the ninth read on.
abbrev late_line : ℕ → ℕ → Bool
late_line k a = leb 8 k

quiet_before : (j : ℕ) → j < 8 → late_line j (j % 256) ≡ false
quiet_before j h = ground arith

abbrev some_entry : Entry
some_entry = record { curr_idx = 3; curr_char_idx = 5; name = empty_name }

scan_first_example :
    (scan 9 late_line 0 0 ≡ some 8)
    × (3 ≤ 8 → (scan 9 late_line 0 0 >>= λ action. press action some_entry) ≡ some some_entry)
scan_first_example = scan_first 9 8 late_line some_entry (omega arith) quiet_before refl

set_entry_counter-IsValid_example :
    (e' : Entries) × (set_entry_counter intact (client_with 250 300) no_entries ≡ some e')
    × IsValid e'
    × Holds 0 (ended (codes "ADA")) (atol (print_ld 250)) e'
    × Holds (0 + 1) (ended (codes "BOB")) (atol (print_ld 300)) e'
set_entry_counter-IsValid_example =
    set_entry_counter-IsValid intact (client_with 250 300) no_entries no_entries-IsValid
