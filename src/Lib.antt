-- ===== src/Lib.antt =====
-- Retro11, a reaction game on two microcontrollers (retro11/): its shared state, the server and
-- the client that referee it over CoAP, and the drivers of its display, LEDs, motors and buttons.
--
-- How the parts interact. The game thread (retro11/game.c) asks for a name, waits for a start, runs
-- the motors, measures the reaction and waits for a verdict. It shares one state variable with the
-- CoAP server (retro11/coap_handler.c over functions of retro11/main.c). The client, on machine 0,
-- polls both servers and drives the round (retro11/coap_client.c).
--
-- Which file models what. Names follow the source; its capitals are written small.
-- - Game: `game_t`. Game.Run: `game_run`, cut at its waits into `game_step` on events; the calls of
--   the devices are recorded as `Act`. Game.Name: `get_player_name`, its screen and button scan.
--   Game.Animation: the LED animations. Game.Buttons: the interrupt, `int_multiplexer_receive`.
--   Game.Motors: the speed that the thread has set last.
-- - Server: the handlers, the functions behind them (`start_the_game` is `start_game`,
--   `get_the_result` is `get_result` of main.c) and the table of paths; Server.Ping: `ping_handler`.
-- - Client: `client_t` and `_resp_handler`; Client.Entries: the highscore arrays; Client.Poll: the
--   thread's loop and the sending of requests; Client.Responses: which responses are defined in C.
-- - Senml: `senml_encode_json_s` of retro11/senml.c, on its array; Senml.Draft: the same without an
--   array; Senml.Document: the JSON text of a pack. Senml.Decode: `senml_decode_json_s` over the
--   tokens of jsmn, with a `char *` as an offset. Client.Report: `senml_json_strout` and the
--   response with the highscores.
-- - System: what the client makes of the servers' responses, and what the game threads make of its
--   verdict. gcoap in between, with its losses and its repeated responses, is not modelled.
-- - Boot: `main` of retro11/main.c, from the first device to the threads. Boot.Diagnosis: `hw_diag`,
--   the command of its shell.
-- - Lcd: the frame buffer, lines and rectangles of retro11/lcd_spi.c; Lcd.Circle and Lcd.Letters:
--   its circles, and its characters over the table in Font (retro11/font_5x7_col.c); Lcd.Panel:
--   what it sends to the display.
-- - Menu: the picture of `print_menu`, and the loop of `menu_run`, over handlers that may draw on the
--   display and that return.
-- - Neopixel, Motor, Multiplexer and Menu: retro11/neopixel.c, retro11/dcmotor.c with
--   retro11/motor_controller.c, retro11/multiplexer.c and retro11/menu.c.
-- - Prelude: shared names, signed integers, C strings and the calls of the C library on them.
--
-- Conventions. `none` is undefined behaviour, such as a write outside an array, or fuel that ran
-- out. A machine word is a number with its wrap-around written out, an `int` a signed integer
-- without bounds. A pointer to a local array of a call that has returned is `ended`; what it reads
-- as is a parameter (`stack`), of which nothing is assumed. The response handler writes one past
-- each of its local arrays: whether a byte is free there is a parameter (`behind`); in C it is not.
-- Fields of a local array that are never set are a parameter too (`memory`). What the game thread
-- draws is recorded and not carried out in Game.Run.
--
-- Bounds and fuel. A line takes at most 127 + 63 rounds, so `line_fuel` is 191; a circle takes at
-- most radius + 1; printing a number has fuel above its value; the button scans have any fuel
-- above the first high read, and the wait of the diagnosis any above the first low one.
--
-- Parameters. RIOT's answers (`gpio_init`, `thread_create`, the parse of an address, the levels of
-- the lines, clocks and random timeouts) are arguments or events, and so are the tokens of jsmn.
--
-- Where the documents say otherwise, the model follows the code: README.md and the report measure
-- the reaction from the stop of the motors, the code from their start to the press that stops them;
-- the header of the font describes its glyphs row wise, the table and the display take them column
-- wise.
--
-- Not modelled: the network addresses and the shell in `main`, messages on the console, and what
-- RIOT, gcoap and jsmn do. `game_init` and `coap_server_init` store pointers and create
-- threads; the order of the threads is in Boot.
mod Prelude
pub mod Game
pub mod Server
pub mod Client
pub mod System
pub mod Boot
pub mod Font
pub mod Lcd
pub mod Neopixel
pub mod Motor
pub mod Multiplexer
pub mod Menu
pub mod Senml
mod Tests
