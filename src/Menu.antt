-- ===== src/Menu.antt =====
-- The menu (retro11/menu.c): what is drawn, how a button moves the selection, and what runs it.
pub mod Selection
pub mod Picture
pub mod Marks
pub mod Loop
use package.team.Prelude.Int.{ℤ, pos, ◌+ℤ◌, ◌-ℤ◌}
use package.team.Prelude.Text.{codes, c_str}
use package.team.Lcd.{Ram, clear, draw_line, draw_rect}
use package.team.Lcd.Circle.{uint8}
use package.team.Lcd.Letters.{draw_s}
use package.team.Lcd.Panel.{Call, show}
use package.team.Prelude.{
  ◌*◌, ◌/◌, length, get_elem?, ℕ, zero, suc, ◌+◌, ◌-◌, ◌%◌, Bool, true, false, Option, none, some,
  List, [], ◌∷◌, ◌++◌, ltb, ◌==◌, if◌then◌else◌, ◌>>=◌,
}

-- `menu_command_t`; its handler is known by its place in the menu.
pub record MenuCommand : Type 0 where
  pub name : List ℕ
  pub desc : List ℕ

-- `menu_t`, less the pointers to the devices.
pub record Menu : Type 0 where
  pub commands : List MenuCommand
  pub cmd_count : ℕ

unfoldable pub menu_init : List MenuCommand → ℕ → Menu
menu_init commands cmd_count = record { commands = commands; cmd_count = cmd_count }

abbrev pub str_len : MenuCommand → ℕ
str_len command = length (c_str command.name)

-- The `int` that the name's column is computed as.
abbrev pub start_pos : ℕ → ℤ
start_pos n = pos 64 -ℤ pos (n / 2 * 5)

-- Row 17 + 9 i and the box around it, as the arguments of type `uint8_t`.
unfoldable pub draw_box : ℕ → ℕ → Ram → Option (Ram × ℤ)
draw_box i n ram =
    draw_rect (uint8 (start_pos n -ℤ pos 2)) ((15 + i * 9) % 256)
      (uint8 (start_pos n +ℤ pos 1 +ℤ pos (6 * n))) ((25 + i * 9) % 256) false ram

-- A round of the loop of `print_menu`.
unfoldable pub draw_item : ℕ → ℕ → MenuCommand → Ram → Option Ram
unfolding draw_box
draw_item curr_item i command ram = do
  let n = str_len command
  boxed ← (if i == curr_item then draw_box i n ram else some (ram, pos 0))
  named ← draw_s (uint8 (start_pos n)) ((17 + i * 9) % 256) command.name (n % 256) boxed.0
  some named.0

-- The items from number i on, with those left; an item behind the array is undefined: `none`.
unfoldable pub draw_items : ℕ → List MenuCommand → ℕ → ℕ → Ram → Option Ram
draw_items curr_item commands i zero ram = some ram
draw_items curr_item commands i (suc left) ram = do
  command ← get_elem? commands i
  drawn ← draw_item curr_item i command ram
  draw_items curr_item commands (i + 1) left drawn

-- The new frame buffer and what is sent to the display.
unfoldable pub print_menu : Menu → ℕ → Ram → Option (Ram × List Call)
print_menu menu curr_item ram = do
  title ← draw_s 44 6 (codes "MAINMENU") 8 (clear ram)
  lined ← draw_line 42 13 92 13 title.0
  drawn ← draw_items curr_item menu.commands 0 menu.cmd_count lined.0
  some (drawn, show drawn)

-- The scan of the three buttons: `line k a` is whether read number k, at address a, finds the
-- line high. `none`: no line is high within the reads that the fuel allows.
unfoldable pub scan_buttons : ℕ → (ℕ → ℕ → Bool) → ℕ → ℕ → Option ℕ
scan_buttons zero line k action = none
scan_buttons (suc fuel) line k action = elim (line k action) [
  | true ↦ some action
  | false ↦ scan_buttons fuel line (k + 1) ((action + 1) % 3)
]

-- The `switch`: the new selection and the commands that are executed.
unfoldable pub menu_step : ℕ → ℕ → ℕ → ℕ × List ℕ
menu_step cmd_count action curr_item =
    if action == 0
    then (curr_item, curr_item ∷ [])
    else if action == 1
    then ((if ltb curr_item 1 then cmd_count - 1 else curr_item - 1), [])
    else if action == 2
    then ((curr_item + 1) % cmd_count, [])
    else (curr_item, [])

-- A wait for a button: the selection, the frame buffer, and all commands executed before.
pub record MenuWait : Type 0 where
  pub curr_item : ℕ
  pub ram : Ram
  pub ran : List ℕ

-- The handlers of the commands: each may draw on the display, and returns.
abbrev pub Handlers : Type 0
Handlers = ℕ → Ram → Ram

-- A command behind the array is undefined: `none`.
unfoldable pub run_commands : Handlers → List MenuCommand → List ℕ → Ram → Option Ram
run_commands handler commands [] ram = some ram
run_commands handler commands (i ∷ ran) ram = do
  command ← get_elem? commands i
  run_commands handler commands ran (handler i ram)

-- The loop over the buttons that are pressed, up to the wait for the next.
unfoldable pub menu_run : Handlers → Menu → List ℕ → ℕ → Ram → Option MenuWait
menu_run handler menu [] curr_item ram = do
  printed ← print_menu menu curr_item ram
  some (record { curr_item = curr_item; ram = printed.0; ran = [] })
menu_run handler menu (action ∷ actions) curr_item ram = do
  let pressed = menu_step menu.cmd_count action curr_item
  printed ← print_menu menu curr_item ram
  left ← run_commands handler menu.commands pressed.1 printed.0
  wait ← menu_run handler menu actions pressed.0 left
  some (record wait { ran = pressed.1 ++ wait.ran })
