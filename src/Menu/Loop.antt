-- ===== src/Menu/Loop.antt =====
-- The loop of `menu_run` of retro11/menu.c.
use team.Prelude.{
  ℕ, ◌<◌, ◌≤◌, ◌≡◌, refl, some, List, [], ◌∷◌, ◌++◌, length, get_elem?, get_elem?-lt, arith,
}
use team.Lcd.{Ram}
use team.Menu.{Menu, MenuCommand, Handlers, MenuWait, str_len, run_commands, menu_step, menu_run}
use team.Menu.Picture.{Fits}
use team.Menu.Marks.{Marks, print_menu-Marks}
use team.Menu.Selection.{AllBelow, AllBelow-append, menu_step-AllBelow}

run_commands-defined :
    (handler : Handlers) (commands : List MenuCommand) (n : ℕ) (ran : List ℕ) (ram : Ram)
    → n ≤ length commands
    → AllBelow n ran
    → (left : Ram) × (run_commands handler commands ran ram ≡ some left)
unfolding run_commands
run_commands-defined handler commands n [] ram h b = (ram, refl)
run_commands-defined handler commands n (i ∷ ran) ram h (lt, b) =
    let (command, at) = get_elem?-lt commands i (omega arith) in
    let (left, run) = run_commands-defined handler commands n ran (handler i ram) h b in
    (left, rw at run)

-- What a menu shows and has executed when it waits for a button.
pub record IsShown (menu : Menu) (wait : MenuWait) : Type 0 where
  pub selected : wait.curr_item < menu.cmd_count
  pub ran : AllBelow menu.cmd_count wait.ran
  pub marks :
      (i : ℕ) (command : MenuCommand)
      → i < menu.cmd_count
      → get_elem? menu.commands i ≡ some command
      → Marks wait.curr_item i (str_len command) wait.ram

-- On a menu of one to five items whose names have at most 17 letters, whatever the commands draw on
-- the display before they return and whichever buttons are pressed, the loop reaches its next wait
-- for a button without a read behind its arrays. The selection is then an item of the menu, only
-- items of it were executed, and the display marks exactly the selected item: all pixels of its box
-- are lit, and beside the name of every other item the left side of a box is dark.
pub menu_run-IsShown :
    (handler : Handlers) (menu : Menu) (actions : List ℕ) (curr_item : ℕ) (ram : Ram)
    → Fits menu
    → curr_item < menu.cmd_count
    → (wait : MenuWait) × (menu_run handler menu actions curr_item ram ≡ some wait)
      × IsShown menu wait
unfolding menu_run
menu_run-IsShown handler menu [] curr_item ram fits lt =
    let (out, printed, marks) = print_menu-Marks menu curr_item ram fits in
    (
      record { curr_item = curr_item; ram = out; ran = [] },
      rw printed refl,
      record { selected = lt; ran = tt; marks = marks },
    )
menu_run-IsShown handler menu (action ∷ actions) curr_item ram fits lt =
    let (out, printed, marks) = print_menu-Marks menu curr_item ram fits in
    let (next, below) = menu_step-AllBelow menu.cmd_count action curr_item lt in
    let (left, done) =
      run_commands-defined handler menu.commands menu.cmd_count
        (menu_step menu.cmd_count action curr_item).1 out fits.stored below in
    let (wait, rest, shown) =
      menu_run-IsShown handler menu actions (menu_step menu.cmd_count action curr_item).0 left fits
        next in
    (
      record wait { ran = (menu_step menu.cmd_count action curr_item).1 ++ wait.ran },
      rw (printed, done, rest) refl,
      record {
        selected = shown.selected;
        ran = AllBelow-append menu.cmd_count _ _ below shown.ran;
        marks = shown.marks;
      },
    )
