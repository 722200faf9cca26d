-- ===== src/Tests/Shell.antt =====
-- The menu's picture and the diagnosis of the devices.
use mathlib.Core.Path.{subst}
use mathlib.Core.Option.{some-injective}
use team.Prelude.{
  ◌≤◌, ℕ, zero, suc, ◌<◌, ◌≡◌, refl, Bool, true, false, none, some, List, [], ◌∷◌, get_elem?, arith,
  replicate,
}
use team.Prelude.Int.{pos}
use team.Prelude.Text.{codes}
use team.Lcd.{clear, Ram}
use team.Lcd.Panel.{show}
use team.Menu.{menu_run, MenuWait, MenuCommand, Menu, menu_init, str_len, print_menu}
use team.Menu.Picture.{Fits}
use team.Menu.Loop.{IsShown, menu_run-IsShown}
use team.Menu.Marks.{Marks, print_menu-Marks}
use team.Motor.{Dcmotor}
use team.Boot.{bright}
use team.Boot.Diagnosis.{Bench, Act, hw_diag}
use team.Boot.Diagnosis.Lit.{Lit, Answered, hw_diag-Lit}

abbrev noise : Ram
noise x y = 1

abbrev item : List ℕ → MenuCommand
item name = record { name = name; desc = [] }

abbrev two_items : Menu
two_items = record {
  commands = item (codes "START") ∷ item (codes "HIGHSCORES") ∷ [];
  cmd_count = 2;
}

-- What `menu_init` stores.
two_items-menu_init :
    menu_init (item (codes "START") ∷ item (codes "HIGHSCORES") ∷ []) 2 ≡ two_items
unfolding menu_init
two_items-menu_init = refl

short_names :
    (i : ℕ) (command : MenuCommand)
    → get_elem? two_items.commands i ≡ some command
    → str_len command ≤ 17
short_names zero command e =
    subst (λ (c : MenuCommand). str_len c ≤ 17) (some-injective _ _ e) (omega arith)
short_names (suc zero) command e =
    subst (λ (c : MenuCommand). str_len c ≤ 17) (some-injective _ _ e) (omega arith)
short_names (suc (suc i)) command e = absurd cc

two_items-Fits : Fits two_items
two_items-Fits = record { rows = omega arith; stored = omega arith; names = short_names }

print_menu-Marks_example :
    (out : Ram) × (print_menu two_items 1 noise ≡ some (out, show out))
    × ((i : ℕ) (command : MenuCommand)
        → i < 2
        → get_elem? two_items.commands i ≡ some command
        → Marks 1 i (str_len command) out)
print_menu-Marks_example = print_menu-Marks two_items 1 noise two_items-Fits

-- Down, the command there, which clears the display, and up twice.
menu_run-IsShown_example :
    (wait : MenuWait) × (menu_run (λ i ram. clear ram) two_items (2 ∷ 0 ∷ 1 ∷ 1 ∷ []) 0 noise
      ≡ some wait)
    × IsShown two_items wait
menu_run-IsShown_example =
    menu_run-IsShown (λ i ram. clear ram) two_items (2 ∷ 0 ∷ 1 ∷ 1 ∷ []) 0 noise two_items-Fits
      (omega arith)

abbrev motor : Dcmotor
motor = record { pwm = 0; channel = 1; freq = 1000; res = 100; dir_a = 13; dir_b = 18 }

abbrev bench : Bench
bench = record {
  motor_a = motor;
  motor_b = motor;
  led_stripe = record { led_count = 57; data_out = 3; pixels = replicate 128 bright };
  multiplexer = record {
    receive = 22;
    addr_a = 17;
    addr_b = 16;
    addr_c = 23;
    curr_addr = 0;
    with_int = pos 1;
  };
  ram = noise;
}

-- The line is low from the second read of each round on.
abbrev soon_low : ℕ → ℕ → Bool
soon_low i zero = true
soon_low i (suc k) = false

soon_low-Answered : Answered soon_low 5
soon_low-Answered i h = (1, omega arith, refl)

bench-Lit : Lit bench
bench-Lit = ((refl, refl), (refl, refl))

hw_diag-Lit_example :
    (hw_diag soon_low 5 (codes "hwdiag" ∷ []) bench ≡ none)
    × (hw_diag soon_low 5 (codes "hwdiag" ∷ codes "-n" ∷ codes "-m" ∷ []) bench
        ≡ hw_diag soon_low 5 (codes "hwdiag" ∷ codes "-n" ∷ []) bench)
    × (b' : Bench) × (acts : List Act) × (hw_diag soon_low 5
          (codes "hwdiag" ∷ codes "-n" ∷ codes "-m" ∷ [])
          bench
        ≡ some (b', acts, pos 1))
    × Lit b'
hw_diag-Lit_example =
    hw_diag-Lit soon_low 5 (codes "hwdiag") (codes "-n") (codes "-m" ∷ []) bench soon_low-Answered
      bench-Lit
