-- ===== src/Boot/Diagnosis.antt =====
-- The command `hwdiag` of the shell, `hw_diag` of retro11/main.c: what it does to the devices, less
-- what it prints on the console.
pub mod Lit
use package.team.Prelude.{
  ℕ, zero, suc, ◌+◌, Bool, true, Option, none, some, List, [], ◌∷◌, ◌++◌, if◌then◌else◌, ◌>>=◌,
}
use package.team.Prelude.Int.{ℤ, pos}
use package.team.Prelude.Text.{codes, c_str, same, print_ld}
use package.team.Motor.{Dcmotor, Call as MotorCall, dcmotor_set_speed}
use package.team.Multiplexer.{Multiplexer, Call as Pin, multiplexer_receive}
use package.team.Neopixel.{Color, Neopixel, Act as LedAct, neopixel_set_pixel_color, neopixel_show}
use package.team.Lcd.{Ram, clear}
use package.team.Lcd.Circle.{draw_circle}
use package.team.Lcd.Letters.{draw_s}
use package.team.Lcd.Panel.{Call as LcdCall, show}
use package.team.Boot.{bright}

-- The globals that the command uses.
pub record Bench : Type 0 where
  pub motor_a : Dcmotor
  pub motor_b : Dcmotor
  pub led_stripe : Neopixel
  pub multiplexer : Multiplexer
  pub ram : Ram

-- What happens, in order. `sleep` is in seconds.
pub data Act : Type 0 where
  motor : List MotorCall → Act
  lcd : List LcdCall → Act
  leds : List LedAct → Act
  pins : List Pin → Act
  sleep : ℕ → Act

abbrev pub append_acts : List Act → List Act → List Act
append_acts [] b = b
append_acts (a ∷ s) b = a ∷ append_acts s b

abbrev pub Outcome : Type 0
Outcome = Option (Bench × List Act)

abbrev pub dark : Color
dark = record { r = 0; g = 0; b = 0 }

-- "-m".
unfoldable pub diag_motors : Bench → Outcome
diag_motors b = some (
  b,
  motor (dcmotor_set_speed b.motor_a (pos 100))
      ∷ motor (dcmotor_set_speed b.motor_b (pos 100))
      ∷ sleep 3
      ∷ motor (dcmotor_set_speed b.motor_a (pos 0))
      ∷ motor (dcmotor_set_speed b.motor_b (pos 0))
      ∷ [],
)

-- "-l".
unfoldable pub diag_lcd : Bench → Outcome
diag_lcd b = draw_circle 50 10 50 true b.ram >>= λ drawn.
    let ram = clear drawn.0 in
    some (record b { ram = ram }, lcd (show drawn.0) ∷ sleep 3 ∷ lcd (show ram) ∷ [])

-- The LEDs from number i on, with those left.
unfoldable pub set_leds : Color → ℕ → ℕ → Neopixel → Option Neopixel
set_leds color i zero dev = some dev
set_leds color i (suc left) dev =
    neopixel_set_pixel_color dev i color >>= λ r. set_leds color (i + 1) left r.0

-- "-n": on for all 57, and off for 55.
unfoldable pub diag_leds : Bench → Outcome
unfolding set_leds
diag_leds b = do
  on ← set_leds bright 0 57 b.led_stripe
  shown ← neopixel_show on
  off ← set_leds dark 0 55 on
  shown' ← neopixel_show off
  some (record b { led_stripe = off }, leds shown ∷ sleep 3 ∷ leds shown' ∷ [])

-- `return 1`.
abbrev pub returned : Outcome → Option (Bench × List Act × ℤ)
returned none = none
returned (some r) = some (r.0, r.1, pos 1)

module _ (line : ℕ → ℕ → Bool) where
  -- The wait of round i for the line to be low: `line i k` is whether read number k finds it
  -- high. `none`: it is high in all reads that the fuel allows.
  unfoldable pub wait_low : ℕ → ℕ → ℕ → Multiplexer → Option (Multiplexer × List Act)
  wait_low zero i k dev = none
  wait_low (suc fuel) i k dev =
      let (dev', calls) = multiplexer_receive dev 1 in
      let rest = wait_low fuel i (k + 1) dev' in
      if line i k
      then rest >>= (λ r. some (r.0, pins calls ∷ r.1))
      else some (dev', pins calls ∷ [])

  -- "-b": `buf` holds the number, and its NUL is drawn too.
  unfoldable pub button_round : ℕ → ℕ → Bench → Outcome
  button_round fuel i b = do
    (dev, acts) ← wait_low fuel i 0 b.multiplexer
    let buf = codes "Button: " ++ (print_ld i ++ (0 ∷ []))
    drawn ← draw_s 30 30 buf 10 (clear b.ram)
    some (record b { multiplexer = dev; ram = drawn.0 }, append_acts acts (lcd (show drawn.0) ∷ []))

  unfoldable pub diag_buttons : ℕ → ℕ → ℕ → Bench → Outcome
  diag_buttons fuel i zero b = some (b, [])
  diag_buttons fuel i (suc left) b = do
    (b', acts) ← button_round fuel i b
    (b'', rest) ← diag_buttons fuel (i + 1) left b'
    some (b'', append_acts acts rest)

  -- An option that is not known prints the usage.
  unfoldable pub diag_option : ℕ → List ℕ → Bench → Outcome
  unfolding diag_motors diag_lcd diag_leds
  diag_option fuel option b =
      let buttons = diag_buttons fuel 0 8 b in
      if same (c_str option) (codes "-m")
      then diag_motors b
      else if same (c_str option) (codes "-l")
      then diag_lcd b
      else if same (c_str option) (codes "-n")
      then diag_leds b
      else if same (c_str option) (codes "-b")
      then buttons
      else some (b, [])

  -- `argv` holds `argc` strings, and then NULL, on which `strcmp` is undefined: `none`. Every
  -- round of the loop over `argv` returns.
  unfoldable pub hw_diag : ℕ → List (List ℕ) → Bench → Option (Bench × List Act × ℤ)
  hw_diag fuel [] b = some (b, [], pos 0)
  hw_diag fuel (name ∷ []) b = none
  hw_diag fuel (name ∷ option ∷ argv) b = returned (diag_option fuel option b)
