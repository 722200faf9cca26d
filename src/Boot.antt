-- ===== src/Boot.antt =====
-- `main` of retro11/main.c, from the first device to the threads: the order in which the devices
-- are initialised, and what is left when one of them fails. The network's addresses, the display's
-- picture and the shell are left out. What RIOT answers is a parameter.
pub mod Lights
pub mod Diagnosis
use package.team.Prelude.{
  ℕ, suc, zero, Bool, true, false, Option, none, some, List, [], ◌∷◌, ◌==◌, if◌then◌else◌,
}
use package.team.Prelude.Int.{ℤ, pos, negsuc}
use package.team.Motor.{Dcmotor, MotorController, Call, dcmotor_init, motor_controller_init}
use package.team.Multiplexer.{Multiplexer, multiplexer_init_int, Call as Pin}
use package.team.Neopixel.{Color, Neopixel, neopixel_init, neopixel_set_pixel_color, neopixel_show}
use package.team.Lcd.Panel.{lcd_spi_init}

-- The pins of retro11/include/retro11_conf.h, which are RIOT's numbers.
pub record Pins : Type 0 where
  pub motor_pwm : ℕ
  pub motor_a_dir_a : ℕ
  pub motor_a_dir_b : ℕ
  pub motor_b_dir_a : ℕ
  pub motor_b_dir_b : ℕ
  pub recv : ℕ
  pub addr_a : ℕ
  pub addr_b : ℕ
  pub addr_c : ℕ
  pub led_stripe : ℕ

-- What RIOT answers: the frequency, the pins, the receiving pin, the motor thread and the display.
pub record Answers : Type 0 where
  pub act_freq : ℤ
  pub gpio_init : ℕ → ℤ
  pub receive_init : ℤ
  pub ctrl_pid : ℤ
  pub display_found : Bool

-- The threads in the order of their creation.
pub data Started : Type 0 where
  coap_client coap_server game_thread : Started

-- The globals of main.
pub record Board : Type 0 where
  pub motor_a : Dcmotor
  pub motor_b : Dcmotor
  pub motor_controller : MotorController
  pub led_stripe : Neopixel
  pub multiplexer : Multiplexer
  pub enable_btns : Bool
  pub threads : List Started

-- Where `main` stands: it has written outside an array, it has returned, or it goes on.
pub data Boot : Type 0 where
  fault : Boot
  stopped : Board → Boot
  going : Board → Boot

infixl 5 ◌>>=◌
abbrev pub ◌>>=◌ : Boot → (Board → Boot) → Boot
fault >>= f = fault
stopped b >>= f = stopped b
going b >>= f = f b

-- A status below 0 ends `main`.
abbrev pub unless_failed : ℤ → Board → Boot
unless_failed (pos n) b = going b
unless_failed (negsuc n) b = stopped b

-- No frequency ends it too.
abbrev pub unless_none : ℤ → Board → Boot
unless_none (pos n) b = if n == 0 then stopped b else going b
unless_none (negsuc n) b = stopped b

abbrev pub bright : Color
bright = record { r = 50; g = 50; b = 50 }

abbrev pub buttons_off : Board → Boot
buttons_off b = going (record b { enable_btns = false })

-- `machine` is whether MACHINE is "M0".
abbrev pub threads_of : Bool → List Started
threads_of machine =
    if machine then coap_client ∷ coap_server ∷ game_thread ∷ [] else coap_server ∷ game_thread ∷ []

module _ (pins : Pins) (answers : Answers) where
  abbrev freq : ℕ
  freq = elim answers.act_freq [ pos n ↦ n | negsuc n ↦ 0 ]

  unfoldable pub boot_pwm : Board → Boot
  boot_pwm b = unless_none answers.act_freq b

  abbrev pub new_motor_a : Board → Dcmotor × List Call × ℤ
  new_motor_a b =
      dcmotor_init answers.gpio_init
        (record {
          pwm = pins.motor_pwm;
          channel = 0;
          freq = freq;
          res = 100;
          dir_a = pins.motor_a_dir_a;
          dir_b = pins.motor_a_dir_b;
        })
        b.motor_a

  unfoldable pub boot_motor_a : Board → Boot
  boot_motor_a b = unless_failed (new_motor_a b).2 (record b { motor_a = (new_motor_a b).0 })

  abbrev pub new_motor_b : Board → Dcmotor × List Call × ℤ
  new_motor_b b =
      dcmotor_init answers.gpio_init
        (record {
          pwm = pins.motor_pwm;
          channel = 1;
          freq = freq;
          res = 100;
          dir_a = pins.motor_b_dir_a;
          dir_b = pins.motor_b_dir_b;
        })
        b.motor_b

  unfoldable pub boot_motor_b : Board → Boot
  boot_motor_b b = unless_failed (new_motor_b b).2 (record b { motor_b = (new_motor_b b).0 })

  abbrev pub new_controller : Board → MotorController × ℤ
  new_controller b = motor_controller_init answers.ctrl_pid b.motor_a b.motor_b b.motor_controller

  unfoldable pub boot_controller : Board → Boot
  boot_controller b =
      unless_failed (new_controller b).1 (record b { motor_controller = (new_controller b).0 })

  unfoldable pub boot_stripe : Board → Boot
  boot_stripe b =
      let (led_stripe, status) = neopixel_init answers.gpio_init 57 pins.led_stripe b.led_stripe in
      unless_failed status (record b { led_stripe = led_stripe })

  abbrev pub new_multiplexer : Board → Multiplexer × List Pin × ℤ
  new_multiplexer b =
      multiplexer_init_int answers.receive_init answers.gpio_init b.multiplexer pins.recv
        pins.addr_a pins.addr_b pins.addr_c

  unfoldable pub boot_buttons : Board → Boot
  boot_buttons b =
      unless_failed (new_multiplexer b).2 (record b { multiplexer = (new_multiplexer b).0 })
      >>= buttons_off

  -- The display, and the two LEDs that light it.
  unfoldable pub light : ℕ → Board → Boot
  light index b = elim (neopixel_set_pixel_color b.led_stripe index bright) [
    | none ↦ fault
    | some (led_stripe, status) ↦ going (record b { led_stripe = led_stripe })
  ]

  unfoldable pub show_stripe : Board → Boot
  show_stripe b = elim (neopixel_show b.led_stripe) [ none ↦ fault | some signal ↦ going b ]

  unfoldable pub boot_display : Board → Boot
  boot_display b =
      unless_failed (lcd_spi_init answers.display_found).1 b
      >>= light 56
      >>= light 55
      >>= show_stripe

  unfoldable pub main : Bool → Board → Boot
  main machine b =
      boot_pwm b
      >>= boot_motor_a
      >>= boot_motor_b
      >>= boot_controller
      >>= boot_stripe
      >>= boot_buttons
      >>= boot_display
      >>= λ b'. going (record b' { threads = threads_of machine })
