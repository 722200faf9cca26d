-- ===== src/Boot/Lights.antt =====
-- The LEDs of the display (retro11/main.c, 183-290, and retro11/game.c, 24-96).
use team.Prelude.{
  ℕ, ◌-◌, ◌<◌, ◌≡◌, refl, ◌∙◌, Bool, true, false, Option, some, List, [], ◌∷◌, length, set,
  get_elem?, get_elem?-set_self, get_elem?-set_ne, length-set, arith, ltb, ◌==◌, Bool-cases, inl,
  inr,
}
use team.Prelude.Int.{ℤ, pos, negsuc}
use team.Neopixel.{
  Color, Neopixel, neopixel_init, neopixel_set_pixel_color, neopixel_show, gpio_clear, irq_disable,
  wave, irq_restore,
}
use team.Game.Animation.{Frame, green, red, play_winner_animation, play_looser_animation}
use team.Lcd.Panel.{lcd_spi_init}
use team.Game.Animation.Blink.{show_loop-some, Blinks, animations-Blinks}
use team.Boot.{
  Pins, Answers, Started, threads_of, Board, Boot, fault, stopped, going, ◌>>=◌, unless_failed,
  unless_none, bright, boot_pwm, boot_motor_a, new_motor_a, boot_motor_b, new_motor_b,
  boot_controller, new_controller, new_multiplexer, buttons_off, boot_stripe, boot_buttons, light,
  show_stripe, boot_display, main,
}

-- `main` does not write outside an array, and if it goes on then with such a board.
abbrev pub Ends : (Board → Type 0) → Boot → Type 0
Ends P fault = ⊥
Ends P (stopped b) = Unit
Ends P (going b) = P b

module _ (P Q : Board → Type 0) where
  then-Ends :
      (m : Boot) (f : Board → Boot)
      → Ends P m
      → ((b : Board) → P b → Ends Q (f b))
      → Ends Q (m >>= f)
  then-Ends fault f h next = h
  then-Ends (stopped b) f h next = tt
  then-Ends (going b) f h next = next b h

unless_failed-Ends : (P : Board → Type 0) (s : ℤ) (b : Board) → P b → Ends P (unless_failed s b)
unless_failed-Ends P (pos n) b h = h
unless_failed-Ends P (negsuc n) b h = tt

unless_none-Ends : (P : Board → Type 0) (s : ℤ) (b : Board) → P b → Ends P (unless_none s b)
unless_none-Ends P (pos n) b h = elim (Bool-cases (n == 0)) [ inl e ↦ rw e tt | inr e ↦ rw e h ]
unless_none-Ends P (negsuc n) b h = tt

-- The stripe as the memory has it, and after its initialisation.
Raw : Board → Type 0
Raw b = length b.led_stripe.pixels ≡ 128

Striped : Board → Type 0
Striped b = (length b.led_stripe.pixels ≡ 128) × (b.led_stripe.led_count ≡ 57)

-- Both LEDs of the display are bright.
abbrev pub BothLit : List Color → Type 0
BothLit pixels = (get_elem? pixels 55 ≡ some bright) × (get_elem? pixels 56 ≡ some bright)

Quiet : Board → Type 0
Quiet b = Striped b × (b.enable_btns ≡ false)

Half : Board → Type 0
Half b = Quiet b × (get_elem? b.led_stripe.pixels 56 ≡ some bright)

-- Both LEDs are bright, and the buttons are off.
Ready : Board → Type 0
Ready b = Quiet b × BothLit b.led_stripe.pixels

module _ (pins : Pins) (answers : Answers) where
  boot_motor_a-Ends : (b : Board) → Raw b → Ends Raw (boot_motor_a pins answers b)
  unfolding Raw boot_motor_a
  boot_motor_a-Ends b h =
      let new = new_motor_a pins answers b in
      unless_failed-Ends Raw new.2 (record b { motor_a = new.0 }) h

  boot_motor_b-Ends : (b : Board) → Raw b → Ends Raw (boot_motor_b pins answers b)
  unfolding Raw boot_motor_b
  boot_motor_b-Ends b h =
      let new = new_motor_b pins answers b in
      unless_failed-Ends Raw new.2 (record b { motor_b = new.0 }) h

  boot_controller-Ends : (b : Board) → Raw b → Ends Raw (boot_controller pins answers b)
  unfolding Raw boot_controller
  boot_controller-Ends b h =
      let new = new_controller pins answers b in
      unless_failed-Ends Raw new.1 (record b { motor_controller = new.0 }) h

  boot_stripe-Ends : (b : Board) → Raw b → Ends Striped (boot_stripe pins answers b)
  unfolding Raw Striped boot_stripe neopixel_init
  boot_stripe-Ends b h = go (answers.gpio_init pins.led_stripe)
    where
      go :
          (a : ℤ)
          → let dev : Neopixel × ℤ = elim a [
            | negsuc n ↦ (b.led_stripe, negsuc 0)
            | pos n ↦ (record b.led_stripe { led_count = 57; data_out = pins.led_stripe }, pos 0)
          ] in
            Ends Striped (unless_failed dev.1 (record b { led_stripe = dev.0 }))
      go (pos n) = (h, refl)
      go (negsuc n) = tt

  boot_buttons-Ends : (b : Board) → Striped b → Ends Quiet (boot_buttons pins answers b)
  unfolding Striped Quiet boot_buttons
  boot_buttons-Ends b h =
      let new = new_multiplexer pins answers b in
      then-Ends Striped Quiet (unless_failed new.2 (record b { multiplexer = new.0 })) buttons_off
        (unless_failed-Ends Striped new.2 (record b { multiplexer = new.0 }) h)
        (λ b1 h1. (h1, refl))

  light_lem :
      (index : ℕ) (b : Board)
      → Striped b
      → index < 57
      → light pins answers index b
        ≡ going (record b {
          led_stripe = record b.led_stripe { pixels = set b.led_stripe.pixels index bright };
        })
  unfolding Striped light neopixel_set_pixel_color
  light_lem index b (size, count) lt =
      let allowed : ltb b.led_stripe.led_count index ≡ false = ground (arith, count, lt) in
      let inside : ltb index (length b.led_stripe.pixels) ≡ true = ground (arith, size, lt) in
      let lit : Neopixel = record b.led_stripe { pixels = set b.led_stripe.pixels index bright } in
      let made : neopixel_set_pixel_color b.led_stripe index bright ≡ some (lit, pos 0) =
        rw (allowed, inside) refl in
      rw (made, light) refl

  light_56-Ends : (b : Board) → Quiet b → Ends Half (light pins answers 56 b)
  unfolding Striped Quiet Half
  light_56-Ends b ((size, count), off) =
      let pixels = b.led_stripe.pixels in
      rw (light_lem 56 b (size, count) (omega arith)) (
        ((length-set pixels 56 bright ∙ size, count), off),
        get_elem?-set_self pixels 56 bright (omega (arith, size)),
      )

  light_55-Ends : (b : Board) → Half b → Ends Ready (light pins answers 55 b)
  unfolding Striped Quiet Half Ready
  light_55-Ends b (((size, count), off), lit) =
      let pixels = b.led_stripe.pixels in
      rw (light_lem 55 b (size, count) (omega arith)) (
        ((length-set pixels 55 bright ∙ size, count), off),
        (
          get_elem?-set_self pixels 55 bright (omega (arith, size)),
          get_elem?-set_ne pixels {i = 55} {j = 56} bright (λ e. absurd (omega (arith, e))) ∙ lit,
        ),
      )

  show_stripe-Ends : (b : Board) → Ready b → Ends Ready (show_stripe pins answers b)
  unfolding Striped Quiet Ready show_stripe neopixel_show
  show_stripe-Ends b h =
      let (s, e) =
        show_loop-some b.led_stripe.led_count b.led_stripe.pixels
          (omega (arith, h.0.0.0, h.0.0.1)) in
      let signal = gpio_clear ∷ irq_disable ∷ wave s ∷ irq_restore ∷ [] in
      let shown : neopixel_show b.led_stripe ≡ some signal = rw e refl in rw (shown, show_stripe) h

  boot_display-Ends : (b : Board) → Quiet b → Ends Ready (boot_display pins answers b)
  unfolding boot_display
  boot_display-Ends b q =
      then-Ends Ready Ready _ (show_stripe pins answers)
        (then-Ends Half Ready _ (light pins answers 55)
          (then-Ends Quiet Half _ (light pins answers 56)
            (unless_failed-Ends Quiet (lcd_spi_init answers.display_found).1 b q) light_56-Ends)
          light_55-Ends)
        show_stripe-Ends

-- An animation that ends with both LEDs of the display bright.
abbrev pub StaysLit : Option (Neopixel × List Frame) → Type 0
StaysLit r =
    (dev : Neopixel) × (frames : List Frame) × (r ≡ some (dev, frames)) × BothLit dev.pixels

Blinks-StaysLit :
    (shade : Bool → Color) (dev : Neopixel) (r : Option (Neopixel × List Frame))
    → dev.led_count ≡ 57
    → BothLit dev.pixels
    → Blinks shade dev r
    → StaysLit r
Blinks-StaysLit shade dev r count (lit, lit') (picture, signal, e, shows, at) =
    let past : ltb 55 (dev.led_count - 2) ≡ false = ground (arith, count) in
    let past' : ltb 56 (dev.led_count - 2) ≡ false = ground (arith, count) in
    (
      record dev { pixels = picture false },
      _,
      e,
      (rw past at (at false 55) ∙ lit, rw past' at (at false 56) ∙ lit'),
    )

-- What a board that has booted promises.
abbrev pub Booted : List Started → Board → Type 0
Booted threads b =
    (b.threads ≡ threads)
    × (b.enable_btns ≡ false)
    × BothLit b.led_stripe.pixels
    × StaysLit (play_winner_animation b.led_stripe)
    × StaysLit (play_looser_animation b.led_stripe)

Ready-Booted :
    (threads : List Started) (b : Board) → Ready b → Booted threads (record b { threads = threads })
unfolding Ready Quiet Striped
Ready-Booted threads b (((size, count), off), lit) =
    let (winner, looser) =
      animations-Blinks b.led_stripe (omega (arith, count)) (omega (arith, size, count))
        (omega (arith, count)) in
    (
      refl,
      off,
      lit,
      Blinks-StaysLit green b.led_stripe _ count lit winner,
      Blinks-StaysLit red b.led_stripe _ count lit looser,
    )

-- Whatever the drivers answer, `main` never writes outside the array of colours; if no device
-- fails, it ends with the client's thread on machine 0 only, the server's and the game's, the
-- buttons off and both LEDs of the display bright, and neither animation puts them out.
pub main-Booted :
    (pins : Pins) (answers : Answers) (machine : Bool) (b : Board)
    → length b.led_stripe.pixels ≡ 128
    → Ends (Booted (threads_of machine)) (main pins answers machine b)
unfolding main boot_pwm Raw
main-Booted pins answers machine b size =
    then-Ends Ready (Booted (threads_of machine)) _ _
      (then-Ends Quiet Ready _ (boot_display pins answers)
        (then-Ends Striped Quiet _ (boot_buttons pins answers)
          (then-Ends Raw Striped _ (boot_stripe pins answers)
            (then-Ends Raw Raw _ (boot_controller pins answers)
              (then-Ends Raw Raw _ (boot_motor_b pins answers)
                (then-Ends Raw Raw _ (boot_motor_a pins answers)
                  (unless_none-Ends Raw answers.act_freq b size) (boot_motor_a-Ends pins answers))
                (boot_motor_b-Ends pins answers))
              (boot_controller-Ends pins answers))
            (boot_stripe-Ends pins answers))
          (boot_buttons-Ends pins answers))
        (boot_display-Ends pins answers))
      (λ b' h. Ready-Booted (threads_of machine) b' h)
