-- ===== src/Boot/Diagnosis/Lit.antt =====
-- The diagnosis of the devices (retro11/main.c) leaves the display lit.
use team.Prelude.{
  ◌==◌, ==_iff, ap, ℕ, zero, suc, ◌+◌, ◌≤◌, ◌<◌, ◌≡◌, ◌≢◌, refl, ◌∙◌, Bool, true, false, none, some,
  List, [], ◌∷◌, ◌++◌, get_elem?, length, set, length-set, length-append, get_elem?-set_self,
  get_elem?-set_ne, ltb, arith, Bool-cases, inl, inr, ◌⊎◌, ◌>>=◌,
}
use team.Prelude.Int.{pos}
use team.Prelude.Text.{codes, print_ld}
use team.Prelude.Text.Decimal.{print_ld-no_nul}
use team.Multiplexer.{Multiplexer, multiplexer_receive}
use team.Neopixel.{
  Color, Neopixel, Act as LedAct, gpio_clear, irq_disable, wave, irq_restore,
  neopixel_set_pixel_color, neopixel_show,
}
use team.Game.Animation.Blink.{show_loop-some}
use team.Lcd.{clear}
use team.Lcd.Circle.{draw_circle_returns}
use team.Lcd.Letters.Strings.{draw_s-kept}
use team.Boot.{bright}
use team.Boot.Lights.{BothLit}
use team.Boot.Diagnosis.{
  Bench, Act, pins, returned, Outcome, dark, diag_motors, diag_lcd, set_leds, diag_leds, wait_low,
  button_round, diag_buttons, diag_option, hw_diag,
}

-- A stripe of 57 LEDs in its array.
abbrev pub IsStripe : Neopixel → Type 0
IsStripe dev = (length dev.pixels ≡ 128) × (dev.led_count ≡ 57)

-- A stripe whose two LEDs at the display are bright, as `main` leaves it.
abbrev pub Lit : Bench → Type 0
Lit b = IsStripe b.led_stripe × BothLit b.led_stripe.pixels

-- The command ends, and leaves such a bench.
abbrev Leaves : Outcome → Type 0
Leaves none = ⊥
Leaves (some r) = Lit r.0

bind :
    (o : Outcome) (f : Bench × List Act → Outcome)
    → Leaves o
    → ((r : Bench × List Act) → Lit r.0 → Leaves (f r))
    → Leaves (o >>= f)
bind none f h next = h
bind (some r) f h next = next r h

set_led :
    (dev : Neopixel) (i : ℕ) (color : Color)
    → IsStripe dev
    → i < 57
    → neopixel_set_pixel_color dev i color
      ≡ some (record dev { pixels = set dev.pixels i color }, pos 0)
unfolding neopixel_set_pixel_color
set_led dev i color s lt =
    let allowed : ltb dev.led_count i ≡ false = ground (arith, s.1, lt) in
    let inside : ltb i (length dev.pixels) ≡ true = ground (arith, s.0, lt) in
    rw (allowed, inside) refl

-- `after` has the colour from number i on, for `left` LEDs, and is `before` elsewhere.
record Sets (color : Color) (i left : ℕ) (before after : Neopixel) : Type 0 where
  stripe : IsStripe after
  coloured : (j : ℕ) → i ≤ j → j < i + left → get_elem? after.pixels j ≡ some color
  others : (j : ℕ) → (j < i) ⊎ (i + left ≤ j) → get_elem? after.pixels j ≡ get_elem? before.pixels j

set_leds-Sets :
    (color : Color) (i left : ℕ) (dev : Neopixel)
    → IsStripe dev
    → i + left ≤ 57
    → (dev' : Neopixel) × (set_leds color i left dev ≡ some dev') × Sets color i left dev dev'
unfolding set_leds
set_leds-Sets color i zero dev s le = (
  dev,
  refl,
  record { stripe = s; coloured = λ j h k. absurd (omega arith); others = λ j h. refl },
)
set_leds-Sets color i (suc left) dev s le =
    let next : Neopixel = record dev { pixels = set dev.pixels i color } in
    let s' : IsStripe next = (length-set dev.pixels i color ∙ s.0, s.1) in
    let (dev', runs, rest) = set_leds-Sets color (i + 1) left next s' (omega arith) in
    let here : get_elem? dev'.pixels i ≡ some color =
      rest.others i (omega arith) ∙ get_elem?-set_self dev.pixels i color (omega (arith, s.0)) in
    (
      dev',
      rw (set_led dev i color s (omega arith)) runs,
      record {
        stripe = rest.stripe;
        coloured = λ j h k. elim (Bool-cases (j == i)) [
          | inl e ↦ ap (λ (k : ℕ). get_elem? dev'.pixels k) ((==_iff j i).0 e) ∙ here
          | inr ne ↦ rest.coloured j (ground arith) (omega arith)
        ];
        others =
            λ j h. rest.others j (omega arith) ∙ get_elem?-set_ne dev.pixels color (omega arith);
      },
    )

shows : (dev : Neopixel) → IsStripe dev → (acts : List LedAct) × (neopixel_show dev ≡ some acts)
unfolding neopixel_show
shows dev s =
    let (signal, e) = show_loop-some dev.led_count dev.pixels (omega (arith, s.0, s.1)) in
    (gpio_clear ∷ irq_disable ∷ wave signal ∷ irq_restore ∷ [], rw e refl)

diag_leds-Leaves : (b : Bench) → Lit b → Leaves (diag_leds b)
unfolding diag_leds
diag_leds-Leaves b lit =
    let (on, runs, sets) = set_leds-Sets bright 0 57 b.led_stripe lit.0 (omega arith) in
    let (off, runs', sets') = set_leds-Sets dark 0 55 on sets.stripe (omega arith) in
    let (acts, shown) = shows on sets.stripe in
    let (acts', shown') = shows off sets'.stripe in
    rw (runs, shown, runs', shown')
      (
        sets'.stripe,
        (
          sets'.others 55 (omega arith) ∙ sets.coloured 55 (omega arith) (omega arith),
          sets'.others 56 (omega arith) ∙ sets.coloured 56 (omega arith) (omega arith),
        ),
      )

diag_lcd-Leaves : (b : Bench) → Lit b → Leaves (diag_lcd b)
unfolding diag_lcd
diag_lcd-Leaves b lit = let (ram, drawn) = draw_circle_returns 50 10 50 true b.ram in rw drawn lit

terminated : (s : List ℕ) → s ≢ [] → 2 ≤ length (s ++ (0 ∷ []))
terminated [] ne = absurd (ne refl)
terminated (c ∷ s) ne = omega (arith, length-append s (0 ∷ []))

-- The line of the buttons is low within some reads of each round.
abbrev pub Answered : (ℕ → ℕ → Bool) → ℕ → Type 0
Answered line fuel = (i : ℕ) → i < 8 → (k : ℕ) × (k < fuel) × (line i k ≡ false)

module _ (line : ℕ → ℕ → Bool) where
  wait_low_returns :
      (fuel i k j : ℕ) (dev : Multiplexer)
      → line i (k + j) ≡ false
      → j < fuel
      → (r : Multiplexer × List Act) × (wait_low line fuel i k dev ≡ some r)
  unfolding wait_low
  wait_low_returns zero i k j dev low lt = absurd (omega arith)
  wait_low_returns (suc fuel) i k zero dev low lt =
      let now : line i k ≡ false = ap (λ (n : ℕ). line i n) (omega arith) ∙ low in
      let r = multiplexer_receive dev 1 in ((r.0, pins r.1 ∷ []), rw now refl)
  wait_low_returns (suc fuel) i k (suc j) dev low lt =
      let read = multiplexer_receive dev 1 in
      let later : line i (k + 1 + j) ≡ false = ap (λ (n : ℕ). line i n) (omega arith) ∙ low in
      let (r, runs) = wait_low_returns fuel i (k + 1) j read.0 later (omega arith) in
      elim (Bool-cases (line i k)) [
        | inl high ↦ ((r.0, pins read.1 ∷ r.1), rw (high, runs) refl)
        | inr now ↦ ((read.0, pins read.1 ∷ []), rw now refl)
      ]

  button_round-Leaves :
      (fuel i : ℕ) (b : Bench)
      → i < 8
      → Answered line fuel
      → Lit b
      → Leaves (button_round line fuel i b)
  unfolding button_round
  button_round-Leaves fuel i b lt answered lit =
      let (k, few, low) = answered i lt in
      let ((dev, acts), runs) =
        wait_low_returns fuel i 0 k b.multiplexer (ap (λ (n : ℕ). line i n) (omega arith) ∙ low)
          few in
      let (ram, drawn, kept) =
        draw_s-kept 30 30 (codes "Button: " ++ (print_ld i ++ (0 ∷ []))) 10 (clear b.ram)
          (omega (arith, terminated (print_ld i) (print_ld-no_nul i).1)) (omega arith)
          (omega arith) in
      rw (runs, drawn) lit

  diag_buttons-Leaves :
      (fuel i left : ℕ) (b : Bench)
      → i + left ≤ 8
      → Answered line fuel
      → Lit b
      → Leaves (diag_buttons line fuel i left b)
  unfolding diag_buttons
  diag_buttons-Leaves fuel i zero b le answered lit = lit
  diag_buttons-Leaves fuel i (suc left) b le answered lit =
      bind _ _ (button_round-Leaves fuel i b (omega arith) answered lit) (λ r lit'.
        bind _ _ (diag_buttons-Leaves fuel (i + 1) left r.0 (omega arith) answered lit')
          (λ r' lit''. lit''))

  diag_option-Leaves :
      (fuel : ℕ) (option : List ℕ) (b : Bench)
      → Answered line fuel
      → Lit b
      → Leaves (diag_option line fuel option b)
  unfolding diag_option diag_motors
  diag_option-Leaves fuel option b answered lit =
      let lcd = diag_lcd-Leaves b lit in
      let leds = diag_leds-Leaves b lit in
      let buttons = diag_buttons-Leaves fuel 0 8 b (omega arith) answered lit in ground arith

left_by :
    (o : Outcome)
    → Leaves o
    → (b : Bench) × (acts : List Act) × (returned o ≡ some (b, acts, pos 1)) × Lit b
left_by none h = absurd h
left_by (some r) h = (r.0, r.1, refl, h)

-- With an option, known or not, the diagnosis ends with status 1 if the line of the buttons is low
-- within the reads of each of its rounds, and if both LEDs of the display were bright before then
-- they are afterwards, in a stripe that is within its array; the arguments behind the first option
-- are not looked at. Without an option the diagnosis compares a string that does not exist.
pub hw_diag-Lit :
    (line : ℕ → ℕ → Bool) (fuel : ℕ) (name option : List ℕ) (argv : List (List ℕ)) (b : Bench)
    → Answered line fuel
    → Lit b
    → (hw_diag line fuel (name ∷ []) b ≡ none)
      × (hw_diag line fuel (name ∷ option ∷ argv) b ≡ hw_diag line fuel (name ∷ option ∷ []) b)
      × (b' : Bench) × (acts : List Act) × (hw_diag line fuel (name ∷ option ∷ argv) b
          ≡ some (b', acts, pos 1))
      × Lit b'
unfolding hw_diag
hw_diag-Lit line fuel name option argv b answered lit =
    let (b', acts, runs, lit') = left_by _ (diag_option-Leaves line fuel option b answered lit) in
    (refl, refl, b', acts, runs, lit')
