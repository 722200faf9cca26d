-- ===== src/Neopixel/Signal.antt =====
-- Reading the signal back.
use team.Prelude.{
  ℕ, zero, suc, ◌+◌, ◌*◌, ◌/◌, ◌%◌, ap, not, ◌≤◌, ◌<◌, ◌≡◌, refl, ◌∙◌, Bool, true, false, ◌&&◌,
  some, List, [], ◌∷◌, ◌++◌, length, take, drop, arith, leb, ◌==◌, if◌then◌else◌,
}
use team.Prelude.Below.{tests_up_to, every_byte, same_on_bytes}
use team.Neopixel.{
  Color, Neopixel, Pulse, down_loop, up_loop, show_pixel, show_loop, neopixel_show, wave,
  gpio_clear, irq_disable, irq_restore,
}

-- A pulse that is high for longer than it is low is a 1.
abbrev pub is_one : Pulse → ℕ
is_one p = if leb p.low p.high then 1 else 0

-- The number whose highest bit comes first, and the number whose lowest bit comes first.
abbrev pub high_first : ℕ → List Pulse → ℕ
high_first acc [] = acc
high_first acc (p ∷ s) = high_first (2 * acc + is_one p) s

abbrev pub low_first : List Pulse → ℕ
low_first [] = 0
low_first (p ∷ s) = is_one p + 2 * low_first s

-- The colours of n LEDs, of 24 pulses each: green with its highest bit first, then red and blue
-- with their lowest bit first.
abbrev pub receive : ℕ → List Pulse → List Color
receive zero s = []
receive (suc n) s =
    record {
      r = low_first (take 8 (drop 8 s));
      g = high_first 0 (take 8 s);
      b = low_first (take 8 (drop 16 s));
    }
    ∷ receive n (drop 24 s)

abbrev iff : Bool → Bool → Bool
iff true b = b
iff false b = not b

iff_eq : (a b : Bool) → iff a b ≡ true → a ≡ b
iff_eq a b h = ground arith

down_table : tests_up_to (λ c. high_first 0 (down_loop c 8) == c) 256 ≡ true
unfolding tests_up_to down_loop
down_table = refl

up_table : tests_up_to (λ c. low_first (up_loop c 0 8) == c) 256 ≡ true
unfolding tests_up_to up_loop
up_table = refl

high_first-down_loop : (c : ℕ) → c < 256 → high_first 0 (down_loop c 8) ≡ c
high_first-down_loop c h = same_on_bytes (λ x. high_first 0 (down_loop x 8)) (λ x. x) down_table c h

low_first-up_loop : (c : ℕ) → c < 256 → low_first (up_loop c 0 8) ≡ c
low_first-up_loop c h = same_on_bytes (λ x. low_first (up_loop x 0 8)) (λ x. x) up_table c h

-- Each part of a colour is a byte.
pub record IsColor (c : Color) : Type 0 where
  pub r_byte : c.r < 256
  pub g_byte : c.g < 256
  pub b_byte : c.b < 256

abbrev pub AreColors : List Color → Type 0
AreColors [] = Unit
AreColors (c ∷ l) = IsColor c × AreColors l

same_color :
    (r g b r' g' b' : ℕ) (l : List Color)
    → r ≡ r'
    → g ≡ g'
    → b ≡ b'
    → ◌≡◌ {A = List Color}
        (record { r = r; g = g; b = b } ∷ l)
        (record { r = r'; g = g'; b = b' } ∷ l)
same_color r g b r' g' b' l er eg eb = cc

receive-show_pixel :
    (c : Color) (n : ℕ) (s : List Pulse)
    → IsColor c
    → receive (suc n) (show_pixel c ++ s) ≡ c ∷ receive n s
unfolding show_pixel
receive-show_pixel c n s i =
    same_color (low_first (up_loop c.r 0 8)) (high_first 0 (down_loop c.g 8))
      (low_first (up_loop c.b 0 8)) c.r c.g c.b (receive n s) (low_first-up_loop c.r i.r_byte)
      (high_first-down_loop c.g i.g_byte) (low_first-up_loop c.b i.b_byte)

show_loop-receive :
    (n : ℕ) (l : List Color)
    → AreColors l
    → n ≤ length l
    → (s : List Pulse) × (show_loop n l ≡ some s) × (receive n s ≡ take n l)
unfolding show_loop
show_loop-receive zero l cs le = ([], refl, refl)
show_loop-receive (suc n) [] cs le = absurd (omega arith)
show_loop-receive (suc n) (c ∷ l) cs le =
    let (s, runs, back) = show_loop-receive n l cs.1 (omega arith) in
    (
      show_pixel c ++ s,
      rw runs,
      receive-show_pixel c n s cs.0 ∙ ap (λ (t : List Color). c ∷ t) back,
    )

-- If all colours are bytes and the array has a colour for each LED, what is shown is one wave with
-- the interrupts off and the line low before it. A receiver of 24 pulses for each LED, that takes
-- green with its highest bit first and red and blue with their lowest bit first, reads exactly the
-- colours of the LEDs in their order.
pub neopixel_show-receive :
    (dev : Neopixel)
    → AreColors dev.pixels
    → dev.led_count ≤ length dev.pixels
    → (s : List Pulse) × (neopixel_show dev
        ≡ some (gpio_clear ∷ irq_disable ∷ wave s ∷ irq_restore ∷ []))
      × (receive dev.led_count s ≡ take dev.led_count dev.pixels)
unfolding neopixel_show
neopixel_show-receive dev cs le =
    let (s, runs, back) = show_loop-receive dev.led_count dev.pixels cs le in (s, rw runs, back)

-- Whether the bits of a byte read the same in both directions.
abbrev pub symmetric : ℕ → Bool
symmetric c =
    (c % 2 == c / 128 % 2)
    && ((c / 2 % 2 == c / 64 % 2) && ((c / 4 % 2 == c / 32 % 2) && (c / 8 % 2 == c / 16 % 2)))

reversed_table : tests_up_to (λ c. iff (high_first 0 (up_loop c 0 8) == c) (symmetric c)) 256 ≡ true
unfolding tests_up_to up_loop
reversed_table = refl

-- Red and blue are sent with their lowest bit first, so a receiver that takes the highest bit
-- first, as it has to for green, reads such a byte as it was meant exactly if its bits are
-- symmetric.
up_loop-reversed : (c : ℕ) → c < 256 → (high_first 0 (up_loop c 0 8) == c) ≡ symmetric c
up_loop-reversed c h = iff_eq _ _ (every_byte _ reversed_table c h)
