-- ===== src/Neopixel.antt =====
-- The driver of the LED stripe (retro11/neopixel.c): the colours in memory and the signal on the
-- data line.
pub mod Colors
pub mod Signal
use package.team.Prelude.{
  ℕ, zero, suc, ◌+◌, ◌*◌, ◌/◌, ◌%◌, ◌^◌, Bool, Option, none, some, List, [], ◌∷◌, ◌++◌, length, set,
  get_elem?, ltb, leb, ◌==◌, if◌then◌else◌, ◌>>=◌,
}
use package.team.Prelude.Int.{ℤ, pos, negsuc}

-- `color_rgb_t`, three bytes.
pub record Color : Type 0 where
  pub r : ℕ
  pub g : ℕ
  pub b : ℕ

-- `neopixel_t`. `pixels` is the array of 128 colours.
pub record Neopixel : Type 0 where
  pub led_count : ℕ
  pub data_out : ℕ
  pub pixels : List Color

-- `gpio_init` is RIOT's and answers with a status; the array is as the memory was.
unfoldable pub neopixel_init : (ℕ → ℤ) → ℕ → ℕ → Neopixel → Neopixel × ℤ
neopixel_init gpio_init led_count data_out dev = elim (gpio_init data_out) [
  | negsuc n ↦ (dev, negsuc 0)
  | pos n ↦ (record dev { led_count = led_count; data_out = data_out }, pos 0)
]

-- The new device and the status; a write outside the array is undefined: `none`.
unfoldable pub neopixel_set_pixel_color : Neopixel → ℕ → Color → Option (Neopixel × ℤ)
neopixel_set_pixel_color dev index pixel =
    if ltb dev.led_count index
    then some (dev, negsuc 0)
    else if ltb index (length dev.pixels)
    then some (record dev { pixels = set dev.pixels index pixel }, pos 0)
    else none

-- The colour behind the pointer and the status. `pixel` is what stood there before.
unfoldable pub neopixel_get_pixel_color : Neopixel → ℕ → Color → Option (Color × ℤ)
neopixel_get_pixel_color dev index pixel =
    if ltb dev.led_count index
    then some (pixel, negsuc 0)
    else get_elem? dev.pixels index >>= (λ c. some (c, pos 0))

-- A pulse: how many `nop`s the line stays high, and then low.
pub record Pulse : Type 0 where
  pub high : ℕ
  pub low : ℕ

abbrev pub pulse : Bool → Pulse
pulse bit = if bit then record { high = 19; low = 12 } else record { high = 1; low = 30 }

-- `(c >> j & 1) == 1`.
abbrev pub bit : ℕ → ℕ → Bool
bit c j = (c / 2 ^ j) % 2 == 1

-- `for (j = 7; j > -1; --j)`, from the round j - 1 on.
unfoldable pub down_loop : ℕ → ℕ → List Pulse
down_loop c zero = []
down_loop c (suc j) = pulse (bit c j) ∷ down_loop c j

-- `for (j = 0; j < 8; ++j)`, with the rounds left.
unfoldable pub up_loop : ℕ → ℕ → ℕ → List Pulse
up_loop c j zero = []
up_loop c j (suc left) = pulse (bit c j) ∷ up_loop c (j + 1) left

unfoldable pub show_pixel : Color → List Pulse
unfolding down_loop up_loop
show_pixel c = down_loop c.g 8 ++ (up_loop c.r 0 8 ++ up_loop c.b 0 8)

-- The pulses for the first n pixels; a read outside the array is undefined: `none`.
unfoldable pub show_loop : ℕ → List Color → Option (List Pulse)
unfolding show_pixel
show_loop zero pixels = some []
show_loop (suc n) [] = none
show_loop (suc n) (c ∷ pixels) = show_loop n pixels >>= (λ s. some (show_pixel c ++ s))

-- What happens on the board.
pub data Act : Type 0 where
  gpio_clear irq_disable irq_restore : Act
  wave : List Pulse → Act

unfoldable pub neopixel_show : Neopixel → Option (List Act)
unfolding show_loop
neopixel_show dev =
    show_loop dev.led_count dev.pixels
    >>= (λ s. some (gpio_clear ∷ irq_disable ∷ wave s ∷ irq_restore ∷ []))
