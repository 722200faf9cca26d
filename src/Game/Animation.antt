-- ===== src/Game/Animation.antt =====
-- The animations of the LED stripe, `play_winner_animation` and `play_looser_animation` of
-- retro11/game.c.
pub mod Blink
use package.team.Prelude.{
  ℕ, zero, suc, ◌+◌, ◌%◌, Bool, true, false, not, Option, some, List, [], ◌∷◌, ◌==◌, if◌then◌else◌,
  ◌>>=◌,
}
use package.team.Neopixel.{Color, Neopixel, Act, neopixel_set_pixel_color, neopixel_show}

-- What is seen: the stripe takes a signal, and the thread sleeps for microseconds.
pub data Frame : Type 0 where
  shown : List Act → Frame
  slept : ℕ → Frame

-- The colours of the two functions, for a LED that is on or off.
abbrev pub green : Bool → Color
green on = record { r = 0; g = if on then 255 else 0; b = 0 }

abbrev pub red : Bool → Color
red on = record { r = if on then 255 else 0; g = 0; b = 0 }

abbrev pub lit : Bool → ℕ → Bool
lit flip j = if j % 2 == 0 then not flip else flip

-- Both functions with their colour.
module _ (shade : Bool → Color) where
  -- The loop over the LEDs, from j on.
  unfoldable pub paint_loop : Bool → ℕ → ℕ → Neopixel → Option Neopixel
  paint_loop flip j zero dev = some dev
  paint_loop flip j (suc left) dev =
      neopixel_set_pixel_color dev j (shade (lit flip j)) >>= λ (dev', status).
      paint_loop flip (j + 1) left dev'

  -- The loop over the frames. `led_count - 2` is a `uint32_t`.
  unfoldable pub frame_loop : Bool → ℕ → Neopixel → Option (Neopixel × List Frame)
  frame_loop flip zero dev = some (dev, [])
  frame_loop flip (suc left) dev = do
    dev' ← paint_loop flip 0 ((dev.led_count + 4294967294) % 4294967296) dev
    signal ← neopixel_show dev'
    (last, frames) ← frame_loop (not flip) left dev'
    some (last, shown signal ∷ slept 200000 ∷ frames)

unfoldable pub play_winner_animation : Neopixel → Option (Neopixel × List Frame)
play_winner_animation dev = frame_loop green true 20 dev

unfoldable pub play_looser_animation : Neopixel → Option (Neopixel × List Frame)
play_looser_animation dev = frame_loop red true 20 dev
