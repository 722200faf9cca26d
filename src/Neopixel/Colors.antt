-- ===== src/Neopixel/Colors.antt =====
-- The colours in memory.
use team.Prelude.{
  ℕ, zero, suc, ◌≤◌, ◌<◌, ◌≡◌, ◌≢◌, refl, none, some, List, [], ◌∷◌, length, set,
  get_elem?-set_self, get_elem?-set_ne, arith,
}
use team.Prelude.Int.{pos}
use team.Neopixel.{
  Color, Neopixel, neopixel_set_pixel_color, neopixel_get_pixel_color, neopixel_show, show_loop,
}

-- A colour that is set can be read back, and the others are as they were: for an index up to the
-- count of LEDs and within the array, both calls have status 0, reading the index gives the new
-- colour, and reading any other index gives what it gave before.
set-get :
    (dev : Neopixel) (index : ℕ) (c old : Color)
    → index ≤ dev.led_count
    → index < length dev.pixels
    → (dev' : Neopixel) × (neopixel_set_pixel_color dev index c ≡ some (dev', pos 0))
      × (neopixel_get_pixel_color dev' index old ≡ some (c, pos 0))
      × ((j : ℕ)
          → index ≢ j
          → neopixel_get_pixel_color dev' j old ≡ neopixel_get_pixel_color dev j old)
unfolding neopixel_set_pixel_color neopixel_get_pixel_color
set-get dev index c old le lt = (
  record dev { pixels = set dev.pixels index c },
  ground arith,
  ground (arith, get_elem?-set_self dev.pixels index c),
  λ j ne. rw (get_elem?-set_ne dev.pixels c ne),
)

show_loop_behind :
    (n i : ℕ) (l : List Color) (c : Color) → n ≤ i → show_loop n (set l i c) ≡ show_loop n l
unfolding show_loop
show_loop_behind zero i l c h = refl
show_loop_behind (suc n) i [] c h = refl
show_loop_behind (suc n) zero (x ∷ l) c h = absurd (omega arith)
show_loop_behind (suc n) (suc i) (x ∷ l) c h = rw (show_loop_behind n i l c (omega arith))

-- The index equal to the count of LEDs is not refused although no LED has it: if the array is
-- longer, the status is 0 and the signal that is shown is the same as before; if the array is as
-- long as the stripe, the write leaves the array.
pub set_behind :
    (dev : Neopixel) (c : Color)
    → (dev.led_count < length dev.pixels
        → (dev' : Neopixel) × (neopixel_set_pixel_color dev dev.led_count c ≡ some (dev', pos 0))
          × (neopixel_show dev' ≡ neopixel_show dev))
      × (dev.led_count ≡ length dev.pixels → neopixel_set_pixel_color dev dev.led_count c ≡ none)
unfolding neopixel_set_pixel_color neopixel_show
set_behind dev c = (
  λ lt. (
    record dev { pixels = set dev.pixels dev.led_count c },
    ground arith,
    rw (show_loop_behind dev.led_count dev.led_count dev.pixels c (omega arith)),
  ),
  λ e. ground arith,
)
