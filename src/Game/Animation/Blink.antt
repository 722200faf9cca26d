-- ===== src/Game/Animation/Blink.antt =====
-- What an animation shows, and which LEDs it leaves alone (retro11/game.c, 24-96).
use mathlib.Core.List.{append_assoc}
use team.Prelude.{
  ℕ, zero, suc, ◌+◌, ◌-◌, ◌%◌, ◌≤◌, ◌<◌, ◌≡◌, refl, ◌∙◌, ap, Bool, true, false, not, Option, some,
  List, [], ◌∷◌, ◌++◌, length, length-append, set, get_elem?, arith, ltb, if◌then◌else◌,
}
use team.Neopixel.{
  Color, Neopixel, Act, gpio_clear, irq_disable, irq_restore, wave, neopixel_set_pixel_color,
  neopixel_show, Pulse, show_pixel, show_loop,
}
use team.Game.Animation.{
  Frame, shown, slept, green, red, lit, paint_loop, frame_loop, play_winner_animation,
  play_looser_animation,
}

-- The colours with the first n, which stand from place j on, painted over.
abbrev painted : (ℕ → Color) → ℕ → ℕ → List Color → List Color
painted f j zero l = l
painted f j (suc n) [] = []
painted f j (suc n) (x ∷ l) = f j ∷ painted f (j + 1) n l

length-painted : (f : ℕ → Color) (j n : ℕ) (l : List Color) → length (painted f j n l) ≡ length l
length-painted f j zero l = refl
length-painted f j (suc n) [] = refl
length-painted f j (suc n) (x ∷ l) = ap suc (length-painted f (j + 1) n l)

painted-painted :
    (f g : ℕ → Color) (j n : ℕ) (l : List Color) → painted f j n (painted g j n l) ≡ painted f j n l
painted-painted f g j zero l = refl
painted-painted f g j (suc n) [] = refl
painted-painted f g j (suc n) (x ∷ l) =
    ap (λ (t : List Color). f j ∷ t) (painted-painted f g (j + 1) n l)

get_elem?-painted :
    (f : ℕ → Color) (j n i : ℕ) (l : List Color)
    → n ≤ length l
    → get_elem? (painted f j n l) i ≡ (if ltb i n then some (f (j + i)) else get_elem? l i)
get_elem?-painted f j zero i l le = ground arith
get_elem?-painted f j (suc n) i [] le = absurd (omega arith)
get_elem?-painted f j (suc n) zero (x ∷ l) le = ground arith
get_elem?-painted f j (suc n) (suc i) (x ∷ l) le =
    let at : j + 1 + i ≡ j + suc i = omega arith in
    let same : ltb (suc i) (suc n) ≡ ltb i n = ground arith in
    rw (same, ← at) (get_elem?-painted f (j + 1) n i l (omega arith))

set-append :
    (pre l : List Color) (x c : Color) (j : ℕ)
    → length pre ≡ j
    → set (pre ++ x ∷ l) j c ≡ (pre ++ c ∷ []) ++ l
set-append [] l x c zero e = refl
set-append [] l x c (suc j) e = absurd (omega (arith, e))
set-append (y ∷ pre) l x c zero e = absurd (omega (arith, e))
set-append (y ∷ pre) l x c (suc j) e =
    ap (λ (t : List Color). y ∷ t) (set-append pre l x c j (omega (arith, e)))

pub show_loop-some :
    (n : ℕ) (l : List Color) → n ≤ length l → (s : List Pulse) × (show_loop n l ≡ some s)
unfolding show_loop
show_loop-some zero l le = ([], refl)
show_loop-some (suc n) [] le = absurd (omega arith)
show_loop-some (suc n) (c ∷ l) le =
    let (s, e) = show_loop-some n l (omega arith) in (show_pixel c ++ s, rw e refl)

-- The frames from one on, by the signal of each.
abbrev pub film : (Bool → List Act) → Bool → ℕ → List Frame
film signal flip zero = []
film signal flip (suc k) = shown (signal flip) ∷ slept 200000 ∷ film signal (not flip) k

module _ (shade : Bool → Color) where
  abbrev colour : Bool → ℕ → Color
  colour flip i = shade (lit flip i)

  paint_loop_lem :
      (flip : Bool) (j left : ℕ) (dev : Neopixel) (pre l : List Color)
      → dev.pixels ≡ pre ++ l
      → length pre ≡ j
      → left ≤ length l
      → j + left ≤ dev.led_count
      → paint_loop shade flip j left dev
        ≡ some (record dev { pixels = pre ++ painted (colour flip) j left l })
  unfolding paint_loop neopixel_set_pixel_color
  paint_loop_lem flip j zero dev pre l e at le room =
      ap (λ (t : List Color). some (record dev { pixels = t })) e
  paint_loop_lem flip j (suc left) dev pre [] e at le room = absurd (omega arith)
  paint_loop_lem flip j (suc left) dev pre (x ∷ l) e at le room =
      let c = colour flip j in
      let allowed : ltb dev.led_count j ≡ false = ground (arith, room) in
      let inside : ltb j (length dev.pixels) ≡ true =
        ground (arith, ap (length {A = Color}) e, length-append pre (x ∷ l), at) in
      let written : set dev.pixels j c ≡ (pre ++ c ∷ []) ++ l =
        ap (λ (t : List Color). set t j c) e ∙ set-append pre l x c j at in
      let dev' : Neopixel = record dev { pixels = set dev.pixels j c } in
      rw (allowed, inside)
        (paint_loop_lem flip (j + 1) left dev' (pre ++ c ∷ []) l written
            (omega (arith, at, length-append pre (c ∷ []))) (omega (arith, le))
            (omega (arith, room))
          ∙ ap (λ (t : List Color). some (record dev { pixels = t }))
              (append_assoc pre (c ∷ []) (painted (colour flip) (j + 1) left l)))

  module _ (dev : Neopixel) (two : 2 ≤ dev.led_count) (room : dev.led_count ≤ length dev.pixels)
      (word : dev.led_count < 4294967296) where
    abbrev picture : Bool → List Color
    picture flip = painted (colour flip) 0 (dev.led_count - 2) dev.pixels

    picture_signal :
        (flip : Bool)
        → (signal : List Act) × (neopixel_show (record dev { pixels = picture flip }) ≡ some signal)
    unfolding neopixel_show
    picture_signal flip =
        let (s, e) =
          show_loop-some dev.led_count (picture flip)
            (omega (arith, room, length-painted (colour flip) 0 (dev.led_count - 2) dev.pixels)) in
        (gpio_clear ∷ irq_disable ∷ wave s ∷ irq_restore ∷ [], rw e refl)

    last_picture : Bool → ℕ → List Color → List Color
    last_picture flip zero p = p
    last_picture flip (suc k) p = last_picture (not flip) k (picture flip)

    frame_loop_lem :
        (flip : Bool) (k : ℕ) (p : List Color)
        → ((b : Bool) → painted (colour b) 0 (dev.led_count - 2) p ≡ picture b)
        → length p ≡ length dev.pixels
        → frame_loop shade flip k (record dev { pixels = p })
          ≡ some (
            record dev { pixels = last_picture flip k p },
            film (λ b. (picture_signal b).0) flip k,
          )
    unfolding frame_loop last_picture
    frame_loop_lem flip zero p over size = refl
    frame_loop_lem flip (suc k) p over size =
        let n : (dev.led_count + 4294967294) % 4294967296 ≡ dev.led_count - 2 =
          omega (arith, two, word) in
        let painted_p =
          paint_loop_lem flip 0 (dev.led_count - 2) (record dev { pixels = p }) [] p refl refl
            (omega (arith, room, size)) (omega arith) in
        rw
          (
            n,
            painted_p,
            over flip,
            (picture_signal flip).1,
            frame_loop_lem (not flip) k (picture flip)
                (λ b. painted-painted (colour b) (colour flip) 0 (dev.led_count - 2) dev.pixels)
                (length-painted (colour flip) 0 (dev.led_count - 2) dev.pixels),
          )
          refl

-- What an animation comes to: the last picture, and twenty frames of two pictures in turn.
abbrev pub Blinks : (Bool → Color) → Neopixel → Option (Neopixel × List Frame) → Type 0
Blinks shade dev r =
    (picture : Bool → List Color) × (signal : Bool → List Act) × (r
      ≡ some (record dev { pixels = picture false }, film signal true 20))
    × ((b : Bool) → neopixel_show (record dev { pixels = picture b }) ≡ some (signal b))
    × ((b : Bool) (i : ℕ)
        → get_elem? (picture b) i
          ≡ (if ltb i (dev.led_count - 2) then some (shade (lit b i)) else get_elem? dev.pixels i))

Blinks_lem :
    (shade : Bool → Color) (dev : Neopixel)
    → 2 ≤ dev.led_count
    → dev.led_count ≤ length dev.pixels
    → dev.led_count < 4294967296
    → Blinks shade dev (frame_loop shade true 20 dev)
unfolding last_picture
Blinks_lem shade dev two room word = (
  picture shade dev two room word,
  (λ b. (picture_signal shade dev two room word b).0),
  frame_loop_lem shade dev two room word true 20 dev.pixels (λ b. refl) refl,
  (λ b. (picture_signal shade dev two room word b).1),
  (λ b i.
      let start : 0 + i ≡ i = omega arith in
      rw start at (
        get_elem?-painted (colour shade b) 0 (dev.led_count - 2) i dev.pixels
          (omega (arith, room)))),
)

-- With at least two LEDs, and an array that has all of them, both animations end after twenty
-- frames of 0.2 seconds. The frames show two pictures in turn, in which every second LED is lit,
-- green for the winner and red for the looser, first the odd ones; the last two LEDs, which light
-- the display, keep their colours throughout.
pub animations-Blinks :
    (dev : Neopixel)
    → 2 ≤ dev.led_count
    → dev.led_count ≤ length dev.pixels
    → dev.led_count < 4294967296
    → Blinks green dev (play_winner_animation dev) × Blinks red dev (play_looser_animation dev)
unfolding play_winner_animation play_looser_animation
animations-Blinks dev two room word =
    (Blinks_lem green dev two room word, Blinks_lem red dev two room word)
