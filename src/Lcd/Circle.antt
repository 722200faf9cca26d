-- ===== src/Lcd/Circle.antt =====
-- `lcd_spi_draw_circle` of retro11/lcd_spi.c. Coordinates are computed as an `int` and passed on as
-- a `uint8_t`, so what leaves the screen on the left or above comes back modulo 256.
pub mod Outline
use package.team.Prelude.{
  ℕ, zero, suc, ◌+◌, ◌-◌, ◌*◌, ◌%◌, ◌≤◌, ◌<◌, ◌≡◌, refl, Bool, true, false, ◌&&◌, Option, none,
  some, arith, ltb, leb, Bool-cases, inl, inr, if◌then◌else◌, ◌>>=◌,
}
use package.team.Prelude.Int.{
  ℤ, pos, negsuc, pos_part, neg_part, ltb_ℤ, ◌+ℤ◌, ◌-ℤ◌, ◌*ℤ◌, ◌≤ℤ◌, +ℤ_parts, -ℤ_parts,
}
use package.team.Lcd.{Ram, set_pixel, draw_line, position_on_screen}
use package.team.Lcd.Line.Draw.{OnScreen, draw_line-Paints, draw_line_off}

-- An `int` as a `uint8_t`.
abbrev pub uint8 : ℤ → ℕ
uint8 (pos n) = n % 256
uint8 (negsuc n) = 255 - n % 256

-- `x + d` and `x - d` as an argument.
abbrev pub plus : ℕ → ℤ → ℕ
plus x d = uint8 (pos x +ℤ d)

abbrev pub minus : ℕ → ℤ → ℕ
minus x d = uint8 (pos x -ℤ d)

module _ (x y : ℕ) where
  unfoldable pub circle_lines : ℤ → ℤ → Ram → Option Ram
  circle_lines a b ram = do
    r0 ← draw_line (minus x a) (plus y b) (plus x a) (plus y b) ram
    r1 ← draw_line (minus x a) (minus y b) (plus x a) (minus y b) r0.0
    r2 ← draw_line (minus x b) (plus y a) (plus x b) (plus y a) r1.0
    r3 ← draw_line (minus x b) (minus y a) (plus x b) (minus y a) r2.0
    some r3.0

  unfoldable pub circle_pixels : ℤ → ℤ → Ram → Ram
  circle_pixels a b ram =
      let r0 = (set_pixel (plus x a) (plus y b) 1 ram).0 in
      let r1 = (set_pixel (plus x b) (plus y a) 1 r0).0 in
      let r2 = (set_pixel (minus x a) (plus y b) 1 r1).0 in
      let r3 = (set_pixel (minus x b) (plus y a) 1 r2).0 in
      let r4 = (set_pixel (plus x b) (minus y a) 1 r3).0 in
      let r5 = (set_pixel (plus x a) (minus y b) 1 r4).0 in
      let r6 = (set_pixel (minus x a) (minus y b) 1 r5).0 in
      (set_pixel (minus x b) (minus y a) 1 r6).0

  -- The loop, with fuel; `none` is fuel that ran out. The tests of P read its old value.
  unfoldable pub circle_loop : ℕ → Bool → ℤ → ℤ → ℤ → Ram → Option Ram
  circle_loop zero fill a b p ram = none
  circle_loop (suc fuel) fill a b p ram =
      let a' = a +ℤ pos 1 in
      let b' = if ltb_ℤ p (pos 0) then b else b -ℤ pos 1 in
      let p' =
        if ltb_ℤ p (pos 0) then p +ℤ (pos 3 +ℤ pos 2 *ℤ a) else p +ℤ (pos 5 +ℤ pos 2 *ℤ (a -ℤ b)) in
      (if fill then circle_lines a b ram else some (circle_pixels a b ram)) >>= (λ ram'.
        let rest = circle_loop fuel fill a' b' p' ram' in if ltb_ℤ b' a' then some ram' else rest)

  -- A radius of r takes at most r + 1 rounds.
  unfoldable pub draw_circle : ℕ → Bool → Ram → Option (Ram × ℤ)
  draw_circle radius fill ram =
      circle_loop (radius + 1) fill (pos 0) (pos radius) (pos 1 -ℤ pos radius) ram
      >>= (λ ram'. some (ram', pos 0))

on-OnScreen :
    (sx sy ex ey : ℕ)
    → (position_on_screen sx sy && position_on_screen ex ey) ≡ true
    → OnScreen sx sy × OnScreen ex ey
unfolding position_on_screen
on-OnScreen sx sy ex ey on = ground arith

-- A line ends, between positions on the screen or not.
draw_line_returns :
    (sx sy ex ey : ℕ) (ram : Ram) → (r : Ram × ℤ) × (draw_line sx sy ex ey ram ≡ some r)
unfolding draw_line
draw_line_returns sx sy ex ey ram =
    elim (Bool-cases (position_on_screen sx sy && position_on_screen ex ey)) [
      | inl on ↦
          let (s, e) = on-OnScreen sx sy ex ey on in
          let (out, runs, paints) = draw_line-Paints sx sy ex ey ram s e in ((out, pos 0), runs)
      | inr off ↦ ((ram, negsuc 0), rw off)
    ]

circle_lines_returns :
    (x y : ℕ) (a b : ℤ) (ram : Ram) → (ram' : Ram) × (circle_lines x y a b ram ≡ some ram')
unfolding circle_lines
circle_lines_returns x y a b ram =
    let (r0, e0) = draw_line_returns (minus x a) (plus y b) (plus x a) (plus y b) ram in
    let (r1, e1) = draw_line_returns (minus x a) (minus y b) (plus x a) (minus y b) r0.0 in
    let (r2, e2) = draw_line_returns (minus x b) (plus y a) (plus x b) (plus y a) r1.0 in
    let (r3, e3) = draw_line_returns (minus x b) (minus y a) (plus x b) (minus y a) r2.0 in
    (r3.0, rw (e0, e1, e2, e3))

painted :
    (x y : ℕ) (fill : Bool) (a b : ℤ) (ram : Ram)
    → (ram' : Ram) × ((if fill then circle_lines x y a b ram else some (circle_pixels x y a b ram))
        ≡ some ram')
painted x y true a b ram = circle_lines_returns x y a b ram
painted x y false a b ram = (circle_pixels x y a b ram, refl)

ends_or_goes_on :
    (ends : Bool) (ram : Ram) (rest : Option Ram)
    → (ends ≡ false → (ram' : Ram) × (rest ≡ some ram'))
    → (ram' : Ram) × ((if ends then some ram else rest) ≡ some ram')
ends_or_goes_on true ram rest more = (ram, refl)
ends_or_goes_on false ram rest more = more refl

pub not-ltb_ℤ : (b a : ℤ) → ltb_ℤ b a ≡ false → a ≤ℤ b
not-ltb_ℤ b a h = ground (arith, h)

pub no_greater : (c : Bool) (b : ℤ) → (if c then b else b -ℤ pos 1) ≤ℤ b
no_greater true b = omega arith
no_greater false b = omega (arith, -ℤ_parts b (pos 1))

-- A round less of fuel is a round less to go.
round_less :
    (a b b' : ℤ) (fuel : ℕ)
    → b' ≤ℤ b
    → b ≤ℤ a +ℤ pos (suc fuel) -ℤ pos 1
    → b' ≤ℤ a +ℤ pos 1 +ℤ pos fuel -ℤ pos 1
round_less a b b' fuel le few = omega (
  arith,
  +ℤ_parts a (pos (suc fuel)),
  -ℤ_parts (a +ℤ pos (suc fuel)) (pos 1),
  +ℤ_parts a (pos 1),
  +ℤ_parts (a +ℤ pos 1) (pos fuel),
  -ℤ_parts (a +ℤ pos 1 +ℤ pos fuel) (pos 1),
)

pub circle_loop_returns :
    (x y fuel : ℕ) (fill : Bool) (a b p : ℤ) (ram : Ram)
    → a ≤ℤ b
    → b ≤ℤ a +ℤ pos fuel -ℤ pos 1
    → (ram' : Ram) × (circle_loop x y fuel fill a b p ram ≡ some ram')
unfolding circle_loop
circle_loop_returns x y zero fill a b p ram le few =
    absurd (omega (arith, +ℤ_parts a (pos 0), -ℤ_parts (a +ℤ pos 0) (pos 1)))
circle_loop_returns x y (suc fuel) fill a b p ram le few =
    let (ram', done) = painted x y fill a b ram in
    let b' = if ltb_ℤ p (pos 0) then b else b -ℤ pos 1 in
    rw done (
      ends_or_goes_on (ltb_ℤ b' (a +ℤ pos 1)) ram' _ (λ more.
        circle_loop_returns x y fuel fill (a +ℤ pos 1) b' _ ram' (not-ltb_ℤ b' (a +ℤ pos 1) more)
          (round_less a b b' fuel (no_greater (ltb_ℤ p (pos 0)) b) few)))

pub first_fuel : (radius : ℕ) → pos radius ≤ℤ pos 0 +ℤ pos (radius + 1) -ℤ pos 1
first_fuel radius =
    omega (arith, +ℤ_parts (pos 0) (pos (radius + 1)), -ℤ_parts (pos 0 +ℤ pos (radius + 1)) (pos 1))

-- A circle ends with status 0, whatever its centre and its radius, filled or not, also where its
-- coordinates leave the screen or wrap around.
pub draw_circle_returns :
    (x y radius : ℕ) (fill : Bool) (ram : Ram)
    → (ram' : Ram) × (draw_circle x y radius fill ram ≡ some (ram', pos 0))
unfolding draw_circle
draw_circle_returns x y radius fill ram =
    let (ram', runs) =
      circle_loop_returns x y (radius + 1) fill (pos 0) (pos radius) (pos 1 -ℤ pos radius) ram
        (omega arith) (first_fuel radius) in
    (ram', rw runs)
