-- ===== src/Lcd/Circle/Outline.antt =====
-- Where the outline of a circle leaves the frame buffer as it was.
use mathlib.Core.Option.{some-injective}
use team.Prelude.{
  ℕ, zero, suc, ◌+◌, ◌≤◌, ◌<◌, ◌≡◌, refl, sym, ap, ◌∙◌, ◌⊎◌, inl, inr, Bool, true, false, some,
  arith, if◌then◌else◌, Option,
}
use team.Prelude.Int.{ℤ, pos, ltb_ℤ, ◌+ℤ◌, ◌-ℤ◌, ◌≤ℤ◌, +ℤ_parts}
use team.Lcd.{Ram, set_pixel}
use team.Lcd.Letters.{set_pixel-at}
use team.Lcd.Circle.{
  plus, minus, circle_pixels, circle_loop, draw_circle, not-ltb_ℤ, no_greater, circle_loop_returns,
  first_fuel,
}

-- Farther than r from x in one coordinate.
abbrev pub Far : ℕ → ℕ → ℕ → Type 0
Far x r p = (p + r < x) ⊎ (x + r < p)

abbrev Near : ℕ → ℕ → ℕ → Type 0
Near x r u = (x ≤ u + r) × (u ≤ x + r)

module _ (x r : ℕ) (d : ℤ) (up : pos 0 ≤ℤ d) (within_r : d ≤ℤ pos r) where
  plus-Near : x + r < 256 → Near x r (plus x d)
  unfolding ◌+ℤ◌
  plus-Near fits = ground arith

  minus-Near : r ≤ x → x + r < 256 → Near x r (minus x d)
  unfolding ◌-ℤ◌
  minus-Near fits small = ground arith

-- One pixel that is set leaves those alone that are far from it in a coordinate.
pixel_off :
    (x y r u v p q : ℕ) (ram : Ram)
    → Near x r u
    → Near y r v
    → Far x r p ⊎ Far y r q
    → (set_pixel u v 1 ram).0 p q ≡ ram p q
pixel_off x y r u v p q ram nu nv far = set_pixel-at u v 1 ram p q (omega arith) ∙ ground arith

circle_pixels_off :
    (x y r p q : ℕ) (a b : ℤ) (ram : Ram)
    → r ≤ x
    → r ≤ y
    → x + r < 256
    → y + r < 256
    → pos 0 ≤ℤ a
    → a ≤ℤ b
    → b ≤ℤ pos r
    → Far x r p ⊎ Far y r q
    → circle_pixels x y a b ram p q ≡ ram p q
unfolding circle_pixels
circle_pixels_off x y r p q a b ram rx ry fx fy ua ab br far =
    let ar : a ≤ℤ pos r = omega arith in
    let ub : pos 0 ≤ℤ b = omega arith in
    let pxa = plus-Near x r a ua ar fx in
    let pxb = plus-Near x r b ub br fx in
    let mxa = minus-Near x r a ua ar rx fx in
    let mxb = minus-Near x r b ub br rx fx in
    let pya = plus-Near y r a ua ar fy in
    let pyb = plus-Near y r b ub br fy in
    let mya = minus-Near y r a ua ar ry fy in
    let myb = minus-Near y r b ub br ry fy in
    pixel_off x y r (minus x b) (minus y a) p q _ mxb mya far
    ∙ (pixel_off x y r (minus x a) (minus y b) p q _ mxa myb far
        ∙ (pixel_off x y r (plus x a) (minus y b) p q _ pxa myb far
            ∙ (pixel_off x y r (plus x b) (minus y a) p q _ pxb mya far
                ∙ (pixel_off x y r (minus x b) (plus y a) p q _ mxb pya far
                    ∙ (pixel_off x y r (minus x a) (plus y b) p q _ mxa pyb far
                        ∙ (pixel_off x y r (plus x b) (plus y a) p q _ pxb pya far
                            ∙ pixel_off x y r (plus x a) (plus y b) p q _ pxa pyb far))))))

ended_or_went_on :
    (ends : Bool) (ram ram' : Ram) (rest : Option Ram)
    → (if ends then some ram else rest) ≡ some ram'
    → (ram ≡ ram') ⊎ ((ends ≡ false) × (rest ≡ some ram'))
ended_or_went_on true ram ram' rest h = inl (some-injective _ _ h)
ended_or_went_on false ram ram' rest h = inr (refl, h)

module _ (x y r p q : ℕ) (rx : r ≤ x) (ry : r ≤ y) (fx : x + r < 256) (fy : y + r < 256)
    (far : Far x r p ⊎ Far y r q) where
  circle_loop_off :
      (fuel : ℕ) (a b d : ℤ) (ram ram' : Ram)
      → pos 0 ≤ℤ a
      → a ≤ℤ b
      → b ≤ℤ pos r
      → circle_loop x y fuel false a b d ram ≡ some ram'
      → ram' p q ≡ ram p q
  unfolding circle_loop
  circle_loop_off zero a b d ram ram' ua ab br runs = ground (arith, runs)
  circle_loop_off (suc fuel) a b d ram ram' ua ab br runs =
      let off = circle_pixels_off x y r p q a b ram rx ry fx fy ua ab br far in
      let a' = a +ℤ pos 1 in
      let b' = if ltb_ℤ d (pos 0) then b else b -ℤ pos 1 in
      elim (ended_or_went_on (ltb_ℤ b' a') (circle_pixels x y a b ram) ram' _ runs) [
        | inl e ↦ ap (λ (m : Ram). m p q) (sym e) ∙ off
        | inr more ↦
            circle_loop_off fuel a' b' _ (circle_pixels x y a b ram) ram'
              (omega (arith, +ℤ_parts a (pos 1), ua)) (not-ltb_ℤ b' a' more.0)
              (omega (arith, no_greater (ltb_ℤ d (pos 0)) b, br)) more.1
            ∙ off
      ]

-- Where the square of 2 * radius + 1 pixels around the centre has byte coordinates, drawing the
-- outline of a circle ends with status 0 and leaves every pixel outside that square as it was.
pub draw_circle-off :
    (x y radius : ℕ) (ram : Ram) (p q : ℕ)
    → radius ≤ x
    → radius ≤ y
    → x + radius < 256
    → y + radius < 256
    → Far x radius p ⊎ Far y radius q
    → (ram' : Ram) × (draw_circle x y radius false ram ≡ some (ram', pos 0)) × (ram' p q ≡ ram p q)
unfolding draw_circle
draw_circle-off x y radius ram p q rx ry fx fy far =
    let (ram', runs) =
      circle_loop_returns x y (radius + 1) false (pos 0) (pos radius) (pos 1 -ℤ pos radius) ram
        (omega arith) (first_fuel radius) in
    (
      ram',
      rw runs,
      circle_loop_off x y radius p q rx ry fx fy far (radius + 1) (pos 0) (pos radius)
          (pos 1 -ℤ pos radius) ram ram' (omega arith) (omega arith) (omega arith) runs,
    )
