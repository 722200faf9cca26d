-- ===== src/Lcd/Line/Draw.antt =====
-- `lcd_spi_draw_line` between any two positions.
use team.Prelude.{ℕ, ◌+◌, ◌<◌, ◌≡◌, refl, Bool, true, false, ◌&&◌, some, arith, ltb}
use team.Prelude.Int.{ℤ, pos, negsuc, pos_part, neg_part, abs, ◌-ℤ◌, ◌+ℤ◌, +ℤ_parts}
use team.Lcd.{Ram, draw_line, position_on_screen}
use team.Lcd.Line.Step.{Away, Spans}
use team.Lcd.Line.Paint.{Paints}
use team.Lcd.Line.Loop.{Stands, line_loop-Paints}

-- A position within 128 columns and 64 rows.
abbrev pub OnScreen : ℕ → ℕ → Type 0
OnScreen x y = (x < 128) × (y < 64)

pub both_on :
    (sx sy ex ey : ℕ)
    → OnScreen sx sy
    → OnScreen ex ey
    → (position_on_screen sx sy && position_on_screen ex ey) ≡ true
unfolding position_on_screen
both_on sx sy ex ey s e = ground arith

pub not_both_on :
    (sx sy ex ey : ℕ)
    → ¬ (OnScreen sx sy × OnScreen ex ey)
    → (position_on_screen sx sy && position_on_screen ex ey) ≡ false
unfolding position_on_screen
not_both_on sx sy ex ey off = ground arith

-- The distance of two coordinates, and its sign.
abs_difference :
    (s e : ℕ) → let d = abs (pos e -ℤ pos s) in (neg_part d ≡ 0) × Away (ltb s e) s e (pos_part d)
unfolding abs ◌-ℤ◌
abs_difference s e = ground arith

negated_parts :
    (d : ℤ) → neg_part d ≡ 0 → (pos_part (pos 0 -ℤ d) ≡ 0) × (neg_part (pos 0 -ℤ d) ≡ pos_part d)
unfolding ◌-ℤ◌
negated_parts d h = ground arith

Away-le : (up : Bool) (s e n k : ℕ) → s < k → e < k → Away up s e n → n < k
Away-le true s e n k hs he h = omega arith
Away-le false s e n k hs he h = omega arith

-- Between any two positions on the screen the drawing of a line ends with status 0: pixels change
-- only to 1 and only between the two ends, and every row and every column between them gets a
-- pixel.
pub draw_line-Paints :
    (sx sy ex ey : ℕ) (ram : Ram)
    → OnScreen sx sy
    → OnScreen ex ey
    → (out : Ram) × (draw_line sx sy ex ey ram ≡ some (out, pos 0)) × Paints sx sy ex ey ram out
unfolding draw_line
draw_line-Paints sx sy ex ey ram s e =
    let d = abs (pos ex -ℤ pos sx) in
    let h = abs (pos ey -ℤ pos sy) in
    let (dx_neg, cols) = abs_difference sx ex in
    let (h_neg, rows) = abs_difference sy ey in
    let (dy_pos, dy_neg) = negated_parts h h_neg in
    let a = pos_part d in
    let b = pos_part h in
    let dy = pos 0 -ℤ h in
    let spans : Spans a b d dy = record {
      dx_pos = refl;
      dx_neg = dx_neg;
      dy_pos = dy_pos;
      dy_neg = dy_neg;
    } in
    let start : Stands a b d dy spans (ltb sx ex) (ltb sy ey) ex ey e.0 e.1 a b sx sy (d +ℤ dy) =
      record {
        cols = cols;
        rows = rows;
        error = omega (arith, +ℤ_parts d dy, spans);
        wide = omega arith;
        high = omega arith;
        on_x = s.0;
        on_y = s.1;
      } in
    let few : a + b < 191 = omega (
      arith,
      Away-le (ltb sx ex) sx ex a 128 s.0 e.0 cols,
      Away-le (ltb sy ey) sy ey b 64 s.1 e.1 rows,
    ) in
    let (out, runs, paints) =
      line_loop-Paints a b d dy spans (ltb sx ex) (ltb sy ey) ex ey e.0 e.1 191 a b sx sy (d +ℤ dy)
        ram start few in
    (out, rw (both_on sx sy ex ey s e) (rw runs), paints)

-- If either end is off the screen, nothing is drawn and the status is -1.
pub draw_line_off :
    (sx sy ex ey : ℕ) (ram : Ram)
    → ¬ (OnScreen sx sy × OnScreen ex ey)
    → draw_line sx sy ex ey ram ≡ some (ram, negsuc 0)
unfolding draw_line
draw_line_off sx sy ex ey ram off = rw (not_both_on sx sy ex ey off)
