-- ===== src/Lcd.antt =====
-- The frame buffer of the display and what is drawn into it (retro11/lcd_spi.c). `uint8_t
-- ram[128][64]` is a function of the column and the row; coordinates are bytes, and what the source
-- computes in `int` and passes as a `uint8_t` is reduced modulo 256 at the call.
pub mod Line
pub mod Rect
pub mod Letters
pub mod Panel
pub mod Commands
pub mod Show
pub mod Circle
use package.team.Prelude.{
  ℕ, zero, suc, ◌+◌, ◌-◌, ◌*◌, ◌%◌, Bool, true, false, ◌&&◌, Option, none, some, ltb, leb, ◌==◌,
  if◌then◌else◌, ◌>>=◌,
}
use package.team.Prelude.Int.{ℤ, pos, negsuc, abs, ◌+ℤ◌, ◌-ℤ◌, ◌*ℤ◌, ltb_ℤ}

abbrev pub Ram : Type 0
Ram = ℕ → ℕ → ℕ

-- An unsigned byte is not below 0.
unfoldable pub position_on_screen : ℕ → ℕ → Bool
position_on_screen xpos ypos =
    if leb 0 xpos && leb xpos 127
    then (if leb 0 ypos && leb ypos 63 then true else false)
    else false

abbrev pub store : Ram → ℕ → ℕ → ℕ → Ram
store ram xpos ypos pixel x y = if x == xpos && y == ypos then pixel else ram x y

-- The new buffer and the status.
unfoldable pub set_pixel : ℕ → ℕ → ℕ → Ram → Ram × ℤ
unfolding position_on_screen
set_pixel xpos ypos pixel ram =
    if position_on_screen xpos ypos
    then (store ram xpos ypos (if ltb 1 pixel then 1 else pixel), pos 0)
    else (ram, negsuc 0)

unfoldable pub clear : Ram → Ram
clear ram x y = if ltb x 128 && ltb y 64 then 0 else ram x y

unfoldable pub invert : Ram → Ram
invert ram x y = if ltb x 128 && ltb y 64 then (if ram x y == 1 then 0 else 1) else ram x y

-- `x += s` on a `uint8_t`, for a step of 1 or -1.
abbrev pub add8 : ℕ → ℤ → ℕ
add8 x (pos k) = (x + k) % 256
add8 x (negsuc k) = (x + 256 - (k + 1)) % 256

module _ (dx dy sx sy : ℤ) (end_xpos end_ypos : ℕ) where
  -- The rest of a round of the loop of `lcd_spi_draw_line`: both tests read the old error.
  unfoldable pub line_step : ℕ → ℕ → ℤ → ℕ × ℕ × ℤ
  line_step x y err =
      let e2 = pos 2 *ℤ err in
      let err' = if ltb_ℤ dy e2 then err +ℤ dy else err in
      (
        if ltb_ℤ dy e2 then add8 x sx else x,
        if ltb_ℤ e2 dx then add8 y sy else y,
        if ltb_ℤ e2 dx then err' +ℤ dx else err',
      )

  -- The loop, with fuel; `none` is fuel that ran out.
  unfoldable pub line_loop : ℕ → ℕ → ℕ → ℤ → Ram → Option Ram
  line_loop zero x y err ram = none
  line_loop (suc fuel) x y err ram =
      let ram' = (set_pixel x y 1 ram).0 in
      let (x', y', err') = line_step x y err in
      let rest = line_loop fuel x' y' err' ram' in
      if x == end_xpos && y == end_ypos then some ram' else rest

-- A line within 128 columns and 64 rows takes at most 127 + 63 steps.
abbrev pub line_fuel : ℕ
line_fuel = 191

unfoldable pub draw_line : ℕ → ℕ → ℕ → ℕ → Ram → Option (Ram × ℤ)
draw_line start_xpos start_ypos end_xpos end_ypos ram =
    let on = position_on_screen start_xpos start_ypos && position_on_screen end_xpos end_ypos in
    let dx = abs (pos end_xpos -ℤ pos start_xpos) in
    let dy = pos 0 -ℤ abs (pos end_ypos -ℤ pos start_ypos) in
    let sx = if ltb start_xpos end_xpos then pos 1 else negsuc 0 in
    let sy = if ltb start_ypos end_ypos then pos 1 else negsuc 0 in
    let run =
      line_loop dx dy sx sy end_xpos end_ypos line_fuel start_xpos start_ypos (dx +ℤ dy) ram
      >>= (λ ram'. some (ram', pos 0)) in
    if on then run else some (ram, negsuc 0)

module _ (start_ypos end_ypos : ℕ) where
  -- The filled rectangle: a vertical line for each column from i on, with the columns left.
  unfoldable pub fill_columns : ℕ → ℕ → Ram → Option Ram
  fill_columns zero i ram = some ram
  fill_columns (suc left) i ram =
      draw_line i start_ypos i end_ypos ram >>= (λ r. fill_columns left (i + 1) r.0)

-- The outline: four lines, in their order.
unfoldable pub draw_outline : ℕ → ℕ → ℕ → ℕ → Ram → Option Ram
draw_outline start_xpos start_ypos end_xpos end_ypos ram = do
  r0 ← draw_line start_xpos start_ypos start_xpos end_ypos ram
  r1 ← draw_line start_xpos start_ypos end_xpos start_ypos r0.0
  r2 ← draw_line start_xpos end_ypos end_xpos end_ypos r1.0
  r3 ← draw_line end_xpos end_ypos end_xpos start_ypos r2.0
  some r3.0

unfoldable pub draw_rect : ℕ → ℕ → ℕ → ℕ → Bool → Ram → Option (Ram × ℤ)
draw_rect start_xpos start_ypos end_xpos end_ypos fill ram =
    let on = position_on_screen start_xpos start_ypos && position_on_screen end_xpos end_ypos in
    let x1set = if leb start_xpos end_xpos then start_xpos else end_xpos in
    let x2set = if leb start_xpos end_xpos then end_xpos else start_xpos in
    let filled = fill_columns start_ypos end_ypos (x2set + 1 - x1set) x1set ram in
    let outline = draw_outline start_xpos start_ypos end_xpos end_ypos ram in
    if on
    then (if fill then filled else outline) >>= (λ ram'. some (ram', pos 0))
    else some (ram, negsuc 0)
