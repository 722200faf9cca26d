-- ===== src/Lcd/Letters.antt =====
-- Characters and strings on the display (retro11/lcd_spi.c).
pub mod Strings
use package.team.Prelude.{
  ℕ, zero, suc, ◌+◌, ◌-◌, ◌*◌, ◌/◌, ◌%◌, ◌^◌, ◌≤◌, ◌<◌, ◌≡◌, refl, Bool, ◌&&◌, Option, none, some,
  List, length, get_elem?, get_elem?-lt, arith, ltb, leb, ◌==◌, ==_iff, Bool-cases, inl, inr,
  if◌then◌else◌, ◌>>=◌,
}
use package.team.Prelude.Int.{ℤ, pos}
use package.team.Font.{font_5x7_col_char, font_5x7_col_char-length}
use package.team.Lcd.{Ram, set_pixel, position_on_screen}

module _ (x y : ℕ) where
  -- The rows of column i, from the row below j on upwards.
  unfoldable pub draw_rows : ℕ → ℕ → ℕ → Ram → Ram
  unfolding set_pixel
  draw_rows i column zero ram = ram
  draw_rows i column (suc j) ram =
      draw_rows i column j (set_pixel ((x + i) % 256) ((y + j) % 256) (column / 2 ^ j % 2) ram).0

  -- The columns, from the one below i on to the left.
  unfoldable pub draw_columns : List ℕ → ℕ → Ram → Option Ram
  unfolding draw_rows
  draw_columns character zero ram = some ram
  draw_columns character (suc i) ram = do
    column ← get_elem? character i
    draw_columns character i (draw_rows i column 8 ram)

unfoldable pub draw_c : ℕ → ℕ → ℕ → Ram → Option (Ram × ℤ)
draw_c x y c ram = do
  character ← font_5x7_col_char c
  ram' ← draw_columns x y character 5 ram
  some (ram', pos 0)

-- The characters from number i on, with those left; a read behind the string is undefined: `none`.
unfoldable pub draw_s_loop : ℕ → ℕ → List ℕ → ℕ → ℕ → Ram → Option Ram
draw_s_loop x y c i zero ram = some ram
draw_s_loop x y c i (suc left) ram = do
  character ← get_elem? c i
  drawn ← draw_c ((x + i * 6) % 256) y character ram
  draw_s_loop x y c (i + 1) left drawn.0

unfoldable pub draw_s : ℕ → ℕ → List ℕ → ℕ → Ram → Option (Ram × ℤ)
draw_s x y c n ram = draw_s_loop x y c 0 n ram >>= (λ ram'. some (ram', pos 0))

-- The bit of a glyph at a column and a row.
abbrev pub letter_bit : List ℕ → ℕ → ℕ → ℕ
letter_bit character i j = elim (get_elem? character i) [
  | none ↦ 0
  | some column ↦ column / 2 ^ j % 2
]

-- Whether a pixel is on the screen and in n columns and m rows from (x, y).
abbrev pub within : ℕ → ℕ → ℕ → ℕ → ℕ → ℕ → Bool
within x y n m a b =
    (leb x a && ltb a (x + n)) && (leb y b && ltb b (y + m)) && (leb a 127 && leb b 63)

pub set_pixel-at :
    (x y bit : ℕ) (ram : Ram) (a b : ℕ)
    → bit ≤ 1
    → (set_pixel x y bit ram).0 a b
      ≡ (if (a == x && b == y) && (leb a 127 && leb b 63) then bit else ram a b)
unfolding set_pixel position_on_screen
set_pixel-at x y bit ram a b le = ground arith

-- The row that is drawn first, under those that are left.
row-split :
    (x y j bit rest a b : ℕ)
    → (if within x y 1 j a b
        then bit
        else if (a == x && b == y + j) && (leb a 127 && leb b 63)
        then bit
        else rest)
      ≡ (if within x y 1 (suc j) a b then bit else rest)
row-split x y j bit rest a b = ground arith

same_bit :
    (x y j column rest a b : ℕ)
    → (if (a == x && b == y + j) && (leb a 127 && leb b 63) then column / 2 ^ j % 2 else rest) ≡ (
        if (a == x && b == y + j) && (leb a 127 && leb b 63)
        then column / 2 ^ (b - y) % 2
        else rest)
same_bit x y j column rest a b = elim (Bool-cases (b == y + j)) [
  | inl e ↦ let at : b - y ≡ j = omega (arith, (==_iff b (y + j)).0 e) in rw at
  | inr e ↦ ground (arith, e)
]

draw_rows_lem :
    (x y i column j : ℕ) (ram : Ram) (a b : ℕ)
    → x + i < 256
    → y + j ≤ 256
    → draw_rows x y i column j ram a b
      ≡ (if within (x + i) y 1 j a b then column / 2 ^ (b - y) % 2 else ram a b)
unfolding draw_rows
draw_rows_lem x y i column zero ram a b lx ly = ground arith
draw_rows_lem x y i column (suc j) ram a b lx ly =
    let wx : (x + i) % 256 ≡ x + i = omega (arith, lx) in
    let wy : (y + j) % 256 ≡ y + j = omega (arith, ly) in
    rw (
      wx,
      wy,
      draw_rows_lem x y i column j (set_pixel (x + i) (y + j) (column / 2 ^ j % 2) ram).0 a b lx
          (omega arith),
      set_pixel-at (x + i) (y + j) (column / 2 ^ j % 2) ram a b (omega arith),
      same_bit (x + i) y j column (ram a b) a b,
      row-split (x + i) y j (column / 2 ^ (b - y) % 2) (ram a b) a b,
    )

-- A column of the glyph, drawn over the pixels of the columns to its left and of the rest.
column-split :
    (x y i a b rest : ℕ) (character : List ℕ) (column : ℕ)
    → get_elem? character i ≡ some column
    → (if within x y i 8 a b
        then letter_bit character (a - x) (b - y)
        else if within (x + i) y 1 8 a b
        then column / 2 ^ (b - y) % 2
        else rest)
      ≡ (if within x y (suc i) 8 a b then letter_bit character (a - x) (b - y) else rest)
column-split x y i a b rest character column at = elim (Bool-cases (a == x + i)) [
  | inl e ↦
      let here : a - x ≡ i = omega (arith, (==_iff a (x + i)).0 e) in
      let lit : letter_bit character i (b - y) ≡ column / 2 ^ (b - y) % 2 = rw (letter_bit, at) in
      rw (here, lit) (ground (arith, e))
  | inr e ↦ ground (arith, e)
]

draw_columns_lem :
    (x y i : ℕ) (character : List ℕ) (ram : Ram) (a b : ℕ)
    → i ≤ length character
    → x + i ≤ 256
    → y + 8 ≤ 256
    → (ram' : Ram) × (draw_columns x y character i ram ≡ some ram')
      × (ram' a b ≡ (if within x y i 8 a b then letter_bit character (a - x) (b - y) else ram a b))
unfolding draw_columns
draw_columns_lem x y zero character ram a b le lx ly = (ram, refl, ground arith)
draw_columns_lem x y (suc i) character ram a b le lx ly =
    let (column, at) = get_elem?-lt character i (omega arith) in
    let (ram', runs, pixel) =
      draw_columns_lem x y i character (draw_rows x y i column 8 ram) a b (omega arith)
        (omega arith) ly in
    (
      ram',
      rw at runs,
      rw (pixel, draw_rows_lem x y i column 8 ram a b (omega arith) ly)
          (column-split x y i a b (ram a b) character column at),
    )

-- Where its box does not wrap around, a character of the font changes no pixel but those of its
-- five columns and eight rows that are on the screen, and sets each of these to the bit of its
-- glyph, whose byte i is column i, with bit j as row j. Its status is 0.
pub draw_c-pixel :
    (x y c : ℕ) (ram : Ram) (a b : ℕ)
    → x + 5 ≤ 256
    → y + 8 ≤ 256
    → (character : List ℕ) × (font_5x7_col_char c ≡ some character)
      × (ram' : Ram) × (draw_c x y c ram ≡ some (ram', pos 0))
      × (ram' a b ≡ (if within x y 5 8 a b then letter_bit character (a - x) (b - y) else ram a b))
unfolding draw_c
draw_c-pixel x y c ram a b lx ly =
    let (character, has, five) = font_5x7_col_char-length c in
    let (ram', runs, pixel) = draw_columns_lem x y 5 character ram a b (omega arith) lx ly in
    (character, has, ram', rw (has, runs), pixel)
