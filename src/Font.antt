-- ===== src/Font.antt =====
-- The glyphs of the display's font (retro11/font_5x7_col.c): five columns of eight rows for each
-- printable character.
use team.Prelude.{
  ℕ, ◌-◌, List, [], ◌∷◌, Option, get_elem?, ltb, ◌||◌, ◌&&◌, ◌==◌, zero, suc, ◌<◌, ◌≡◌, refl, true,
  some, length, arith, Bool, Bool-cases, inl, inr, if◌then◌else◌,
}

abbrev pub ascii : List (List ℕ)
ascii =
    (0x00 ∷ 0x00 ∷ 0x00 ∷ 0x00 ∷ 0x00 ∷ [])
    ∷ (0x00 ∷ 0x00 ∷ 0x5f ∷ 0x00 ∷ 0x00 ∷ [])
    ∷ (0x00 ∷ 0x07 ∷ 0x00 ∷ 0x07 ∷ 0x00 ∷ [])
    ∷ (0x14 ∷ 0x7f ∷ 0x14 ∷ 0x7f ∷ 0x14 ∷ [])
    ∷ (0x24 ∷ 0x2a ∷ 0x7f ∷ 0x2a ∷ 0x12 ∷ [])
    ∷ (0x23 ∷ 0x13 ∷ 0x08 ∷ 0x64 ∷ 0x62 ∷ [])
    ∷ (0x36 ∷ 0x49 ∷ 0x55 ∷ 0x22 ∷ 0x50 ∷ [])
    ∷ (0x00 ∷ 0x05 ∷ 0x03 ∷ 0x00 ∷ 0x00 ∷ [])
    ∷ (0x00 ∷ 0x1c ∷ 0x22 ∷ 0x41 ∷ 0x00 ∷ [])
    ∷ (0x00 ∷ 0x41 ∷ 0x22 ∷ 0x1c ∷ 0x00 ∷ [])
    ∷ (0x14 ∷ 0x08 ∷ 0x3e ∷ 0x08 ∷ 0x14 ∷ [])
    ∷ (0x08 ∷ 0x08 ∷ 0x3e ∷ 0x08 ∷ 0x08 ∷ [])
    ∷ (0x00 ∷ 0x50 ∷ 0x30 ∷ 0x00 ∷ 0x00 ∷ [])
    ∷ (0x08 ∷ 0x08 ∷ 0x08 ∷ 0x08 ∷ 0x08 ∷ [])
    ∷ (0x00 ∷ 0x60 ∷ 0x60 ∷ 0x00 ∷ 0x00 ∷ [])
    ∷ (0x20 ∷ 0x10 ∷ 0x08 ∷ 0x04 ∷ 0x02 ∷ [])
    ∷ (0x3e ∷ 0x51 ∷ 0x49 ∷ 0x45 ∷ 0x3e ∷ [])
    ∷ (0x00 ∷ 0x42 ∷ 0x7f ∷ 0x40 ∷ 0x00 ∷ [])
    ∷ (0x42 ∷ 0x61 ∷ 0x51 ∷ 0x49 ∷ 0x46 ∷ [])
    ∷ (0x21 ∷ 0x41 ∷ 0x45 ∷ 0x4b ∷ 0x31 ∷ [])
    ∷ (0x18 ∷ 0x14 ∷ 0x12 ∷ 0x7f ∷ 0x10 ∷ [])
    ∷ (0x27 ∷ 0x45 ∷ 0x45 ∷ 0x45 ∷ 0x39 ∷ [])
    ∷ (0x3c ∷ 0x4a ∷ 0x49 ∷ 0x49 ∷ 0x30 ∷ [])
    ∷ (0x01 ∷ 0x71 ∷ 0x09 ∷ 0x05 ∷ 0x03 ∷ [])
    ∷ (0x36 ∷ 0x49 ∷ 0x49 ∷ 0x49 ∷ 0x36 ∷ [])
    ∷ (0x06 ∷ 0x49 ∷ 0x49 ∷ 0x29 ∷ 0x1e ∷ [])
    ∷ (0x00 ∷ 0x36 ∷ 0x36 ∷ 0x00 ∷ 0x00 ∷ [])
    ∷ (0x00 ∷ 0x56 ∷ 0x36 ∷ 0x00 ∷ 0x00 ∷ [])
    ∷ (0x08 ∷ 0x14 ∷ 0x22 ∷ 0x41 ∷ 0x00 ∷ [])
    ∷ (0x14 ∷ 0x14 ∷ 0x14 ∷ 0x14 ∷ 0x14 ∷ [])
    ∷ (0x00 ∷ 0x41 ∷ 0x22 ∷ 0x14 ∷ 0x08 ∷ [])
    ∷ (0x02 ∷ 0x01 ∷ 0x51 ∷ 0x09 ∷ 0x06 ∷ [])
    ∷ (0x32 ∷ 0x49 ∷ 0x79 ∷ 0x41 ∷ 0x3e ∷ [])
    ∷ (0x7e ∷ 0x11 ∷ 0x11 ∷ 0x11 ∷ 0x7e ∷ [])
    ∷ (0x7f ∷ 0x49 ∷ 0x49 ∷ 0x49 ∷ 0x36 ∷ [])
    ∷ (0x3e ∷ 0x41 ∷ 0x41 ∷ 0x41 ∷ 0x22 ∷ [])
    ∷ (0x7f ∷ 0x41 ∷ 0x41 ∷ 0x22 ∷ 0x1c ∷ [])
    ∷ (0x7f ∷ 0x49 ∷ 0x49 ∷ 0x49 ∷ 0x41 ∷ [])
    ∷ (0x7f ∷ 0x09 ∷ 0x09 ∷ 0x09 ∷ 0x01 ∷ [])
    ∷ (0x3e ∷ 0x41 ∷ 0x49 ∷ 0x49 ∷ 0x7a ∷ [])
    ∷ (0x7f ∷ 0x08 ∷ 0x08 ∷ 0x08 ∷ 0x7f ∷ [])
    ∷ (0x00 ∷ 0x41 ∷ 0x7f ∷ 0x41 ∷ 0x00 ∷ [])
    ∷ (0x20 ∷ 0x40 ∷ 0x41 ∷ 0x3f ∷ 0x01 ∷ [])
    ∷ (0x7f ∷ 0x08 ∷ 0x14 ∷ 0x22 ∷ 0x41 ∷ [])
    ∷ (0x7f ∷ 0x40 ∷ 0x40 ∷ 0x40 ∷ 0x40 ∷ [])
    ∷ (0x7f ∷ 0x02 ∷ 0x0c ∷ 0x02 ∷ 0x7f ∷ [])
    ∷ (0x7f ∷ 0x04 ∷ 0x08 ∷ 0x10 ∷ 0x7f ∷ [])
    ∷ (0x3e ∷ 0x41 ∷ 0x41 ∷ 0x41 ∷ 0x3e ∷ [])
    ∷ (0x7f ∷ 0x09 ∷ 0x09 ∷ 0x09 ∷ 0x06 ∷ [])
    ∷ (0x3e ∷ 0x41 ∷ 0x51 ∷ 0x21 ∷ 0x5e ∷ [])
    ∷ (0x7f ∷ 0x09 ∷ 0x19 ∷ 0x29 ∷ 0x46 ∷ [])
    ∷ (0x46 ∷ 0x49 ∷ 0x49 ∷ 0x49 ∷ 0x31 ∷ [])
    ∷ (0x01 ∷ 0x01 ∷ 0x7f ∷ 0x01 ∷ 0x01 ∷ [])
    ∷ (0x3f ∷ 0x40 ∷ 0x40 ∷ 0x40 ∷ 0x3f ∷ [])
    ∷ (0x1f ∷ 0x20 ∷ 0x40 ∷ 0x20 ∷ 0x1f ∷ [])
    ∷ (0x3f ∷ 0x40 ∷ 0x38 ∷ 0x40 ∷ 0x3f ∷ [])
    ∷ (0x63 ∷ 0x14 ∷ 0x08 ∷ 0x14 ∷ 0x63 ∷ [])
    ∷ (0x07 ∷ 0x08 ∷ 0x70 ∷ 0x08 ∷ 0x07 ∷ [])
    ∷ (0x61 ∷ 0x51 ∷ 0x49 ∷ 0x45 ∷ 0x43 ∷ [])
    ∷ (0x00 ∷ 0x7f ∷ 0x41 ∷ 0x41 ∷ 0x00 ∷ [])
    ∷ (0x02 ∷ 0x04 ∷ 0x08 ∷ 0x10 ∷ 0x20 ∷ [])
    ∷ (0x00 ∷ 0x41 ∷ 0x41 ∷ 0x7f ∷ 0x00 ∷ [])
    ∷ (0x04 ∷ 0x02 ∷ 0x01 ∷ 0x02 ∷ 0x04 ∷ [])
    ∷ (0x40 ∷ 0x40 ∷ 0x40 ∷ 0x40 ∷ 0x40 ∷ [])
    ∷ (0x00 ∷ 0x01 ∷ 0x02 ∷ 0x04 ∷ 0x00 ∷ [])
    ∷ (0x20 ∷ 0x54 ∷ 0x54 ∷ 0x54 ∷ 0x78 ∷ [])
    ∷ (0x7f ∷ 0x48 ∷ 0x44 ∷ 0x44 ∷ 0x38 ∷ [])
    ∷ (0x38 ∷ 0x44 ∷ 0x44 ∷ 0x44 ∷ 0x20 ∷ [])
    ∷ (0x38 ∷ 0x44 ∷ 0x44 ∷ 0x48 ∷ 0x7f ∷ [])
    ∷ (0x38 ∷ 0x54 ∷ 0x54 ∷ 0x54 ∷ 0x18 ∷ [])
    ∷ (0x08 ∷ 0x7e ∷ 0x09 ∷ 0x01 ∷ 0x02 ∷ [])
    ∷ (0x0c ∷ 0x52 ∷ 0x52 ∷ 0x52 ∷ 0x3e ∷ [])
    ∷ (0x7f ∷ 0x08 ∷ 0x04 ∷ 0x04 ∷ 0x78 ∷ [])
    ∷ (0x00 ∷ 0x44 ∷ 0x7d ∷ 0x40 ∷ 0x00 ∷ [])
    ∷ (0x20 ∷ 0x40 ∷ 0x44 ∷ 0x3d ∷ 0x00 ∷ [])
    ∷ (0x7f ∷ 0x10 ∷ 0x28 ∷ 0x44 ∷ 0x00 ∷ [])
    ∷ (0x00 ∷ 0x41 ∷ 0x7f ∷ 0x40 ∷ 0x00 ∷ [])
    ∷ (0x7c ∷ 0x04 ∷ 0x18 ∷ 0x04 ∷ 0x78 ∷ [])
    ∷ (0x7c ∷ 0x08 ∷ 0x04 ∷ 0x04 ∷ 0x78 ∷ [])
    ∷ (0x38 ∷ 0x44 ∷ 0x44 ∷ 0x44 ∷ 0x38 ∷ [])
    ∷ (0x7c ∷ 0x14 ∷ 0x14 ∷ 0x14 ∷ 0x08 ∷ [])
    ∷ (0x08 ∷ 0x14 ∷ 0x14 ∷ 0x18 ∷ 0x7c ∷ [])
    ∷ (0x7c ∷ 0x08 ∷ 0x04 ∷ 0x04 ∷ 0x08 ∷ [])
    ∷ (0x48 ∷ 0x54 ∷ 0x54 ∷ 0x54 ∷ 0x20 ∷ [])
    ∷ (0x04 ∷ 0x3f ∷ 0x44 ∷ 0x40 ∷ 0x20 ∷ [])
    ∷ (0x3c ∷ 0x40 ∷ 0x40 ∷ 0x20 ∷ 0x7c ∷ [])
    ∷ (0x1c ∷ 0x20 ∷ 0x40 ∷ 0x20 ∷ 0x1c ∷ [])
    ∷ (0x3c ∷ 0x40 ∷ 0x30 ∷ 0x40 ∷ 0x3c ∷ [])
    ∷ (0x44 ∷ 0x28 ∷ 0x10 ∷ 0x28 ∷ 0x44 ∷ [])
    ∷ (0x0c ∷ 0x50 ∷ 0x50 ∷ 0x50 ∷ 0x3c ∷ [])
    ∷ (0x44 ∷ 0x64 ∷ 0x54 ∷ 0x4c ∷ 0x44 ∷ [])
    ∷ (0x00 ∷ 0x08 ∷ 0x36 ∷ 0x41 ∷ 0x00 ∷ [])
    ∷ (0x00 ∷ 0x00 ∷ 0x7f ∷ 0x00 ∷ 0x00 ∷ [])
    ∷ (0x00 ∷ 0x41 ∷ 0x36 ∷ 0x08 ∷ 0x00 ∷ [])
    ∷ (0x10 ∷ 0x08 ∷ 0x08 ∷ 0x10 ∷ 0x08 ∷ [])
    ∷ []

-- A `char` behind the table, also a negative one, which is a byte from 128 on here, gets the space.
-- `none` is a read outside the table.
unfoldable pub font_5x7_col_char : ℕ → Option (List ℕ)
font_5x7_col_char c = if ltb c 32 || ltb 126 c then get_elem? ascii 0 else get_elem? ascii (c - 32)

abbrev rows_of_five : List (List ℕ) → Bool
rows_of_five [] = true
rows_of_five (row ∷ rows) = (length row == 5) && rows_of_five rows

row-length :
    (rows : List (List ℕ)) (i : ℕ)
    → rows_of_five rows ≡ true
    → i < length rows
    → (row : List ℕ) × (get_elem? rows i ≡ some row) × (length row ≡ 5)
row-length [] i fives h = absurd (omega arith)
row-length (row ∷ rows) zero fives h = (row, refl, ground arith)
row-length (row ∷ rows) (suc i) fives h = row-length rows i (ground arith) (omega arith)

-- Every character has a glyph of five columns.
pub font_5x7_col_char-length :
    (c : ℕ) → (character : List ℕ) × (font_5x7_col_char c ≡ some character) × (length character ≡ 5)
unfolding font_5x7_col_char
font_5x7_col_char-length c = elim (Bool-cases (ltb c 32 || ltb 126 c)) [
  | inl e ↦ rw e (row-length ascii 0 refl (omega arith))
  | inr e ↦ rw e (row-length ascii (c - 32) refl (ground (arith, e)))
]
