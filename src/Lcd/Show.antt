-- ===== src/Lcd/Show.antt =====
-- What the controller of the display gets from a frame buffer.
use team.Prelude.{
  ℕ, zero, suc, ◌+◌, ◌-◌, ◌*◌, ◌/◌, ◌%◌, ◌^◌, ◌≤◌, ◌<◌, ◌≡◌, refl, Bool, true, false, not, ◌&&◌,
  some, List, [], ◌∷◌, get_elem?, length, arith, leb, if◌then◌else◌,
}
use team.Lcd.{Ram}
use team.Lcd.Panel.{
  Call, cmdselect_clear, cmdselect_set, spi_transfer_byte, spi_transfer_bytes, command,
  set_page_address, pack, line, show_loop, show,
}

-- Whether a byte is a command from lo to hi.
abbrev is_command : Bool → ℕ → ℕ → ℕ → Bool
is_command high lo hi b = not high && (leb lo b && leb b hi)

-- The controller, as its data sheet has it. Bytes that come with `cmdselect` low are commands: one
-- from 0xb0 to 0xb7 addresses a page, one from 0x10 to 0x1f sets the upper four bits of the column
-- address, and one from 0x00 to 0x0f its lower four. Bytes that come with it high are data of the
-- page, from the column address on, which they advance. What is got is, for each transfer of data,
-- its page, its first column and its bytes.
abbrev pub data_sent : ℕ → ℕ → ℕ → Bool → List Call → List (ℕ × ℕ × List ℕ)
data_sent page colhi collo high [] = []
data_sent page colhi collo high (cmdselect_clear ∷ calls) = data_sent page colhi collo false calls
data_sent page colhi collo high (cmdselect_set ∷ calls) = data_sent page colhi collo true calls
data_sent page colhi collo high (spi_transfer_byte b ∷ calls) =
    data_sent (if is_command high 0xb0 0xb7 b then b - 0xb0 else page)
      (if is_command high 0x10 0x1f b then b - 0x10 else colhi)
      (if is_command high 0x00 0x0f b then b else collo) high calls
data_sent page colhi collo true (spi_transfer_bytes bytes ∷ calls) =
    let column = colhi * 16 + collo in
    let behind = column + length bytes in
    (page, column, bytes) ∷ data_sent page (behind / 16) (behind % 16) true calls
data_sent page colhi collo high (_ ∷ calls) = data_sent page colhi collo high calls

abbrev pages : Ram → ℕ → ℕ → List (ℕ × ℕ × List ℕ)
pages ram page zero = []
pages ram page (suc left) = (page, 0, line ram page 0 128) ∷ pages ram (page + 1) left

show-pages :
    (ram : Ram) (page colhi collo : ℕ) → data_sent page colhi collo true (show ram) ≡ pages ram 0 8
unfolding show show_loop set_page_address command
show-pages ram page colhi collo = refl

get_elem?-pages :
    (ram : Ram) (page left i : ℕ)
    → i < left
    → get_elem? (pages ram page left) i ≡ some (page + i, 0, line ram (page + i) 0 128)
get_elem?-pages ram page zero i h = absurd (omega arith)
get_elem?-pages ram page (suc left) zero h = let e : page + 0 ≡ page = omega arith in rw e
get_elem?-pages ram page (suc left) (suc i) h =
    let e : page + suc i ≡ page + 1 + i = omega arith in
    rw e (get_elem?-pages ram (page + 1) left i (omega arith))

pack-bits :
    (ram : Ram) (x page : ℕ)
    → ((y : ℕ) → ram x y ≤ 1)
    → pack ram x page 0 0 8
      ≡ ram x (page * 8 + 0)
        + 2 * ram x (page * 8 + 1)
        + 4 * ram x (page * 8 + 2)
        + 8 * ram x (page * 8 + 3)
        + 16 * ram x (page * 8 + 4)
        + 32 * ram x (page * 8 + 5)
        + 64 * ram x (page * 8 + 6)
        + 128 * ram x (page * 8 + 7)
unfolding pack
pack-bits ram x page le = omega (
  arith,
  le (page * 8 + 0),
  le (page * 8 + 1),
  le (page * 8 + 2),
  le (page * 8 + 3),
  le (page * 8 + 4),
  le (page * 8 + 5),
  le (page * 8 + 6),
  le (page * 8 + 7),
)

get_elem?-line :
    (ram : Ram) (page x left i : ℕ)
    → i < left
    → get_elem? (line ram page x left) i ≡ some (pack ram (x + i) page 0 0 8)
unfolding line
get_elem?-line ram page x zero i h = absurd (omega arith)
get_elem?-line ram page x (suc left) zero h = let e : x + 0 ≡ x = omega arith in rw e
get_elem?-line ram page x (suc left) (suc i) h =
    let e : x + suc i ≡ x + 1 + i = omega arith in
    rw e (get_elem?-line ram page (x + 1) left i (omega arith))

-- The bits of a byte that is their sum.
bits-sum :
    (b0 b1 b2 b3 b4 b5 b6 b7 n : ℕ)
    → b0 ≤ 1
    → b1 ≤ 1
    → b2 ≤ 1
    → b3 ≤ 1
    → b4 ≤ 1
    → b5 ≤ 1
    → b6 ≤ 1
    → b7 ≤ 1
    → n ≡ b0 + 2 * b1 + 4 * b2 + 8 * b3 + 16 * b4 + 32 * b5 + 64 * b6 + 128 * b7
    → (n / 1 % 2 ≡ b0)
      × (n / 2 % 2 ≡ b1)
      × (n / 4 % 2 ≡ b2)
      × (n / 8 % 2 ≡ b3)
      × (n / 16 % 2 ≡ b4)
      × (n / 32 % 2 ≡ b5)
      × (n / 64 % 2 ≡ b6)
      × (n / 128 % 2 ≡ b7)
bits-sum b0 b1 b2 b3 b4 b5 b6 b7 n h0 h1 h2 h3 h4 h5 h6 h7 e = (
  omega arith,
  omega arith,
  omega arith,
  omega arith,
  omega arith,
  omega arith,
  omega arith,
  omega arith,
)

module _ (ram : Ram) (x page : ℕ) (le : (y : ℕ) → ram x y ≤ 1) where
  abbrev at_row : ℕ → ℕ
  at_row bit = ram x (page * 8 + bit)

  pixels-sum :
      (pack ram x page 0 0 8 / 1 % 2 ≡ at_row 0)
      × (pack ram x page 0 0 8 / 2 % 2 ≡ at_row 1)
      × (pack ram x page 0 0 8 / 4 % 2 ≡ at_row 2)
      × (pack ram x page 0 0 8 / 8 % 2 ≡ at_row 3)
      × (pack ram x page 0 0 8 / 16 % 2 ≡ at_row 4)
      × (pack ram x page 0 0 8 / 32 % 2 ≡ at_row 5)
      × (pack ram x page 0 0 8 / 64 % 2 ≡ at_row 6)
      × (pack ram x page 0 0 8 / 128 % 2 ≡ at_row 7)
  pixels-sum =
      bits-sum (at_row 0) (at_row 1) (at_row 2) (at_row 3) (at_row 4) (at_row 5) (at_row 6)
        (at_row 7) (pack ram x page 0 0 8) (le (page * 8 + 0)) (le (page * 8 + 1))
        (le (page * 8 + 2)) (le (page * 8 + 3)) (le (page * 8 + 4)) (le (page * 8 + 5))
        (le (page * 8 + 6)) (le (page * 8 + 7)) (pack-bits ram x page le)

  pack-bit : (bit : ℕ) → bit < 8 → pack ram x page 0 0 8 / 2 ^ bit % 2 ≡ at_row bit
  pack-bit zero h = pixels-sum.0
  pack-bit (suc zero) h = pixels-sum.1
  pack-bit (suc (suc zero)) h = pixels-sum.2
  pack-bit (suc (suc (suc zero))) h = pixels-sum.3
  pack-bit (suc (suc (suc (suc zero)))) h = pixels-sum.4
  pack-bit (suc (suc (suc (suc (suc zero))))) h = pixels-sum.5
  pack-bit (suc (suc (suc (suc (suc (suc zero)))))) h = pixels-sum.6
  pack-bit (suc (suc (suc (suc (suc (suc (suc zero))))))) h = pixels-sum.7
  pack-bit (suc (suc (suc (suc (suc (suc (suc (suc bit)))))))) h = absurd (omega arith)

-- What is shown is what is in the buffer: if its pixels are 0 or 1, then, whatever page and column
-- the controller was at, it gets for every pixel the data of the pixel's page, from column 0 on, and
-- in it a byte for the pixel's column whose bit for the pixel's row is the pixel.
pub show-pixel :
    (ram : Ram) (x y page colhi collo : ℕ)
    → ((b : ℕ) → ram x b ≤ 1)
    → x < 128
    → y < 64
    → (bytes : List ℕ) × (byte : ℕ) × (get_elem?
          (data_sent page colhi collo true (show ram))
          (y / 8)
        ≡ some (y / 8, 0, bytes))
      × (get_elem? bytes x ≡ some byte)
      × (byte / 2 ^ (y % 8) % 2 ≡ ram x y)
show-pixel ram x y page colhi collo le lx ly =
    let row : y / 8 * 8 + y % 8 ≡ y = omega arith in
    let z : 0 + y / 8 ≡ y / 8 = omega arith in
    let zx : 0 + x ≡ x = omega arith in
    (
      line ram (y / 8) 0 128,
      pack ram x (y / 8) 0 0 8,
      rw (show-pages ram page colhi collo)
          (rw z at (get_elem?-pages ram 0 8 (y / 8) (omega arith))),
      rw zx at (get_elem?-line ram (y / 8) 0 128 x lx),
      rw (pack-bit ram x (y / 8) le (y % 8) (omega arith), row),
    )
