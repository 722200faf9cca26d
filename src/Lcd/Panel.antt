-- ===== src/Lcd/Panel.antt =====
-- What the driver of the display sends to its controller (retro11/lcd_spi.c): commands while the
-- line `cmdselect` is low, data while it is high.
use team.Prelude.{ℕ, zero, suc, ◌+◌, ◌*◌, ◌%◌, ◌^◌, Bool, List, [], ◌∷◌, ◌++◌, ltb, if◌then◌else◌}
use team.Prelude.Int.{ℤ, pos, negsuc}
use team.Lcd.{Ram}
use team.Lcd.Commands.{
  cmdadcreverse, cmdcomoutmode, cmddisplaynormal, cmddisplayreverse, cmddisplon, cmdindicatoroff,
  cmdindicatorval, cmdsetboosterratio, cmdsetcoladrhi, cmdsetcoladrlo, cmdsetlcdbias, cmdsetpageadr,
  cmdsetpowerctrl, cmdsetresistorratio, cmdsetstartline, cmdsetvolmode, cmdsetvolmodeval,
}

-- The calls of RIOT on the bus and the lines.
pub data Call : Type 0 where
  init_cmdselect init_reset cmdselect_clear cmdselect_set reset_clear reset_set : Call
  spi_acquire spi_release : Call
  spi_transfer_byte : ℕ → Call
  spi_transfer_bytes : List ℕ → Call

-- Bytes on the bus with `cmdselect` low.
unfoldable pub command : List ℕ → List Call
command [] = spi_release ∷ cmdselect_set ∷ []
command (b ∷ bytes) = spi_transfer_byte b ∷ command bytes

unfoldable pub set_page_address : ℕ → ℕ → ℕ → List Call
set_page_address page colhi collo =
    cmdselect_clear
    ∷ spi_acquire
    ∷ command (
        (cmdsetpageadr + page) % 256
        ∷ (cmdsetcoladrhi + colhi) % 256
        ∷ (cmdsetcoladrlo + collo) % 256
        ∷ [])

-- A byte of a page: `byte + (dev->ram[x][page * 8 + bit] << bit)`, with the rounds left.
unfoldable pub pack : Ram → ℕ → ℕ → ℕ → ℕ → ℕ → ℕ
pack ram x page bit byte zero = byte
pack ram x page bit byte (suc left) =
    pack ram x page (bit + 1) ((byte + ram x (page * 8 + bit) * 2 ^ bit) % 256) left

-- The line of a page, from the column x on, with the columns left.
unfoldable pub line : Ram → ℕ → ℕ → ℕ → List ℕ
line ram page x zero = []
line ram page x (suc left) = pack ram x page 0 0 8 ∷ line ram page (x + 1) left

unfoldable pub show_loop : Ram → ℕ → ℕ → List Call
show_loop ram page zero = []
show_loop ram page (suc left) =
    set_page_address page 0 0
    ++ (cmdselect_set
        ∷ spi_acquire
        ∷ spi_transfer_bytes (line ram page 0 128)
        ∷ spi_release
        ∷ cmdselect_clear
        ∷ show_loop ram (page + 1) left)

unfoldable pub show : Ram → List Call
show ram = show_loop ram 0 8

unfoldable pub set_contrast : ℕ → List Call
set_contrast value =
    let value' = if ltb value 5 then 5 else value in
    let value'' = if ltb 25 value' then 25 else value' in
    cmdselect_clear ∷ spi_acquire ∷ command (cmdsetvolmode ∷ (cmdsetvolmode + value'') ∷ [])

unfoldable pub set_display_normal : Bool → List Call
set_display_normal value =
    cmdselect_clear
    ∷ spi_acquire
    ∷ command ((if value then cmddisplaynormal else cmddisplayreverse) ∷ [])

-- `spi_init_cs` is RIOT's: whether it answers `SPI_OK`.
unfoldable pub lcd_spi_init : Bool → List Call × ℤ
lcd_spi_init ok =
    if ok
    then (
      init_cmdselect
          ∷ init_reset
          ∷ reset_clear
          ∷ reset_set
          ∷ cmdselect_clear
          ∷ spi_acquire
          ∷ command (
              cmdsetstartline
              ∷ cmdadcreverse
              ∷ cmdcomoutmode
              ∷ cmddisplaynormal
              ∷ cmdsetlcdbias
              ∷ cmdsetpowerctrl
              ∷ cmdsetboosterratio
              ∷ cmdindicatorval
              ∷ (cmdsetresistorratio + 7)
              ∷ cmdsetvolmode
              ∷ (cmdsetvolmodeval + 10)
              ∷ cmdindicatoroff
              ∷ cmdindicatorval
              ∷ cmddisplon
              ∷ []),
      pos 0,
    )
    else ([], negsuc 0)

abbrev lcd_spi_reset : List Call
lcd_spi_reset = reset_clear ∷ reset_set ∷ []
