-- ===== src/Lcd/Commands.antt =====
-- The commands of the display's controller that retro11/lcd_spi.c sends.
use team.Prelude.{ℕ}

abbrev pub cmddisplon : ℕ
cmddisplon = 0xaf

abbrev pub cmdsetstartline : ℕ
cmdsetstartline = 0x40

abbrev pub cmdsetpageadr : ℕ
cmdsetpageadr = 0xb0

abbrev pub cmdsetcoladrhi : ℕ
cmdsetcoladrhi = 0x10

abbrev pub cmdsetcoladrlo : ℕ
cmdsetcoladrlo = 0x00

abbrev pub cmdadcreverse : ℕ
cmdadcreverse = 0xa1

abbrev pub cmddisplaynormal : ℕ
cmddisplaynormal = 0xa6

abbrev pub cmddisplayreverse : ℕ
cmddisplayreverse = 0xa7

abbrev pub cmdsetlcdbias : ℕ
cmdsetlcdbias = 0xa2

abbrev pub cmdcomoutmode : ℕ
cmdcomoutmode = 0xc0

abbrev pub cmdsetpowerctrl : ℕ
cmdsetpowerctrl = 0x2f

abbrev pub cmdsetresistorratio : ℕ
cmdsetresistorratio = 0x20

abbrev pub cmdsetvolmode : ℕ
cmdsetvolmode = 0x81

abbrev pub cmdsetvolmodeval : ℕ
cmdsetvolmodeval = 0x00

abbrev pub cmdindicatoroff : ℕ
cmdindicatoroff = 0xac

abbrev pub cmdindicatorval : ℕ
cmdindicatorval = 0x00

abbrev pub cmdsetboosterratio : ℕ
cmdsetboosterratio = 0xf8
