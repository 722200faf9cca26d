-- ===== src/Game/Name/Screen.antt =====
-- The screen of `get_player_name` (retro11/game.c): the letters that are chosen, and the one that
-- the player is at.
use mathlib.Core.Option.{some-injective}
use team.Prelude.{
  ℕ, ◌+◌, ◌-◌, ◌*◌, ◌%◌, ◌≡◌, refl, sym, ap, ◌∙◌, true, Option, some, List, get_elem?, get_elem?-lt,
  arith, ◌>>=◌,
}
use team.Prelude.Int.{ℤ, pos}
use team.Prelude.Text.{codes}
use team.Font.{font_5x7_col_char}
use team.Lcd.{Ram, clear}
use team.Lcd.Letters.{draw_c, draw_s_loop, draw_s, letter_bit, within, draw_c-pixel}
use team.Lcd.Letters.Strings.{draw_s_loop-kept}
use team.Game.Name.{Entry, alphabet}
use team.Game.Name.Correct.{Inv}

-- The drawing at the top of the loop; the chosen letters are drawn as `lcd_spi_draw_s` draws them.
unfoldable pub draw_entry : Entry → Ram → Option Ram
draw_entry e ram = do
  title ← draw_s 10 5 (codes "ENTER PLAYER NAME: ") 19 (clear ram)
  named ← draw_s_loop 10 14 e.name 0 e.curr_idx title.0
  letter ← get_elem? alphabet e.curr_char_idx
  drawn ← draw_c ((10 + e.curr_idx * 6) % 256) 14 letter named
  some drawn.0

entry_runs :
    (e : Entry) (ram titled named shown : Ram) (letter : ℕ)
    → draw_s_loop 10 5 (codes "ENTER PLAYER NAME: ") 0 19 (clear ram) ≡ some titled
    → draw_s_loop 10 14 e.name 0 e.curr_idx titled ≡ some named
    → get_elem? alphabet e.curr_char_idx ≡ some letter
    → draw_c ((10 + e.curr_idx * 6) % 256) 14 letter named ≡ some (shown, pos 0)
    → draw_entry e ram ≡ some shown
unfolding draw_entry draw_s
entry_runs e ram titled named shown letter title names has drawn =
    rw (title, names, has, drawn) refl

-- At every point of an entry the screen can be drawn, whatever it showed before: no character
-- behind the name or the alphabet is read, and the letter that the player is at stands, pixel by
-- pixel as the columns of its glyph have it, behind the chosen ones.
pub draw_entry-Shows :
    (last : ℕ) (e : Entry) (ram : Ram)
    → Inv last e
    → (ram' : Ram) × (draw_entry e ram ≡ some ram')
      × (letter : ℕ) × (get_elem? alphabet e.curr_char_idx ≡ some letter)
      × (character : List ℕ) × (font_5x7_col_char letter ≡ some character)
      × ((a b : ℕ)
          → within (10 + e.curr_idx * 6) 14 5 8 a b ≡ true
          → ram' a b ≡ letter_bit character (a - (10 + e.curr_idx * 6)) (b - 14))
draw_entry-Shows last e ram i =
    let (titled, title, kept) =
      draw_s_loop-kept 10 5 (codes "ENTER PLAYER NAME: ") 0 19 (clear ram) (omega arith)
        (omega arith) (omega arith) in
    let (named, names, kept') =
      draw_s_loop-kept 10 14 e.name 0 e.curr_idx titled (omega (arith, i.open_name, i.size))
        (omega (arith, i.open_name)) (omega arith) in
    let (letter, has) = get_elem?-lt alphabet e.curr_char_idx (omega (arith, i.in_alphabet)) in
    let x = 10 + e.curr_idx * 6 in
    let byte : x % 256 ≡ x = omega (arith, i.open_name) in
    let (character, glyph, shown, drawn, first) =
      draw_c-pixel x 14 letter named 0 0 (omega (arith, i.open_name)) (omega arith) in
    (
      shown,
      entry_runs e ram titled named shown letter title names has
          (ap (λ (k : ℕ). draw_c k 14 letter named) byte ∙ drawn),
      letter,
      has,
      character,
      glyph,
      λ a b inside.
          let (character', glyph', shown', drawn', pixel) =
            draw_c-pixel x 14 letter named a b (omega (arith, i.open_name)) (omega arith) in
          let same_ram : shown ≡ shown' =
            ap (λ (r : Ram × ℤ). r.0) (some-injective _ _ (sym drawn ∙ drawn')) in
          let same_glyph : character' ≡ character = some-injective _ _ (sym glyph' ∙ glyph) in
          ap (λ (r : Ram). r a b) same_ram
          ∙ (pixel ∙ rw inside (ap (λ (g : List ℕ). letter_bit g (a - x) (b - 14)) same_glyph)),
    )
