-- ===== src/Lcd/Letters/Strings.antt =====
-- What a string leaves of the frame buffer.
use mathlib.Core.Option.{some-injective}
use team.Prelude.{
  ℕ, zero, suc, ◌+◌, ◌*◌, ◌%◌, ◌≤◌, ◌<◌, ◌≡◌, refl, sym, ap, ◌∙◌, ◌⊎◌, some, List, length,
  get_elem?-lt, arith,
}
use team.Prelude.Int.{ℤ, pos}
use team.Lcd.{Ram}
use team.Lcd.Letters.{draw_c, draw_s_loop, draw_s, draw_c-pixel}

-- Beside a box of n columns and eight rows at (x, y).
abbrev pub Aside : ℕ → ℕ → ℕ → ℕ → ℕ → Type 0
Aside x y n a b = (a < x) ⊎ (x + n ≤ a) ⊎ (b < y) ⊎ (y + 8 ≤ b)

draw_c-kept :
    (x y c : ℕ) (ram : Ram)
    → x + 5 ≤ 256
    → y + 8 ≤ 256
    → (ram' : Ram) × (draw_c x y c ram ≡ some (ram', pos 0))
      × ((a b : ℕ) → Aside x y 5 a b → ram' a b ≡ ram a b)
draw_c-kept x y c ram lx ly =
    let (character, glyph, ram', drawn, pixel) = draw_c-pixel x y c ram 0 0 lx ly in
    (
      ram',
      drawn,
      λ a b out.
          let (character', glyph', ram'', drawn', here) = draw_c-pixel x y c ram a b lx ly in
          let same : ram' ≡ ram'' =
            ap (λ (r : Ram × ℤ). r.0) (some-injective _ _ (sym drawn ∙ drawn')) in
          ap (λ (r : Ram). r a b) same ∙ (here ∙ ground arith),
    )

-- A string that does not wrap around is drawn, and no pixel beside its box changes.
pub draw_s_loop-kept :
    (x y : ℕ) (c : List ℕ) (i left : ℕ) (ram : Ram)
    → i + left ≤ length c
    → x + (i + left) * 6 ≤ 250
    → y ≤ 240
    → (ram' : Ram) × (draw_s_loop x y c i left ram ≡ some ram')
      × ((a b : ℕ) → Aside (x + i * 6) y (left * 6) a b → ram' a b ≡ ram a b)
unfolding draw_s_loop
draw_s_loop-kept x y c i zero ram le lx ly = (ram, refl, λ a b out. refl)
draw_s_loop-kept x y c i (suc left) ram le lx ly =
    let (letter, has) = get_elem?-lt c i (omega arith) in
    let byte : (x + i * 6) % 256 ≡ x + i * 6 = omega arith in
    let (ram1, drawn, kept) =
      draw_c-kept ((x + i * 6) % 256) y letter ram (omega arith) (omega arith) in
    let (ram2, rest, kept') =
      draw_s_loop-kept x y c (i + 1) left ram1 (omega arith) (omega arith) ly in
    (ram2, rw (has, drawn) rest, λ a b out. kept' a b (omega arith) ∙ kept a b (omega arith))

pub draw_s-kept :
    (x y : ℕ) (c : List ℕ) (n : ℕ) (ram : Ram)
    → n ≤ length c
    → x + n * 6 ≤ 250
    → y ≤ 240
    → (ram' : Ram) × (draw_s x y c n ram ≡ some (ram', pos 0))
      × ((a b : ℕ) → Aside x y (n * 6) a b → ram' a b ≡ ram a b)
unfolding draw_s
draw_s-kept x y c n ram le lx ly =
    let (ram', drawn, kept) = draw_s_loop-kept x y c 0 n ram (omega arith) (omega arith) ly in
    (ram', rw drawn refl, λ a b out. kept a b (omega arith))
