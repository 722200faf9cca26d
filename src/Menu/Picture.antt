-- ===== src/Menu/Picture.antt =====
-- How `print_menu` draws an item: its name, and a box if it is selected.
use team.Prelude.{
  ℕ, ◌+◌, ◌-◌, ◌*◌, ◌/◌, ◌%◌, ◌≤◌, ◌<◌, ◌≡◌, ◌≢◌, refl, false, ◌∙◌, ◌⊎◌, inl, inr, some, List,
  length, get_elem?, arith, ◌==◌, ==_iff, Bool-cases,
}
use team.Prelude.Text.Copy.{length-c_str}
use team.Prelude.Int.{pos, ◌+ℤ◌, ◌-ℤ◌}
use team.Lcd.{Ram, draw_rect}
use team.Lcd.Circle.{uint8}
use team.Lcd.Letters.{draw_s}
use team.Lcd.Letters.Strings.{Aside, draw_s-kept}
use team.Lcd.Rect.Frame.{OnFrame, Frames, draw_rect-Frames}
use team.Menu.{MenuCommand, Menu, str_len, start_pos, draw_box, draw_item}

-- The column of a name of n letters.
abbrev pub first_column : ℕ → ℕ
first_column n = 64 - n / 2 * 5

columns :
    (n : ℕ)
    → n ≤ 17
    → (uint8 (start_pos n) ≡ first_column n)
      × (uint8 (start_pos n -ℤ pos 2) ≡ first_column n - 2)
      × (uint8 (start_pos n +ℤ pos 1 +ℤ pos (6 * n)) ≡ first_column n + 1 + 6 * n)
unfolding ◌+ℤ◌ ◌-ℤ◌
columns n h = (ground arith, ground arith, ground arith)

-- The box of an item.
abbrev pub InBox : ℕ → ℕ → ℕ → ℕ → Type 0
InBox i n p q =
    OnFrame (first_column n - 2) (15 + i * 9) (first_column n + 1 + 6 * n) (25 + i * 9) p q

box_place :
    (i n : ℕ) (ram : Ram)
    → i ≤ 4
    → n ≤ 17
    → draw_box i n ram
      ≡ draw_rect
          (first_column n - 2)
          (15 + i * 9)
          (first_column n + 1 + 6 * n)
          (25 + i * 9)
          false
          ram
unfolding draw_box
box_place i n ram hi hn =
    let (c0, c1, c2) = columns n hn in
    let y0 : (15 + i * 9) % 256 ≡ 15 + i * 9 = omega arith in
    let y1 : (25 + i * 9) % 256 ≡ 25 + i * 9 = omega arith in rw (c1, c2, y0, y1) refl

box_drawn :
    (i n : ℕ) (ram : Ram)
    → i ≤ 4
    → n ≤ 17
    → (out : Ram) × (draw_box i n ram ≡ some (out, pos 0))
      × Frames (first_column n - 2) (15 + i * 9) (first_column n + 1 + 6 * n) (25 + i * 9) ram out
box_drawn i n ram hi hn =
    let (out, drawn, frames) =
      draw_rect-Frames (first_column n - 2) (15 + i * 9) (first_column n + 1 + 6 * n) (25 + i * 9)
        ram (omega arith, omega arith) (omega arith, omega arith) in
    (out, box_place i n ram hi hn ∙ drawn, frames)

name_place :
    (i n : ℕ) (name : List ℕ) (ram : Ram)
    → i ≤ 4
    → n ≤ 17
    → draw_s (uint8 (start_pos n)) ((17 + i * 9) % 256) name (n % 256) ram
      ≡ draw_s (first_column n) (17 + i * 9) name n ram
name_place i n name ram hi hn =
    let (c0, c1, c2) = columns n hn in
    let y : (17 + i * 9) % 256 ≡ 17 + i * 9 = omega arith in
    let all : n % 256 ≡ n = omega arith in rw (c0, y, all) refl

name_drawn :
    (i : ℕ) (command : MenuCommand) (ram : Ram)
    → i ≤ 4
    → str_len command ≤ 17
    → let n = str_len command in
      (out : Ram) × (draw_s (uint8 (start_pos n)) ((17 + i * 9) % 256) command.name (n % 256) ram
        ≡ some (out, pos 0))
      × ((a b : ℕ) → Aside (first_column n) (17 + i * 9) (n * 6) a b → out a b ≡ ram a b)
name_drawn i command ram hi hn =
    let n = str_len command in
    let (out, drawn, kept) =
      draw_s-kept (first_column n) (17 + i * 9) command.name n ram (length-c_str command.name)
        (omega arith) (omega arith) in
    (out, name_place i n command.name ram hi hn ∙ drawn, kept)

-- A pixel that drawing an item does not reach.
abbrev pub Beside : ℕ → ℕ → ℕ → ℕ → ℕ → Type 0
Beside curr_item i n a b =
    (b < 15 + i * 9)
    ⊎ (25 + i * 9 < b)
    ⊎ ((i ≢ curr_item) × ((b < 17 + i * 9) ⊎ (a < first_column n)))

pub record Item (curr_item i n : ℕ) (ram out : Ram) : Type 0 where
  pub kept : (a b : ℕ) → Beside curr_item i n a b → out a b ≡ ram a b
  pub boxed : i ≡ curr_item → (p q : ℕ) → InBox i n p q → out p q ≡ 1

pub draw_item-Item :
    (curr_item i : ℕ) (command : MenuCommand) (ram : Ram)
    → i ≤ 4
    → str_len command ≤ 17
    → (out : Ram) × (draw_item curr_item i command ram ≡ some out)
      × Item curr_item i (str_len command) ram out
unfolding draw_item
draw_item-Item curr_item i command ram hi hn = elim (Bool-cases (i == curr_item)) [
  | inl e ↦
      let same : i ≡ curr_item = (==_iff i curr_item).0 e in
      let (mid, box, frames) = box_drawn i (str_len command) ram hi hn in
      let (out, drawn, beside) = name_drawn i command mid hi hn in
      (
        out,
        rw (e, box, drawn) refl,
        record {
          kept = λ a b h. beside a b (ground arith) ∙ frames.kept a b (λ k. ground arith);
          boxed = λ s p q h. beside p q (ground arith) ∙ frames.sides p q h;
        },
      )
  | inr ne ↦
      let (out, drawn, beside) = name_drawn i command ram hi hn in
      (
        out,
        rw (ne, drawn) refl,
        record {
          kept = λ a b h. beside a b (omega arith);
          boxed = λ s p q h. absurd (ground arith);
        },
      )
]

-- A menu that fits on the screen: at most five items, with names of at most 17 letters.
pub record Fits (menu : Menu) : Type 0 where
  pub rows : menu.cmd_count ≤ 5
  pub stored : menu.cmd_count ≤ length menu.commands
  pub names :
      (i : ℕ) (command : MenuCommand)
      → get_elem? menu.commands i ≡ some command
      → str_len command ≤ 17
