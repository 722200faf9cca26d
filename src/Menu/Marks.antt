-- ===== src/Menu/Marks.antt =====
-- What `print_menu` draws (retro11/menu.c): exactly the selected item has a box.
use mathlib.Core.Path.{subst}
use mathlib.Core.Option.{some-injective}
use team.Prelude.{
  ltb, sym, ap, ℕ, zero, suc, ◌+◌, ◌-◌, ◌*◌, ◌≤◌, ◌<◌, ◌≡◌, ◌≢◌, refl, ◌∙◌, inl, inr, some, length,
  get_elem?, get_elem?-lt, arith, ◌==◌, ==_iff, Bool-cases,
}
use team.Prelude.Text.{codes}
use team.Prelude.Int.{pos}
use team.Lcd.{Ram, clear, draw_line}
use team.Lcd.Line.Draw.{draw_line-Paints}
use team.Lcd.Letters.{draw_s}
use team.Lcd.Letters.Strings.{draw_s-kept}
use team.Lcd.Panel.{show}
use team.Menu.{MenuCommand, Menu, str_len, draw_items, print_menu}
use team.Menu.Picture.{first_column, InBox, Beside, Item, draw_item-Item, Fits}

module _ (menu : Menu) (fits : Fits menu) (curr_item : ℕ) where
  open menu use {commands, cmd_count}

  -- A pixel that the items from number i on do not reach.
  abbrev BesideAll : ℕ → ℕ → ℕ → ℕ → Type 0
  BesideAll i left a b =
      (j : ℕ) (command : MenuCommand)
      → i ≤ j
      → j < i + left
      → get_elem? commands j ≡ some command
      → Beside curr_item j (str_len command) a b

  record Items (i left : ℕ) (ram out : Ram) : Type 0 where
    untouched : (a b : ℕ) → BesideAll i left a b → out a b ≡ ram a b
    framed :
        (command : MenuCommand)
        → i ≤ curr_item
        → curr_item < i + left
        → get_elem? commands curr_item ≡ some command
        → (p q : ℕ) → InBox curr_item (str_len command) p q
        → out p q ≡ 1

  -- The items behind a selected one do not reach its box.
  below_box :
      (i left n : ℕ) (p q : ℕ) → i ≡ curr_item → n ≤ 17 → InBox i n p q → BesideAll (i + 1) left p q
  below_box i left n p q same hn h j command le lt e =
      let low : q ≤ 25 + i * 9 = omega arith in inr (inr (λ k. omega arith, inl (omega arith)))

  first_framed :
      (i left : ℕ) (command c : MenuCommand) (ram mid out : Ram)
      → get_elem? commands i ≡ some command
      → Item curr_item i (str_len command) ram mid
      → Items (i + 1) left mid out
      → i ≡ curr_item
      → get_elem? commands curr_item ≡ some c
      → (p q : ℕ) → InBox curr_item (str_len c) p q
      → out p q ≡ 1
  first_framed i left command c ram mid out at item items same e p q h =
      let there : get_elem? commands i ≡ some c = ap (λ (k : ℕ). get_elem? commands k) same ∙ e in
      let it : c ≡ command = some-injective _ _ (sym there ∙ at) in
      let here : InBox i (str_len command) p q =
        subst (λ (d : MenuCommand). InBox i (str_len d) p q) it
          (subst (λ (k : ℕ). InBox k (str_len c) p q) (sym same) h) in
      items.untouched p q
        (below_box i left (str_len command) p q same (fits.names i command at) here)
      ∙ item.boxed same p q here

  -- The first item, and the rest below it.
  Items-cons :
      (i left : ℕ) (command : MenuCommand) (ram mid out : Ram)
      → get_elem? commands i ≡ some command
      → Item curr_item i (str_len command) ram mid
      → Items (i + 1) left mid out
      → Items i (suc left) ram out
  Items-cons i left command ram mid out at item items = record {
    untouched = λ a b h.
        items.untouched a b (λ j c le lt e. h j c (omega arith) (omega arith) e)
        ∙ item.kept a b (h i command (omega arith) (omega arith) at);
    framed = λ c le lt e p q h. elim (Bool-cases (i == curr_item)) [
      | inl s ↦
          first_framed i left command c ram mid out at item items ((==_iff i curr_item).0 s) e p q h
      | inr ne ↦ items.framed c (ground arith) (omega arith) e p q h
    ];
  }

  draw_items-Items :
      (i left : ℕ) (ram : Ram)
      → i + left ≤ 5
      → i + left ≤ length commands
      → (out : Ram) × (draw_items curr_item commands i left ram ≡ some out) × Items i left ram out
  unfolding draw_items
  draw_items-Items i zero ram rows stored = (
    ram,
    refl,
    record { untouched = λ a b h. refl; framed = λ c le lt e p q h. absurd (omega arith) },
  )
  draw_items-Items i (suc left) ram rows stored =
      let (command, at) = get_elem?-lt commands i (omega arith) in
      let (mid, drawn, item) =
        draw_item-Item curr_item i command ram (omega arith) (fits.names i command at) in
      let (out, rest, items) = draw_items-Items (i + 1) left mid (omega arith) (omega arith) in
      (out, rw (at, drawn) rest, Items-cons i left command ram mid out at item items)

-- The title and the line below it leave the rows from 14 on blank.
title_drawn :
    (ram : Ram)
    → (titled lined : Ram) × (draw_s 44 6 (codes "MAINMENU") 8 (clear ram) ≡ some (titled, pos 0))
      × (draw_line 42 13 92 13 titled ≡ some (lined, pos 0))
      × ((a b : ℕ) → 14 ≤ b → b < 64 → a < 128 → lined a b ≡ 0)
unfolding clear
title_drawn ram =
    let (titled, title, kept) =
      draw_s-kept 44 6 (codes "MAINMENU") 8 (clear ram) (omega arith) (omega arith) (omega arith) in
    let (lined, line, paints) =
      draw_line-Paints 42 13 92 13 titled (omega arith, omega arith) (omega arith, omega arith) in
    (
      titled,
      lined,
      title,
      line,
      λ a b low on wide.
          let same : lined a b ≡ titled a b = ground (arith, paints.changed a b) in
          same ∙ kept a b (omega arith) ∙ ground arith,
    )

margin-Beside :
    (curr_item i n j k q : ℕ)
    → i ≢ curr_item
    → n ≤ 17
    → (j ≡ i → k ≡ n)
    → 17 + i * 9 ≤ q
    → q ≤ 23 + i * 9
    → Beside curr_item j k (first_column n - 2) q
margin-Beside curr_item i n j k q ne hn same lo hi = elim (Bool-cases (j == i)) [
  | inl e ↦
      let here : j ≡ i = (==_iff j i).0 e in
      let width : k ≡ n = same here in
      inr (inr (λ c. ne (sym here ∙ c), inr (rw width (omega arith))))
  | inr other ↦ elim (Bool-cases (ltb j i)) [
    | inl above ↦ inr (inl (ground arith))
    | inr below ↦ inl (ground arith)
  ]
]

-- Whether the box of an item is drawn: all of it, or nothing of its left side beside the name.
abbrev pub Marks : ℕ → ℕ → ℕ → Ram → Type 0
Marks curr_item i n out =
    (i ≡ curr_item → (p q : ℕ) → InBox i n p q → out p q ≡ 1)
    × (i ≢ curr_item → (q : ℕ) → 17 + i * 9 ≤ q → q ≤ 23 + i * 9 → out (first_column n - 2) q ≡ 0)

marked :
    (menu : Menu) (fits : Fits menu) (curr_item : ℕ) (lined out : Ram) (i : ℕ)
    (command : MenuCommand)
    → Items menu fits curr_item 0 menu.cmd_count lined out
    → ((a b : ℕ) → 14 ≤ b → b < 64 → a < 128 → lined a b ≡ 0)
    → i < menu.cmd_count
    → get_elem? menu.commands i ≡ some command
    → Marks curr_item i (str_len command) out
marked menu fits curr_item lined out i command items blank lt at = (
  λ same p q h.
      items.framed command (omega arith) (omega arith)
        (ap (λ (k : ℕ). get_elem? menu.commands k) (sym same) ∙ at) p q
        (subst (λ (k : ℕ). InBox k (str_len command) p q) same h),
  λ ne q lo hi.
      let n = str_len command in
      items.untouched (first_column n - 2) q (λ j c le below e.
        margin-Beside curr_item i n j (str_len c) q ne (fits.names i command at)
          (λ here.
            ap str_len
              (some-injective _ _ (sym e ∙ ap (λ (k : ℕ). get_elem? menu.commands k) here ∙ at)))
          lo hi)
      ∙ blank (first_column n - 2) q (omega arith) (omega (arith, fits.rows)) (omega arith),
)

-- On a menu of at most five items whose names have at most 17 letters, whatever the display showed
-- before and whichever item is selected, the menu is drawn without a read behind its arrays, and
-- exactly the selected item is marked: all pixels of its box are lit, in the buffer that is sent
-- to the display, and beside the name of every other item the left side of a box is dark.
pub print_menu-Marks :
    (menu : Menu) (curr_item : ℕ) (ram : Ram)
    → Fits menu
    → (out : Ram) × (print_menu menu curr_item ram ≡ some (out, show out))
      × ((i : ℕ) (command : MenuCommand)
          → i < menu.cmd_count
          → get_elem? menu.commands i ≡ some command
          → Marks curr_item i (str_len command) out)
unfolding print_menu
print_menu-Marks menu curr_item ram fits =
    let (titled, lined, title, line, blank) = title_drawn ram in
    let (out, drawn, items) =
      draw_items-Items menu fits curr_item 0 menu.cmd_count lined (omega (arith, fits.rows))
        (omega (arith, fits.stored)) in
    (
      out,
      rw (title, line, drawn) refl,
      λ i command lt at. marked menu fits curr_item lined out i command items blank lt at,
    )
