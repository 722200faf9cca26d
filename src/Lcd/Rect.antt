-- ===== src/Lcd/Rect.antt =====
-- A filled rectangle.
pub mod Frame
use package.team.Prelude.{
  ℕ, zero, suc, ◌+◌, ◌-◌, ◌≤◌, ◌<◌, ◌≡◌, refl, ◌∙◌, ◌↔◌, inl, inr, true, some, arith, leb,
  Bool-cases,
}
use package.team.Prelude.Int.{pos}
use package.team.Lcd.{Ram, draw_rect, fill_columns}
use package.team.Lcd.Line.Paint.{Between, Paints}
use package.team.Lcd.Line.Draw.{OnScreen, draw_line-Paints, both_on}

-- `out` is `ram` with 1 at the positions of an area.
pub record Fills (Area : ℕ → ℕ → Type 0) (ram out : Ram) : Type 0 where
  pub inside : (p q : ℕ) → Area p q → out p q ≡ 1
  pub outside : (p q : ℕ) → ¬ Area p q → out p q ≡ ram p q

-- A vertical line has no pixel beside it.
vertical-Fills :
    (x y ey : ℕ) (ram out : Ram)
    → Paints x y x ey ram out
    → Fills (λ p q. (p ≡ x) × Between y ey q) ram out
vertical-Fills x y ey ram out h = record {
  inside = on;
  outside = λ p q n. ground (arith, h.changed p q);
}
  where
    on : (p q : ℕ) → (p ≡ x) × Between y ey q → out p q ≡ 1
    on p q (e, b) = let (p', near, one) = h.rows q b in let e' : p ≡ p' = omega arith in rw e' one

abbrev Columns : ℕ → ℕ → ℕ → ℕ → ℕ → ℕ → Type 0
Columns y ey left i p q = (i ≤ p) × (p < i + left) × Between y ey q

join :
    (y ey left i : ℕ) (ram mid out : Ram)
    → Fills (λ p q. (p ≡ i) × Between y ey q) ram mid
    → Fills (Columns y ey left (i + 1)) mid out
    → Fills (Columns y ey (suc left) i) ram out
join y ey left i ram mid out v r = record {
  inside = λ p q a. ground (arith, r.inside p q, r.outside p q, v.inside p q);
  outside = λ p q n. r.outside p q (λ a. n (omega arith)) ∙ v.outside p q (λ a. n (omega arith));
}

module _ (y ey : ℕ) (hy : y < 64) (hey : ey < 64) where
  fill_columns-Fills :
      (left i : ℕ) (ram : Ram)
      → i + left ≤ 128
      → (out : Ram) × (fill_columns y ey left i ram ≡ some out)
        × Fills (Columns y ey left i) ram out
  unfolding fill_columns
  fill_columns-Fills zero i ram room =
      (ram, refl, record { inside = λ p q a. absurd (omega arith); outside = λ p q n. refl })
  fill_columns-Fills (suc left) i ram room =
      let (mid, drawn, paints) =
        draw_line-Paints i y i ey ram (omega arith, hy) (omega arith, hey) in
      let (out, runs, rest) = fill_columns-Fills left (i + 1) mid (omega arith) in
      (out, rw drawn runs, join y ey left i ram mid out (vertical-Fills i y ey ram mid paints) rest)

Fills-iff :
    (A B : ℕ → ℕ → Type 0) (ram out : Ram)
    → Fills A ram out
    → ((p q : ℕ) → A p q ↔ B p q)
    → Fills B ram out
Fills-iff A B ram out f same = record {
  inside = λ p q b. f.inside p q ((same p q).1 b);
  outside = λ p q n. f.outside p q (λ a. n ((same p q).0 a));
}

-- Between any two positions on the screen, in either order, a filled rectangle ends with status 0
-- and sets exactly the pixels between their columns and rows: those are 1, and all others are as
-- they were.
pub draw_rect-Fills :
    (sx sy ex ey : ℕ) (ram : Ram)
    → OnScreen sx sy
    → OnScreen ex ey
    → (out : Ram) × (draw_rect sx sy ex ey true ram ≡ some (out, pos 0))
      × Fills (λ p q. Between sx ex p × Between sy ey q) ram out
unfolding draw_rect
draw_rect-Fills sx sy ex ey ram s e = elim (Bool-cases (leb sx ex)) [
  | inl up ↦
      let (out, runs, fills) =
        fill_columns-Fills sy ey s.1 e.1 (ex + 1 - sx) sx ram (ground arith) in
      (
        out,
        rw (both_on sx sy ex ey s e, up) (rw runs),
        Fills-iff _ _ ram out fills (λ p q. ground arith),
      )
  | inr down ↦
      let (out, runs, fills) =
        fill_columns-Fills sy ey s.1 e.1 (sx + 1 - ex) ex ram (ground arith) in
      (
        out,
        rw (both_on sx sy ex ey s e, down) (rw runs),
        Fills-iff _ _ ram out fills (λ p q. ground arith),
      )
]
