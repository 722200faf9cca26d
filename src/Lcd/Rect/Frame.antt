-- ===== src/Lcd/Rect/Frame.antt =====
-- The outline of a rectangle.
use team.Prelude.{ℕ, ◌≡◌, refl, ◌∙◌, ◌⊎◌, inl, inr, false, some, arith}
use team.Prelude.Int.{pos}
use team.Lcd.{Ram, draw_rect, draw_outline}
use team.Lcd.Line.Paint.{Between, Paints}
use team.Lcd.Line.Draw.{OnScreen, draw_line-Paints, both_on}

-- The four sides between (sx, sy) and (ex, ey).
abbrev pub OnFrame : ℕ → ℕ → ℕ → ℕ → ℕ → ℕ → Type 0
OnFrame sx sy ex ey p q =
    (Between sx ex p × ((q ≡ sy) ⊎ (q ≡ ey))) ⊎ (Between sy ey q × ((p ≡ sx) ⊎ (p ≡ ex)))

-- `out` is `ram` with 1 on the frame, and nothing outside it changes.
pub record Frames (sx sy ex ey : ℕ) (ram out : Ram) : Type 0 where
  pub sides : (p q : ℕ) → OnFrame sx sy ex ey p q → out p q ≡ 1
  pub kept : (p q : ℕ) → ¬ (Between sx ex p × Between sy ey q) → out p q ≡ ram p q

-- A pixel that is 1 stays 1.
stays :
    (x y ex ey : ℕ) (ram out : Ram)
    → Paints x y ex ey ram out
    → (p q : ℕ) → ram p q ≡ 1
    → out p q ≡ 1
stays x y ex ey ram out h p q one = ground (arith, h.changed p q)

column :
    (x y ey : ℕ) (ram out : Ram) → Paints x y x ey ram out → (q : ℕ) → Between y ey q → out x q ≡ 1
column x y ey ram out h q b =
    let (p, near, one) = h.rows q b in let e : x ≡ p = omega arith in rw e one

row :
    (x y ex : ℕ) (ram out : Ram) → Paints x y ex y ram out → (p : ℕ) → Between x ex p → out p y ≡ 1
row x y ex ram out h p b =
    let (q, near, one) = h.cols p b in let e : y ≡ q = omega arith in rw e one

beside :
    (x y ex ey : ℕ) (ram out : Ram)
    → Paints x y ex ey ram out
    → (p q : ℕ) → ¬ (Between x ex p × Between y ey q)
    → out p q ≡ ram p q
beside x y ex ey ram out h p q n = ground (arith, h.changed p q)

module _ (sx sy ex ey : ℕ) (ram r0 r1 r2 r3 : Ram) (left : Paints sx sy sx ey ram r0)
    (top : Paints sx sy ex sy r0 r1) (bottom : Paints sx ey ex ey r1 r2)
    (right : Paints ex ey ex sy r2 r3) where
  sides_lit : (p q : ℕ) → OnFrame sx sy ex ey p q → r3 p q ≡ 1
  sides_lit p q (inl (b, inl e)) = rw e (
      stays ex ey ex sy r2 r3 right p sy
        (stays sx ey ex ey r1 r2 bottom p sy (row sx sy ex r0 r1 top p b)))
  sides_lit p q (inl (b, inr e)) =
      rw e (stays ex ey ex sy r2 r3 right p ey (row sx ey ex r1 r2 bottom p b))
  sides_lit p q (inr (b, inl e)) = rw e (
      stays ex ey ex sy r2 r3 right sx q (
        stays sx ey ex ey r1 r2 bottom sx q
          (stays sx sy ex sy r0 r1 top sx q (column sx sy ey ram r0 left q b))))
  sides_lit p q (inr (b, inr e)) = rw e (column ex ey sy r2 r3 right q (omega arith))

  sides_kept : (p q : ℕ) → ¬ (Between sx ex p × Between sy ey q) → r3 p q ≡ ram p q
  sides_kept p q n =
      beside ex ey ex sy r2 r3 right p q (λ h. n (omega arith))
      ∙ beside sx ey ex ey r1 r2 bottom p q (λ h. n (omega arith))
      ∙ beside sx sy ex sy r0 r1 top p q (λ h. n (omega arith))
      ∙ beside sx sy sx ey ram r0 left p q (λ h. n (omega arith))

-- Between any two positions on the screen the outline ends with status 0: its four sides are lit,
-- and nothing outside them changes.
pub draw_rect-Frames :
    (sx sy ex ey : ℕ) (ram : Ram)
    → OnScreen sx sy
    → OnScreen ex ey
    → (out : Ram) × (draw_rect sx sy ex ey false ram ≡ some (out, pos 0))
      × Frames sx sy ex ey ram out
unfolding draw_rect draw_outline
draw_rect-Frames sx sy ex ey ram s e =
    let (r0, d0, left) = draw_line-Paints sx sy sx ey ram s (s.0, e.1) in
    let (r1, d1, top) = draw_line-Paints sx sy ex sy r0 s (e.0, s.1) in
    let (r2, d2, bottom) = draw_line-Paints sx ey ex ey r1 (s.0, e.1) e in
    let (r3, d3, right) = draw_line-Paints ex ey ex sy r2 e (e.0, s.1) in
    (
      r3,
      rw (both_on sx sy ex ey s e, d0, d1, d2, d3) refl,
      record {
        sides = sides_lit sx sy ex ey ram r0 r1 r2 r3 left top bottom right;
        kept = sides_kept sx sy ex ey ram r0 r1 r2 r3 left top bottom right;
      },
    )
