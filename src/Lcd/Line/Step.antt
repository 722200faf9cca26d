-- ===== src/Lcd/Line/Step.antt =====
-- One round of the loop that draws a line: it comes nearer to the end and never passes it.
use team.Prelude.{
  ℕ, zero, suc, ◌+◌, ◌*◌, ◌≤◌, ◌<◌, ◌≡◌, refl, Bool, true, false, arith, ltb→lt, if◌then◌else◌,
}
use team.Prelude.Int.{ℤ, pos, negsuc, pos_part, neg_part, ltb_ℤ, ◌+ℤ◌, ◌*ℤ◌, +ℤ_parts}
use team.Lcd.{add8}

-- `n` steps of the sign `up` lead from `x` to `e`.
abbrev pub Away : Bool → ℕ → ℕ → ℕ → Type 0
Away true x e n = x + n ≡ e
Away false x e n = e + n ≡ x

abbrev pub sign : Bool → ℤ
sign up = if up then pos 1 else negsuc 0

double_parts :
    (err : ℤ)
    → pos_part (pos 2 *ℤ err) + 2 * neg_part err ≡ neg_part (pos 2 *ℤ err) + 2 * pos_part err
unfolding ◌*ℤ◌
double_parts err = ground arith

-- A step of the right sign comes one nearer.
Away-add8 :
    (up : Bool) (x e n : ℕ)
    → x < 256
    → e < 256
    → Away up x e (suc n)
    → Away up (add8 x (sign up)) e n
Away-add8 true x e n hx he h = omega arith
Away-add8 false x e n hx he h = omega arith

-- The error of a line `a` wide and `b` high, `u` columns and `v` rows before its end.
abbrev pub IsError : ℕ → ℕ → ℕ → ℕ → ℤ → Type 0
IsError a b u v err = pos_part err + b + a * v ≡ neg_part err + a + b * u

abbrev pub one_if : Bool → ℕ
one_if b = if b then 1 else 0

-- One axis: a move is only made while steps are left.
pub axis :
    (move up : Bool) (x e n : ℕ)
    → x < 256
    → e < 256
    → Away up x e n
    → (move ≡ true → 0 < n)
    → (n' : ℕ) × Away up (if move then add8 x (sign up) else x) e n' × (n ≡ n' + one_if move)
axis false up x e n hx he h left = (n, h, omega arith)
axis true up x e zero hx he h left = absurd (omega (arith, left refl))
axis true up x e (suc n) hx he h left = (n, Away-add8 up x e n hx he h, omega arith)

-- The two differences of a line `a` wide and `b` high: `dx` is a, and `dy` is -b.
pub record Spans (a b : ℕ) (dx dy : ℤ) : Type 0 where
  pub dx_pos : pos_part dx ≡ a
  pub dx_neg : neg_part dx ≡ 0
  pub dy_pos : pos_part dy ≡ 0
  pub dy_neg : neg_part dy ≡ b

module _ (a b : ℕ) (dx dy : ℤ) (spans : Spans a b dx dy) where
  -- The two tests of a round.
  abbrev pub moves_x : ℤ → Bool
  moves_x err = ltb_ℤ dy (pos 2 *ℤ err)

  abbrev pub moves_y : ℤ → Bool
  moves_y err = ltb_ℤ (pos 2 *ℤ err) dx

  pub moves_x_left :
      (u v : ℕ) (err : ℤ) → IsError a b u v err → 0 < u + v → moves_x err ≡ true → 0 < u
  moves_x_left zero zero err h left m = absurd (omega arith)
  moves_x_left zero (suc v) err h left m =
      absurd (omega (arith, double_parts err, ltb→lt _ _ m, spans))
  moves_x_left (suc u) v err h left m = omega arith

  pub moves_y_left :
      (u v : ℕ) (err : ℤ) → IsError a b u v err → 0 < u + v → moves_y err ≡ true → 0 < v
  moves_y_left zero zero err h left m = absurd (omega arith)
  moves_y_left (suc u) zero err h left m =
      absurd (omega (arith, double_parts err, ltb→lt _ _ m, spans))
  moves_y_left u (suc v) err h left m = omega arith

  pub moves_some :
      (u v : ℕ) (err : ℤ)
      → u ≤ a
      → v ≤ b
      → 0 < u + v
      → moves_x err ≡ false
      → moves_y err ≡ false
      → ⊥
  moves_some u v err hu hv left nx ny = ground (arith, spans)

  pub IsError-after :
      (mx my : Bool) (u v : ℕ) (err : ℤ)
      → IsError a b (u + one_if mx) (v + one_if my) err
      → let err' = if mx then err +ℤ dy else err in
        IsError a b u v (if my then err' +ℤ dx else err')
  IsError-after false false u v err h = omega arith
  IsError-after true false u v err h = omega (arith, +ℤ_parts err dy, spans)
  IsError-after false true u v err h = omega (arith, +ℤ_parts err dx, spans)
  IsError-after true true u v err h = omega (arith, +ℤ_parts err dy, +ℤ_parts (err +ℤ dy) dx, spans)
