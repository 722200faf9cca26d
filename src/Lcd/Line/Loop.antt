-- ===== src/Lcd/Line/Loop.antt =====
-- The loop that draws a line, with enough fuel.
use team.Prelude.{
  ℕ, zero, suc, ◌+◌, ◌≤◌, ◌<◌, ◌≡◌, refl, inl, inr, Bool, true, false, ◌&&◌, some, arith, ◌==◌,
  Bool-cases, if◌then◌else◌,
}
use team.Prelude.Int.{ℤ}
use team.Lcd.{Ram, store, add8, line_step, line_loop}
use team.Lcd.Line.Step.{
  Away, sign, IsError, one_if, axis, Spans, moves_x, moves_y, moves_x_left, moves_y_left,
  moves_some, IsError-after,
}
use team.Lcd.Line.Paint.{Paints, Nears, Away-Nears, set_pixel_on, Paints-end, Paints-step}

Away-zero : (up : Bool) (x e : ℕ) → Away up x e 0 → x ≡ e
Away-zero true x e h = omega arith
Away-zero false x e h = omega arith

-- A place between an earlier one and the end is on the screen with them.
Away-lt :
    (up : Bool) (x x' e n n' k : ℕ)
    → Away up x e n
    → Away up x' e n'
    → n' ≤ n
    → x < k
    → e < k
    → x' < k
Away-lt true x x' e n n' k h h' le hx he = omega arith
Away-lt false x x' e n n' k h h' le hx he = omega arith

some_move : (mx my : Bool) → (mx ≡ false → my ≡ false → ⊥) → 0 < one_if mx + one_if my
some_move true my h = ground arith
some_move false true h = omega arith
some_move false false h = absurd (h refl refl)

module _ (a b : ℕ) (dx dy : ℤ) (spans : Spans a b dx dy) (up_x up_y : Bool) (ex ey : ℕ)
    (hex : ex < 128) (hey : ey < 64) where
  -- Where the loop stands, `u` columns and `v` rows before the end.
  pub record Stands (u v x y : ℕ) (err : ℤ) : Type 0 where
    pub cols : Away up_x x ex u
    pub rows : Away up_y y ey v
    pub error : IsError a b u v err
    pub wide : u ≤ a
    pub high : v ≤ b
    pub on_x : x < 128
    pub on_y : y < 64

  abbrev next : ℕ → ℕ → ℤ → ℕ × ℕ × ℤ
  next = line_step dx dy (sign up_x) (sign up_y) ex ey

  -- One round comes nearer to the end by a column, a row or both.
  record Stepped (u v x y : ℕ) (next : ℕ × ℕ × ℤ) : Type 0 where
    u' : ℕ
    v' : ℕ
    stands : Stands u' v' next.0 next.1 next.2
    nearer : u' + v' < u + v
    near_x : Nears x next.0 ex
    near_y : Nears y next.1 ey

  step-Stands :
      (u v x y : ℕ) (err : ℤ) → Stands u v x y err → 0 < u + v → Stepped u v x y (next x y err)
  unfolding line_step
  step-Stands u v x y err s left =
      let mx = moves_x a b dx dy spans err in
      let my = moves_y a b dx dy spans err in
      let left_x = moves_x_left a b dx dy spans u v err s.error left in
      let left_y = moves_y_left a b dx dy spans u v err s.error left in
      let (u', cols', eu) = axis mx up_x x ex u (omega (arith, s)) (omega arith) s.cols left_x in
      let (v', rows', ev) = axis my up_y y ey v (omega (arith, s)) (omega arith) s.rows left_y in
      let x' = if mx then add8 x (sign up_x) else x in
      let y' = if my then add8 y (sign up_y) else y in
      let moved : 0 < one_if mx + one_if my =
        some_move mx my (λ nx ny. moves_some a b dx dy spans u v err s.wide s.high left nx ny) in
      record {
        u' = u';
        v' = v';
        stands = record {
          cols = cols';
          rows = rows';
          error = IsError-after a b dx dy spans mx my u' v' err (rw (← eu) (rw (← ev) s.error));
          wide = omega arith;
          high = omega arith;
          on_x = Away-lt up_x x x' ex u u' 128 s.cols cols' (omega arith) s.on_x hex;
          on_y = Away-lt up_y y y' ey v v' 64 s.rows rows' (omega arith) s.on_y hey;
        };
        nearer = omega arith;
        near_x = Away-Nears up_x mx x x' ex u u' s.cols cols' eu;
        near_y = Away-Nears up_y my y y' ey v v' s.rows rows' ev;
      }

  steps_left :
      (u v x y : ℕ) (err : ℤ) → Stands u v x y err → (x == ex && y == ey) ≡ false → 0 < u + v
  steps_left zero zero x y err s more =
      absurd (ground (arith, Away-zero up_x x ex s.cols, Away-zero up_y y ey s.rows))
  steps_left (suc u) v x y err s more = omega arith
  steps_left zero (suc v) x y err s more = omega arith

  -- With more fuel than steps are left, the loop ends at the end of the line.
  pub line_loop-Paints :
      (fuel u v x y : ℕ) (err : ℤ) (ram : Ram)
      → Stands u v x y err
      → u + v < fuel
      → (out : Ram) × (line_loop dx dy (sign up_x) (sign up_y) ex ey fuel x y err ram ≡ some out)
        × Paints x y ex ey ram out
  unfolding line_loop
  line_loop-Paints zero u v x y err ram s lt = absurd (omega arith)
  line_loop-Paints (suc fuel) u v x y err ram s lt = elim (Bool-cases (x == ex && y == ey)) [
    | inl done ↦
        let ends : (x ≡ ex) × (y ≡ ey) = ground arith in
        (
          store ram x y 1,
          rw (done, set_pixel_on x y ram s.on_x s.on_y),
          rw (← ends.0) (rw (← ends.1) (Paints-end x y ram)),
        )
    | inr more ↦
        let st = step-Stands u v x y err s (steps_left u v x y err s more) in
        let (out, runs, paints) =
          line_loop-Paints fuel st.u' st.v' (next x y err).0 (next x y err).1 (next x y err).2
            (store ram x y 1) st.stands (omega (arith, st.nearer)) in
        (
          out,
          rw (more, set_pixel_on x y ram s.on_x s.on_y) runs,
          Paints-step x y (next x y err).0 (next x y err).1 ex ey ram out st.near_x st.near_y
              paints,
        )
  ]
