-- ===== src/Lcd/Line/Paint.antt =====
-- What a line leaves in the frame buffer, part by part.
use team.Prelude.{ℕ, ◌+◌, ◌≤◌, ◌<◌, ◌≡◌, ◌⊎◌, inl, inr, Bool, true, false, arith}
use team.Lcd.{Ram, store, set_pixel}
use team.Lcd.Line.Step.{Away, one_if}

-- `p` lies between `x` and `e`, both included, in either order.
abbrev pub Between : ℕ → ℕ → ℕ → Type 0
Between x e p = ((x ≤ p) × (p ≤ e)) ⊎ ((e ≤ p) × (p ≤ x))

-- Painting from (x, y) to (ex, ey) turned `ram` into `out`: a pixel that changed is 1 and lies
-- between the ends, and every row and every column between the ends has a pixel that is 1.
pub record Paints (x y ex ey : ℕ) (ram out : Ram) : Type 0 where
  pub changed : (p q : ℕ) → (out p q ≡ ram p q) ⊎ ((out p q ≡ 1) × Between x ex p × Between y ey q)
  pub rows : (q : ℕ) → Between y ey q → (p : ℕ) × Between x ex p × (out p q ≡ 1)
  pub cols : (p : ℕ) → Between x ex p → (q : ℕ) × Between y ey q × (out p q ≡ 1)

-- A coordinate that comes nearer by at most one leaves nothing out.
pub record Nears (x x' e : ℕ) : Type 0 where
  pub wider : (p : ℕ) → Between x' e p → Between x e p
  pub covers : (p : ℕ) → Between x e p → (p ≡ x) ⊎ Between x' e p

pub Away-Nears :
    (up move : Bool) (x x' e n n' : ℕ)
    → Away up x e n
    → Away up x' e n'
    → n ≡ n' + one_if move
    → Nears x x' e
Away-Nears true true x x' e n n' h h' k = record {
  wider = λ p b. omega arith;
  covers = λ p b. omega arith;
}
Away-Nears true false x x' e n n' h h' k = record {
  wider = λ p b. omega arith;
  covers = λ p b. omega arith;
}
Away-Nears false true x x' e n n' h h' k = record {
  wider = λ p b. omega arith;
  covers = λ p b. omega arith;
}
Away-Nears false false x x' e n n' h h' k = record {
  wider = λ p b. omega arith;
  covers = λ p b. omega arith;
}

pub set_pixel_on :
    (x y : ℕ) (ram : Ram) → x < 128 → y < 64 → (set_pixel x y 1 ram).0 ≡ store ram x y 1
unfolding set_pixel
set_pixel_on x y ram hx hy = ground arith

-- The last pixel.
pub Paints-end : (x y : ℕ) (ram : Ram) → Paints x y x y ram (store ram x y 1)
Paints-end x y ram = record {
  changed = λ p q. ground arith;
  rows = λ q b. (x, omega arith, ground arith);
  cols = λ p b. (y, omega arith, ground arith);
}

-- A pixel, and the rest of the line from a place that is nearer.
pub Paints-step :
    (x y x' y' ex ey : ℕ) (ram out : Ram)
    → Nears x x' ex
    → Nears y y' ey
    → Paints x' y' ex ey (store ram x y 1) out
    → Paints x y ex ey ram out
Paints-step x y x' y' ex ey ram out nx ny r = record {
  changed = λ p q. ground (arith, r.changed p q, nx.wider p, ny.wider q);
  rows = λ q b. row q (ny.covers q b);
  cols = λ p b. col p (nx.covers p b);
}
  where
    painted : out x y ≡ 1
    painted = ground (arith, r.changed x y)

    row : (q : ℕ) → (q ≡ y) ⊎ Between y' ey q → (p : ℕ) × Between x ex p × (out p q ≡ 1)
    row q (inl e) = (x, omega arith, rw e painted)
    row q (inr b) = let (p, near, on) = r.rows q b in (p, nx.wider p near, on)

    col : (p : ℕ) → (p ≡ x) ⊎ Between x' ex p → (q : ℕ) × Between y ey q × (out p q ≡ 1)
    col p (inl e) = (y, omega arith, rw e painted)
    col p (inr b) = let (q, near, on) = r.cols p b in (q, ny.wider q near, on)
