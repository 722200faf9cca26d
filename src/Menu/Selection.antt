-- ===== src/Menu/Selection.antt =====
-- The selection stays in the menu.
use team.Prelude.{
  ℕ, ◌+◌, ◌-◌, ◌%◌, ◌<◌, ◌≡◌, List, [], ◌∷◌, ◌++◌, arith, ◌==◌, ==_iff, Bool-cases, inl, inr,
  if◌then◌else◌,
}
use native.Mathlib.Nat.{mod-eq_of_lt}
use team.Menu.{menu_step}

abbrev pub AllBelow : ℕ → List ℕ → Type 0
AllBelow n [] = Unit
AllBelow n (x ∷ l) = (x < n) × AllBelow n l

pub AllBelow-append : (n : ℕ) (l m : List ℕ) → AllBelow n l → AllBelow n m → AllBelow n (l ++ m)
AllBelow-append n [] m h k = k
AllBelow-append n (x ∷ l) m h k = (h.0, AllBelow-append n l m h.1 k)

-- The next item, without a remainder.
next_item : (n c : ℕ) → c < n → (c + 1) % n ≡ (if c + 1 == n then 0 else c + 1)
next_item n c h = elim (Bool-cases (c + 1 == n)) [
  | inl e ↦ rw e (rw ((==_iff (c + 1) n).0 e) (grind arith))
  | inr ne ↦ rw ne (mod-eq_of_lt (ground arith))
]

-- Moving up undoes moving down and the other way round, from every item of a menu, also across
-- its ends.
menu_step_inverse :
    (cmd_count curr_item : ℕ)
    → curr_item < cmd_count
    → ((menu_step cmd_count 1 (menu_step cmd_count 2 curr_item).0).0 ≡ curr_item)
      × ((menu_step cmd_count 2 (menu_step cmd_count 1 curr_item).0).0 ≡ curr_item)
unfolding menu_step
menu_step_inverse cmd_count curr_item h = (
  ground (arith, next_item cmd_count curr_item h),
  ground (arith, next_item cmd_count (curr_item - 1), next_item cmd_count (cmd_count - 1)),
)

pub menu_step-AllBelow :
    (cmd_count action curr_item : ℕ)
    → curr_item < cmd_count
    → ((menu_step cmd_count action curr_item).0 < cmd_count)
      × AllBelow cmd_count (menu_step cmd_count action curr_item).1
unfolding menu_step
menu_step-AllBelow cmd_count action curr_item h = ground (arith, next_item cmd_count curr_item h)
