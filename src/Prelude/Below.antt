-- ===== src/Prelude/Below.antt =====
-- Checking a test of bytes by evaluation at all of them.
use team.Prelude.{ℕ, zero, suc, ◌<◌, ◌≡◌, Bool, true, false, arith, ◌==◌, ==_iff, if◌then◌else◌}

unfoldable pub tests_up_to : (ℕ → Bool) → ℕ → Bool
tests_up_to test zero = true
tests_up_to test (suc bound) = if tests_up_to test bound then test bound else false

tests_up_to_lem :
    (test : ℕ → Bool) (value bound : ℕ)
    → value < bound
    → tests_up_to test bound ≡ true
    → test value ≡ true
unfolding tests_up_to
tests_up_to_lem test value zero low passed = absurd (omega arith)
tests_up_to_lem test value (suc bound) low passed = ground (arith, tests_up_to_lem test value bound)

pub every_byte : (test : ℕ → Bool) → tests_up_to test 256 ≡ true → (c : ℕ) → c < 256 → test c ≡ true
every_byte test passed c low = tests_up_to_lem test c 256 low passed

pub same_on_bytes :
    (f g : ℕ → ℕ) → tests_up_to (λ c. f c == g c) 256 ≡ true → (c : ℕ) → c < 256 → f c ≡ g c
same_on_bytes f g passed c low = (==_iff (f c) (g c)).0 (every_byte (λ c. f c == g c) passed c low)
