-- ===== src/Multiplexer/Address.antt =====
-- The address that the three pins show.
use Prim.Native.Nat.{bit_and}
use team.Prelude.{
  ℕ, ◌+◌, ◌%◌, ◌<◌, ◌≡◌, refl, Bool, true, List, [], ◌∷◌, ◌++◌, arith, ◌==◌, if◌then◌else◌,
}
use team.Prelude.Int.{pos, negsuc}
use team.Prelude.Below.{tests_up_to, same_on_bytes}
use team.Multiplexer.{
  gpio_irq_enable, gpio_irq_disable, Call, gpio_read, put, Multiplexer, multiplexer_receive,
  multiplexer_int_enable, multiplexer_int_disable,
}

-- The number that three levels stand for.
abbrev pub number : Bool → Bool → Bool → ℕ
number a b c = (if a then 1 else 0) + (if b then 2 else 0) + (if c then 4 else 0)

abbrev levels : ℕ → ℕ
levels addr = number (bit_and addr 1 == 1) (bit_and addr 2 == 2) (bit_and addr 4 == 4)

levels_table : tests_up_to (λ addr. levels addr == addr % 8) 256 ≡ true
unfolding tests_up_to
levels_table = refl

-- Calls between the switching off and on of the interrupt, if there is one.
abbrev pub guarded : Multiplexer → List Call → List Call
guarded dev calls = elim dev.with_int [
  | negsuc n ↦ calls
  | pos n ↦ gpio_irq_disable dev.receive ∷ (calls ++ gpio_irq_enable dev.receive ∷ [])
]

int_guarded :
    (dev : Multiplexer) (a b c d : Call)
    → (multiplexer_int_disable dev).0 ++ (a ∷ b ∷ c ∷ d ∷ (multiplexer_int_enable dev).0)
      ≡ guarded dev (a ∷ b ∷ c ∷ d ∷ [])
unfolding multiplexer_int_disable multiplexer_int_enable
int_guarded dev a b c d = ground arith

-- For an address of one byte the three pins are set, in their order, to the levels of the address
-- modulo 8, then the receiving pin is read; all that with the interrupt off if the device has one,
-- and on again after. The address is remembered and nothing else changes.
pub multiplexer_receive_lem :
    (dev : Multiplexer) (addr : ℕ)
    → addr < 256
    → (a b c : Bool) × (number a b c ≡ addr % 8)
      × (multiplexer_receive dev addr ≡ (
        record dev { curr_addr = addr },
        guarded dev
            (put a dev.addr_a ∷ put b dev.addr_b ∷ put c dev.addr_c ∷ gpio_read dev.receive ∷ []),
      ))
unfolding multiplexer_receive
multiplexer_receive_lem dev addr h = (
  bit_and addr 1 == 1,
  bit_and addr 2 == 2,
  bit_and addr 4 == 4,
  same_on_bytes levels (λ n. n % 8) levels_table addr h,
  rw (int_guarded dev),
)
