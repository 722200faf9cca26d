-- ===== src/Multiplexer.antt =====
-- The button multiplexer (retro11/multiplexer.c). Calls of RIOT's gpio driver are recorded; what a
-- read returns and what an initialisation answers is the driver's, and a parameter.
pub mod Address
use Prim.Native.Nat.{bit_and}
use package.team.Prelude.{ℕ, Bool, List, [], ◌∷◌, ◌++◌, ◌==◌, if◌then◌else◌}
use package.team.Prelude.Int.{ℤ, pos, negsuc}

pub data Call : Type 0 where
  gpio_set gpio_clear gpio_read gpio_irq_enable gpio_irq_disable : ℕ → Call

-- `multiplexer_t`.
pub record Multiplexer : Type 0 where
  pub receive : ℕ
  pub addr_a : ℕ
  pub addr_b : ℕ
  pub addr_c : ℕ
  pub curr_addr : ℕ
  pub with_int : ℤ

-- The calls and the status.
unfoldable pub init_gpio_outs : (ℕ → ℤ) → Multiplexer → List Call × ℤ
init_gpio_outs gpio_init dev = elim (gpio_init dev.addr_a) [
  | negsuc n ↦ ([], negsuc 0)
  | pos n ↦ elim (gpio_init dev.addr_b) [
    | negsuc k ↦ ([], negsuc 0)
    | pos k ↦ elim (gpio_init dev.addr_c) [
      | negsuc l ↦ ([], negsuc 0)
      | pos l ↦ (gpio_clear dev.addr_a ∷ gpio_clear dev.addr_b ∷ gpio_clear dev.addr_c ∷ [], pos 0)
    ]
  ]
]

-- Both ways to initialise, by whether an interrupt is wanted. `receive_init` is what `gpio_init` or
-- `gpio_init_int` answers for the receiving pin.
unfoldable pub multiplexer_init :
    ℤ → (ℕ → ℤ) → Multiplexer → (receive addr_a addr_b addr_c : ℕ) → Multiplexer × List Call × ℤ
unfolding init_gpio_outs
multiplexer_init receive_init gpio_init dev receive addr_a addr_b addr_c =
    let dev' = record dev {
      receive = receive;
      addr_a = addr_a;
      addr_b = addr_b;
      addr_c = addr_c;
      with_int = negsuc 0;
    } in
    elim receive_init [
      | negsuc n ↦ (dev, [], negsuc 0)
      | pos n ↦ let (calls, status) = init_gpio_outs gpio_init dev' in (dev', calls, status)
    ]

unfoldable pub multiplexer_init_int :
    ℤ → (ℕ → ℤ) → Multiplexer → (receive addr_a addr_b addr_c : ℕ) → Multiplexer × List Call × ℤ
unfolding init_gpio_outs
multiplexer_init_int receive_init gpio_init dev receive addr_a addr_b addr_c =
    let dev' : Multiplexer = record {
      receive = receive;
      addr_a = addr_a;
      addr_b = addr_b;
      addr_c = addr_c;
      curr_addr = 0;
      with_int = pos 1;
    } in
    elim receive_init [
      | negsuc n ↦ (dev, [], negsuc 0)
      | pos n ↦ let (calls, status) = init_gpio_outs gpio_init dev' in (dev', calls, status)
    ]

unfoldable pub multiplexer_int_enable : Multiplexer → List Call × ℤ
multiplexer_int_enable dev = elim dev.with_int [
  | negsuc n ↦ ([], negsuc 0)
  | pos n ↦ (gpio_irq_enable dev.receive ∷ [], pos 0)
]

unfoldable pub multiplexer_int_disable : Multiplexer → List Call × ℤ
multiplexer_int_disable dev = elim dev.with_int [
  | negsuc n ↦ ([], negsuc 0)
  | pos n ↦ (gpio_irq_disable dev.receive ∷ [], pos 0)
]

abbrev pub put : Bool → ℕ → Call
put level pin = if level then gpio_set pin else gpio_clear pin

-- `curr_addr` is an `int16_t`; the addresses in use are small.
unfoldable pub multiplexer_receive : Multiplexer → ℕ → Multiplexer × List Call
multiplexer_receive dev addr = (
  record dev { curr_addr = addr },
  (multiplexer_int_disable dev).0
      ++ (put (bit_and addr 1 == 1) dev.addr_a
          ∷ put (bit_and addr 2 == 2) dev.addr_b
          ∷ put (bit_and addr 4 == 4) dev.addr_c
          ∷ gpio_read dev.receive
          ∷ (multiplexer_int_enable dev).0),
)
