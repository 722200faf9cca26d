-- ===== src/Motor.antt =====
-- The two motors (retro11/dcmotor.c) and their controller (retro11/motor_controller.c). A call of
-- RIOT's gpio and pwm drivers is recorded; the status of `gpio_init` and `thread_create` is theirs,
-- and a parameter.
pub mod Speed
pub mod Thread
use package.team.Prelude.{
  ℕ, ◌+◌, ◌-◌, ◌%◌, Bool, Option, List, [], ◌∷◌, ◌++◌, ltb, leb, ◌==◌, if◌then◌else◌,
}
use package.team.Prelude.Int.{ℤ, pos, negsuc}

pub data Call : Type 0 where
  gpio_set gpio_clear : ℕ → Call
  pwm_set : (pwm channel value : ℕ) → Call

-- `dcmotor_t`.
pub record Dcmotor : Type 0 where
  pub pwm : ℕ
  pub channel : ℕ
  pub freq : ℕ
  pub res : ℕ
  pub dir_a : ℕ
  pub dir_b : ℕ

-- The new descriptor, the calls, and the status.
unfoldable pub dcmotor_init : (ℕ → ℤ) → Dcmotor → Dcmotor → Dcmotor × List Call × ℤ
dcmotor_init gpio_init wanted dev = elim (gpio_init wanted.dir_a) [
  | negsuc n ↦ (dev, [], negsuc 0)
  | pos n ↦ elim (gpio_init wanted.dir_b) [
    | negsuc k ↦ (dev, [], negsuc 0)
    | pos k ↦ (wanted, pwm_set wanted.pwm wanted.channel 0 ∷ [], pos 0)
  ]
]

-- `speed >= dev->freq` converts the `int16_t` to 32 bits without a sign; the result of `?:` is
-- that type, and its low 16 bits are `speed` again.
abbrev to_u32 : ℤ → ℕ
to_u32 (pos n) = n
to_u32 (negsuc n) = 4294967296 - (n + 1)

abbrev low16 : ℕ → ℕ
low16 n = n % 65536

unfoldable pub limited : ℕ → ℤ → ℕ
limited freq speed = if leb freq (to_u32 speed) then low16 freq else low16 (to_u32 speed)

-- `speed *= -1` on an `int16_t`: the negation of -32768 wraps to itself.
abbrev pub negated : ℕ → ℤ
negated n = if n == 32767 then negsuc 32767 else pos (n + 1)

-- `pwm_set` takes a `uint16_t`.
unfoldable pub dcmotor_set_speed : Dcmotor → ℤ → List Call
unfolding limited
dcmotor_set_speed dev (pos n) =
    if n == 0
    then gpio_set dev.dir_a ∷ gpio_set dev.dir_b ∷ pwm_set dev.pwm dev.channel 0 ∷ []
    else gpio_set dev.dir_a
      ∷ gpio_clear dev.dir_b
      ∷ pwm_set dev.pwm dev.channel (limited dev.freq (pos n))
      ∷ []
dcmotor_set_speed dev (negsuc n) =
    gpio_clear dev.dir_a
    ∷ gpio_set dev.dir_b
    ∷ pwm_set dev.pwm dev.channel (limited dev.freq (negated n))
    ∷ []

-- `motor_controller_t`, less the message that nothing fills in.
pub record MotorController : Type 0 where
  pub motor_a : Dcmotor
  pub motor_b : Dcmotor
  pub ctrl_pid : ℤ

-- The new controller and the status; `thread_create` gives the pid.
unfoldable pub motor_controller_init : ℤ → Dcmotor → Dcmotor → MotorController → MotorController × ℤ
motor_controller_init (negsuc n) motor_a motor_b dev =
    (record dev { ctrl_pid = negsuc n }, negsuc 0)
motor_controller_init (pos n) motor_a motor_b dev =
    (record { motor_a = motor_a; motor_b = motor_b; ctrl_pid = pos n }, pos n)

unfoldable pub motor_controller_set_speed : MotorController → ℤ → ℕ → List Call × ℤ
motor_controller_set_speed dev speed timeout =
    (dcmotor_set_speed dev.motor_a speed ++ dcmotor_set_speed dev.motor_b speed, pos 0)
