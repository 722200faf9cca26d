-- ===== src/Motor/Speed.antt =====
-- What a speed does to the pins of a motor.
use team.Prelude.{
  ℕ, suc, ◌≤◌, ◌<◌, ◌≡◌, min, Bool, true, false, List, [], ◌∷◌, ◌++◌, arith, ◌==◌, if◌then◌else◌,
}
use team.Prelude.Int.{ℤ, pos, negsuc, pos_part, neg_part}
use team.Motor.{
  Call, gpio_set, gpio_clear, pwm_set, Dcmotor, MotorController, dcmotor_set_speed,
  motor_controller_set_speed,
}

-- An `int16_t`.
abbrev pub IsInt16 : ℤ → Type 0
IsInt16 speed = (pos_part speed < 32768) × (neg_part speed ≤ 32768)

-- The calls for a direction and a duty.
abbrev pub drive : Bool → Bool → ℕ → Dcmotor → List Call
drive a b duty dev =
    (if a then gpio_set dev.dir_a else gpio_clear dev.dir_a)
    ∷ (if b then gpio_set dev.dir_b else gpio_clear dev.dir_b)
    ∷ pwm_set dev.pwm dev.channel duty
    ∷ []

-- What a speed asks of a motor: brake at 0, else a direction by the sign, and the magnitude up to
-- the motor's `freq`.
abbrev pub wanted : ℤ → Dcmotor → List Call
wanted (pos n) dev = drive true (n == 0) (min n dev.freq) dev
wanted (negsuc n) dev = drive false true (min (suc n) dev.freq) dev

-- For every `int16_t`, also -32768, a motor whose `freq` fits an `int16_t` is driven in the
-- direction of the sign with the lesser of the magnitude and `freq`, and is braked by 0.
pub dcmotor_set_speed_lem :
    (dev : Dcmotor) (speed : ℤ)
    → IsInt16 speed
    → dev.freq < 32768
    → dcmotor_set_speed dev speed ≡ wanted speed dev
unfolding dcmotor_set_speed
dcmotor_set_speed_lem dev (pos n) i f = ground arith
dcmotor_set_speed_lem dev (negsuc n) i f = ground arith

-- The controller drives both motors so, with status 0, whatever the timeout is: no timeout
-- stops them.
motor_controller_set_speed_lem :
    (dev : MotorController) (speed : ℤ) (timeout : ℕ)
    → IsInt16 speed
    → dev.motor_a.freq < 32768
    → dev.motor_b.freq < 32768
    → motor_controller_set_speed dev speed timeout
      ≡ (wanted speed dev.motor_a ++ wanted speed dev.motor_b, pos 0)
unfolding motor_controller_set_speed
motor_controller_set_speed_lem dev speed timeout i fa fb =
    rw (dcmotor_set_speed_lem dev.motor_a speed i fa, dcmotor_set_speed_lem dev.motor_b speed i fb)
