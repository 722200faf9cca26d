-- ===== src/Motor/Thread.antt =====
-- The thread of the motor controller (retro11/motor_controller.c), message by message.
use team.Prelude.{ℕ, ◌<◌, ◌≡◌, List, [], ◌∷◌, ◌++◌, map, arith, ltb, lt→ltb, if◌then◌else◌}
use team.Prelude.Int.{ℤ, pos}
use team.Motor.{Call, MotorController, dcmotor_set_speed}
use team.Motor.Speed.{IsInt16, wanted, dcmotor_set_speed_lem}

-- `motor_control_msg_t`.
pub record MotorControlMsg : Type 0 where
  pub speed : ℤ
  pub timeout : ℕ
  pub pid : ℤ

-- What the thread does: calls of a motor's drivers, a sleep, and an answer with type and value.
pub data Act : Type 0 where
  call : Call → Act
  xtimer_usleep : ℕ → Act
  msg_send : ℤ → ℕ → ℕ → Act

-- Both motors at one speed.
abbrev pub set_both : MotorController → ℤ → List Act
set_both dev speed =
    map call (dcmotor_set_speed dev.motor_a speed) ++ map call (dcmotor_set_speed dev.motor_b speed)

-- A round of the loop, on a message that points to `dev` with the parameters `param`.
unfoldable pub motor_ctrl_thread_handler : MotorController → MotorControlMsg → List Act
motor_ctrl_thread_handler dev param =
    set_both dev param.speed
    ++ (if ltb 0 param.timeout
        then xtimer_usleep param.timeout
          ∷ (set_both dev (pos 0) ++ msg_send param.pid 0 param.timeout ∷ [])
        else [])

-- A message with a timeout drives both motors as its speed asks, waits for that time, brakes both
-- motors, and only then answers the sender with the timeout.
motor_ctrl_thread_handler_lem :
    (dev : MotorController) (param : MotorControlMsg)
    → 0 < param.timeout
    → IsInt16 param.speed
    → dev.motor_a.freq < 32768
    → dev.motor_b.freq < 32768
    → motor_ctrl_thread_handler dev param
      ≡ map call (wanted param.speed dev.motor_a)
        ++ map call (wanted param.speed dev.motor_b)
        ++ xtimer_usleep param.timeout
          ∷ (map call (wanted (pos 0) dev.motor_a)
              ++ map call (wanted (pos 0) dev.motor_b)
              ++ msg_send param.pid 0 param.timeout ∷ [])
unfolding motor_ctrl_thread_handler
motor_ctrl_thread_handler_lem dev param late i fa fb = rw (
  lt→ltb 0 param.timeout late,
  dcmotor_set_speed_lem dev.motor_a param.speed i fa,
  dcmotor_set_speed_lem dev.motor_b param.speed i fb,
  dcmotor_set_speed_lem dev.motor_a (pos 0) (omega arith, omega arith) fa,
  dcmotor_set_speed_lem dev.motor_b (pos 0) (omega arith, omega arith) fb,
)
