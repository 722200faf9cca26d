-- ===== src/Client/Payload.antt =====
-- The payloads that the client accepts.
use team.Prelude.{
  ℕ, ◌+◌, Bool, none, ltb, zero, suc, ◌-◌, ◌<◌, ◌≡◌, refl, true, some, List, ◌∷◌, ◌++◌, length,
  arith, ◌==◌, if◌then◌else◌,
}
use team.Prelude.Text.{codes}
use team.Prelude.Text.Copy.{no_nul, c_str_self, strncpy_self}
use team.Client.{
  Client, ended, on_subject, on_payload, value_of, set_name, set_result, set_is_working,
}

-- The identifier of a machine, `MACHINE` of retro11/include/retro11_conf.h.
abbrev pub machine_id : ℕ → List ℕ
machine_id m = if m == 0 then codes "M0" else codes "M1"

module _ (behind : ℕ → Bool) where
  -- A value of at least one byte is read whole, if its terminator has room.
  value_of_lem :
      (a b c x : ℕ) (v : List ℕ)
      → no_nul (x ∷ v) ≡ true
      → value_of behind (a ∷ b ∷ c ∷ x ∷ v)
        ≡ (if behind (length v + 1) then some (ended (x ∷ v)) else none)
  value_of_lem a b c x v h =
      let size : length (a ∷ b ∷ c ∷ x ∷ v) - 3 ≡ length v + 1 = omega arith in
      let some_byte : ltb 0 (length v + 1) ≡ true = ground arith in
      rw
        (size, some_byte, strncpy_self (length v + 1) (x ∷ v) h (omega arith), c_str_self (x ∷ v) h)
        refl

  -- The machine is read off the first three bytes, and the rest is the subject and the value.
  pub on_payload_machine :
      (m x : ℕ) (t : List ℕ) (c : Client)
      → m < 2
      → no_nul (x ∷ t) ≡ true
      → on_payload behind (machine_id m ++ (codes "." ++ x ∷ t)) c
        ≡ (if behind (length t + 1) then on_subject behind (x ∷ t) m c else none)
  unfolding on_payload
  on_payload_machine zero x t c lt h =
      let size : length (codes "M0." ++ x ∷ t) - 3 ≡ length t + 1 = omega arith in
      let some_byte : ltb 0 (length t + 1) ≡ true = ground arith in
      rw (size, some_byte, strncpy_self (length t + 1) (x ∷ t) h (omega arith)) refl
  on_payload_machine (suc zero) x t c lt h =
      let size : length (codes "M1." ++ x ∷ t) - 3 ≡ length t + 1 = omega arith in
      let some_byte : ltb 0 (length t + 1) ≡ true = ground arith in
      rw (size, some_byte, strncpy_self (length t + 1) (x ∷ t) h (omega arith)) refl
  on_payload_machine (suc (suc m)) x t c lt h = absurd (omega arith)

  pub on_subject_name :
      (m x : ℕ) (v : List ℕ) (c : Client)
      → no_nul (x ∷ v) ≡ true
      → on_subject behind (codes "na." ++ x ∷ v) m c
        ≡ (if behind (length v + 1) then some (set_name (ended (x ∷ v)) m c) else none)
  unfolding on_subject
  on_subject_name m x v c h = rw (value_of_lem 110 97 46 x v h) (ground arith)

  pub on_subject_result :
      (m x : ℕ) (v : List ℕ) (c : Client)
      → no_nul (x ∷ v) ≡ true
      → on_subject behind (codes "re." ++ x ∷ v) m c
        ≡ (if behind (length v + 1) then some (set_result (ended (x ∷ v)) m c) else none)
  unfolding on_subject
  on_subject_result m x v c h = rw (value_of_lem 114 101 46 x v h) (ground arith)

  pub on_subject_start :
      (m : ℕ) (c : Client) → on_subject behind (codes "st") m c ≡ some (set_is_working m c)
  unfolding on_subject
  on_subject_start m c = refl
