-- ===== src/System/Verdict.antt =====
-- The client's verdict on two results.
use team.Prelude.{ℕ, ◌+◌, ◌≡◌, refl, true, some, List, [], arith}
use team.Prelude.Int.{ℤ, ltb_ℤ}
use team.Prelude.Text.{atol}
use team.Client.{Client, read, rcvd_result, reset_client_states}
use team.Client.Entries.{Entries, IsValid, Holds, set_entry_counter, set_entry_counter-IsValid}
use team.Client.Poll.{Command, Round, verdict, client_round, commands}

-- The commands that two numbers call for.
abbrev pub Fair : ℤ → ℤ → List Command → Type 0
Fair r0 r1 sent =
    (ltb_ℤ r0 r1 ≡ true → sent ≡ commands "/set/winner" "/set/looser")
    × (ltb_ℤ r1 r0 ≡ true → sent ≡ commands "/set/looser" "/set/winner")
    × (r0 ≡ r1 → sent ≡ [])

verdict-Fair : (r0 r1 : ℤ) → Fair r0 r1 (verdict r0 r1)
unfolding verdict
verdict-Fair r0 r1 = (λ h. rw h refl, λ h. ground (arith, h), λ h. rw h (ground arith))

abbrev pub round_of : (List ℕ → List ℕ) → Client → Entries → Round
round_of stack c e' = record {
  sent = verdict (atol (read stack c.m0_result)) (atol (read stack c.m1_result));
  client = reset_client_states c;
  entries = e';
}

pub client_round_results :
    (stack : List ℕ → List ℕ) (c : Client) (e e' : Entries)
    → c.m0_state ≡ rcvd_result
    → c.m1_state ≡ rcvd_result
    → set_entry_counter stack c e ≡ some e'
    → client_round stack c e ≡ some (round_of stack c e')
unfolding client_round
client_round_results stack c e e' s0 s1 filed = simp (s0, s1) (rw filed)

pub client_round-Fair :
    (stack : List ℕ → List ℕ) (c : Client) (e : Entries)
    → c.m0_state ≡ rcvd_result
    → c.m1_state ≡ rcvd_result
    → IsValid e
    → let r0 = atol (read stack c.m0_result) in
      let r1 = atol (read stack c.m1_result) in
      (r : Round) × (client_round stack c e ≡ some r)
      × Fair r0 r1 r.sent
      × (r.client ≡ reset_client_states c)
      × IsValid r.entries
      × Holds e.entry_counter c.m0_name r0 r.entries
      × Holds (e.entry_counter + 1) c.m1_name r1 r.entries
client_round-Fair stack c e s0 s1 v =
    let (e', filed, valid, hold0, hold1) = set_entry_counter-IsValid stack c e v in
    (
      round_of stack c e',
      client_round_results stack c e e' s0 s1 filed,
      verdict-Fair (atol (read stack c.m0_result)) (atol (read stack c.m1_result)),
      refl,
      valid,
      hold0,
      hold1,
    )
