-- ===== src/System/Told.antt =====
-- What the game threads make of the client's verdict.
use team.Prelude.{ℕ, ◌≡◌, refl, true, some, List, [], ◌∷◌, length}
use team.Prelude.Int.{ltb_ℤ}
use team.Prelude.Text.{c_str, atol}
use team.Game.{get_result, winner, looser}
use team.Game.Run.{
  Thread, Act, Event, enter_name, wait_verdict, named, pressed, timed_out, look, clear, show,
  draw_s, winner_animation, looser_animation, game_step,
}
use team.Server.{coap_resources, set_winner_handler, set_looser_handler}
use team.Client.{Client, read, rcvd_result}
use team.Client.Entries.{Entries, IsValid}
use team.Client.Poll.{Round, client_round, commands}
use team.System.{obey}
use team.System.Verdict.{client_round-Fair}

-- A thread that has reported its result and waits for its verdict.
pub record IsWaiting (t : Thread) : Type 0 where
  pub waits : t.phase ≡ wait_verdict
  pub has_result : t.game.state ≡ get_result

-- The screen with the player's name, and an animation.
abbrev pub verdict_screen : Thread → Act → List Act
verdict_screen t animation =
    let name = c_str t.game.playername in
    clear ∷ draw_s 11 15 name (length name) ∷ show ∷ animation ∷ []

-- The next look of a thread ends its wait with an animation, and it asks for a name again.
abbrev pub Shows : ℕ → ℕ → Act → Thread → Thread → Type 0
Shows now timeout animation before t =
    ((game_step (look now timeout) t).1 ≡ verdict_screen before animation)
    × ((game_step (look now timeout) t).0.phase ≡ enter_name)

-- A thread that got no verdict stays as it is.
pub waiting-stays : (t : Thread) → IsWaiting t → (event : Event) → game_step event t ≡ (t, [])
unfolding game_step
waiting-stays t w (named name) = rw w.waits refl
waiting-stays t w (look now timeout) = rw (w.waits, w.has_result) refl
waiting-stays t w (pressed now) = rw w.waits refl
waiting-stays t w timed_out = rw w.waits refl

-- A verdict that reaches its machine is shown at the next look.
wins :
    (now timeout : ℕ) (t : Thread)
    → IsWaiting t
    → Shows now timeout winner_animation t (record t { game = record (t.game) { state = winner } })
unfolding game_step
wins now timeout t w = rw w.waits (refl, refl)

loses :
    (now timeout : ℕ) (t : Thread)
    → IsWaiting t
    → Shows now timeout looser_animation t (record t { game = record (t.game) { state = looser } })
unfolding game_step
loses now timeout t w = rw w.waits (refl, refl)

-- Machine 0 wins, and machine 1.
obey_first :
    (t : Thread)
    → (obey 0 (commands "/set/winner" "/set/looser") t
        ≡ record t { game = record (t.game) { state = winner } })
      × (obey 1 (commands "/set/winner" "/set/looser") t
          ≡ record t { game = record (t.game) { state = looser } })
unfolding obey coap_resources set_winner_handler set_looser_handler
obey_first t = (refl, refl)

obey_second :
    (t : Thread)
    → (obey 0 (commands "/set/looser" "/set/winner") t
        ≡ record t { game = record (t.game) { state = looser } })
      × (obey 1 (commands "/set/looser" "/set/winner") t
          ≡ record t { game = record (t.game) { state = winner } })
unfolding obey coap_resources set_winner_handler set_looser_handler
obey_second t = (refl, refl)

-- When the client has two results and both game threads wait for the verdict, the client's round is
-- defined, and its commands, when they reach the machines, decide the game by the numbers that the
-- client's pointers read as: at its next look the machine with the smaller number plays the
-- animation of the winner, the other that of the looser, and both ask for a name again. Equal
-- numbers change neither thread.
pub verdict-Shows :
    (stack : List ℕ → List ℕ) (c : Client) (e : Entries) (t0 t1 : Thread) (now timeout : ℕ)
    → c.m0_state ≡ rcvd_result
    → c.m1_state ≡ rcvd_result
    → IsValid e
    → IsWaiting t0
    → IsWaiting t1
    → let r0 = atol (read stack c.m0_result) in
      let r1 = atol (read stack c.m1_result) in
      (r : Round) × (client_round stack c e ≡ some r)
      × (ltb_ℤ r0 r1 ≡ true
          → Shows now timeout winner_animation t0 (obey 0 r.sent t0)
            × Shows now timeout looser_animation t1 (obey 1 r.sent t1))
      × (ltb_ℤ r1 r0 ≡ true
          → Shows now timeout looser_animation t0 (obey 0 r.sent t0)
            × Shows now timeout winner_animation t1 (obey 1 r.sent t1))
      × (r0 ≡ r1 → (obey 0 r.sent t0 ≡ t0) × (obey 1 r.sent t1 ≡ t1))
unfolding obey
verdict-Shows stack c e t0 t1 now timeout s0 s1 v w0 w1 =
    let (r, round, fair, reset, valid, hold0, hold1) = client_round-Fair stack c e s0 s1 v in
    (
      r,
      round,
      λ h.
          rw (fair.0 h, (obey_first t0).0, (obey_first t1).1)
            (wins now timeout t0 w0, loses now timeout t1 w1),
      λ h.
          rw (fair.1 h, (obey_second t0).0, (obey_second t1).1)
            (loses now timeout t0 w0, wins now timeout t1 w1),
      λ h. rw (fair.2 h) (refl, refl),
    )
