-- ===== src/System/Exchange.antt =====
-- A request to a server and what the client makes of the response.
use team.Prelude.{
  ℕ, zero, suc, ◌+◌, ◌<◌, ◌≡◌, ◌≢◌, refl, ◌∙◌, ap, Bool, true, ◌&&◌, Option, none, some, List, [],
  ◌∷◌, ◌++◌, length, arith, if◌then◌else◌,
}
use team.Prelude.Text.{codes, c_str, print_ld}
use team.Prelude.Text.Decimal.{print_ld-no_nul}
use team.Prelude.Text.Copy.{no_nul, c_str-no_nul}
use team.Game.{Game, name_ready, get_result, start_game}
use team.Server.{request_name_handler, request_result_handler, start_game_handler}
use team.Client.{
  Client, memo_resp, resp_handler, on_payload, on_subject, set_name, ended, set_result,
  set_is_working,
}
use team.Client.Payload.{
  machine_id, on_payload_machine, on_subject_name, on_subject_result, on_subject_start,
}
use team.System.{reply}

module _ (behind : ℕ → Bool) where
  -- What the client's handler makes of a response with a text.
  abbrev pub answer : Client → List ℕ → Option Client
  answer c payload = resp_handler behind memo_resp (reply payload) c

  -- A text of some bytes goes to `on_payload`.
  answer_text : (b : ℕ) (s : List ℕ) (c : Client) → answer c (b ∷ s) ≡ on_payload behind (b ∷ s) c
  unfolding resp_handler
  answer_text b s c = ground arith

  -- A message of a machine is handled by its subject.
  answer_message :
      (m x : ℕ) (t : List ℕ) (c : Client)
      → m < 2
      → no_nul (x ∷ t) ≡ true
      → answer c (machine_id m ++ (codes "." ++ x ∷ t))
        ≡ (if behind (length t + 1) then on_subject behind (x ∷ t) m c else none)
  answer_message zero x t c lt clean =
      answer_text _ _ c ∙ on_payload_machine behind zero x t c lt clean
  answer_message (suc zero) x t c lt clean =
      answer_text _ _ c ∙ on_payload_machine behind 1 x t c lt clean
  answer_message (suc (suc m)) x t c lt clean = absurd (omega arith)

  -- What is left of a value when both arrays have room for their terminators.
  abbrev pub when_room : ℕ → Client → Option Client
  when_room n c = if behind (n + 3) && behind n then some c else none

  both_room :
      (n k : ℕ) (c : Client)
      → k ≡ n + 3
      → (if behind k then (if behind n then some c else none) else none) ≡ when_room n c
  both_room n k c e = rw e (ground arith)

  name_message :
      (m : ℕ) (c : Client) (x : ℕ) (v : List ℕ)
      → m < 2
      → no_nul (x ∷ v) ≡ true
      → answer c (machine_id m ++ (codes ".na." ++ x ∷ v))
        ≡ when_room (length v + 1) (set_name (ended (x ∷ v)) m c)
  name_message m c x v lt clean =
      answer_message m 110 (97 ∷ 46 ∷ x ∷ v) c lt clean
      ∙ (rw (on_subject_name behind m x v c clean) (
          both_room (length v + 1) (length (97 ∷ 46 ∷ x ∷ v) + 1) (set_name (ended (x ∷ v)) m c)
            (omega arith)))

  result_message :
      (m : ℕ) (c : Client) (x : ℕ) (v : List ℕ)
      → m < 2
      → no_nul (x ∷ v) ≡ true
      → answer c (machine_id m ++ (codes ".re." ++ x ∷ v))
        ≡ when_room (length v + 1) (set_result (ended (x ∷ v)) m c)
  result_message m c x v lt clean =
      answer_message m 114 (101 ∷ 46 ∷ x ∷ v) c lt clean
      ∙ (rw (on_subject_result behind m x v c clean) (
          both_room (length v + 1) (length (101 ∷ 46 ∷ x ∷ v) + 1) (set_result (ended (x ∷ v)) m c)
            (omega arith)))

  -- A message that names no value at all.
  no_value : (m : ℕ) (c : Client) → m < 2 → answer c (machine_id m ++ codes ".na.") ≡ none
  unfolding resp_handler on_payload on_subject
  no_value zero c lt = ground arith
  no_value (suc zero) c lt = ground arith
  no_value (suc (suc m)) c lt = absurd (omega arith)

  name_answer :
      (m : ℕ) (c : Client) (s : List ℕ)
      → m < 2
      → no_nul s ≡ true
      → s ≢ []
      → answer c (machine_id m ++ (codes ".na." ++ s))
        ≡ when_room (length s) (set_name (ended s) m c)
  name_answer m c [] lt clean ne = absurd (ne refl)
  name_answer m c (x ∷ v) lt clean ne =
      let size : length v + 1 ≡ length (x ∷ v) = omega arith in
      rw size at (name_message m c x v lt clean)

  result_answer :
      (m : ℕ) (c : Client) (s : List ℕ)
      → m < 2
      → no_nul s ≡ true
      → s ≢ []
      → answer c (machine_id m ++ (codes ".re." ++ s))
        ≡ when_room (length s) (set_result (ended s) m c)
  result_answer m c [] lt clean ne = absurd (ne refl)
  result_answer m c (x ∷ v) lt clean ne =
      let size : length v + 1 ≡ length (x ∷ v) = omega arith in
      rw size at (result_message m c x v lt clean)

  -- What a server answers when it has nothing to tell is no message of a machine.
  unknown_ignored : (c : Client) → answer c (codes "unknown") ≡ (if behind 4 then some c else none)
  unfolding resp_handler on_payload
  unknown_ignored c = refl

  result_ignored : (c : Client) → answer c (codes "result") ≡ (if behind 3 then some c else none)
  unfolding resp_handler on_payload
  result_ignored c = refl

  name_sent :
      (m : ℕ) (g : Game)
      → g.state ≡ name_ready
      → (request_name_handler (machine_id m) g).1
        ≡ machine_id m ++ (codes ".na." ++ c_str g.playername)
  unfolding request_name_handler
  name_sent m g ready = rw ready refl

  no_name :
      (m : ℕ) (g : Game)
      → g.state ≢ name_ready
      → (request_name_handler (machine_id m) g).1 ≡ codes "unknown"
  unfolding request_name_handler
  no_name m g other = ground arith

  result_sent :
      (m : ℕ) (g : Game)
      → g.state ≡ get_result
      → (request_result_handler (machine_id m) g).1
        ≡ machine_id m ++ (codes ".re." ++ print_ld g.reaction_time)
  unfolding request_result_handler
  result_sent m g ready = rw ready refl

  no_result :
      (m : ℕ) (g : Game)
      → g.state ≢ get_result
      → (request_result_handler (machine_id m) g).1 ≡ codes "result"
  unfolding request_result_handler
  no_result m g other = ground arith

  -- The client's request for a name, for every layout of the client's local arrays. If the machine's
  -- game has a name ready, and it is not empty, the client stores exactly that name for that machine
  -- and notes that it has it, provided that a byte is free behind both arrays that the handler
  -- terminates; where one is not free, which is what the C language says of each, the response is
  -- undefined. An empty name is undefined in every layout. In every other state of the game the
  -- client stays as it is, provided that a byte is free behind the one array of four bytes.
  pub name_exchange :
      (m : ℕ) (g : Game) (c : Client)
      → m < 2
      → let name = c_str g.playername in
        let result = answer c (request_name_handler (machine_id m) g).1 in
        (g.state ≡ name_ready
          → name ≢ []
          → result ≡ when_room (length name) (set_name (ended name) m c))
        × (g.state ≡ name_ready → name ≡ [] → result ≡ none)
        × (g.state ≢ name_ready → result ≡ (if behind 4 then some c else none))
  name_exchange m g c lt = (
    λ ready ne.
        ap (answer c) (name_sent m g ready)
        ∙ name_answer m c (c_str g.playername) lt (c_str-no_nul g.playername) ne,
    λ ready empty.
        ap (answer c) (name_sent m g ready)
        ∙ ap (λ (s : List ℕ). answer c (machine_id m ++ (codes ".na." ++ s))) empty
        ∙ no_value m c lt,
    λ other. ap (answer c) (no_name m g other) ∙ unknown_ignored c,
  )

  -- The client's request for a result, for every layout of the client's local arrays. If the
  -- machine's game has one, the client stores for that machine the reaction time as `%ld` prints it,
  -- provided that a byte is free behind both arrays that the handler terminates; where one is not
  -- free, which is what the C language says of each, the response is undefined. In every other state
  -- of the game the client stays as it is, provided that a byte is free behind the one array of
  -- three bytes.
  pub result_exchange :
      (m : ℕ) (g : Game) (c : Client)
      → m < 2
      → let number = print_ld g.reaction_time in
        let result = answer c (request_result_handler (machine_id m) g).1 in
        (g.state ≡ get_result → result ≡ when_room (length number) (set_result (ended number) m c))
        × (g.state ≢ get_result → result ≡ (if behind 3 then some c else none))
  result_exchange m g c lt =
      let (clean, ne) = print_ld-no_nul g.reaction_time in
      (
        λ ready.
            ap (answer c) (result_sent m g ready)
            ∙ result_answer m c (print_ld g.reaction_time) lt clean ne,
        λ other. ap (answer c) (no_result m g other) ∙ result_ignored c,
      )

  -- A request to start puts the machine's game into START_GAME from any state, and the client notes
  -- that the machine is working, if a byte is free behind its array of two bytes.
  start_exchange :
      (m : ℕ) (g : Game) (c : Client)
      → m < 2
      → ((start_game_handler (machine_id m) g).0 ≡ record g { state = start_game })
        × (answer c (start_game_handler (machine_id m) g).1
            ≡ (if behind 2 then some (set_is_working m c) else none))
  unfolding start_game_handler
  start_exchange m g c lt =
      (refl, answer_message m 115 (116 ∷ []) c lt refl ∙ (rw (on_subject_start behind m c) refl))
