-- ===== src/Game/Name.antt =====
-- The entry of the player's name with three buttons, `get_player_name` of retro11/game.c.
mod Letters
pub mod Correct
pub mod Scan
pub mod Screen
use package.team.Prelude.{
  ℕ, zero, suc, ◌+◌, ◌-◌, ◌%◌, Option, none, some, Bool, true, false, List, [], ◌∷◌, leb, ltb, ◌==◌,
  length, set, get_elem?, if◌then◌else◌, ◌>>=◌,
}
use package.team.Prelude.Text.{codes}

-- `alphabet`: 28 characters.
abbrev pub alphabet : List ℕ
alphabet = codes "_ABCDEFGHIJKLMNOPQRSTUVWXYZ "

-- The locals of the function, with the array that it writes.
pub record Entry : Type 0 where
  pub curr_idx : ℕ
  pub curr_char_idx : ℕ
  pub name : List ℕ

-- A write outside the array is undefined: `none`.
abbrev pub write : List ℕ → ℕ → ℕ → Option (List ℕ)
write name i c = if ltb i (length name) then some (set name i c) else none

-- The `switch`: the button is the address at which the scan found a high line.
unfoldable pub press : ℕ → Entry → Option Entry
press action e =
    if action == 0
    then get_elem? alphabet curr_char_idx >>= (λ c.
      write name curr_idx c
      >>= (λ name'. some (record { curr_idx = curr_idx + 1; curr_char_idx = 0; name = name' })))
    else if action == 1
    then some (record e { curr_char_idx = (curr_char_idx + 1) % 27 })
    else if action == 2
    then some (record e { curr_char_idx = if curr_char_idx == 0 then 26 else curr_char_idx - 1 })
    else some e
  where
    open e use {curr_idx, curr_char_idx, name}

-- How the function stands after some presses: it still asks, it has returned, or it has left an
-- array.
pub data Outcome : Type 0 where
  asking : Entry → Outcome
  done : List ℕ → Outcome
  fault : Outcome

-- The end of a round: the function returns when 15 letters are chosen.
abbrev pub finish : Entry → Outcome
finish e =
    if leb 15 e.curr_idx
    then elim (write e.name 16 0) [ some name ↦ done name | none ↦ fault ]
    else asking e

unfoldable pub round : ℕ → Entry → Outcome
unfolding press
round action e = elim (press action e) [ some e' ↦ finish e' | none ↦ fault ]

-- The loop, over the presses that the player makes.
unfoldable pub name_loop : List ℕ → Entry → Outcome
unfolding round
name_loop [] e = asking e
name_loop (action ∷ actions) e = elim (round action e) [
  | asking e' ↦ name_loop actions e'
  | done name ↦ done name
  | fault ↦ fault
]

-- The locals at the call.
abbrev pub entry_start : List ℕ → Entry
entry_start name = record { curr_idx = 0; curr_char_idx = 0; name = name }

unfoldable pub get_player_name : List ℕ → List ℕ → Outcome
unfolding name_loop
get_player_name actions name = name_loop actions (entry_start name)

-- The scan for a button: `line k a` is whether read number k, at address a, finds the line high.
-- The address is a `char`, which is unsigned on the target. `none`: no line is high within the
-- reads that the fuel allows; the source goes on forever.
unfoldable pub scan : ℕ → (ℕ → ℕ → Bool) → ℕ → ℕ → Option ℕ
scan zero line k action = none
scan (suc fuel) line k action = elim (line k action) [
  | true ↦ some action
  | false ↦ scan fuel line (k + 1) ((action + 1) % 256)
]
