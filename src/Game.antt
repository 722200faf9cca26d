-- ===== src/Game.antt =====
-- The state of the reaction game that its thread, the CoAP server and the button interrupt share
-- (retro11/include/game.h, and the globals of retro11/main.c). The pointers to the devices are
-- left out: each device is modelled by itself, and the game thread's calls of them are recorded.
pub mod Run
pub mod Name
pub mod Animation
pub mod Buttons
pub mod Motors
use package.team.Prelude.{ℕ, List}

-- `game_state_t`.
pub data GameState : Type 0 where
  init name_ready start_game get_result winner looser failed : GameState

-- `game_t`: its state, `uint32_t reaction_time` and the 17 bytes of `playername`.
pub record Game : Type 0 where
  pub state : GameState
  pub reaction_time : ℕ
  pub playername : List ℕ
