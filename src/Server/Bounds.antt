-- ===== src/Server/Bounds.antt =====
-- The responses fit the buffer of 40 bytes that the handlers build them in.
use team.Game.{Game}
