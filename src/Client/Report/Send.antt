-- ===== src/Client/Report/Send.antt =====
-- What becomes of a document that the client sends (retro11/coap_client.c, 56-79).
use team.Prelude.{Option}
use team.Client.Entries.{Entries}
