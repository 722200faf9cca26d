-- ===== src/System.antt =====
-- Where the client (retro11/coap_client.c), the servers (retro11/coap_handler.c, retro11/main.c) and
-- the game threads (retro11/game.c) meet: what a response is to the client, and what a command does
-- that reaches its machine. gcoap, which carries both, is not modelled.
pub mod Exchange
pub mod Verdict
pub mod Told
pub mod Names
use package.team.Prelude.{ℕ, none, some, List, [], ◌∷◌, ◌==◌, if◌then◌else◌}
use package.team.Game.Run.{Thread}
use package.team.Server.{coap_resources}
use package.team.Client.{Pdu, text}
use package.team.Client.Payload.{machine_id}
use package.team.Client.Poll.{Command}

-- The payload of a response, as the client gets it.
abbrev pub reply : List ℕ → Pdu
reply payload = record { content_type = text; payload = payload }

-- The server of a machine runs the handler of the path on the game of the machine's thread; gcoap
-- answers an unknown path itself.
abbrev pub serve : ℕ → Command → Thread → Thread
serve machine cmd t =
    if cmd.machine == machine
    then elim (coap_resources (machine_id machine) cmd.path) [
      | none ↦ t
      | some h ↦ record t { game = (h t.game).0 }
    ]
    else t

-- The commands that reach a machine, in their order.
unfoldable pub obey : ℕ → List Command → Thread → Thread
obey machine [] t = t
obey machine (cmd ∷ cmds) t = obey machine cmds (serve machine cmd t)
