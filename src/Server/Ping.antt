-- ===== src/Server/Ping.antt =====
-- The ping thread, `ping_handler` of retro11/coap_handler.c. The numbers of the errors are the C
-- library's, and what each `sock_udp_send` answers is RIOT's.
use team.Prelude.{ℕ, zero, suc, Bool, true, false, List, [], ◌∷◌, ◌++◌, ◌==◌, if◌then◌else◌}
use team.Prelude.Int.{ℤ, pos, negsuc}
use team.Prelude.Text.{codes, print_dec}

pub record Errno : Type 0 where
  pub eafnosupport : ℕ
  pub ehostunreach : ℕ
  pub einval : ℕ
  pub enomem : ℕ
  pub enotconn : ℕ

pub data Act : Type 0 where
  sock_udp_send xtimer_sleep terminating : Act
  fputs : List ℕ → Act

-- The message for an answer of -(n + 1).
unfoldable pub ping_error : Errno → ℕ → List ℕ
ping_error errno n =
    let res = suc n in
    if res == errno.eafnosupport
    then codes "Ping: EAFNOSUPPORT"
    else if res == errno.ehostunreach
    then codes "Ping: EHOSTUNREACH"
    else if res == errno.einval
    then codes "Ping: EINVAL"
    else if res == errno.enomem
    then codes "Ping: ENOMEM"
    else if res == errno.enotconn
    then codes "Ping: ENOTCONN"
    else codes "Ping error: -" ++ print_dec res

-- The loop on the answers so far: what it does, and whether the thread has ended.
unfoldable pub ping_handler : Errno → List ℤ → List Act × Bool
ping_handler errno [] = ([], false)
ping_handler errno (negsuc n ∷ answers) =
    (sock_udp_send ∷ fputs (ping_error errno n) ∷ terminating ∷ [], true)
ping_handler errno (pos n ∷ answers) =
    let (acts, ended) = ping_handler errno answers in (sock_udp_send ∷ xtimer_sleep ∷ acts, ended)

abbrev pub pings : ℕ → List Act
pings zero = []
pings (suc k) = sock_udp_send ∷ xtimer_sleep ∷ pings k

abbrev sent : List ℕ → List ℤ
sent [] = []
sent (n ∷ sizes) = pos n ∷ sent sizes
