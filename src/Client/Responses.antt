-- ===== src/Client/Responses.antt =====
-- Which responses are defined in the C language (retro11/coap_client.c, 128-193).
use team.Prelude.{ℕ, Bool, true, false}
use team.Client.{Client, ContentType, text, other, ReqState, memo_timeout, memo_err, memo_resp}

abbrev pub is_text : ContentType → Bool
is_text text = true
is_text other = false

abbrev pub is_resp : ReqState → Bool
is_resp memo_resp = true
is_resp memo_timeout = false
is_resp memo_err = false

-- The C language grants no byte behind an array.
abbrev pub granted : ℕ → Bool
granted n = false
