-- ===== src/RetransmissionClient/Delivery/Loss.antt =====
-- A start message behind a heartbeat whose reply the network refuses.
use taifex_cpp_sdk.Prelude.{◌+◌, ◌≡◌, Bool, true, false, none, List, [], ◌∷◌, ◌++◌, if◌then◌else◌}
use taifex_cpp_sdk.Retransmission.Protocol.{RetransmissionMsgHeader, DataRequest101}
use taifex_cpp_sdk.RetransmissionClient.{
  Host, Connection, Effect, disconnected, login_complete, call, stamped, request_retransmission,
}
use taifex_cpp_sdk.RetransmissionClient.Sending.{closing}
use taifex_cpp_sdk.RetransmissionClient.Delivery.{Message, heartbeat_server, retransmission_start}

-- Some requests, one after the other: the answers, and the connection after them.
unfoldable pub request_all : Host → List DataRequest101 → Connection → List Bool × Connection
request_all host [] c = ([], c)
request_all host (req ∷ reqs) c =
    let (answer, next) = request_retransmission host req c in
    let (answers, after) = request_all host reqs next in (answer ∷ answers, after)

-- A callback that is set is called.
abbrev pub called : Bool → Effect → List Effect
called present e = if present then e ∷ [] else []

-- The number is used, the clock read and the network asked.
abbrev attempted : Connection → Connection
attempted c = record (stamped c) { calls = c.calls + 1 + 1 }

-- The messages that arrive, and what they make of the connection.
abbrev pub beat_and_start : RetransmissionMsgHeader → RetransmissionMsgHeader → List Message
beat_and_start beat start = heartbeat_server beat ∷ retransmission_start start ∷ []

-- Closed, yet logged in.
abbrev pub IsMarked : Connection → Connection → Type 0
IsMarked c k =
    (k.connected ≡ false)
    × (k.socket_fd ≡ none)
    × (k.logged_in ≡ true)
    × (k.effects
        ≡ ((c.effects ++ closing c.socket_fd)
            ++ called c.callbacks.disconnected_callback disconnected)
          ++ called c.callbacks.logged_in_callback login_complete)

-- The start message on the connection that was closed.
abbrev started : Connection → Connection
started b = call b.callbacks.logged_in_callback login_complete (record b { logged_in = true })
