-- ===== src/RetransmissionClient/Requests.antt =====
-- The messages of the client on their way to the server.
use taifex_cpp_sdk.Prelude.{
  ℕ, ◌^◌, ◌<◌, ◌≡◌, refl, ◌⊎◌, Bool, true, false, not, Option, some, List, arith, if_cases,
}
use taifex_cpp_sdk.Retransmission.Protocol.{
  RetransmissionMsgHeader, DataRequest101, deserialize_data_request, deserialize_login_request,
  deserialize_heartbeat_client,
}
use taifex_cpp_sdk.Retransmission.Protocol.Frame.{FitsHeader, sent}
use taifex_cpp_sdk.Retransmission.Protocol.RoundTrip.{FitsRequest, FitsLogin, client_messages_back}
use taifex_cpp_sdk.RetransmissionClient.{
  Host, Connection, is_open, stamp, stamped, login_request, request_retransmission,
  send_client_heartbeat, perform_login,
}
use taifex_cpp_sdk.RetransmissionClient.Sending.{IsSent, IsLost, send_tcp_message_lem}

-- A call answers true, and hands the network a message that a server parses to the header and the values;
-- the network has accepted all of it, or less of it and the connection is closed.
abbrev pub Reaches :
    {A : Type 0}
    → (List ℕ → Option (RetransmissionMsgHeader × A × ℕ))
    → RetransmissionMsgHeader
    → A
    → Connection
    → Bool × Connection
    → Type 0
Reaches parse header a c (answer, after) =
    (answer ≡ true)
    × ((m : List ℕ) × (check_sum : ℕ) × (parse m ≡ some (header, a, check_sum))
        × (IsSent m c after ⊎ IsLost m c after))

stamp-Fits : (seq now : ℕ) → seq < 2 ^ 32 → FitsHeader (stamp seq now)
stamp-Fits seq now small = record {
  seq_fits = small;
  seconds_fit = omega arith;
  nanoseconds_fit = omega arith;
}

-- On an open connection of a client that is logged in, with values that fit their fields: a data request
-- and a heartbeat carry the next number and the time, and a login the number 0 with the session and the
-- check code of the password. Each is answered by true, and a server parses what was sent back to these
-- values, or the connection is closed in the middle of the message.
pub calls-Reach :
    (host : Host) (req : DataRequest101) (c : Connection)
    → FitsRequest req
    → c.session_id < 2 ^ 16
    → c.client_msg_seq_num < 2 ^ 32
    → c.connected ≡ true
    → is_open c.socket_fd ≡ true
    → c.logged_in ≡ true
    → Reaches deserialize_data_request
        (sent 101 22 (stamp c.client_msg_seq_num (host.clock c.calls)))
        req
        c
        (request_retransmission host req c)
      × Reaches deserialize_heartbeat_client
          (sent 105 14 (stamp c.client_msg_seq_num (host.clock c.calls)))
          tt
          c
          (send_client_heartbeat host c)
      × Reaches deserialize_login_request
          (sent 20 19 (stamp 0 (host.clock c.calls)))
          (login_request c)
          (record c { logged_in = false })
          (perform_login host (record c { logged_in = false }))
unfolding request_retransmission send_client_heartbeat perform_login
calls-Reach host req c fits session small connected opened logged_in =
    let stamp_fits = stamp-Fits c.client_msg_seq_num (host.clock c.calls) small in
    let login_fits : FitsLogin (login_request c) = record {
      operator_fits = omega arith;
      session_fits = session;
    } in
    let (login_back, request_back, beat_back) =
      client_messages_back (stamp c.client_msg_seq_num (host.clock c.calls)) (login_request c) req
        stamp_fits login_fits fits in
    let (first_back, other_back, last_back) =
      client_messages_back (stamp 0 (host.clock c.calls)) (login_request c) req
        (stamp-Fits 0 (host.clock c.calls) (omega arith)) login_fits fits in
    let out = record c { logged_in = false } in
    (
      if_cases
          (Reaches deserialize_data_request
            (sent 101 22 (stamp c.client_msg_seq_num (host.clock c.calls))) req c)
          (not c.logged_in) (λ off. absurd (ground arith))
          (λ on.
            (refl, (_, _, request_back, send_tcp_message_lem host _ (stamped c) connected opened))),
      if_cases
          (Reaches deserialize_heartbeat_client
            (sent 105 14 (stamp c.client_msg_seq_num (host.clock c.calls))) tt c)
          (not c.connected) (λ off. absurd (ground arith))
          (λ on.
            (refl, (_, _, beat_back, send_tcp_message_lem host _ (stamped c) connected opened))),
      if_cases
          (Reaches deserialize_login_request (sent 20 19 (stamp 0 (host.clock c.calls)))
            (login_request c) out)
          (not c.connected) (λ off. absurd (ground arith))
          (λ on. (
            refl,
            (
              _,
              _,
              first_back,
              send_tcp_message_lem host _ (stamped (record out { client_msg_seq_num = 0 }))
                  connected opened,
            ),
          )),
    )
