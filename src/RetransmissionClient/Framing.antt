-- ===== src/RetransmissionClient/Framing.antt =====
-- process_incoming_data: messages are cut from the receive buffer, and receive_loop, which fills it.
use taifex_cpp_sdk.Prelude.{
  ℕ, zero, suc, ◌+◌, Bool, true, false, not, ◌||◌, none, some, List, [], ◌∷◌, ◌++◌, length,
  is_empty, get_or, take, drop, ltb, leb, ◌==◌, if◌then◌else◌,
}
use taifex_cpp_sdk.ErrorCodes.{Exception, Result, ok, err}
use taifex_cpp_sdk.CommonHeader.{header_size, default_header, parse, get_body_length}
use taifex_cpp_sdk.Retransmission.Protocol.{RetransmissionMsgHeader, get_short, deserialize_header}
use taifex_cpp_sdk.RetransmissionClient.{
  Host, Received, timed_out, failed, bytes, market_data, Connection, Client, call, is_open,
  disconnect, connect_to_server, perform_login,
}
use taifex_cpp_sdk.RetransmissionClient.Handlers.{handle_protocol_message}

-- What stands at the front of the buffer: too little, an unreadable market header, a market data message
-- or a protocol message of some length, or something of some length without a protocol header. A body
-- length that is no number throws.
pub data Frame : Type 0 where
  waits discards : Frame
  market malformed : ℕ → Frame
  protocol : ℕ → RetransmissionMsgHeader → Frame
  throws : Exception → Frame

unfoldable pub market_frame : List ℕ → Frame
market_frame current =
    if ltb (length current) header_size
    then waits
    else (let (parsed, market_header) = parse (some current) default_header in
        if not parsed then discards else elim (get_body_length market_header) [
          | ok body_len ↦
              if leb (header_size + body_len + 1 + 2) (length current)
              then market (header_size + body_len + 1 + 2)
              else waits
          | err e ↦ throws e
        ])

unfoldable pub protocol_frame : List ℕ → Frame
protocol_frame current =
    if ltb (length current) 2
    then waits
    else (let expected = 2 + get_short current 0 + 1 in
        if leb expected (length current)
        then elim (deserialize_header (take expected current) 0) [
          | some (header, offset) ↦ protocol expected header
          | none ↦ malformed expected
        ]
        else waits)

unfoldable pub next_frame : List ℕ → Frame
next_frame current =
    if get_or current 0 0 == 0x1B then market_frame current else protocol_frame current

abbrev pub client : Connection → List ℕ → Client
client c buffer = record { connection = c; tcp_receive_buffer = buffer }

-- The loop of process_incoming_data. Every round but the last erases at least one byte, so the length of
-- the buffer bounds the rounds.
unfoldable pub take_frames : Host → ℕ → Connection → List ℕ → Result (Unit {0}) × Client
take_frames host zero c buffer = (ok tt, client c buffer)
take_frames host (suc rounds) c buffer =
    if not c.running || is_empty buffer
    then (ok tt, client c buffer)
    else elim (next_frame buffer) [
      | waits ↦ (ok tt, client c buffer)
      | discards ↦ (ok tt, client c [])
      | throws e ↦ (err e, client c buffer)
      | market n ↦
          take_frames host rounds
            (call c.callbacks.market_data_callback (market_data (take n buffer)) c) (drop n buffer)
      | malformed n ↦ take_frames host rounds c (drop n buffer)
      | protocol n header ↦
          take_frames host rounds (handle_protocol_message host header (take n buffer) c)
            (drop n buffer)
    ]

unfoldable pub process_incoming_data : Host → List ℕ → Client → Result (Unit {0}) × Client
process_incoming_data host data_chunk k =
    let buffer = k.tcp_receive_buffer ++ data_chunk in
    take_frames host (length buffer) k.connection buffer

-- The front of receive_loop: a client that is not connected connects and logs in. False means `continue`
-- before recv.
unfoldable pub ensure_connected : Host → Connection → Bool × Connection
ensure_connected host c =
    if not c.connected || not (is_open c.socket_fd)
    then (let (done, after) = connect_to_server host c in
        if not done
        then (false, after)
        else (let after_login = (perform_login host after).1 in
            (is_open after_login.socket_fd, after_login)))
    else (true, c)

-- What is done with the answer of recv, in a loop that is running.
unfoldable pub handle_received : Host → Received → Client → Result (Unit {0}) × Client
handle_received host timed_out k = (ok tt, k)
handle_received host failed k = (ok tt, record k { connection = disconnect k.connection })
handle_received host (bytes []) k = (ok tt, record k { connection = disconnect k.connection })
handle_received host (bytes (b ∷ chunk)) k = process_incoming_data host (b ∷ chunk) k

-- One round of receive_loop.
unfoldable pub receive_round : Host → Client → Result (Unit {0}) × Client
receive_round host k =
    let (ready, c) = ensure_connected host k.connection in
    if not ready
    then (ok tt, record k { connection = c })
    else handle_received host (host.recv c.calls)
        (client (record c { calls = c.calls + 1 }) k.tcp_receive_buffer)
