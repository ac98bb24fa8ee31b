-- ===== src/RetransmissionClient.antt =====
-- networking/retransmission_client.cpp and .h: the TCP client of the retransmission service. The calls of
-- the operating system are a parameter, `Host`: each call is numbered and may answer differently. What the
-- client does to the outside is a list of effects, the oldest first; the callbacks return and do not call
-- the client.
pub mod Handlers
pub mod Framing
pub mod Chunks
pub mod Stream
pub mod Keeps
pub mod Sending
pub mod Requests
pub mod Reachable
pub mod Delivery
use taifex_cpp_sdk.Prelude.{
  ℕ, zero, suc, ◌+◌, ◌/◌, ◌%◌, ◌^◌, Bool, true, false, not, ◌&&◌, ◌||◌, Option, none, some, List,
  [], ◌∷◌, ◌++◌, length, is_empty, take, drop, ltb, ◌==◌, if◌then◌else◌,
}
use taifex_cpp_sdk.ErrorCodes.{Exception, Result, ok, err}
use taifex_cpp_sdk.Retransmission.Protocol.{
  StandardTimeFormat, RetransmissionMsgHeader, LoginRequest020, DataRequest101,
  calculate_check_code, serialize_login_request, serialize_data_request, serialize_heartbeat_client,
  deserialize_retransmission_start, deserialize_heartbeat_server, deserialize_error,
}
use taifex_cpp_sdk.Retransmission.DataResponse.{DataResponse102, deserialize_data_response}

-- What recv answers: EAGAIN or EWOULDBLOCK, another error, or bytes; no bytes means that the server has
-- closed the connection.
pub data Received : Type 0 where
  timed_out failed : Received
  bytes : List ℕ → Received

-- socket, inet_pton on the address of the server, connect, send, recv, and the nanoseconds of the system
-- clock. `none` and `false` are errors.
pub record Host : Type 0 where
  pub socket : ℕ → Option ℕ
  pub valid_address : Bool
  pub connect : ℕ → Bool
  pub send : ℕ → List ℕ → Option ℕ
  pub recv : ℕ → Received
  pub clock : ℕ → ℕ

-- Bytes accepted by send, a closed socket, and the five callbacks.
pub data Effect : Type 0 where
  sent : List ℕ → Effect
  closed : ℕ → Effect
  market_data : List ℕ → Effect
  status : RetransmissionMsgHeader → DataResponse102 → List ℕ → ℕ → Effect
  error_notification : RetransmissionMsgHeader → ℕ → ℕ → Effect
  disconnected login_complete : Effect

-- Which callbacks are set.
pub record Callbacks : Type 0 where
  pub market_data_callback : Bool
  pub status_callback : Bool
  pub error_callback : Bool
  pub disconnected_callback : Bool
  pub logged_in_callback : Bool

-- The members but the receive buffer. A negative descriptor is none; `joinable` says that the thread runs
-- or can be joined; `calls` counts the calls of the system.
pub record Connection : Type 0 where
  pub session_id : ℕ
  pub password : List ℕ
  pub callbacks : Callbacks
  pub socket_fd : Option ℕ
  pub running : Bool
  pub connected : Bool
  pub logged_in : Bool
  pub client_msg_seq_num : ℕ
  pub joinable : Bool
  pub calls : ℕ
  pub effects : List Effect

pub record Client : Type 0 where
  pub connection : Connection
  pub tcp_receive_buffer : List ℕ

abbrev pub connection_of : ℕ → List ℕ → Callbacks → Connection
connection_of session_id password callbacks = record {
  session_id = session_id;
  password = password;
  callbacks = callbacks;
  socket_fd = none;
  running = false;
  connected = false;
  logged_in = false;
  client_msg_seq_num = 0;
  joinable = false;
  calls = 0;
  effects = [];
}

-- The constructor.
abbrev pub retransmission_client : ℕ → List ℕ → Callbacks → Client
retransmission_client session_id password callbacks = record {
  connection = connection_of session_id password callbacks;
  tcp_receive_buffer = [];
}

abbrev pub is_open : Option ℕ → Bool
is_open none = false
is_open (some fd) = true

abbrev pub emit : Effect → Connection → Connection
emit e c = record c { effects = c.effects ++ e ∷ [] }

-- `if (callback) callback(…)`
abbrev pub call : Bool → Effect → Connection → Connection
call present e c = if present then emit e c else c

abbrev close_effects : Option ℕ → List Effect
close_effects none = []
close_effects (some fd) = closed fd ∷ []

-- `if (socket_fd_ >= 0) { close(socket_fd_); socket_fd_ = -1; }`
abbrev pub close_socket : Connection → Connection
close_socket c = record c { socket_fd = none; effects = c.effects ++ close_effects c.socket_fd }

-- The end of a connection after an error or when the server closes it.
unfoldable pub disconnect : Connection → Connection
disconnect c =
    call c.callbacks.disconnected_callback disconnected
      (record (close_socket c) { connected = false; logged_in = false })

-- The loop of send_tcp_message: every round but the last sends at least one byte, so the length of the
-- message bounds the rounds.
unfoldable pub send_rounds : Host → ℕ → List ℕ → Connection → Connection
send_rounds host zero message_bytes c = c
send_rounds host (suc rounds) message_bytes c =
    let asked = record c { calls = c.calls + 1 } in
    if is_empty message_bytes then c else elim (host.send c.calls message_bytes) [
      | none ↦ disconnect asked
      | some zero ↦ disconnect asked
      | some (suc n) ↦
          send_rounds host rounds (drop (suc n) message_bytes)
            (emit (sent (take (suc n) message_bytes)) asked)
    ]

unfoldable pub send_tcp_message : Host → List ℕ → Connection → Connection
send_tcp_message host message_bytes c =
    if not c.connected || not (is_open c.socket_fd)
    then c
    else send_rounds host (length message_bytes) message_bytes c

-- The header of a message from the client: the number, and one reading of the clock.
abbrev pub stamp : ℕ → ℕ → RetransmissionMsgHeader
stamp seq now = record {
  msg_size = 0;
  msg_type = 0;
  msg_seq_num = seq;
  msg_time = record { epoch_s = now / 1000000000 % 2 ^ 32; nanosecond = now % 1000000000 };
}

-- `client_msg_seq_num_++`, and the clock is read.
abbrev pub stamped : Connection → Connection
stamped c = record c {
  client_msg_seq_num = (c.client_msg_seq_num + 1) % 2 ^ 32;
  calls = c.calls + 1;
}

unfoldable pub connect_to_server : Host → Connection → Bool × Connection
connect_to_server host c =
    if c.connected && is_open c.socket_fd
    then (true, c)
    else (let fresh = record (close_socket c) {
      connected = false;
      logged_in = false;
      calls = c.calls + 1;
    } in
        elim (host.socket c.calls) [
          | none ↦ (false, fresh)
          | some fd ↦
              if not host.valid_address
              then (false, emit (closed fd) fresh)
              else if host.connect (c.calls + 1)
              then (
                true,
                record fresh { socket_fd = some fd; connected = true; calls = c.calls + 2 },
              )
              else (false, emit (closed fd) (record fresh { calls = c.calls + 2 }))
        ])

abbrev pub login_request : Connection → LoginRequest020
login_request c = record {
  multiplication_operator = 168;
  check_code = calculate_check_code 168 c.password;
  session_id = c.session_id;
}

unfoldable pub perform_login : Host → Connection → Bool × Connection
perform_login host c = if not c.connected then (false, c) else if c.logged_in then (true, c) else (
  true,
  send_tcp_message host
      (serialize_login_request (stamp 0 (host.clock c.calls)) (login_request c) [])
      (stamped (record c { client_msg_seq_num = 0 })),
)

unfoldable pub request_retransmission : Host → DataRequest101 → Connection → Bool × Connection
request_retransmission host req c = if not c.logged_in then (false, c) else (
  true,
  send_tcp_message host
      (serialize_data_request (stamp c.client_msg_seq_num (host.clock c.calls)) req []) (stamped c),
)

unfoldable pub send_client_heartbeat : Host → Connection → Bool × Connection
send_client_heartbeat host c = if not c.connected then (false, c) else (
  true,
  send_tcp_message host
      (serialize_heartbeat_client (stamp c.client_msg_seq_num (host.clock c.calls)) []) (stamped c),
)

unfoldable pub start : Connection → Bool × Connection
start c = if c.running then (true, c) else (true, record c { running = true; joinable = true })

-- The thread that calls: that of the receive loop, or another one.
pub data Thread : Type 0 where
  receiving other : Thread

abbrev pub is_receiving : Thread → Bool
is_receiving receiving = true
is_receiving other = false

-- `join` throws std::system_error in the thread that is to be joined. The last assignments are not reached.
unfoldable pub stop : Thread → Connection → Result (Unit {0}) × Connection
stop thread c =
    if not c.running
    then (ok tt, c)
    else (let closed_down = close_socket (record c { running = false }) in
        elim (c.joinable && is_receiving thread) [
          | true ↦ (err Exception.system_error, closed_down)
          | false ↦
              (ok tt, record closed_down { joinable = false; connected = false; logged_in = false })
        ])
