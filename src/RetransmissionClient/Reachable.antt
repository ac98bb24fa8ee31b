-- ===== src/RetransmissionClient/Reachable.antt =====
-- The client as a state machine: the calls on it and the rounds of its receive loop.
use taifex_cpp_sdk.Prelude.{
  ℕ, ◌+◌, ◌<◌, ◌^◌, ◌≡◌, refl, Bool, true, false, not, ◌||◌, List, arith, if◌then◌else◌,
}
use taifex_cpp_sdk.ErrorCodes.{Result}
use taifex_cpp_sdk.Retransmission.Protocol.{DataRequest101}
use taifex_cpp_sdk.RetransmissionClient.{
  Host, Callbacks, Connection, Client, retransmission_client, is_open, disconnect,
  connect_to_server, request_retransmission, send_client_heartbeat, start, stop, other,
}
use taifex_cpp_sdk.RetransmissionClient.Framing.{client, ensure_connected, receive_round}
use taifex_cpp_sdk.RetransmissionClient.Keeps.{
  IsKept, perform_login-keeps, request_retransmission-keeps, send_client_heartbeat-keeps,
  handle_received-keeps,
}

-- One call on the client by another thread, or one round of the receive loop while it runs.
pub data Step (host : Host) (k : Client) : Client → Type 0 where
  starts : Step host k (record k { connection = (start k.connection).1 })
  stops : Step host k (record k { connection = (stop other k.connection).1 })
  requests :
      (req : DataRequest101)
      → Step host k (record k { connection = (request_retransmission host req k.connection).1 })
  beats : Step host k (record k { connection = (send_client_heartbeat host k.connection).1 })
  receives : k.connection.running ≡ true → Step host k (receive_round host k).1

pub data Reachable (host : Host) : Client → Type 0 where
  fresh :
      (session_id : ℕ) (password : List ℕ) (callbacks : Callbacks)
      → Reachable host (retransmission_client session_id password callbacks)
  next : {k after : Client} → Reachable host k → Step host k after → Reachable host after

pub record IsValid (c : Connection) : Type 0 where
  pub connected_open : (not c.connected || is_open c.socket_fd) ≡ true
  pub idle_closed : (c.running || not (is_open c.socket_fd)) ≡ true
  pub number_fits : c.client_msg_seq_num < 2 ^ 32

IsValid-kept : IsKept IsValid
unfolding disconnect
IsValid-kept = record {
  disconnects = λ c h. record {
    connected_open = ground arith;
    idle_closed = ground arith;
    number_fits = ground (arith, h.number_fits);
  };
  emits = λ c e h. record {
    connected_open = h.connected_open;
    idle_closed = h.idle_closed;
    number_fits = h.number_fits;
  };
  counts = λ c n h. record {
    connected_open = h.connected_open;
    idle_closed = h.idle_closed;
    number_fits = h.number_fits;
  };
  numbers = λ c n small h. record {
    connected_open = h.connected_open;
    idle_closed = h.idle_closed;
    number_fits = small;
  };
  logs_in = λ c b h. record {
    connected_open = h.connected_open;
    idle_closed = h.idle_closed;
    number_fits = h.number_fits;
  };
}

-- In the receive loop the client runs.
abbrev IsActive : Connection → Type 0
IsActive c = IsValid c × (c.running ≡ true)

IsRunning-kept : IsKept (λ c. c.running ≡ true)
unfolding disconnect
IsRunning-kept = record {
  disconnects = λ c h. ground arith;
  emits = λ c e h. h;
  counts = λ c n h. h;
  numbers = λ c n small h. h;
  logs_in = λ c b h. h;
}

IsActive-kept : IsKept IsActive
IsActive-kept = record {
  disconnects = λ c h. (IsValid-kept.disconnects c h.0, IsRunning-kept.disconnects c h.1);
  emits = λ c e h. (IsValid-kept.emits c e h.0, h.1);
  counts = λ c n h. (IsValid-kept.counts c n h.0, h.1);
  numbers = λ c n small h. (IsValid-kept.numbers c n small h.0, h.1);
  logs_in = λ c b h. (IsValid-kept.logs_in c b h.0, h.1);
}

connect_to_server-IsActive :
    (host : Host) (c : Connection) → IsActive c → IsActive (connect_to_server host c).1
unfolding connect_to_server
connect_to_server-IsActive host c (h, running) = (
  record {
    connected_open = ground (arith, h.connected_open);
    idle_closed = ground arith;
    number_fits = ground (arith, h.number_fits);
  },
  ground arith,
)

ensure_connected-IsActive :
    (host : Host) (c : Connection) → IsActive c → IsActive (ensure_connected host c).1
unfolding ensure_connected
ensure_connected-IsActive host c h =
    branch (not c.connected || not (is_open c.socket_fd)) _ _
      (branch (not (connect_to_server host c).0) _ _ (connect_to_server-IsActive host c h) (
        perform_login-keeps IsActive IsActive-kept host (connect_to_server host c).1
          (connect_to_server-IsActive host c h)))
      h
  where
    branch :
        (b : Bool) (r t : Bool × Connection)
        → IsActive r.1
        → IsActive t.1
        → IsActive ((if b then r else t).1)
    branch true r t p q = p
    branch false r t p q = q

receive_round-IsActive :
    (host : Host) (k : Client)
    → IsActive k.connection
    → IsActive (receive_round host k).1.connection
unfolding receive_round
receive_round-IsActive host k h =
    let ready = ensure_connected host k.connection in
    let active = ensure_connected-IsActive host k.connection h in
    branch (not ready.0) _ _ active (
      handle_received-keeps IsActive IsActive-kept host (host.recv ready.1.calls)
        (client (record ready.1 { calls = ready.1.calls + 1 }) k.tcp_receive_buffer)
        (IsActive-kept.counts ready.1 (ready.1.calls + 1) active))
  where
    branch :
        (b : Bool) (r t : Result (Unit {0}) × Client)
        → IsActive r.1.connection
        → IsActive t.1.connection
        → IsActive ((if b then r else t).1.connection)
    branch true r t p q = p
    branch false r t p q = q

Step-IsValid :
    {host : Host} {k after : Client}
    → Step host k after
    → IsValid k.connection
    → IsValid after.connection
unfolding start stop
Step-IsValid {k = k} starts h = record {
  connected_open = ground (arith, h.connected_open);
  idle_closed = ground (arith, h.idle_closed);
  number_fits = ground (arith, h.number_fits);
}
Step-IsValid {k = k} stops h = record {
  connected_open = ground (arith, h.connected_open);
  idle_closed = ground (arith, h.idle_closed);
  number_fits = ground (arith, h.number_fits);
}
Step-IsValid {host} {k} (requests req) h =
    request_retransmission-keeps IsValid IsValid-kept host req k.connection h
Step-IsValid {host} {k} beats h =
    send_client_heartbeat-keeps IsValid IsValid-kept host k.connection h
Step-IsValid {host} {k} (receives running) h = (receive_round-IsActive host k (h, running)).0

-- Whatever the network and the system answer and however the calls and the rounds of the receive loop
-- follow one another: a connected client has an open socket, a client that is not running has none, and
-- the number of the next message fits in 32 bits.
pub Reachable_client-IsValid : {host : Host} {k : Client} → Reachable host k → IsValid k.connection
Reachable_client-IsValid (fresh session_id password callbacks) = record {
  connected_open = refl;
  idle_closed = refl;
  number_fits = omega arith;
}
Reachable_client-IsValid (next before step) = Step-IsValid step (Reachable_client-IsValid before)
