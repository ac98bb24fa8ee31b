-- ===== src/RetransmissionClient/Keeps.antt =====
-- What every call of the client keeps: a condition that the small changes of the connection keep.
use taifex_cpp_sdk.Prelude.{
  cons-ne-nil, ℕ, zero, suc, ◌+◌, ◌%◌, ◌<◌, ◌^◌, ◌≡◌, refl, Bool, true, false, not, ◌||◌, Option,
  none, some, inl, inr, List, [], ◌∷◌, ◌++◌, length, take, drop, arith, if◌then◌else◌, Bool-cases,
  Option-cases,
}
use taifex_cpp_sdk.Retransmission.Protocol.{
  RetransmissionMsgHeader, DataRequest101, serialize_login_request,
  deserialize_retransmission_start, deserialize_heartbeat_server, deserialize_error,
}
use taifex_cpp_sdk.Retransmission.DataResponse.{deserialize_data_response}
use taifex_cpp_sdk.RetransmissionClient.{
  Host, Received, timed_out, failed, bytes, Connection, Client, Effect, sent, emit, call,
  disconnect, stamp, login_request, is_open, send_rounds, send_tcp_message, stamped, perform_login,
  request_retransmission, send_client_heartbeat, error_notification,
}
use taifex_cpp_sdk.RetransmissionClient.Handlers.{
  handle_start, handle_data_response, handle_heartbeat, handle_error, handle_protocol_message,
}
use taifex_cpp_sdk.RetransmissionClient.Framing.{
  Frame, waits, discards, market, malformed, protocol, throws, next_frame, take_frames,
  handle_received, process_incoming_data,
}
use taifex_cpp_sdk.RetransmissionClient.Chunks.{
  handled, last, consumed, round_next, round_last, stopped, no_bytes,
}

pub record IsKept (P : Connection → Type 0) : Type 0 where
  pub disconnects : (c : Connection) → P c → P (disconnect c)
  pub emits : (c : Connection) (e : Effect) → P c → P (emit e c)
  pub counts : (c : Connection) (n : ℕ) → P c → P (record c { calls = n })
  pub numbers :
      (c : Connection) (n : ℕ) → n < 2 ^ 32 → P c → P (record c { client_msg_seq_num = n })
  pub logs_in : (c : Connection) (b : Bool) → P c → P (record c { logged_in = b })

module _ (P : Connection → Type 0) (kept : IsKept P) where
  call-keeps : (present : Bool) (e : Effect) (c : Connection) → P c → P (call present e c)
  call-keeps true e c h = kept.emits c e h
  call-keeps false e c h = h

  round-keeps :
      (host : Host) (rounds x : ℕ) (m : List ℕ) (c : Connection) (answer : Option ℕ)
      → host.send c.calls (x ∷ m) ≡ answer
      → ((l : List ℕ) (d : Connection) → P d → P (send_rounds host rounds l d))
      → P c
      → P (send_rounds host (suc rounds) (x ∷ m) c)
  unfolding send_rounds
  round-keeps host rounds x m c none e keeps h =
      rw (e, send_rounds) (kept.disconnects (record c { calls = c.calls + 1 }) (kept.counts c _ h))
  round-keeps host rounds x m c (some zero) e keeps h =
      rw (e, send_rounds) (kept.disconnects (record c { calls = c.calls + 1 }) (kept.counts c _ h))
  round-keeps host rounds x m c (some (suc n)) e keeps h =
      rw (e, send_rounds)
        (keeps (drop n m) (emit (sent (take (suc n) (x ∷ m))) (record c { calls = c.calls + 1 }))
          (kept.emits (record c { calls = c.calls + 1 }) _ (kept.counts c _ h)))

  send_rounds-keeps :
      (host : Host) (rounds : ℕ) (m : List ℕ) (c : Connection)
      → P c
      → P (send_rounds host rounds m c)
  unfolding send_rounds
  send_rounds-keeps host zero m c h = h
  send_rounds-keeps host (suc rounds) [] c h = h
  send_rounds-keeps host (suc rounds) (x ∷ m) c h =
      round-keeps host rounds x m c (host.send c.calls (x ∷ m)) refl (send_rounds-keeps host rounds)
        h

  pub send_tcp_message-keeps :
      (host : Host) (m : List ℕ) (c : Connection) → P c → P (send_tcp_message host m c)
  unfolding send_tcp_message
  send_tcp_message-keeps host m c h =
      elim (Bool-cases (not c.connected || not (is_open c.socket_fd))) [
        | inl e ↦ rw (e, send_tcp_message) h
        | inr e ↦ rw (e, send_tcp_message) (send_rounds-keeps host (length m) m c h)
      ]

  branch-keeps : (b : Bool) (c d : Connection) → P c → P d → P (if b then c else d)
  branch-keeps true c d h k = h
  branch-keeps false c d h k = k

  answer-keeps : (b : Bool) (r t : Bool × Connection) → P r.1 → P t.1 → P ((if b then r else t).1)
  answer-keeps true r t h k = h
  answer-keeps false r t h k = k

  stamped-keeps : (c : Connection) → P c → P (stamped c)
  stamped-keeps c h =
      kept.counts (record c { client_msg_seq_num = (c.client_msg_seq_num + 1) % 2 ^ 32 }) _
        (kept.numbers c _ (omega arith) h)

  pub send_client_heartbeat-keeps :
      (host : Host) (c : Connection) → P c → P (send_client_heartbeat host c).1
  unfolding send_client_heartbeat
  send_client_heartbeat-keeps host c h =
      answer-keeps _ _ _ h (send_tcp_message-keeps host _ (stamped c) (stamped-keeps c h))

  pub request_retransmission-keeps :
      (host : Host) (req : DataRequest101) (c : Connection)
      → P c
      → P (request_retransmission host req c).1
  unfolding request_retransmission
  request_retransmission-keeps host req c h =
      answer-keeps _ _ _ h (send_tcp_message-keeps host _ (stamped c) (stamped-keeps c h))

  pub perform_login-keeps : (host : Host) (c : Connection) → P c → P (perform_login host c).1
  unfolding perform_login
  perform_login-keeps host c h =
      let message = serialize_login_request (stamp 0 (host.clock c.calls)) (login_request c) [] in
      let numbered : Connection = stamped (record c { client_msg_seq_num = 0 }) in
      let logged : Bool × Connection = (true, send_tcp_message host message numbered) in
      let already : Bool × Connection = (true, c) in
      answer-keeps (not c.connected) (false, c) (if c.logged_in then already else logged) h
        (answer-keeps c.logged_in already logged h (
          send_tcp_message-keeps host message numbered (
            stamped-keeps (record c { client_msg_seq_num = 0 })
              (kept.numbers c 0 (omega arith) h))))

  handle_start-keeps : (m : List ℕ) (c : Connection) → P c → P (handle_start m c)
  unfolding handle_start
  handle_start-keeps m c h = elim (Option-cases (deserialize_retransmission_start m)) [
    | inl e ↦ rw (e, handle_start) h
    | inr (msg, e) ↦
        rw (e, handle_start)
          (call-keeps _ _ (record c { logged_in = true }) (kept.logs_in c true h))
  ]

  handle_data_response-keeps : (m : List ℕ) (c : Connection) → P c → P (handle_data_response m c)
  unfolding handle_data_response
  handle_data_response-keeps m c h = elim (Option-cases (deserialize_data_response m)) [
    | inl e ↦ rw (e, handle_data_response) h
    | inr (msg, e) ↦ rw (e, handle_data_response) (call-keeps _ _ c h)
  ]

  handle_heartbeat-keeps :
      (host : Host) (m : List ℕ) (c : Connection) → P c → P (handle_heartbeat host m c)
  unfolding handle_heartbeat
  handle_heartbeat-keeps host m c h = elim (Option-cases (deserialize_heartbeat_server m)) [
    | inl e ↦ rw (e, handle_heartbeat) h
    | inr (msg, e) ↦ rw (e, handle_heartbeat) (send_client_heartbeat-keeps host c h)
  ]

  handle_error-keeps : (m : List ℕ) (c : Connection) → P c → P (handle_error m c)
  unfolding handle_error
  handle_error-keeps m c h = elim (Option-cases (deserialize_error m)) [
    | inl e ↦ rw (e, handle_error) h
    | inr ((header, code, sum), e) ↦
        rw (e, handle_error)
          (kept.logs_in (call c.callbacks.error_callback (error_notification header code sum) c)
            false (call-keeps _ _ c h))
  ]

  pub handle_protocol_message-keeps :
      (host : Host) (header : RetransmissionMsgHeader) (m : List ℕ) (c : Connection)
      → P c
      → P (handle_protocol_message host header m c)
  unfolding handle_protocol_message
  handle_protocol_message-keeps host header m c h = branch-keeps _ _ _ h (
      branch-keeps _ _ _ (handle_start-keeps m c h) (
        branch-keeps _ _ _ (handle_data_response-keeps m c h) (
          branch-keeps _ _ _ (handle_heartbeat-keeps host m c h)
            (branch-keeps _ _ _ (handle_error-keeps m c h) h))))

  pub handled-keeps :
      (host : Host) (F : Frame) (m : List ℕ) (c : Connection) → P c → P (handled host F m c)
  handled-keeps host waits m c h = h
  handled-keeps host discards m c h = h
  handled-keeps host (throws e) m c h = h
  handled-keeps host (market n) m c h = call-keeps _ _ c h
  handled-keeps host (malformed n) m c h = h
  handled-keeps host (protocol n header) m c h = handle_protocol_message-keeps host header m c h

  last-keeps : (F : Frame) (c : Connection) (b : List ℕ) → P c → P (last F c b).1.connection
  last-keeps waits c b h = h
  last-keeps discards c b h = h
  last-keeps (throws e) c b h = h
  last-keeps (market n) c b h = h
  last-keeps (malformed n) c b h = h
  last-keeps (protocol n header) c b h = h

  pub take_frames-keeps :
      (host : Host) (r : ℕ) (c : Connection) (b : List ℕ)
      → P c
      → P (take_frames host r c b).1.connection
  unfolding take_frames
  take_frames-keeps host zero c b h = h
  take_frames-keeps host (suc r) c [] h = rw (no_bytes host c (suc r)) h
  take_frames-keeps host (suc r) c (y ∷ b) h = elim (Bool-cases c.running) [
    | inr halted ↦ rw (stopped host c (suc r) (y ∷ b) halted) h
    | inl running ↦ elim (Option-cases (consumed (next_frame (y ∷ b)))) [
      | inr (n, eats) ↦
          rw
            (round_next host c running r (y ∷ b) (next_frame (y ∷ b)) n (cons-ne-nil y b) refl eats)
            (take_frames-keeps host r (handled host (next_frame (y ∷ b)) (take n (y ∷ b)) c)
              (drop n (y ∷ b)) (handled-keeps host (next_frame (y ∷ b)) (take n (y ∷ b)) c h))
      | inl none_eaten ↦
          rw
            (round_last host c running r (y ∷ b) (next_frame (y ∷ b)) (cons-ne-nil y b) refl
              none_eaten)
            (last-keeps (next_frame (y ∷ b)) c (y ∷ b) h)
    ]
  ]

  pub handle_received-keeps :
      (host : Host) (answer : Received) (k : Client)
      → P k.connection
      → P (handle_received host answer k).1.connection
  unfolding handle_received process_incoming_data
  handle_received-keeps host timed_out k h = h
  handle_received-keeps host failed k h = kept.disconnects k.connection h
  handle_received-keeps host (bytes []) k h = kept.disconnects k.connection h
  handle_received-keeps host (bytes (b ∷ chunk)) k h =
      take_frames-keeps host (length (k.tcp_receive_buffer ++ b ∷ chunk)) k.connection
        (k.tcp_receive_buffer ++ b ∷ chunk) h
