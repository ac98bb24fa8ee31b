-- ===== src/RetransmissionClient/Delivery/Arrival.antt =====
-- Each message of the server at the front of the buffer.
use taifex_cpp_sdk.Prelude.{
  ℕ, ◌+◌, ◌/◌, ◌%◌, ◌<◌, ◌^◌, ◌≡◌, ◌≢◌, refl, sym, ap, ◌∙◌, some, inl, inr, List, [], ◌∷◌, length,
  arith,
}
use taifex_cpp_sdk.Retransmission.Protocol.{
  RetransmissionMsgHeader, put_short, serialize_message, serialize_login_response, serialize_empty,
  serialize_error,
}
use taifex_cpp_sdk.Retransmission.Protocol.Frame.{FitsHeader, sent}
use taifex_cpp_sdk.Retransmission.Protocol.RoundTrip.{server_messages_back}
use taifex_cpp_sdk.Retransmission.DataResponse.{DataResponse102, serialize_data_response}
use taifex_cpp_sdk.Retransmission.DataResponse.RoundTrip.{
  FitsResponse, response_payload, deserialize_data_response-serialize,
}
use taifex_cpp_sdk.RetransmissionClient.{Host, Connection}
use taifex_cpp_sdk.RetransmissionClient.Handlers.{
  handle_protocol_message, handle_start, handle_data_response, handle_heartbeat, handle_error,
}
use taifex_cpp_sdk.RetransmissionClient.Framing.{Frame, market, protocol, next_frame}
use taifex_cpp_sdk.RetransmissionClient.Chunks.{consumed, handled}
use taifex_cpp_sdk.RetransmissionClient.Delivery.{
  Message, market_message, login_response, retransmission_start, heartbeat_server, data_response,
  error_message, bytes_of, IsSendable, deliver,
}
use taifex_cpp_sdk.RetransmissionClient.Delivery.Frames.{
  length-message, next_frame-message, length-market, next_frame-market,
}

-- The message is one frame, and the round for it delivers it.
pub record Arrives (host : Host) (m : Message) : Type 0 where
  pub frame : Frame
  pub is_first : next_frame (bytes_of m) ≡ frame
  pub is_whole : consumed frame ≡ some (length (bytes_of m))
  pub is_delivered : (c : Connection) → handled host frame (bytes_of m) c ≡ deliver host m c

serialize_data_response-eq :
    (h : RetransmissionMsgHeader) (m : DataResponse102) (retransmitted : List ℕ)
    → 23 + length retransmitted < 2 ^ 16
    → serialize_data_response h m retransmitted []
      ≡ serialize_message 102 (23 + length retransmitted) h (response_payload m retransmitted) []
unfolding serialize_data_response
serialize_data_response-eq h m retransmitted room =
    ap (λ (n : ℕ). serialize_message 102 n h (response_payload m retransmitted) [])
      (kept (length retransmitted) room)
  where
    kept : (n : ℕ) → 23 + n < 2 ^ 16 → (14 + 9 + n) % 2 ^ 16 ≡ 23 + n
    kept n small = omega arith

length-response_payload :
    (m : DataResponse102) (d : List ℕ) → 2 + (23 + length d) ≡ 16 + length (response_payload m d)
length-response_payload m d = omega arith

data_response-Arrives :
    (host : Host) (h : RetransmissionMsgHeader) (m : DataResponse102) (d : List ℕ)
    → FitsHeader h
    → FitsResponse m
    → 23 + length d < 2 ^ 16
    → (23 + length d) / 256 % 256 ≢ 0x1B
    → Arrives host (data_response h m d)
unfolding handle_protocol_message handle_data_response
data_response-Arrives host h m d fits small room first =
    let size = 23 + length d in
    let written = serialize_data_response-eq h m d room in
    let sized = length-response_payload m d in
    let parsed = deserialize_data_response-serialize h m d fits small room in
    record {
      frame = protocol (2 + size + 1) (sent 102 size h);
      is_first =
          ap next_frame written
          ∙ next_frame-message 102 size h (response_payload m d) sized (omega arith) room fits
              first;
      is_whole =
          ap some
            (sym (ap length written ∙ length-message 102 size h (response_payload m d) sized));
      is_delivered = λ c. rw (parsed, handle_data_response) refl;
    }

-- Every message that a server may send arrives.
pub message-Arrives : (host : Host) (m : Message) → IsSendable m → Arrives host m
unfolding handle_protocol_message handle_start handle_heartbeat handle_error
    serialize_login_response serialize_empty serialize_error
message-Arrives host (market_message h body check_sum) (shaped, esc, announced) = record {
  frame = market (19 + length body + 1 + 2);
  is_first = next_frame-market h body check_sum shaped esc announced;
  is_whole = ap some (sym (length-market h body check_sum shaped));
  is_delivered = λ c. refl;
}
message-Arrives host (login_response h channel_id) (fits, small) = record {
  frame = protocol 19 (sent 30 16 h);
  is_first =
      next_frame-message 30 16 h (put_short channel_id) (omega arith) (omega arith) (omega arith)
        fits (omega arith);
  is_whole = ap some (sym (length-message 30 16 h (put_short channel_id) (omega arith)));
  is_delivered = λ c. refl;
}
message-Arrives host (retransmission_start h) fits = record {
  frame = protocol 17 (sent 50 14 h);
  is_first =
      next_frame-message 50 14 h [] (omega arith) (omega arith) (omega arith) fits (omega arith);
  is_whole = ap some (sym (length-message 50 14 h [] (omega arith)));
  is_delivered = λ c. rw ((server_messages_back h 0 0 fits (omega arith)).1, handle_start) refl;
}
message-Arrives host (heartbeat_server h) fits = record {
  frame = protocol 17 (sent 104 14 h);
  is_first =
      next_frame-message 104 14 h [] (omega arith) (omega arith) (omega arith) fits (omega arith);
  is_whole = ap some (sym (length-message 104 14 h [] (omega arith)));
  is_delivered = λ c. rw ((server_messages_back h 0 0 fits (omega arith)).2, handle_heartbeat) refl;
}
message-Arrives host (data_response h m d) (fits, small, inl below) =
    data_response-Arrives host h m d fits small (omega arith) (omega arith)
message-Arrives host (data_response h m d) (fits, small, inr (above, room)) =
    data_response-Arrives host h m d fits small room (omega arith)
message-Arrives host (error_message h status_code) fits = record {
  frame = protocol 18 (sent 10 15 h);
  is_first =
      next_frame-message 10 15 h (status_code ∷ []) (omega arith) (omega arith) (omega arith) fits
        (omega arith);
  is_whole = ap some (sym (length-message 10 15 h (status_code ∷ []) (omega arith)));
  is_delivered =
      λ c. rw ((server_messages_back h 0 status_code fits (omega arith)).3, handle_error) refl;
}
