-- ===== src/RetransmissionClient/Delivery.antt =====
-- What the messages of the server do to the client when they arrive in a stream.
pub mod Frames
pub mod Arrival
pub mod Streams
pub mod Loss
use taifex_cpp_sdk.Prelude.{
  ℕ, zero, suc, ◌+◌, ◌-◌, ◌≤◌, ◌<◌, ◌^◌, ◌≡◌, ◌≢◌, refl, sym, ap, ◌∙◌, ◌⊎◌, Bool, true, false,
  Option, none, some, inl, inr, List, [], ◌∷◌, ◌++◌, append_assoc, append-nil, length, take, drop,
  arith, All, length-append,
}
use taifex_cpp_sdk.ErrorCodes.{Result, ok}
use taifex_cpp_sdk.CommonHeader.{CommonHeader, get_body_length}
use taifex_cpp_sdk.CommonHeader.Layout.{wire, IsShaped}
use taifex_cpp_sdk.Retransmission.Protocol.{
  RetransmissionMsgHeader, put_short, serialize_login_response, serialize_retransmission_start,
  serialize_heartbeat_server, serialize_error,
}
use taifex_cpp_sdk.Retransmission.Protocol.Frame.{FitsHeader, sent, sum_of}
use taifex_cpp_sdk.Retransmission.DataResponse.{DataResponse102, serialize_data_response}
use taifex_cpp_sdk.Retransmission.DataResponse.RoundTrip.{FitsResponse, response_payload}
use taifex_cpp_sdk.RetransmissionClient.{
  Host, Connection, Client, call, market_data, login_complete, status, error_notification,
  send_client_heartbeat,
}

-- The messages that a server sends.
pub data Message : Type 0 where
  market_message : CommonHeader → List ℕ → ℕ → Message
  login_response : RetransmissionMsgHeader → ℕ → Message
  retransmission_start heartbeat_server : RetransmissionMsgHeader → Message
  data_response : RetransmissionMsgHeader → DataResponse102 → List ℕ → Message
  error_message : RetransmissionMsgHeader → ℕ → Message

abbrev pub bytes_of : Message → List ℕ
bytes_of (market_message h body check_sum) = wire h ++ (body ++ check_sum ∷ 0x0D ∷ 0x0A ∷ [])
bytes_of (login_response h channel_id) = serialize_login_response h channel_id []
bytes_of (retransmission_start h) = serialize_retransmission_start h []
bytes_of (heartbeat_server h) = serialize_heartbeat_server h []
bytes_of (data_response h m retransmitted) = serialize_data_response h m retransmitted []
bytes_of (error_message h status_code) = serialize_error h status_code []

-- The fields fit their types, a market data message announces the length of its body, and the size of a
-- data response does not begin with the byte 0x1B.
abbrev pub IsSendable : Message → Type 0
IsSendable (market_message h body check_sum) =
    IsShaped h × (h.esc_code ≡ 0x1B) × (get_body_length h ≡ ok (length body))
IsSendable (login_response h channel_id) = FitsHeader h × (channel_id < 2 ^ 16)
IsSendable (retransmission_start h) = FitsHeader h
IsSendable (heartbeat_server h) = FitsHeader h
IsSendable (data_response h m retransmitted) =
    FitsHeader h
    × FitsResponse m
    × ((23 + length retransmitted < 6912)
        ⊎ ((7168 ≤ 23 + length retransmitted) × (23 + length retransmitted < 2 ^ 16)))
IsSendable (error_message h status_code) = FitsHeader h

-- What the client does with a message.
abbrev pub deliver : Host → Message → Connection → Connection
deliver host (market_message h body check_sum) c =
    call c.callbacks.market_data_callback (market_data (bytes_of (market_message h body check_sum)))
      c
deliver host (login_response h channel_id) c = c
deliver host (retransmission_start h) c =
    call c.callbacks.logged_in_callback login_complete (record c { logged_in = true })
deliver host (heartbeat_server h) c = (send_client_heartbeat host c).1
deliver host (data_response h m retransmitted) c =
    call c.callbacks.status_callback
      (status (sent 102 (23 + length retransmitted) h) m retransmitted
        (sum_of 102 (23 + length retransmitted) h (response_payload m retransmitted)))
      c
deliver host (error_message h status_code) c =
    record (call c.callbacks.error_callback
      (error_notification (sent 10 15 h) status_code (sum_of 10 15 h (status_code ∷ []))) c) {
        logged_in = false;
      }
