-- ===== src/Retransmission/Protocol/RoundTrip.antt =====
-- Every retransmission message of a fixed size is parsed back from its bytes.
use taifex_cpp_sdk.Prelude.{
  ℕ, ◌+◌, ◌^◌, ◌<◌, ◌≡◌, refl, false, some, List, [], ◌∷◌, ◌++◌, length, ltb, arith,
}
use taifex_cpp_sdk.Retransmission.Protocol.{
  put_short, put_long, RetransmissionMsgHeader, LoginRequest020, serialize_login_request,
  deserialize_login_request, serialize_login_response, serialize_retransmission_start,
  deserialize_retransmission_start, serialize_heartbeat_server, deserialize_heartbeat_server,
  serialize_heartbeat_client, deserialize_heartbeat_client, deserialize_login_response,
  serialize_empty, deserialize_empty, serialize_error, deserialize_error, DataRequest101,
  read_login_request, read_login_response, read_error, read_data_request, serialize_data_request,
  deserialize_data_request,
}
use taifex_cpp_sdk.Retransmission.Protocol.Frame.{
  short_back, long_back, FitsHeader, sent, head_bytes, body_bytes, sum_of, frame_back,
}

pub record FitsRequest (m : DataRequest101) : Type 0 where
  pub channel_fits : m.channel_id < 2 ^ 16
  pub begin_fits : m.begin_seq_no < 2 ^ 32
  pub count_fits : m.recover_num < 2 ^ 16

pub record FitsLogin (m : LoginRequest020) : Type 0 where
  pub operator_fits : m.multiplication_operator < 2 ^ 16
  pub session_fits : m.session_id < 2 ^ 16

abbrev pub login_payload : LoginRequest020 → List ℕ
login_payload m = put_short m.multiplication_operator ++ (m.check_code ∷ put_short m.session_id)

abbrev pub request_payload : DataRequest101 → List ℕ
request_payload m = put_short m.channel_id ++ (put_long m.begin_seq_no ++ put_short m.recover_num)

login_back :
    (h : RetransmissionMsgHeader) (m : LoginRequest020) (rest : List ℕ)
    → FitsLogin m
    → read_login_request (body_bytes 20 19 h (login_payload m) ++ rest) 16 ≡ some (m, 21)
unfolding head_bytes
login_back h m rest small =
    let long : ltb (length (body_bytes 20 19 h (login_payload m) ++ rest)) (16 + 5) ≡ false =
      ground arith in
    rw
      (
        long,
        short_back m.multiplication_operator small.operator_fits,
        short_back m.session_id small.session_fits,
      )
      refl

request_back :
    (h : RetransmissionMsgHeader) (m : DataRequest101) (rest : List ℕ)
    → FitsRequest m
    → read_data_request (body_bytes 101 22 h (request_payload m) ++ rest) 16 ≡ some (m, 24)
unfolding head_bytes
request_back h m rest small =
    let bytes : List ℕ = body_bytes 101 22 h (request_payload m) ++ rest in
    let enough2 : ltb (length bytes) (16 + 2) ≡ false = ground arith in
    let enough6 : ltb (length bytes) (16 + 6) ≡ false = ground arith in
    let enough8 : ltb (length bytes) (16 + 8) ≡ false = ground arith in
    rw
      (
        enough2,
        enough6,
        enough8,
        short_back m.channel_id small.channel_fits,
        long_back m.begin_seq_no small.begin_fits,
        short_back m.recover_num small.count_fits,
      )
      refl

response_back :
    (h : RetransmissionMsgHeader) (channel_id : ℕ) (rest : List ℕ)
    → channel_id < 2 ^ 16
    → read_login_response (body_bytes 30 16 h (put_short channel_id) ++ rest) 16
      ≡ some (channel_id, 18)
unfolding head_bytes
response_back h channel_id rest small =
    let long : ltb (length (body_bytes 30 16 h (put_short channel_id) ++ rest)) (16 + 2) ≡ false =
      ground arith in
    rw (long, short_back channel_id small) refl

error_back :
    (h : RetransmissionMsgHeader) (status_code : ℕ) (rest : List ℕ)
    → read_error (body_bytes 10 15 h (status_code ∷ []) ++ rest) 16 ≡ some (status_code, 17)
unfolding head_bytes
error_back h status_code rest =
    let long : ltb (length (body_bytes 10 15 h (status_code ∷ []) ++ rest)) (16 + 1) ≡ false =
      ground arith in
    rw long refl

-- Messages from the client: a login request, a data request and a heartbeat are parsed back from their
-- bytes, each with its own type and size in the header and with its checksum.
pub client_messages_back :
    (h : RetransmissionMsgHeader) (login : LoginRequest020) (request : DataRequest101)
    → FitsHeader h
    → FitsLogin login
    → FitsRequest request
    → (deserialize_login_request (serialize_login_request h login [])
        ≡ some (sent 20 19 h, login, sum_of 20 19 h (login_payload login)))
      × (deserialize_data_request (serialize_data_request h request [])
          ≡ some (sent 101 22 h, request, sum_of 101 22 h (request_payload request)))
      × (deserialize_heartbeat_client (serialize_heartbeat_client h [])
          ≡ some (sent 105 14 h, tt, sum_of 105 14 h []))
unfolding deserialize_login_request serialize_login_request deserialize_data_request
    serialize_data_request deserialize_empty serialize_empty
client_messages_back h login request fits small_login small_request = (
  frame_back 20 19 h (login_payload login) read_login_request login (omega arith) (omega arith) fits
      (omega arith) (λ rest. login_back h login rest small_login),
  frame_back 101 22 h (request_payload request) read_data_request request (omega arith)
      (omega arith) fits (omega arith) (λ rest. request_back h request rest small_request),
  frame_back 105 14 h [] (λ bytes offset. some (tt, offset)) tt (omega arith) (omega arith) fits
      (omega arith) (λ rest. refl),
)

-- Messages from the server: a login response, the start of the retransmission, a heartbeat and an error
-- notification are parsed back from their bytes in the same way.
pub server_messages_back :
    (h : RetransmissionMsgHeader) (channel_id status_code : ℕ)
    → FitsHeader h
    → channel_id < 2 ^ 16
    → (deserialize_login_response (serialize_login_response h channel_id [])
        ≡ some (sent 30 16 h, channel_id, sum_of 30 16 h (put_short channel_id)))
      × (deserialize_retransmission_start (serialize_retransmission_start h [])
          ≡ some (sent 50 14 h, tt, sum_of 50 14 h []))
      × (deserialize_heartbeat_server (serialize_heartbeat_server h [])
          ≡ some (sent 104 14 h, tt, sum_of 104 14 h []))
      × (deserialize_error (serialize_error h status_code [])
          ≡ some (sent 10 15 h, status_code, sum_of 10 15 h (status_code ∷ [])))
unfolding deserialize_login_response serialize_login_response deserialize_empty serialize_empty
    deserialize_error serialize_error
server_messages_back h channel_id status_code fits small = (
  frame_back 30 16 h (put_short channel_id) read_login_response channel_id (omega arith)
      (omega arith) fits (omega arith) (λ rest. response_back h channel_id rest small),
  frame_back 50 14 h [] (λ bytes offset. some (tt, offset)) tt (omega arith) (omega arith) fits
      (omega arith) (λ rest. refl),
  frame_back 104 14 h [] (λ bytes offset. some (tt, offset)) tt (omega arith) (omega arith) fits
      (omega arith) (λ rest. refl),
  frame_back 10 15 h (status_code ∷ []) read_error status_code (omega arith) (omega arith) fits
      (omega arith) (λ rest. error_back h status_code rest),
)
