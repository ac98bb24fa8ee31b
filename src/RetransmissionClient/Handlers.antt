-- ===== src/RetransmissionClient/Handlers.antt =====
-- handle_protocol_message: the messages of the server.
use taifex_cpp_sdk.Prelude.{ℕ, true, false, none, some, List, ◌==◌, if◌then◌else◌}
use taifex_cpp_sdk.Retransmission.Protocol.{
  RetransmissionMsgHeader, deserialize_retransmission_start, deserialize_heartbeat_server,
  deserialize_error,
}
use taifex_cpp_sdk.Retransmission.DataResponse.{deserialize_data_response}
use taifex_cpp_sdk.RetransmissionClient.{
  Host, Connection, call, login_complete, status, error_notification, send_client_heartbeat,
}

-- RetransmissionStart050.
unfoldable pub handle_start : List ℕ → Connection → Connection
handle_start full_message c = elim (deserialize_retransmission_start full_message) [
  | some msg ↦ call c.callbacks.logged_in_callback login_complete (record c { logged_in = true })
  | none ↦ c
]

-- DataResponse102.
unfoldable pub handle_data_response : List ℕ → Connection → Connection
handle_data_response full_message c = elim (deserialize_data_response full_message) [
  | some (header, msg, retransmitted, check_sum) ↦
      call c.callbacks.status_callback (status header msg retransmitted check_sum) c
  | none ↦ c
]

-- HeartbeatServer104.
unfoldable pub handle_heartbeat : Host → List ℕ → Connection → Connection
handle_heartbeat host full_message c = elim (deserialize_heartbeat_server full_message) [
  | some msg ↦ (send_client_heartbeat host c).1
  | none ↦ c
]

-- ErrorNotification010.
unfoldable pub handle_error : List ℕ → Connection → Connection
handle_error full_message c = elim (deserialize_error full_message) [
  | some (header, status_code, check_sum) ↦
      record (call c.callbacks.error_callback (error_notification header status_code check_sum) c) {
        logged_in = false;
      }
  | none ↦ c
]

-- The switch over the type; LoginResponse030 and unknown types are only logged.
unfoldable pub handle_protocol_message :
    Host → RetransmissionMsgHeader → List ℕ → Connection → Connection
handle_protocol_message host header full_message c =
    if header.msg_type == 30
    then c
    else if header.msg_type == 50
    then handle_start full_message c
    else if header.msg_type == 102
    then handle_data_response full_message c
    else if header.msg_type == 104
    then handle_heartbeat host full_message c
    else if header.msg_type == 10
    then handle_error full_message c
    else c
