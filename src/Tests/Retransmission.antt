-- ===== src/Tests/Retransmission.antt =====
-- The retransmission protocol at concrete messages.
use taifex_cpp_sdk.Prelude.{◌≡◌, ◌≢◌, ◌%◌, refl, some, none, [], ◌∷◌, arith}
use taifex_cpp_sdk.Retransmission.Protocol.{
  RetransmissionMsgHeader, LoginRequest020, DataRequest101, calculate_retransmission_checksum,
  serialize_empty, deserialize_empty, serialize_message, deserialize_message, serialize_header,
  serialize_time, deserialize_header, byte_sum,
}
use taifex_cpp_sdk.Retransmission.Protocol.Frame.{FitsHeader, sent, sum_of}
use taifex_cpp_sdk.Retransmission.Protocol.RoundTrip.{FitsLogin, FitsRequest}
use taifex_cpp_sdk.Retransmission.DataResponse.{
  DataResponse102, serialize_data_response, deserialize_data_response,
}
use taifex_cpp_sdk.Retransmission.DataResponse.RoundTrip.{
  FitsResponse, response_payload, deserialize_data_response-serialize,
}
use taifex_cpp_sdk.Retransmission.Protocol.Checks.{
  sum_all, calculate_retransmission_checksum_one_byte,
}

abbrev pub header : RetransmissionMsgHeader
header = record {
  msg_size = 0;
  msg_type = 0;
  msg_seq_num = 7;
  msg_time = record { epoch_s = 1700000000; nanosecond = 5 };
}

pub header-Fits : FitsHeader header
header-Fits = record {
  seq_fits = omega arith;
  seconds_fit = omega arith;
  nanoseconds_fit = omega arith;
}

abbrev login : LoginRequest020
login = record { multiplication_operator = 12; check_code = 34; session_id = 5 }

login-Fits : FitsLogin login
login-Fits = record { operator_fits = omega arith; session_fits = omega arith }

abbrev pub request : DataRequest101
request = record { channel_id = 2; begin_seq_no = 100000; recover_num = 300 }

pub request-Fits : FitsRequest request
request-Fits = record {
  channel_fits = omega arith;
  begin_fits = omega arith;
  count_fits = omega arith;
}

abbrev response : DataResponse102
response = record { channel_id = 2; status_code = 0; begin_seq_no = 100000; recover_num = 1 }

response-Fits : FitsResponse response
response-Fits = record {
  channel_fits = omega arith;
  begin_fits = omega arith;
  num_fits = omega arith;
}

heartbeat_bytes :
    serialize_empty 105 header []
    ≡ 0 ∷ 14 ∷ 0 ∷ 105 ∷ 0 ∷ 0 ∷ 0 ∷ 7 ∷ 0x65 ∷ 0x53 ∷ 0xf1 ∷ 0 ∷ 0 ∷ 0 ∷ 0 ∷ 5 ∷ 44 ∷ []
unfolding serialize_empty serialize_message serialize_header serialize_time
    calculate_retransmission_checksum byte_sum
heartbeat_bytes = refl

heartbeat_short : deserialize_empty 105 (0 ∷ 14 ∷ 0 ∷ 105 ∷ []) ≡ none
unfolding deserialize_empty deserialize_message deserialize_header
heartbeat_short = refl

deserialize_data_response-serialize_example :
    deserialize_data_response (serialize_data_response header response (27 ∷ 50 ∷ 13 ∷ []) [])
    ≡ some (
      sent 102 26 header,
      response,
      27 ∷ 50 ∷ 13 ∷ [],
      sum_of 102 26 header (response_payload response (27 ∷ 50 ∷ 13 ∷ [])),
    )
deserialize_data_response-serialize_example =
    deserialize_data_response-serialize header response (27 ∷ 50 ∷ 13 ∷ []) header-Fits
      response-Fits (omega arith)

calculate_retransmission_checksum_one_byte_example :
    (calculate_retransmission_checksum (200 ∷ 100 ∷ 1 ∷ []) ≡ sum_all (200 ∷ 100 ∷ 1 ∷ []) % 256)
    × (calculate_retransmission_checksum (200 ∷ 100 ∷ 1 ∷ [])
        ≢ calculate_retransmission_checksum (200 ∷ 101 ∷ 1 ∷ []))
calculate_retransmission_checksum_one_byte_example =
    calculate_retransmission_checksum_one_byte (200 ∷ []) (1 ∷ []) 100 101 (omega arith)
      (omega arith) (omega arith)
