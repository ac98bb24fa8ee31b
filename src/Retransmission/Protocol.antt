-- ===== src/Retransmission/Protocol.antt =====
-- Serialization and parsing of the retransmission messages. Integers are in network byte order, the most
-- significant byte first. A `serialize` appends to the buffer; a `deserialize` returns what it read and
-- the offset behind it, or none for `return false`.
pub mod Frame
pub mod RoundTrip
pub mod Checks
use taifex_cpp_sdk.Prelude.{
  ℕ, ◌+◌, ◌-◌, ◌*◌, ◌/◌, ◌%◌, ◌^◌, Bool, true, false, not, Option, none, some, List, [], ◌∷◌, ◌++◌,
  length, get_or, slice, is_empty, ltb, ◌==◌, if◌then◌else◌,
}
use taifex_cpp_sdk.Prelude.Int.{ℤ, pos_part, neg_part}
use taifex_cpp_sdk.ErrorCodes.{Result, ok, err}
use taifex_cpp_sdk.Conversion.{stoll}
use taifex_cpp_sdk.Messages.ParserUtils.{reject_if, ◌>>=◌, ◌>>◌}

-- The sum of the bytes in an uint32_t, then modulo 256.
unfoldable pub byte_sum : ℕ → List ℕ → ℕ
byte_sum sum [] = sum
byte_sum sum (b ∷ bs) = byte_sum ((sum + b) % 2 ^ 32) bs

unfoldable pub calculate_retransmission_checksum : List ℕ → ℕ
calculate_retransmission_checksum data_segment = byte_sum 0 data_segment % 256

-- htons and htonl, and the bytes that memcpy puts into the buffer.
abbrev pub put_short : ℕ → List ℕ
put_short n = n / 256 % 256 ∷ n % 256 ∷ []

abbrev pub put_long : ℕ → List ℕ
put_long n = n / 16777216 % 256 ∷ n / 65536 % 256 ∷ n / 256 % 256 ∷ n % 256 ∷ []

-- memcpy from the data, then ntohs and ntohl.
abbrev pub get_short : List ℕ → ℕ → ℕ
get_short bytes offset = get_or bytes offset 0 * 256 + get_or bytes (offset + 1) 0

abbrev pub get_long : List ℕ → ℕ → ℕ
get_long bytes offset =
    get_or bytes offset 0 * 16777216
    + get_or bytes (offset + 1) 0 * 65536
    + get_or bytes (offset + 2) 0 * 256
    + get_or bytes (offset + 3) 0

pub record StandardTimeFormat : Type 0 where
  pub epoch_s : ℕ
  pub nanosecond : ℕ

pub record RetransmissionMsgHeader : Type 0 where
  pub msg_size : ℕ
  pub msg_type : ℕ
  pub msg_seq_num : ℕ
  pub msg_time : StandardTimeFormat

unfoldable pub serialize_time : StandardTimeFormat → List ℕ → List ℕ
serialize_time t buffer = buffer ++ (put_long t.epoch_s ++ put_long t.nanosecond)

unfoldable pub deserialize_time : List ℕ → ℕ → Option (StandardTimeFormat × ℕ)
deserialize_time bytes offset = do
  reject_if (ltb (length bytes) (offset + 8))
  some (
    record { epoch_s = get_long bytes offset; nanosecond = get_long bytes (offset + 4) },
    offset + 8,
  )

unfoldable pub serialize_header : RetransmissionMsgHeader → List ℕ → List ℕ
serialize_header h buffer =
    serialize_time h.msg_time
      (buffer ++ (put_short h.msg_size ++ (put_short h.msg_type ++ put_long h.msg_seq_num)))

unfoldable pub deserialize_header : List ℕ → ℕ → Option (RetransmissionMsgHeader × ℕ)
deserialize_header bytes offset = do
  reject_if (ltb (length bytes) (offset + 16))
  time ← deserialize_time bytes (offset + 8)
  some (
    record {
      msg_size = get_short bytes offset;
      msg_type = get_short bytes (offset + 2);
      msg_seq_num = get_long bytes (offset + 4);
      msg_time = time.0;
    },
    time.1,
  )

-- The footer behind `offset`, over the first `len_for_checksum` bytes of the data.
unfoldable pub deserialize_footer : List ℕ → ℕ → ℕ → Option (ℕ × ℕ)
deserialize_footer bytes offset len_for_checksum = do
  reject_if (ltb (length bytes) (offset + 1))
  reject_if (len_for_checksum == 0)
  reject_if (
      not (
        calculate_retransmission_checksum (slice 0 len_for_checksum bytes)
        == get_or bytes offset 0))
  some (get_or bytes offset 0, offset + 1)

-- The common shape of the serializers: the header with the type and the size of the message, the payload,
-- and the checksum over everything from the start of this message.
unfoldable pub serialize_message : ℕ → ℕ → RetransmissionMsgHeader → List ℕ → List ℕ → List ℕ
serialize_message type size header payload buffer =
    let with_payload =
      serialize_header (record header { msg_type = type; msg_size = size }) buffer ++ payload in
    with_payload
    ++ calculate_retransmission_checksum (slice (length buffer) (2 + size) with_payload) ∷ []

-- The common shape of the parsers of messages of a fixed size, with the reader of the payload.
unfoldable pub deserialize_message :
    {P : Type 0}
    → ℕ
    → ℕ
    → (List ℕ → ℕ → Option (P × ℕ))
    → List ℕ
    → Option (RetransmissionMsgHeader × P × ℕ)
deserialize_message type size payload bytes = do
  head ← deserialize_header bytes 0
  reject_if (not (head.0.msg_type == type))
  reject_if (not (head.0.msg_size == size))
  reject_if (ltb (length bytes) (2 + head.0.msg_size + 1))
  body ← payload bytes head.1
  foot ← deserialize_footer bytes body.1 (2 + head.0.msg_size)
  reject_if (not (foot.1 == 2 + head.0.msg_size + 1))
  some (head.0, body.0, foot.0)

pub record LoginRequest020 : Type 0 where
  pub multiplication_operator : ℕ
  pub check_code : ℕ
  pub session_id : ℕ

-- The password argument is not used by either.
unfoldable pub serialize_login_request : RetransmissionMsgHeader → LoginRequest020 → List ℕ → List ℕ
serialize_login_request header m =
    serialize_message 20 19 header
      (put_short m.multiplication_operator ++ (m.check_code ∷ put_short m.session_id))

abbrev read_login_request : List ℕ → ℕ → Option (LoginRequest020 × ℕ)
read_login_request bytes offset = do
  reject_if (ltb (length bytes) (offset + 5))
  some (
    record {
      multiplication_operator = get_short bytes offset;
      check_code = get_or bytes (offset + 2) 0;
      session_id = get_short bytes (offset + 3);
    },
    offset + 5,
  )

unfoldable pub deserialize_login_request :
    List ℕ → Option (RetransmissionMsgHeader × LoginRequest020 × ℕ)
deserialize_login_request = deserialize_message 20 19 read_login_request

-- LoginResponse030, of which the payload is the channel id.
unfoldable pub serialize_login_response : RetransmissionMsgHeader → ℕ → List ℕ → List ℕ
serialize_login_response header channel_id = serialize_message 30 16 header (put_short channel_id)

abbrev read_login_response : List ℕ → ℕ → Option (ℕ × ℕ)
read_login_response bytes offset = do
  reject_if (ltb (length bytes) (offset + 2))
  some (get_short bytes offset, offset + 2)

unfoldable pub deserialize_login_response : List ℕ → Option (RetransmissionMsgHeader × ℕ × ℕ)
deserialize_login_response = deserialize_message 30 16 read_login_response

-- The messages without a payload.
unfoldable pub serialize_empty : ℕ → RetransmissionMsgHeader → List ℕ → List ℕ
serialize_empty type header = serialize_message type 14 header []

unfoldable pub deserialize_empty : ℕ → List ℕ → Option (RetransmissionMsgHeader × Unit {0} × ℕ)
deserialize_empty type = deserialize_message type 14 (λ bytes offset. some (tt, offset))

abbrev pub serialize_retransmission_start : RetransmissionMsgHeader → List ℕ → List ℕ
serialize_retransmission_start = serialize_empty 50

abbrev pub deserialize_retransmission_start :
    List ℕ → Option (RetransmissionMsgHeader × Unit {0} × ℕ)
deserialize_retransmission_start = deserialize_empty 50

abbrev pub serialize_heartbeat_server : RetransmissionMsgHeader → List ℕ → List ℕ
serialize_heartbeat_server = serialize_empty 104

abbrev pub deserialize_heartbeat_server : List ℕ → Option (RetransmissionMsgHeader × Unit {0} × ℕ)
deserialize_heartbeat_server = deserialize_empty 104

abbrev pub serialize_heartbeat_client : RetransmissionMsgHeader → List ℕ → List ℕ
serialize_heartbeat_client = serialize_empty 105

abbrev pub deserialize_heartbeat_client : List ℕ → Option (RetransmissionMsgHeader × Unit {0} × ℕ)
deserialize_heartbeat_client = deserialize_empty 105

-- ErrorNotification010, of which the payload is the status code.
unfoldable pub serialize_error : RetransmissionMsgHeader → ℕ → List ℕ → List ℕ
serialize_error header status_code = serialize_message 10 15 header (status_code ∷ [])

abbrev read_error : List ℕ → ℕ → Option (ℕ × ℕ)
read_error bytes offset = do
  reject_if (ltb (length bytes) (offset + 1))
  some (get_or bytes offset 0, offset + 1)

unfoldable pub deserialize_error : List ℕ → Option (RetransmissionMsgHeader × ℕ × ℕ)
deserialize_error = deserialize_message 10 15 read_error

pub record DataRequest101 : Type 0 where
  pub channel_id : ℕ
  pub begin_seq_no : ℕ
  pub recover_num : ℕ

unfoldable pub serialize_data_request : RetransmissionMsgHeader → DataRequest101 → List ℕ → List ℕ
serialize_data_request header m =
    serialize_message 101 22 header
      (put_short m.channel_id ++ (put_long m.begin_seq_no ++ put_short m.recover_num))

abbrev read_data_request : List ℕ → ℕ → Option (DataRequest101 × ℕ)
read_data_request bytes offset = do
  reject_if (ltb (length bytes) (offset + 2))
  reject_if (ltb (length bytes) (offset + 6))
  reject_if (ltb (length bytes) (offset + 8))
  some (
    record {
      channel_id = get_short bytes offset;
      begin_seq_no = get_long bytes (offset + 2);
      recover_num = get_short bytes (offset + 6);
    },
    offset + 8,
  )

unfoldable pub deserialize_data_request :
    List ℕ → Option (RetransmissionMsgHeader × DataRequest101 × ℕ)
deserialize_data_request = deserialize_message 101 22 read_data_request

-- The absolute value of the product of two integers of which the first is not negative. A product beyond
-- the type is undefined in the source.
abbrev abs_product : ℕ → ℤ → ℕ
abs_product mult_op password_val = mult_op * (pos_part password_val + neg_part password_val)

unfoldable pub calculate_check_code : ℕ → List ℕ → ℕ
calculate_check_code mult_op password_str =
    if is_empty password_str then 0 else elim (stoll password_str) [
      | ok password_val ↦ abs_product mult_op password_val / 100 % 100 % 256
      | err e ↦ 0
    ]
