-- ===== src/Retransmission/DataResponse.antt =====
-- DataResponse102, the message with retransmitted data in front of its footer.
pub mod RoundTrip
use taifex_cpp_sdk.Prelude.{
  ℕ, ◌+◌, ◌-◌, ◌*◌, ◌/◌, ◌%◌, ◌^◌, Bool, true, false, not, Option, none, some, List, [], ◌∷◌, ◌++◌,
  length, get_or, slice, is_empty, ltb, ◌==◌, if◌then◌else◌,
}
use taifex_cpp_sdk.Prelude.Int.{ℤ, pos_part, neg_part}
use taifex_cpp_sdk.ErrorCodes.{Result, ok, err}
use taifex_cpp_sdk.Conversion.{stoll}
use taifex_cpp_sdk.Messages.ParserUtils.{reject_if, ◌>>=◌, ◌>>◌}
use taifex_cpp_sdk.Retransmission.Protocol.{
  put_short, put_long, get_short, get_long, RetransmissionMsgHeader, deserialize_header,
  deserialize_footer, serialize_message,
}

pub record DataResponse102 : Type 0 where
  pub channel_id : ℕ
  pub status_code : ℕ
  pub begin_seq_no : ℕ
  pub recover_num : ℕ

-- The fixed part in front of the retransmitted data; the size is stored in an uint16_t.
unfoldable pub serialize_data_response :
    RetransmissionMsgHeader → DataResponse102 → List ℕ → List ℕ → List ℕ
serialize_data_response header m retrans_data =
    serialize_message 102 ((14 + 9 + length retrans_data) % 2 ^ 16) header (
      put_short m.channel_id
      ++ (m.status_code ∷ (put_long m.begin_seq_no ++ (put_short m.recover_num ++ retrans_data))))

unfoldable pub deserialize_data_response :
    List ℕ → Option (RetransmissionMsgHeader × DataResponse102 × List ℕ × ℕ)
deserialize_data_response bytes = do
  head ← deserialize_header bytes 0
  reject_if (not (head.0.msg_type == 102))
  reject_if (ltb head.0.msg_size 23)
  reject_if (ltb (length bytes) (2 + head.0.msg_size + 1))
  reject_if (ltb (length bytes) (head.1 + 9))
  reject_if (ltb (length bytes) (head.1 + 9 + (head.0.msg_size - 23)))
  foot ← deserialize_footer bytes (head.1 + 9 + (head.0.msg_size - 23)) (2 + head.0.msg_size)
  reject_if (not (foot.1 == 2 + head.0.msg_size + 1))
  some (
    head.0,
    record {
      channel_id = get_short bytes head.1;
      status_code = get_or bytes (head.1 + 2) 0;
      begin_seq_no = get_long bytes (head.1 + 3);
      recover_num = get_short bytes (head.1 + 7);
    },
    slice (head.1 + 9) (head.0.msg_size - 23) bytes,
    foot.0,
  )
