-- ===== src/Retransmission/DataResponse/RoundTrip.antt =====
-- A data response with its retransmitted data is parsed back.
use taifex_cpp_sdk.Prelude.{
  ℕ, ◌+◌, ◌-◌, ◌%◌, ◌^◌, ◌<◌, ◌≡◌, refl, ap, ◌∙◌, true, false, some, List, [], ◌∷◌, ◌++◌, length,
  get_or, slice, ltb, ◌==◌, arith, length-append, append_assoc, take_front,
}
use taifex_cpp_sdk.Retransmission.Protocol.{
  calculate_retransmission_checksum, put_short, put_long, get_short, get_long,
  RetransmissionMsgHeader, deserialize_header,
}
use taifex_cpp_sdk.Retransmission.DataResponse.{
  DataResponse102, serialize_data_response, deserialize_data_response,
}
use taifex_cpp_sdk.Retransmission.Protocol.Frame.{
  short_back, long_back, FitsHeader, sent, head_bytes, length-head_bytes, body_bytes, sum_of,
  serialize_message_lem, deserialize_footer_lem, deserialize_header-head_bytes,
}

pub record FitsResponse (m : DataResponse102) : Type 0 where
  pub channel_fits : m.channel_id < 2 ^ 16
  pub begin_fits : m.begin_seq_no < 2 ^ 32
  pub num_fits : m.recover_num < 2 ^ 16

abbrev pub response_fixed : DataResponse102 → List ℕ
response_fixed m =
    put_short m.channel_id ++ (m.status_code ∷ (put_long m.begin_seq_no ++ put_short m.recover_num))

abbrev pub response_payload : DataResponse102 → List ℕ → List ℕ
response_payload m retrans_data =
    put_short m.channel_id
    ++ (m.status_code ∷ (put_long m.begin_seq_no ++ (put_short m.recover_num ++ retrans_data)))

-- The fields behind the header, in front of anything.
response_fields :
    (size : ℕ) (h : RetransmissionMsgHeader) (m : DataResponse102) (retrans_data rest : List ℕ)
    → FitsResponse m
    → (let bytes : List ℕ = body_bytes 102 size h (response_payload m retrans_data) ++ rest in
        (get_short bytes 16 ≡ m.channel_id)
        × (get_or bytes 18 0 ≡ m.status_code)
        × (get_long bytes 19 ≡ m.begin_seq_no)
        × (get_short bytes 23 ≡ m.recover_num)
        × (slice 25 (length retrans_data) bytes ≡ retrans_data))
unfolding head_bytes
response_fields size h m retrans_data rest small = (
  short_back m.channel_id small.channel_fits,
  refl,
  long_back m.begin_seq_no small.begin_fits,
  short_back m.recover_num small.num_fits,
  take_front (length retrans_data) retrans_data rest refl,
)

-- A data response is parsed back from its bytes together with the retransmitted data, as long as the size
-- of the message fits in the 16 bits of its field.
pub deserialize_data_response-serialize :
    (h : RetransmissionMsgHeader) (m : DataResponse102) (retrans_data : List ℕ)
    → FitsHeader h
    → FitsResponse m
    → 23 + length retrans_data < 2 ^ 16
    → deserialize_data_response (serialize_data_response h m retrans_data [])
      ≡ some (
        sent 102 (23 + length retrans_data) h,
        m,
        retrans_data,
        sum_of 102 (23 + length retrans_data) h (response_payload m retrans_data),
      )
unfolding deserialize_data_response serialize_data_response
deserialize_data_response-serialize h m retrans_data fits small room =
    let size = 23 + length retrans_data in
    let payload : List ℕ = response_payload m retrans_data in
    let body : List ℕ = body_bytes 102 size h payload in
    let sum = calculate_retransmission_checksum body in
    let bytes : List ℕ = body ++ sum ∷ [] in
    let kept : size % 2 ^ 16 ≡ size = omega arith in
    let length_body : length body ≡ 2 + size = omega (
      arith,
      length-append (head_bytes (sent 102 size h)) payload,
      length-head_bytes (sent 102 size h),
    ) in
    let total : length bytes ≡ 3 + size = omega (arith, length-append body (sum ∷ [])) in
    let head : deserialize_header bytes 0 ≡ some (sent 102 size h, 16) =
      ap (λ l. deserialize_header l 0)
        (append_assoc (head_bytes (sent 102 size h)) payload (sum ∷ []))
      ∙ deserialize_header-head_bytes 102 size h (payload ++ sum ∷ []) (omega arith) room fits in
    let left : size - 23 ≡ length retrans_data = omega arith in
    let at_foot : 16 + 9 + length retrans_data ≡ 2 + size = omega arith in
    let (e1, e2, e3, e4, e5) = response_fields size h m retrans_data (sum ∷ []) small in
    let announced : ltb size 23 ≡ false = ground arith in
    let long : ltb (length bytes) (2 + size + 1) ≡ false = ground (arith, total) in
    let enough : ltb (length bytes) 25 ≡ false = ground (arith, total) in
    let room_left : ltb (length bytes) (2 + size) ≡ false = ground (arith, total) in
    let end_ok : (2 + size + 1 == 2 + size + 1) ≡ true = ground arith in
    rw
      (
        kept,
        serialize_message_lem 102 size h payload (omega arith),
        head,
        announced,
        left,
        long,
        enough,
        at_foot,
        room_left,
        deserialize_footer_lem body (2 + size) length_body (omega arith),
        end_ok,
        e1,
        e2,
        e3,
        e4,
        e5,
      )
      refl
