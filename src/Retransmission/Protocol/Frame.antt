-- ===== src/Retransmission/Protocol/Frame.antt =====
-- A message in its frame, the header and the checksum, is parsed back if its payload is.
use taifex_cpp_sdk.Prelude.{
  ℕ, ◌+◌, ◌*◌, ◌/◌, ◌%◌, ◌^◌, ◌<◌, ◌≡◌, refl, sym, ap, ◌∙◌, true, false, Option, some, List, [],
  ◌∷◌, ◌++◌, length, slice, ltb, ◌==◌, arith, length-append, append_assoc, take_front, get_or_here,
  append-nil,
}
use taifex_cpp_sdk.Retransmission.Protocol.{
  calculate_retransmission_checksum, put_short, put_long, RetransmissionMsgHeader, serialize_time,
  deserialize_time, serialize_header, deserialize_header, deserialize_footer, serialize_message,
  deserialize_message,
}

pub short_back : (n : ℕ) → n < 2 ^ 16 → n / 256 % 256 * 256 + n % 256 ≡ n
short_back n h = omega arith

pub long_back :
    (n : ℕ)
    → n < 2 ^ 32
    → n / 16777216 % 256 * 16777216 + n / 65536 % 256 * 65536 + n / 256 % 256 * 256 + n % 256 ≡ n
long_back n h = omega arith

-- The fields of a header fit their types.
pub record FitsHeader (h : RetransmissionMsgHeader) : Type 0 where
  pub seq_fits : h.msg_seq_num < 2 ^ 32
  pub seconds_fit : h.msg_time.epoch_s < 2 ^ 32
  pub nanoseconds_fit : h.msg_time.nanosecond < 2 ^ 32

-- The header with the type and size of a message.
abbrev pub sent : ℕ → ℕ → RetransmissionMsgHeader → RetransmissionMsgHeader
sent type size h = record h { msg_type = type; msg_size = size }

unfoldable pub head_bytes : RetransmissionMsgHeader → List ℕ
head_bytes h =
    put_short h.msg_size
    ++ (put_short h.msg_type
        ++ (put_long h.msg_seq_num
            ++ (put_long h.msg_time.epoch_s ++ put_long h.msg_time.nanosecond)))

-- A sent header is read back in front of anything.
pub deserialize_header-head_bytes :
    (type size : ℕ) (h : RetransmissionMsgHeader) (rest : List ℕ)
    → type < 2 ^ 16
    → size < 2 ^ 16
    → FitsHeader h
    → deserialize_header (head_bytes (sent type size h) ++ rest) 0 ≡ some (sent type size h, 16)
unfolding deserialize_header deserialize_time head_bytes
deserialize_header-head_bytes type size h rest ht hs fits =
    let long : ltb (length (head_bytes (sent type size h) ++ rest)) 16 ≡ false = ground arith in
    rw
      (
        long,
        short_back type ht,
        short_back size hs,
        long_back h.msg_seq_num fits.seq_fits,
        long_back h.msg_time.epoch_s fits.seconds_fit,
        long_back h.msg_time.nanosecond fits.nanoseconds_fit,
      )
      refl

pub length-head_bytes : (h : RetransmissionMsgHeader) → length (head_bytes h) ≡ 16
unfolding head_bytes
length-head_bytes h = refl

whole : (bytes : List ℕ) (n : ℕ) → length bytes ≡ n → slice 0 n bytes ≡ bytes
whole bytes n size = ap (λ l. slice 0 n l) (sym (append-nil bytes)) ∙ take_front n bytes [] size

-- The bytes of a message without its checksum.
abbrev pub body_bytes : ℕ → ℕ → RetransmissionMsgHeader → List ℕ → List ℕ
body_bytes type size h payload = head_bytes (sent type size h) ++ payload

pub serialize_message_lem :
    (type size : ℕ) (h : RetransmissionMsgHeader) (payload : List ℕ)
    → 2 + size ≡ 16 + length payload
    → serialize_message type size h payload []
      ≡ body_bytes type size h payload
        ++ calculate_retransmission_checksum (body_bytes type size h payload) ∷ []
unfolding serialize_message serialize_header serialize_time head_bytes
serialize_message_lem type size h payload fits =
    ap (λ l. body_bytes type size h payload ++ calculate_retransmission_checksum l ∷ [])
      (whole (body_bytes type size h payload) (2 + size) (
        omega (
          arith,
          length-append (head_bytes (sent type size h)) payload,
          length-head_bytes (sent type size h),
        )))

-- The footer over a body and its own checksum.
pub deserialize_footer_lem :
    (body : List ℕ) (n : ℕ)
    → length body ≡ n
    → 0 < n
    → deserialize_footer (body ++ calculate_retransmission_checksum body ∷ []) n n
      ≡ some (calculate_retransmission_checksum body, n + 1)
unfolding deserialize_footer
deserialize_footer_lem body n size positive =
    let sum = calculate_retransmission_checksum body in
    let long : ltb (length (body ++ sum ∷ [])) (n + 1) ≡ false =
      ground (arith, length-append body (sum ∷ [])) in
    let some_bytes : (n == 0) ≡ false = ground arith in
    let same : (sum == sum) ≡ true = ground arith in
    rw
      (
        long,
        some_bytes,
        take_front n body (sum ∷ []) size,
        get_or_here n body (sum ∷ []) 0 size,
        same,
      )
      refl

-- Any message is parsed back if its payload is.
pub frame_back :
    {P : Type 0} (type size : ℕ) (h : RetransmissionMsgHeader) (payload : List ℕ)
    (reader : List ℕ → ℕ → Option (P × ℕ)) (p : P)
    → type < 2 ^ 16
    → size < 2 ^ 16
    → FitsHeader h
    → 2 + size ≡ 16 + length payload
    → ((rest : List ℕ) → reader (body_bytes type size h payload ++ rest) 16 ≡ some (p, 2 + size))
    → deserialize_message type size reader (serialize_message type size h payload [])
      ≡ some
          (sent type size h, p, calculate_retransmission_checksum (body_bytes type size h payload))
unfolding deserialize_message
frame_back type size h payload reader p ht hs fits sized read =
    let body : List ℕ = body_bytes type size h payload in
    let sum = calculate_retransmission_checksum body in
    let length_body : length body ≡ 2 + size = omega (
      arith,
      length-append (head_bytes (sent type size h)) payload,
      length-head_bytes (sent type size h),
    ) in
    let head : deserialize_header (body ++ sum ∷ []) 0 ≡ some (sent type size h, 16) =
      ap (λ l. deserialize_header l 0)
        (append_assoc (head_bytes (sent type size h)) payload (sum ∷ []))
      ∙ deserialize_header-head_bytes type size h (payload ++ sum ∷ []) ht hs fits in
    let type_ok : (type == type) ≡ true = ground arith in
    let size_ok : (size == size) ≡ true = ground arith in
    let end_ok : (2 + size + 1 == 2 + size + 1) ≡ true = ground arith in
    let long : ltb (length (body ++ sum ∷ [])) (2 + size + 1) ≡ false =
      ground (arith, length-append body (sum ∷ [])) in
    rw
      (
        serialize_message_lem type size h payload sized,
        head,
        type_ok,
        size_ok,
        long,
        read (sum ∷ []),
        deserialize_footer_lem body (2 + size) length_body (omega arith),
        end_ok,
      )
      refl

-- The checksum of a sent message.
abbrev pub sum_of : ℕ → ℕ → RetransmissionMsgHeader → List ℕ → ℕ
sum_of type size h payload = calculate_retransmission_checksum (body_bytes type size h payload)
