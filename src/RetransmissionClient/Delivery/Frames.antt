-- ===== src/RetransmissionClient/Delivery/Frames.antt =====
-- The frames of the messages of the server.
use taifex_cpp_sdk.Prelude.{
  ℕ, ◌+◌, ◌/◌, ◌%◌, ◌<◌, ◌^◌, ◌≡◌, ◌≢◌, refl, sym, ap, ◌∙◌, true, false, some, List, [], ◌∷◌, ◌++◌,
  append_assoc, length, take, get_or, ltb, leb, ◌==◌, arith, length-append, take_all,
}
use taifex_cpp_sdk.ErrorCodes.{ok}
use taifex_cpp_sdk.CommonHeader.{CommonHeader, default_header, get_body_length}
use taifex_cpp_sdk.CommonHeader.Layout.{wire, IsShaped, parse-wire}
use taifex_cpp_sdk.Retransmission.Protocol.{
  RetransmissionMsgHeader, get_short, deserialize_header, serialize_message,
}
use taifex_cpp_sdk.Retransmission.Protocol.Frame.{
  FitsHeader, sent, sum_of, head_bytes, body_bytes, short_back, length-head_bytes,
  serialize_message_lem, deserialize_header-head_bytes,
}
use taifex_cpp_sdk.RetransmissionClient.Framing.{
  market, protocol, next_frame, market_frame, protocol_frame,
}

whole : (b : List ℕ) (n : ℕ) → length b ≡ n → take n b ≡ b
whole b n e = rw (← e) (take_all b)

module _ (type size : ℕ) (h : RetransmissionMsgHeader) (payload : List ℕ)
    (sized : 2 + size ≡ 16 + length payload) where
  abbrev message_bytes : List ℕ
  message_bytes = body_bytes type size h payload ++ sum_of type size h payload ∷ []

  pub length-message : length (serialize_message type size h payload []) ≡ 2 + size + 1
  length-message =
      ap length (serialize_message_lem type size h payload sized)
      ∙ omega (
        arith,
        length-append (body_bytes type size h payload) (sum_of type size h payload ∷ []),
        length-append (head_bytes (sent type size h)) payload,
        length-head_bytes (sent type size h),
      )

  size_read : size < 2 ^ 16 → get_short message_bytes 0 ≡ size
  unfolding head_bytes
  size_read small = short_back size small

  first_byte : get_or message_bytes 0 0 ≡ size / 256 % 256
  unfolding head_bytes
  first_byte = refl

  header_read :
      type < 2 ^ 16
      → size < 2 ^ 16
      → FitsHeader h
      → deserialize_header message_bytes 0 ≡ some (sent type size h, 16)
  header_read ht hs fits =
      ap (λ (l : List ℕ). deserialize_header l 0)
        (append_assoc (head_bytes (sent type size h)) payload (sum_of type size h payload ∷ []))
      ∙ deserialize_header-head_bytes type size h (payload ++ sum_of type size h payload ∷ []) ht hs
          fits

  read_frame :
      type < 2 ^ 16
      → size < 2 ^ 16
      → FitsHeader h
      → size / 256 % 256 ≢ 0x1B
      → next_frame message_bytes ≡ protocol (2 + size + 1) (sent type size h)
  unfolding next_frame protocol_frame
  read_frame ht hs fits first =
      let long : length message_bytes ≡ 2 + size + 1 =
        ap length (sym (serialize_message_lem type size h payload sized)) ∙ length-message in
      let not_market : (get_or message_bytes 0 0 == 0x1B) ≡ false = ground (arith, first_byte) in
      let two : ltb (length message_bytes) 2 ≡ false = ground arith in
      let enough : leb (2 + size + 1) (length message_bytes) ≡ true = ground arith in
      rw
        (
          not_market,
          two,
          size_read hs,
          enough,
          whole message_bytes (2 + size + 1) long,
          header_read ht hs fits,
        )
        (ap (λ (n : ℕ). protocol (2 + n + 1) (sent type size h)) (size_read hs))

  -- A message of the protocol is one frame, unless its first byte is 0x1B.
  pub next_frame-message :
      type < 2 ^ 16
      → size < 2 ^ 16
      → FitsHeader h
      → size / 256 % 256 ≢ 0x1B
      → next_frame (serialize_message type size h payload [])
        ≡ protocol (2 + size + 1) (sent type size h)
  next_frame-message ht hs fits first =
      ap next_frame (serialize_message_lem type size h payload sized) ∙ read_frame ht hs fits first

length-wire : (h : CommonHeader) → IsShaped h → length (wire h) ≡ 19
unfolding wire
length-wire h shaped = omega (
  arith,
  shaped.time_size,
  shaped.channel_size,
  shaped.seq_size,
  shaped.body_size,
  length-append h.information_time_bcd
      (h.channel_id_bcd ++ (h.channel_seq_bcd ++ h.version_no_bcd ∷ h.body_length_bcd)),
  length-append h.channel_id_bcd (h.channel_seq_bcd ++ h.version_no_bcd ∷ h.body_length_bcd),
  length-append h.channel_seq_bcd (h.version_no_bcd ∷ h.body_length_bcd),
)

-- A market data message is one frame.
module _ (h : CommonHeader) (body : List ℕ) (check_sum : ℕ) (shaped : IsShaped h) where
  abbrev market_bytes : List ℕ
  market_bytes = wire h ++ (body ++ check_sum ∷ 0x0D ∷ 0x0A ∷ [])

  pub length-market : length market_bytes ≡ 19 + length body + 1 + 2
  length-market = omega (
    arith,
    length-wire h shaped,
    length-append (wire h) (body ++ check_sum ∷ 0x0D ∷ 0x0A ∷ []),
    length-append body (check_sum ∷ 0x0D ∷ 0x0A ∷ []),
  )

  escape_first : h.esc_code ≡ 0x1B → (get_or market_bytes 0 0 == 0x1B) ≡ true
  unfolding wire
  escape_first e = ground arith

  pub next_frame-market :
      h.esc_code ≡ 0x1B
      → get_body_length h ≡ ok (length body)
      → next_frame market_bytes ≡ market (19 + length body + 1 + 2)
  unfolding next_frame market_frame
  next_frame-market esc announced =
      let long = length-market in
      let enough_header : ltb (length market_bytes) 19 ≡ false = ground arith in
      let enough : leb (19 + length body + 1 + 2) (length market_bytes) ≡ true = ground arith in
      rw
        (
          escape_first esc,
          enough_header,
          parse-wire h default_header (body ++ check_sum ∷ 0x0D ∷ 0x0A ∷ []) shaped,
          announced,
          enough,
        )
        refl
