-- ===== src/Sdk/Process.antt =====
-- process_message carries the verdict out on every message.
use taifex_cpp_sdk.Prelude.{
  ℕ, ◌+◌, ◌≤◌, ◌≡◌, refl, ap, ◌∙◌, true, false, not, ◌||◌, some, List, length, is_empty, get_or,
  slice, All, IsByte, arith, ltb, le→ltb, ◌==◌, Bool-cases, inl, inr, All-take, All-drop, drop,
}
use taifex_cpp_sdk.ErrorCodes.{Result, ok}
use taifex_cpp_sdk.PackBcd.Value.{all_bcd, bcd_value}
use taifex_cpp_sdk.Messages.Wire.{nonempty-is_empty}
use taifex_cpp_sdk.Checksum.{calculate_xor_checksum}
use taifex_cpp_sdk.Checksum.Detect.{xor_all, calculate_xor_checksum-eq-xor_all}
use taifex_cpp_sdk.CommonHeader.{
  CommonHeader, default_header, parse, get_channel_id, get_channel_seq, get_body_length,
}
use taifex_cpp_sdk.CommonHeader.Layout.{IsShaped, wire-parse}
use taifex_cpp_sdk.CommonHeader.Getters.{getters, bcd_result}
use taifex_cpp_sdk.Sdk.{Sdk, continue, accept_message, check_body, check_message, process_message}
use taifex_cpp_sdk.Sdk.State.{IsValid}
use taifex_cpp_sdk.Sdk.Verdict.{sequence_verdict, verdict, outcome, accept_message_lem}

-- The header that the parser finds in a long enough message.
abbrev header_of : List ℕ → CommonHeader
header_of raw = (parse (some raw) default_header).1

header_of_fields :
    (raw : List ℕ)
    → 19 ≤ length raw
    → ((parse (some raw) default_header).0 ≡ true)
      × IsShaped (header_of raw)
      × ((header_of raw).channel_id_bcd ≡ slice 9 2 raw)
      × ((header_of raw).channel_seq_bcd ≡ slice 11 5 raw)
      × ((header_of raw).body_length_bcd ≡ slice 17 2 raw)
unfolding parse
header_of_fields raw h =
    let (fine, _, shaped) = wire-parse raw default_header h in
    (
      fine,
      shaped,
      rw (header_of, le→ltb (length raw) 19 h) refl,
      rw (header_of, le→ltb (length raw) 19 h) refl,
      rw (header_of, le→ltb (length raw) 19 h) refl,
    )

-- The getters on that header, told from the bytes.
module _ (raw : List ℕ) (h : 19 ≤ length raw) where
  channel_id_read : get_channel_id (header_of raw) ≡ bcd_result (slice 9 2 raw)
  channel_id_read =
      let (_, shaped, field, _, _) = header_of_fields raw h in
      (getters (header_of raw) shaped).0 ∙ ap bcd_result field

  channel_seq_read : get_channel_seq (header_of raw) ≡ bcd_result (slice 11 5 raw)
  channel_seq_read =
      let (_, shaped, _, field, _) = header_of_fields raw h in
      (getters (header_of raw) shaped).1 ∙ ap bcd_result field

  body_length_read : get_body_length (header_of raw) ≡ bcd_result (slice 17 2 raw)
  body_length_read =
      let (_, shaped, _, _, field) = header_of_fields raw h in
      (getters (header_of raw) shaped).3 ∙ ap bcd_result field

  -- After the checks: both numbers are read, or a field is malformed.
  accept_message-outcome :
      (sdk : Sdk)
      → IsValid sdk
      → all_bcd (slice 17 2 raw) ≡ true
      → accept_message (header_of raw) sdk ≡ outcome (sequence_verdict raw) sdk
  unfolding accept_message sequence_verdict
  accept_message-outcome sdk valid length_valid = elim (Bool-cases (all_bcd (slice 9 2 raw))) [
    | inr bad ↦ rw (accept_message, body_length_read, channel_id_read, length_valid, bad) refl
    | inl good ↦ elim (Bool-cases (all_bcd (slice 11 5 raw))) [
      | inr bad ↦
          rw
            (
              accept_message, body_length_read, channel_id_read, channel_seq_read, length_valid,
              good, bad,
            )
            refl
      | inl both ↦
          rw (good, both)
            (accept_message_lem (header_of raw) sdk (bcd_value (slice 17 2 raw))
              (bcd_value (slice 9 2 raw)) (bcd_value (slice 11 5 raw))
              (rw length_valid at body_length_read) (rw good at channel_id_read)
              (rw both at channel_seq_read) valid)
    ]
  ]

  check_body-outcome :
      (sdk : Sdk)
      → IsValid sdk
      → All IsByte raw
      → ltb (length raw) 22 ≡ false
      → all_bcd (slice 17 2 raw) ≡ true
      → check_body raw (header_of raw) (bcd_value (slice 17 2 raw)) sdk ≡ outcome (verdict raw) sdk
  unfolding check_body verdict
  check_body-outcome sdk valid bytes long good =
      let n = bcd_value (slice 17 2 raw) in
      let sum : calculate_xor_checksum (slice 1 (18 + n) raw) ≡ xor_all (slice 1 (18 + n) raw) =
        (calculate_xor_checksum-eq-xor_all (slice 1 (18 + n) raw)
          (All-take IsByte (18 + n) (drop 1 raw) (All-drop IsByte 1 raw bytes))).0 in
      let total : 19 + n + 1 + 2 ≡ n + 22 = omega arith in
      rw (check_body, verdict, long, good, sum, total)
        (elim (Bool-cases (length raw == n + 22)) [
          | inr other ↦ rw other refl
          | inl fits ↦
              rw fits (elim (Bool-cases (xor_all (slice 1 (18 + n) raw) == get_or raw (19 + n) 0)) [
                | inr wrong ↦ rw wrong refl
                | inl right ↦ rw right (accept_message-outcome sdk valid good)
              ])
        ])

  check_message-outcome :
      (sdk : Sdk)
      → IsValid sdk
      → All IsByte raw
      → ltb (length raw) 22 ≡ false
      → check_message raw (header_of raw) sdk ≡ outcome (verdict raw) sdk
  unfolding check_message verdict
  check_message-outcome sdk valid bytes long = elim (Bool-cases (all_bcd (slice 17 2 raw))) [
    | inr bad ↦ rw (check_message, verdict, body_length_read, long, bad) refl
    | inl good ↦
        let read : get_body_length (header_of raw) ≡ ok (bcd_value (slice 17 2 raw)) =
          rw good at body_length_read in
        ap (λ (r : Result ℕ). continue (check_body raw (header_of raw)) (r, sdk)) read
        ∙ check_body-outcome sdk valid bytes long good
  ]

module _ (raw : List ℕ) (sdk : Sdk) (valid : IsValid sdk) (bytes : All IsByte raw) where
  -- On the bytes of a message, process_message of an initialized SDK does what the verdict says: it drops
  -- the message and returns, or throws a ParsingError, both with the state unchanged, or it accepts the
  -- message and only notes its sequence number: the channel keeps the highest number it has seen, and the
  -- products and books stay as they are.
  pub process_message_lem :
      sdk.initialized ≡ true → process_message (some raw) sdk ≡ outcome (verdict raw) sdk
  unfolding process_message verdict
  process_message_lem ready = elim (Bool-cases (ltb (length raw) 22)) [
    | inl short ↦
        let guard : (not sdk.initialized
              || is_empty raw
              || ltb (length raw) 22
              || not (parse (some raw) default_header).0)
            ≡ true =
          ground arith in
        rw (process_message, guard, verdict, short) refl
    | inr long ↦
        let h : 19 ≤ length raw = ground arith in
        let guard : (not sdk.initialized
              || is_empty raw
              || ltb (length raw) 22
              || not (parse (some raw) default_header).0)
            ≡ false =
          ground (arith, (header_of_fields raw h).0, nonempty-is_empty raw (omega arith)) in
        rw (process_message, guard) (check_message-outcome raw h sdk valid bytes long)
  ]
