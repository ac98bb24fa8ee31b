-- ===== src/Sdk/Verdict.antt =====
-- The verdict on a message, told from its bytes alone, and what it does to the state.
use taifex_cpp_sdk.Prelude.{
  ℕ, max, ◌+◌, ◌%◌, ◌^◌, ◌<◌, ◌≡◌, refl, ap, Bool, true, false, not, ◌&&◌, Option, none, some, List,
  length, get_or, slice, arith, ltb, leb, ◌==◌, if◌then◌else◌, Option-cases, Bool-cases, inl, inr,
}
use taifex_cpp_sdk.ErrorCodes.{Result, ok, err, parsing_error}
use taifex_cpp_sdk.PackBcd.Value.{all_bcd, bcd_value}
use taifex_cpp_sdk.Checksum.Detect.{xor_all}
use taifex_cpp_sdk.CommonHeader.{CommonHeader, get_channel_id, get_channel_seq, get_body_length}
use taifex_cpp_sdk.SortedMap.{find, insert}
use taifex_cpp_sdk.SortedMap.Order.{numeric}
use taifex_cpp_sdk.SortedMap.Entries.{find-AllEntries, insert_found}
use taifex_cpp_sdk.Sdk.{
  Sdk, Call, continue, ◌>>=◌, compare_sequence, record_sequence, is_sequence_valid, accept_message,
}
use taifex_cpp_sdk.Sdk.State.{IsValid, IsSequence}

pub data Verdict : Type 0 where
  dropped : Verdict
  malformed : Verdict
  accepted : ℕ → ℕ → Verdict

-- The message format: a 19 byte header with the body length at 17, the channel at 9 and the sequence
-- number at 11, the body, and three bytes of which the first is the checksum of all before it but the
-- first byte of the message.
unfoldable pub sequence_verdict : List ℕ → Verdict
sequence_verdict raw =
    if all_bcd (slice 9 2 raw) && all_bcd (slice 11 5 raw)
    then accepted (bcd_value (slice 9 2 raw)) (bcd_value (slice 11 5 raw))
    else malformed

unfoldable pub verdict : List ℕ → Verdict
verdict raw =
    let body_length = bcd_value (slice 17 2 raw) in
    if ltb (length raw) 22
    then dropped
    else if not (all_bcd (slice 17 2 raw))
    then malformed
    else if not (length raw == body_length + 22)
    then dropped
    else if not (xor_all (slice 1 (18 + body_length) raw) == get_or raw (19 + body_length) 0)
    then dropped
    else sequence_verdict raw

-- The highest number seen on a channel.
abbrev pub newest : ℕ → Option ℕ → ℕ
newest seq none = seq
newest seq (some last) = max last seq

abbrev pub note_sequence : ℕ → ℕ → Sdk → Sdk
note_sequence channel_id seq sdk = record sdk {
  channel_sequences =
      insert numeric channel_id (newest seq (find numeric channel_id sdk.channel_sequences))
        sdk.channel_sequences;
}

-- What a call does that ends with a verdict.
abbrev pub outcome : Verdict → Sdk → Result (Unit {0}) × Sdk
outcome dropped sdk = (ok tt, sdk)
outcome malformed sdk = (err parsing_error, sdk)
outcome (accepted channel_id seq) sdk = (ok tt, note_sequence channel_id seq sdk)

-- A number is in sequence if it is the first of its channel or the one after the highest.
abbrev pub in_sequence : ℕ → Option ℕ → Bool
in_sequence seq none = true
in_sequence seq (some last) = seq == last + 1

compare_sequence_lem :
    (sdk : Sdk) (channel_id current last : ℕ)
    → find numeric channel_id sdk.channel_sequences ≡ some last
    → last < 10 ^ 10
    → compare_sequence channel_id current last sdk ≡ (
      ok (current == last + 1),
      record sdk {
        channel_sequences = insert numeric channel_id (max last current) sdk.channel_sequences;
      },
    )
unfolding compare_sequence
compare_sequence_lem sdk channel_id current last known small =
    let no_wrap : (last + 1) % 2 ^ 64 ≡ last + 1 = omega arith in
    elim (Bool-cases (leb current last)) [
      | inl old ↦
          let top : max last current ≡ last = ground arith in
          let next : (current == last + 1) ≡ false = ground arith in
          rw
            (
              no_wrap,
              next,
              old,
              top,
              insert_found numeric channel_id last sdk.channel_sequences known,
            )
            refl
      | inr new ↦
          let top : max last current ≡ current = ground arith in
          rw (no_wrap, new, top) (ground arith)
    ]

-- The sequence check answers whether the number is in sequence, and always leaves the highest number of
-- the channel behind; the other channels and the rest of the state stay as they are.
pub record_sequence_lem :
    (sdk : Sdk) (channel_id current : ℕ)
    → IsValid sdk
    → record_sequence channel_id current sdk ≡ (
      ok (in_sequence current (find numeric channel_id sdk.channel_sequences)),
      note_sequence channel_id current sdk,
    )
unfolding record_sequence
record_sequence_lem sdk channel_id current h =
    elim (Option-cases (find numeric channel_id sdk.channel_sequences)) [
      | inl unknown ↦ rw (record_sequence, unknown) refl
      | inr (last, known) ↦
          rw (record_sequence, known)
            (compare_sequence_lem sdk channel_id current last known (
              find-AllEntries numeric IsSequence channel_id last sdk.channel_sequences h.sequences
                known))
    ]

bind_ok :
    {A B : Type 0} (m : Call A) (f : A → Call B) (sdk after : Sdk) (a : A)
    → m sdk ≡ (ok a, after)
    → (m >>= f) sdk ≡ f a after
bind_ok m f sdk after a e = ap (continue f) e

pub accept_message_lem :
    (header : CommonHeader) (sdk : Sdk) (body_length channel_id seq : ℕ)
    → get_body_length header ≡ ok body_length
    → get_channel_id header ≡ ok channel_id
    → get_channel_seq header ≡ ok seq
    → IsValid sdk
    → accept_message header sdk ≡ (ok tt, note_sequence channel_id seq sdk)
unfolding accept_message
accept_message_lem header sdk body_length channel_id seq el ec es valid =
    let rest : Call Unit = λ after. (ok tt, after) in
    let checked =
      bind_ok (is_sequence_valid header) (λ answer. rest) sdk (note_sequence channel_id seq sdk)
        (in_sequence seq (find numeric channel_id sdk.channel_sequences))
        (unfold is_sequence_valid in
          rw (is_sequence_valid, ec, es) (record_sequence_lem sdk channel_id seq valid)) in
    rw (accept_message, el, ec, es) checked
