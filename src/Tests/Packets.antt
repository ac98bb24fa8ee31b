-- ===== src/Tests/Packets.antt =====
-- Packets of the market that the SDK takes.
use taifex_cpp_sdk.Prelude.{
  ℕ, ◌+◌, ◌%◌, ◌^◌, ◌≡◌, refl, sym, ap, ◌∙◌, ◌⊎◌, Bool, true, false, some, length, is_empty, ltb,
  List, [], ◌∷◌, ◌++◌, arith, inl, inr, Bool-cases, if_cases, ◌==◌, leb, not, ◌||◌, Option-cases,
}
use mathlib.Core.Path.{subst}
use taifex_cpp_sdk.Checksum.{calculate_xor_checksum}
use taifex_cpp_sdk.ErrorCodes.{Result, ok, err}
use taifex_cpp_sdk.CommonHeader.{
  header_size, CommonHeader, default_header, parse, get_channel_id, get_channel_seq,
  get_body_length,
}
use taifex_cpp_sdk.CommonHeader.Getters.{bcd_result, getters}
use taifex_cpp_sdk.CommonHeader.Layout.{wire, IsShaped}
use taifex_cpp_sdk.PackBcd.Value.{bcd_from}
use taifex_cpp_sdk.SortedMap.{find}
use taifex_cpp_sdk.SortedMap.Order.{numeric}
use taifex_cpp_sdk.Sdk.{
  Sdk, process_message, check_message, check_body, accept_message, is_sequence_valid,
  record_sequence, compare_sequence, continue, return,
}
use taifex_cpp_sdk.NetworkManager.Packets.{Arrival, IsReadable}

-- A heartbeat on channel 1 with the sequence number 42 or 43.
abbrev pub beat : ℕ → ℕ → CommonHeader
beat low check_sum = record {
  esc_code = 0x1B;
  transmission_code = b'0';
  message_kind = b'1';
  information_time_bcd = 0 ∷ 0 ∷ 0 ∷ 0 ∷ 0 ∷ 0 ∷ [];
  channel_id_bcd = 0 ∷ 1 ∷ [];
  channel_seq_bcd = 0 ∷ 0 ∷ 0 ∷ 0 ∷ low ∷ [];
  version_no_bcd = 1;
  body_length_bcd = 0 ∷ 0 ∷ [];
}

abbrev pub packet_42 : List ℕ
packet_42 = wire (beat 0x42 0x43) ++ (0x43 ∷ 0x0D ∷ 0x0A ∷ [])

abbrev pub packet_43 : List ℕ
packet_43 = wire (beat 0x43 0x42) ++ (0x42 ∷ 0x0D ∷ 0x0A ∷ [])

-- The numbers in such a header, and that a valid SDK or any other takes the packet.
module _ (low check_sum number : ℕ)
    (spelled : bcd_result (0 ∷ 0 ∷ 0 ∷ 0 ∷ low ∷ []) ≡ ok number) where
  abbrev h : CommonHeader
  h = beat low check_sum

  pub beat-IsShaped : IsShaped h
  beat-IsShaped = record {
    time_size = refl;
    channel_size = refl;
    seq_size = refl;
    body_size = refl;
  }

  beat_channel : get_channel_id h ≡ ok 1
  unfolding bcd_from
  beat_channel = (getters h beat-IsShaped).0

  beat_number : get_channel_seq h ≡ ok number
  beat_number = (getters h beat-IsShaped).1 ∙ spelled

  pub beat_length : get_body_length h ≡ ok 0
  unfolding bcd_from
  beat_length = (getters h beat-IsShaped).3

  compare_returns :
      (channel_id seq last : ℕ) (sdk : Sdk)
      → ((compare_sequence channel_id seq last sdk).0 ≡ ok true)
        ⊎ ((compare_sequence channel_id seq last sdk).0 ≡ ok false)
  unfolding compare_sequence
  compare_returns channel_id seq last sdk = elim (Bool-cases (seq == (last + 1) % 2 ^ 64)) [
    | inl follows ↦ inl (rw follows refl)
    | inr other ↦ elim (Bool-cases (leb seq last)) [
      | inl old ↦ inr (rw (other, old) refl)
      | inr gap ↦ inr (rw (other, gap) refl)
    ]
  ]

  record_returns :
      (channel_id seq : ℕ) (sdk : Sdk)
      → ((record_sequence channel_id seq sdk).0 ≡ ok true)
        ⊎ ((record_sequence channel_id seq sdk).0 ≡ ok false)
  unfolding record_sequence
  record_returns channel_id seq sdk =
      elim (Option-cases (find numeric channel_id sdk.channel_sequences)) [
        | inl first ↦ inl (rw (first, record_sequence) refl)
        | inr (last, known) ↦ rw (known, record_sequence) (compare_returns channel_id seq last sdk)
      ]

  accept_beat : (sdk : Sdk) → (accept_message h sdk).0 ≡ ok tt
  unfolding accept_message is_sequence_valid
  accept_beat sdk =
      rw (beat_length, beat_channel, beat_number)
        (go (record_sequence 1 number sdk) (record_returns 1 number sdk))
    where
      go :
          (r : Result Bool × Sdk)
          → (r.0 ≡ ok true) ⊎ (r.0 ≡ ok false)
          → (continue (λ valid. return tt) r).0 ≡ ok tt
      go (ok valid, after) p = refl
      go (err e, after) (inl p) = absurd (ground arith)
      go (err e, after) (inr p) = absurd (ground arith)

  takes_beat :
      (packet : List ℕ)
      → parse (some packet) default_header ≡ (true, h)
      → ((sdk : Sdk) → check_body packet h 0 sdk ≡ accept_message h sdk)
      → (sdk : Sdk) → (process_message (some packet) sdk).0 ≡ ok tt
  unfolding process_message check_message
  takes_beat packet parsed right sdk =
      if_cases (λ (r : Result Unit × Sdk). r.0 ≡ ok tt)
        (not sdk.initialized
          || is_empty packet
          || ltb (length packet) (header_size + 1 + 2)
          || not (parse (some packet) default_header).0)
        (λ off. refl)
        (λ on.
          subst (λ t. (check_message packet t.1 sdk).0 ≡ ok tt) (sym parsed)
            (ap (λ (r : Result ℕ). (continue (check_body packet h) (r, sdk)).0) beat_length
              ∙ ap (λ t. t.0) (right sdk)
              ∙ accept_beat sdk))

  beat-IsReadable :
      (time : ℕ) (packet : List ℕ)
      → parse (some packet) default_header ≡ (true, h)
      → ((sdk : Sdk) → check_body packet h 0 sdk ≡ accept_message h sdk)
      → IsReadable (record { time = time; packet = packet; channel = 1; number = number })
  beat-IsReadable time packet parsed right = record {
    header = h;
    parsed = parsed;
    channel_read = beat_channel;
    number_read = beat_number;
    accepted = takes_beat packet parsed right;
  }

abbrev pub arrival_42 : ℕ → Arrival
arrival_42 time = record { time = time; packet = packet_42; channel = 1; number = 42 }

abbrev pub arrival_43 : ℕ → Arrival
arrival_43 time = record { time = time; packet = packet_43; channel = 1; number = 43 }

pub arrival_42-IsReadable : (time : ℕ) → IsReadable (arrival_42 time)
unfolding parse wire check_body bcd_from calculate_xor_checksum
arrival_42-IsReadable time = beat-IsReadable 0x42 0x43 42 refl time packet_42 refl (λ sdk. refl)

pub arrival_43-IsReadable : (time : ℕ) → IsReadable (arrival_43 time)
unfolding parse wire check_body bcd_from calculate_xor_checksum
arrival_43-IsReadable time = beat-IsReadable 0x43 0x42 43 refl time packet_43 refl (λ sdk. refl)
