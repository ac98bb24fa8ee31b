-- ===== src/LogFilePacketSimulator/Replay.antt =====
-- The loop of examples/pcap_replay_example.cpp over any file.
use taifex_cpp_sdk.Prelude.{
  ℕ, zero, suc, ◌+◌, ◌≤◌, ◌<◌, ◌≡◌, ◌≢◌, refl, sym, ap, ◌∙◌, Bool, true, false, not, ◌||◌, Option,
  none, some, inl, inr, List, [], ◌∷◌, length, is_empty, ltb, if◌then◌else◌, arith, length-drop,
  if_cases, Bool-cases,
}
use mathlib.Core.Path.{subst}
use taifex_cpp_sdk.ErrorCodes.{Result, ok, err, Result-cases}
use taifex_cpp_sdk.Sdk.{Sdk, process_message}
use taifex_cpp_sdk.LogFilePacketSimulator.{
  FileStream, LogFilePacketSimulator, good, peek, read, close_file, is_open, has_next_packet,
  native_long, read_pcap_packet_captured_length, read_captured_data, get_next_taifex_packet,
  Replayed, replay,
}

-- The bytes that are left.
abbrev pub left : LogFilePacketSimulator → ℕ
left sim = length sim.file_stream.unread

read-le : (n : ℕ) (s : FileStream) → length (read n s).1.unread ≤ length s.unread
unfolding read
read-le n s = ground (arith, length-drop n s.unread)

read-lt :
    (n : ℕ) (s : FileStream)
    → 0 < n
    → good s ≡ true
    → 0 < length s.unread
    → length (read n s).1.unread < length s.unread
unfolding read
read-lt n s positive fine some_left = ground (arith, length-drop n s.unread)

-- What is known when there is a next packet.
pub has_next-true :
    (sim : LogFilePacketSimulator)
    → (has_next_packet sim).0 ≡ true
    → ((has_next_packet sim).1 ≡ sim)
      × (is_open sim ≡ true)
      × (good sim.file_stream ≡ true)
      × (0 < left sim)
unfolding has_next_packet peek
has_next-true sim more = elim (Bool-cases (not (is_open sim) || not (good sim.file_stream))) [
  | inl off ↦ absurd (ground arith)
  | inr on ↦ (
    ground arith,
    ground arith,
    ground arith,
    ground (arith, empty_or_not sim.file_stream.unread),
  )
]
  where
    empty_or_not : (l : List ℕ) → is_empty l ≡ false → 0 < length l
    empty_or_not [] e = cc
    empty_or_not (x ∷ l) e = omega arith

has_next-left :
    (sim : LogFilePacketSimulator)
    → (left (has_next_packet sim).1 ≡ left sim)
      × ((has_next_packet sim).1.pcap_packet_header_size ≡ sim.pcap_packet_header_size)
unfolding has_next_packet peek
has_next-left sim = ground arith

read_captured_data-left :
    (n : ℕ) (sim : LogFilePacketSimulator)
    → (left (read_captured_data n sim).1 ≤ left sim)
      × ((read_captured_data n sim).1.pcap_packet_header_size ≡ sim.pcap_packet_header_size)
unfolding read_captured_data close_file
read_captured_data-left n sim = ground (arith, read-le n sim.file_stream)

captured_length-lt :
    (sim : LogFilePacketSimulator)
    → 0 < sim.pcap_packet_header_size
    → good sim.file_stream ≡ true
    → 0 < left sim
    → (left (read_pcap_packet_captured_length sim).1 < left sim)
      × ((read_pcap_packet_captured_length sim).1.pcap_packet_header_size
          ≡ sim.pcap_packet_header_size)
unfolding read_pcap_packet_captured_length
captured_length-lt sim positive fine some_left =
    go (read sim.pcap_packet_header_size sim.file_stream).0
  where
    moved : LogFilePacketSimulator
    moved = record sim { file_stream = (read sim.pcap_packet_header_size sim.file_stream).1 }

    less : left moved < left sim
    less = read-lt sim.pcap_packet_header_size sim.file_stream positive fine some_left

    go :
        (o : Option (List ℕ))
        → let r = elim o as (λ x. Option ℕ × LogFilePacketSimulator) [
          | none ↦ (none, moved)
          | some bytes ↦
              if ltb sim.pcap_packet_header_size 12
              then (none, moved)
              else (some (native_long bytes 8), moved)
        ] in
          (left r.1 < left sim) × (r.1.pcap_packet_header_size ≡ sim.pcap_packet_header_size)
    go none = (less, refl)
    go (some bytes) =
        if_cases
          (λ (r : Option ℕ × LogFilePacketSimulator).
            (left r.1 < left sim) × (r.1.pcap_packet_header_size ≡ sim.pcap_packet_header_size))
          (ltb sim.pcap_packet_header_size 12) (λ small. (less, refl)) (λ large. (less, refl))

-- What get_next_taifex_packet does once it has looked for a packet.
abbrev pub take_packet : Bool × LogFilePacketSimulator → List ℕ × LogFilePacketSimulator
take_packet (more, looked) =
    if not more
    then ([], looked)
    else (let (captured_data_length, moved) = read_pcap_packet_captured_length looked in
        elim captured_data_length [ none ↦ ([], moved) | some n ↦ read_captured_data n moved ])

pub get_next-take_packet :
    (sim : LogFilePacketSimulator)
    → is_open sim ≡ true
    → get_next_taifex_packet sim ≡ take_packet (has_next_packet sim)
unfolding get_next_taifex_packet
get_next-take_packet sim opened = rw opened refl

pub has_next-same :
    (sim : LogFilePacketSimulator)
    → (has_next_packet sim).0 ≡ true
    → has_next_packet sim ≡ (true, sim)
has_next-same sim more =
    let (same, opened, fine, some_left) = has_next-true sim more in λ i. (more i, same i)

-- A call that finds a packet reads at least one byte.
pub get_next-lt :
    (sim : LogFilePacketSimulator)
    → 0 < sim.pcap_packet_header_size
    → (has_next_packet sim).0 ≡ true
    → (left (get_next_taifex_packet sim).1 < left sim)
      × ((get_next_taifex_packet sim).1.pcap_packet_header_size ≡ sim.pcap_packet_header_size)
get_next-lt sim positive more =
    let (same, opened, fine, some_left) = has_next-true sim more in
    subst (λ r. (left r.1 < left sim) × (r.1.pcap_packet_header_size ≡ sim.pcap_packet_header_size))
      (sym (get_next-take_packet sim opened ∙ ap take_packet (has_next-same sim more)))
      (go (read_pcap_packet_captured_length sim).0)
  where
    moved : LogFilePacketSimulator
    moved = (read_pcap_packet_captured_length sim).1

    less : (left moved < left sim) × (moved.pcap_packet_header_size ≡ sim.pcap_packet_header_size)
    less =
        let (same, opened, fine, some_left) = has_next-true sim more in
        captured_length-lt sim positive fine some_left

    go :
        (o : Option ℕ)
        → let r = elim o as (λ x. List ℕ × LogFilePacketSimulator) [
          | none ↦ ([], moved)
          | some n ↦ read_captured_data n moved
        ] in
          (left r.1 < left sim) × (r.1.pcap_packet_header_size ≡ sim.pcap_packet_header_size)
    go none = less
    go (some n) =
        let (fewer, kept) = read_captured_data-left n moved in
        (omega (arith, less.0), kept ∙ less.1)

-- A round of the loop once it has looked for a packet.
abbrev pub replay_round :
    ℕ → ℕ → Sdk → Bool × LogFilePacketSimulator → Option (Result (Unit {0}) × Replayed)
replay_round rounds packet_count sdk (more, looked) =
    if not more
    then some (ok tt, record { packet_count = packet_count; simulator = looked; sdk = sdk })
    else (let (packet, moved) = get_next_taifex_packet looked in
        if not (is_empty packet)
        then (let (result, after) = process_message (some packet) sdk in
            elim result [
              | ok done ↦ replay rounds (packet_count + 1) moved after
              | err e ↦ some (
                err e,
                record { packet_count = packet_count + 1; simulator = moved; sdk = after },
              )
            ])
        else (let (more_left, looked_again) = has_next_packet moved in
            if more_left
            then replay rounds packet_count looked_again sdk
            else some (
              ok tt,
              record { packet_count = packet_count; simulator = looked_again; sdk = sdk },
            )))

pub replay-suc :
    (rounds n : ℕ) (sim : LogFilePacketSimulator) (sdk : Sdk)
    → replay (suc rounds) n sim sdk ≡ replay_round rounds n sdk (has_next_packet sim)
unfolding replay
replay-suc rounds n sim sdk = refl

-- The loop of the example, which feeds the packets of a capture file to the SDK, ends for every file, within
-- one round more than there are bytes left to read, as long as the packet headers have a size.
pub replay_ends :
    (rounds n : ℕ) (sim : LogFilePacketSimulator) (sdk : Sdk)
    → left sim < rounds
    → 0 < sim.pcap_packet_header_size
    → replay rounds n sim sdk ≢ none
replay_ends zero n sim sdk enough positive = absurd (omega (arith, enough))
replay_ends (suc rounds) n sim sdk enough positive =
    rw (replay-suc rounds n sim sdk) (elim (Bool-cases (has_next_packet sim).0) [
      | inr ended ↦ rw ended (λ e. cc)
      | inl more ↦
          let (less, kept) = get_next-lt sim positive more in
          let moved : LogFilePacketSimulator = (get_next_taifex_packet sim).1 in
          let (still, kept_again) = has_next-left moved in
          subst (λ r. replay_round rounds n sdk r ≢ none) (sym (has_next-same sim more))
            (elim (Bool-cases (is_empty (get_next_taifex_packet sim).0)) [
              | inl nothing ↦ elim (Bool-cases (has_next_packet moved).0) [
                | inl more_left ↦
                    rw (nothing, more_left)
                      (replay_ends rounds n (has_next_packet moved).1 sdk (omega arith)
                        (omega arith))
                | inr none_left ↦ rw (nothing, none_left) (λ e. cc)
              ]
              | inr packet ↦
                  elim (Result-cases
                    (process_message (some (get_next_taifex_packet sim).0) sdk).0) [
                      | inl (done, handled) ↦
                          rw (packet, handled)
                            (replay_ends rounds (n + 1) moved
                              (process_message (some (get_next_taifex_packet sim).0) sdk).1
                              (omega arith) (omega arith))
                      | inr (x, thrown) ↦ rw (packet, thrown) (λ e. cc)
                    ]
            ])
    ])
