-- ===== src/LogFilePacketSimulator.antt =====
-- utils/log_file_packet_simulator.cpp and .h: packets from a capture file, and the loop of
-- examples/pcap_replay_example.cpp that feeds them to the SDK. The file is its bytes, none if it cannot be
-- opened; the stream is std::ifstream on it.
pub mod Replay
pub mod Records
pub mod Feeding
use taifex_cpp_sdk.Prelude.{
  ℕ, zero, suc, ◌+◌, ◌*◌, ◌^◌, Bool, true, false, not, ◌&&◌, ◌||◌, Option, none, some, List, [],
  ◌∷◌, length, is_empty, get_or, take, drop, ltb, leb, ◌==◌, if◌then◌else◌,
}
use taifex_cpp_sdk.ErrorCodes.{Exception, Result, ok, err}
use taifex_cpp_sdk.Sdk.{Sdk, process_message}

-- The bytes not read yet, and the state bits; a seek beyond the end of a file succeeds.
pub record FileStream : Type 0 where
  pub unread : List ℕ
  pub opened : Bool
  pub eofbit : Bool
  pub failbit : Bool

abbrev pub good : FileStream → Bool
good s = not s.eofbit && not s.failbit

-- Whether there is a next character; looking for it at the end sets eofbit.
unfoldable pub peek : FileStream → Bool × FileStream
peek s =
    if not (good s)
    then (false, record s { failbit = true })
    else if is_empty s.unread
    then (false, record s { eofbit = true })
    else (true, s)

-- `read` of n bytes: the bytes if all of them are there.
unfoldable pub read : ℕ → FileStream → Option (List ℕ) × FileStream
read n s =
    if not (good s)
    then (none, record s { failbit = true })
    else if ltb (length s.unread) n
    then (none, record s { unread = []; eofbit = true; failbit = true })
    else (some (take n s.unread), record s { unread = drop n s.unread })

pub record LogFilePacketSimulator : Type 0 where
  pub file : Option (List ℕ)
  pub file_stream : FileStream
  pub is_file_open : Bool
  pub global_header_to_skip : ℕ
  pub pcap_packet_header_size : ℕ

-- The constructor; the defaults of the sizes are 24 and 16.
abbrev pub log_file_packet_simulator : Option (List ℕ) → ℕ → ℕ → LogFilePacketSimulator
log_file_packet_simulator file global_header_size packet_header_size = record {
  file = file;
  file_stream = record { unread = []; opened = false; eofbit = false; failbit = false };
  is_file_open = false;
  global_header_to_skip = global_header_size;
  pcap_packet_header_size = packet_header_size;
}

unfoldable pub open_file : LogFilePacketSimulator → Bool × LogFilePacketSimulator
open_file sim = if sim.is_file_open then (true, sim) else elim sim.file [
  | none ↦ (false, record sim { file_stream = record sim.file_stream { failbit = true } })
  | some content ↦ (
    true,
    record sim {
      file_stream = record {
        unread = drop sim.global_header_to_skip content;
        opened = true;
        eofbit = false;
        failbit = false;
      };
      is_file_open = true;
    },
  )
]

unfoldable pub close_file : LogFilePacketSimulator → LogFilePacketSimulator
close_file sim =
    if sim.is_file_open
    then record sim {
      file_stream = record sim.file_stream { opened = false };
      is_file_open = false;
    }
    else sim

abbrev pub is_open : LogFilePacketSimulator → Bool
is_open sim = sim.is_file_open && sim.file_stream.opened

unfoldable pub has_next_packet : LogFilePacketSimulator → Bool × LogFilePacketSimulator
has_next_packet sim =
    if not (is_open sim) || not (good sim.file_stream)
    then (false, sim)
    else (let (more, after) = peek sim.file_stream in (more, record sim { file_stream = after }))

-- Four bytes in the byte order of the machine, the lowest first.
abbrev pub native_long : List ℕ → ℕ → ℕ
native_long bytes i =
    get_or bytes i 0
    + get_or bytes (i + 1) 0 * 256
    + get_or bytes (i + 2) 0 * 65536
    + get_or bytes (i + 3) 0 * 16777216

unfoldable pub read_pcap_packet_captured_length :
    LogFilePacketSimulator → Option ℕ × LogFilePacketSimulator
read_pcap_packet_captured_length sim =
    let (header, after) = read sim.pcap_packet_header_size sim.file_stream in
    let moved = record sim { file_stream = after } in
    elim header [
      | none ↦ (none, moved)
      | some bytes ↦
          if ltb sim.pcap_packet_header_size 12
          then (none, moved)
          else (some (native_long bytes 8), moved)
    ]

-- From the first ESC code on.
unfoldable pub from_escape : List ℕ → List ℕ
from_escape [] = []
from_escape (b ∷ bs) = if b == 0x1B then b ∷ bs else from_escape bs

-- The captured data of the given length, and what is returned of it.
unfoldable pub read_captured_data : ℕ → LogFilePacketSimulator → List ℕ × LogFilePacketSimulator
read_captured_data captured_data_length sim =
    if captured_data_length == 0
    then ([], sim)
    else if ltb 70000 captured_data_length
    then ([], close_file sim)
    else (let (captured, after) = read captured_data_length sim.file_stream in
        let moved = record sim { file_stream = after } in
        elim captured [
          | none ↦ ([], moved)
          | some captured_data_buf ↦ (from_escape captured_data_buf, moved)
        ])

-- The empty list where the code returns {}.
unfoldable pub get_next_taifex_packet : LogFilePacketSimulator → List ℕ × LogFilePacketSimulator
get_next_taifex_packet sim =
    if not (is_open sim)
    then ([], sim)
    else (let (more, looked) = has_next_packet sim in
        if not more
        then ([], looked)
        else (let (captured_data_length, moved) = read_pcap_packet_captured_length looked in
            elim captured_data_length [ none ↦ ([], moved) | some n ↦ read_captured_data n moved ]))

-- What the loop of the example leaves: the number of packets, the simulator and the SDK.
pub record Replayed : Type 0 where
  pub packet_count : ℕ
  pub simulator : LogFilePacketSimulator
  pub sdk : Sdk

-- The loop of the example, with the rounds left; none if they run out. An exception of the SDK ends it.
unfoldable pub replay : ℕ → ℕ → LogFilePacketSimulator → Sdk → Option (Result (Unit {0}) × Replayed)
replay zero packet_count sim sdk = none
replay (suc rounds) packet_count sim sdk =
    let rest = λ (n : ℕ) (s : LogFilePacketSimulator) (k : Sdk). replay rounds n s k in
    let (more, looked) = has_next_packet sim in
    if not more
    then some (ok tt, record { packet_count = packet_count; simulator = looked; sdk = sdk })
    else (let (packet, moved) = get_next_taifex_packet looked in
        if not (is_empty packet)
        then (let (result, after) = process_message (some packet) sdk in
            elim result [
              | ok done ↦ rest (packet_count + 1) moved after
              | err e ↦ some (
                err e,
                record { packet_count = packet_count + 1; simulator = moved; sdk = after },
              )
            ])
        else (let (more_left, looked_again) = has_next_packet moved in
            if more_left
            then rest packet_count looked_again sdk
            else some (
              ok tt,
              record { packet_count = packet_count; simulator = looked_again; sdk = sdk },
            )))
