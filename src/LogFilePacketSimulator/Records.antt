-- ===== src/LogFilePacketSimulator/Records.antt =====
-- Capture files written record by record, and get_next_taifex_packet on a record.
use taifex_cpp_sdk.Prelude.{
  ℕ, ◌≤◌, ◌<◌, ◌≡◌, refl, ap, ◌∙◌, true, false, Option, none, some, List, [], ◌∷◌, ◌++◌, length,
  is_empty, drop, ltb, ◌==◌, if◌then◌else◌, arith, length-append, drop-append, take_front, le→ltb,
}
use taifex_cpp_sdk.ErrorCodes.{ok}
use taifex_cpp_sdk.Sdk.{Sdk, process_message}
use taifex_cpp_sdk.LogFilePacketSimulator.{
  FileStream, LogFilePacketSimulator, peek, read, has_next_packet, native_long,
  read_pcap_packet_captured_length, from_escape, read_captured_data, get_next_taifex_packet,
}
use taifex_cpp_sdk.LogFilePacketSimulator.Replay.{take_packet}

-- A packet of the network with the header that the capture puts in front of it.
pub record Captured : Type 0 where
  pub header : List ℕ
  pub payload : List ℕ

-- The header has its size and holds the number of captured bytes, at least one and at most 70000.
pub record IsCaptured (size : ℕ) (r : Captured) : Type 0 where
  pub header_fits : length r.header ≡ size
  pub length_held : native_long r.header 8 ≡ length r.payload
  pub some_bytes : 0 < length r.payload
  pub sane : length r.payload ≤ 70000

unfoldable pub records : List Captured → List ℕ
records [] = []
records (r ∷ rs) = r.header ++ (r.payload ++ records rs)

-- The packets of the exchange in the payloads, from the first ESC code on.
unfoldable pub packets : List Captured → List (List ℕ)
packets [] = []
packets (r ∷ rs) =
    let rest = packets rs in
    if is_empty (from_escape r.payload) then rest else from_escape r.payload ∷ rest

-- The SDK after some packets.
unfoldable pub fed : List (List ℕ) → Sdk → Sdk
fed [] sdk = sdk
fed (p ∷ ps) sdk = fed ps (process_message (some p) sdk).1

-- The SDK does not throw on it.
abbrev pub IsTaken : List ℕ → Type 0
IsTaken p = (sdk : Sdk) → (process_message (some p) sdk).0 ≡ ok tt

-- The simulator inside an open file, with the bytes to come.
abbrev pub inside : Option (List ℕ) → ℕ → ℕ → List ℕ → LogFilePacketSimulator
inside file skip size to_come = record {
  file = file;
  file_stream = record { unread = to_come; opened = true; eofbit = false; failbit = false };
  is_file_open = true;
  global_header_to_skip = skip;
  pcap_packet_header_size = size;
}

-- The simulator at the end of the file, which was looked at.
abbrev pub at_end : Option (List ℕ) → ℕ → ℕ → LogFilePacketSimulator
at_end file skip size = record (inside file skip size []) {
  file_stream = record { unread = []; opened = true; eofbit = true; failbit = false };
}

module _ (file : Option (List ℕ)) (skip size : ℕ) (large : 12 ≤ size) where
  abbrev at : List ℕ → LogFilePacketSimulator
  at = inside file skip size

  pub look : (b : List ℕ) → 0 < length b → has_next_packet (at b) ≡ (true, at b)
  unfolding has_next_packet peek
  look [] h = absurd (omega (arith, h))
  look (x ∷ b) h = refl

  pub look_end : has_next_packet (at []) ≡ (false, at_end file skip size)
  unfolding has_next_packet peek
  look_end = refl

  read_front :
      (n : ℕ) (a b : List ℕ)
      → length a ≡ n
      → read n (at (a ++ b)).file_stream ≡ (some a, (at b).file_stream)
  unfolding read
  read_front n a b e =
      let enough : ltb (length (a ++ b)) n ≡ false =
        le→ltb (length (a ++ b)) n (omega (arith, length-append a b)) in
      let rest : drop n (a ++ b) ≡ b = rw (← e) (drop-append a b) in
      rw (enough, take_front n a b e, rest) refl

  -- The rest of a reading of the header, and of the payload.
  abbrev length_read : ℕ → Option (List ℕ) × FileStream → Option ℕ × LogFilePacketSimulator
  length_read n (header, after) =
      let moved = record (at []) { file_stream = after } in
      elim header [
        | none ↦ (none, moved)
        | some bytes ↦ if ltb n 12 then (none, moved) else (some (native_long bytes 8), moved)
      ]

  abbrev data_read : Option (List ℕ) × FileStream → List ℕ × LogFilePacketSimulator
  data_read (captured, after) =
      let moved = record (at []) { file_stream = after } in
      elim captured [
        | none ↦ ([], moved)
        | some captured_data_buf ↦ (from_escape captured_data_buf, moved)
      ]

  abbrev packet_read : Option ℕ × LogFilePacketSimulator → List ℕ × LogFilePacketSimulator
  packet_read (captured_data_length, moved) = elim captured_data_length [
    | none ↦ ([], moved)
    | some n ↦ read_captured_data n moved
  ]

  captured_length-front :
      (h b : List ℕ)
      → length h ≡ size
      → read_pcap_packet_captured_length (at (h ++ b)) ≡ (some (native_long h 8), at b)
  unfolding read_pcap_packet_captured_length
  captured_length-front h b e =
      ap (length_read size) (read_front size h b e) ∙ rw (le→ltb size 12 large) refl

  captured_data-front :
      (d b : List ℕ)
      → 0 < length d
      → length d ≤ 70000
      → read_captured_data (length d) (at (d ++ b)) ≡ (from_escape d, at b)
  unfolding read_captured_data
  captured_data-front d b some_bytes sane =
      let not_zero : (length d == 0) ≡ false = ground (arith, some_bytes) in
      rw (read_captured_data, not_zero, le→ltb 70000 (length d) sane)
        (ap data_read (read_front (length d) d b refl))

  pub get_next-record :
      (r : Captured) (b : List ℕ)
      → IsCaptured size r
      → get_next_taifex_packet (at (r.header ++ (r.payload ++ b))) ≡ (from_escape r.payload, at b)
  unfolding get_next_taifex_packet
  get_next-record r b h =
      ap take_packet (
        look (r.header ++ (r.payload ++ b))
          (omega (arith, length-append r.header (r.payload ++ b), h.header_fits, large)))
      ∙ ap packet_read (captured_length-front r.header (r.payload ++ b) h.header_fits)
      ∙ ap (λ (n : ℕ). read_captured_data n (at (r.payload ++ b))) h.length_held
      ∙ captured_data-front r.payload b h.some_bytes h.sane
