-- ===== src/LogFilePacketSimulator/Feeding.antt =====
-- The loop of examples/pcap_replay_example.cpp over a capture file.
use taifex_cpp_sdk.Prelude.{
  cons-ne-nil, ℕ, zero, suc, ◌+◌, ◌≤◌, ◌<◌, ◌≡◌, refl, sym, ap, ◌∙◌, Bool, not, Option, some, inl,
  inr, List, [], ◌∷◌, ◌++◌, length, is_empty, if◌then◌else◌, arith, All, length-append, drop-append,
  Bool-cases,
}
use mathlib.Core.Path.{subst}
use taifex_cpp_sdk.ErrorCodes.{Result, ok, err}
use taifex_cpp_sdk.Sdk.{Sdk, process_message}
use taifex_cpp_sdk.LogFilePacketSimulator.{
  LogFilePacketSimulator, log_file_packet_simulator, open_file, has_next_packet, from_escape,
  Replayed, replay,
}
use taifex_cpp_sdk.LogFilePacketSimulator.Replay.{replay_round, replay-suc}
use taifex_cpp_sdk.LogFilePacketSimulator.Records.{
  Captured, IsCaptured, records, packets, fed, IsTaken, inside, at_end, look, look_end,
  get_next-record,
}

module _ (file : Option (List ℕ)) (skip size : ℕ) (large : 12 ≤ size) where
  abbrev at : List ℕ → LogFilePacketSimulator
  at = inside file skip size

  -- The rest of a round of the loop, with what get_next_taifex_packet returned.
  abbrev after_packet :
      ℕ → ℕ → Sdk → List ℕ × LogFilePacketSimulator → Option (Result (Unit {0}) × Replayed)
  after_packet rounds packet_count sdk (packet, moved) =
      if not (is_empty packet)
      then (let (result, after) = process_message (some packet) sdk in
          elim result [
            | ok done ↦ replay rounds (packet_count + 1) moved after
            | err e ↦
                some (
                  err e,
                  record { packet_count = packet_count + 1; simulator = moved; sdk = after },
                )
          ])
      else (let (more_left, looked_again) = has_next_packet moved in
          if more_left
          then replay rounds packet_count looked_again sdk
          else some
              (ok tt, record { packet_count = packet_count; simulator = looked_again; sdk = sdk }))

  abbrev finished : ℕ → Sdk → Option (Result (Unit {0}) × Replayed)
  finished n sdk =
      some (ok tt, record { packet_count = n; simulator = at_end file skip size; sdk = sdk })

  abbrev look_again :
      ℕ → ℕ → Sdk → Bool × LogFilePacketSimulator → Option (Result (Unit {0}) × Replayed)
  look_again rounds packet_count sdk (more_left, looked) =
      if more_left
      then replay rounds packet_count looked sdk
      else some (ok tt, record { packet_count = packet_count; simulator = looked; sdk = sdk })

  records-lt :
      (r : Captured) (rs : List Captured) → IsCaptured size r → 0 < length (records (r ∷ rs))
  unfolding records
  records-lt r rs h =
      omega (arith, length-append r.header (r.payload ++ records rs), h.header_fits, large)

  replay-record :
      (rounds n : ℕ) (r : Captured) (rs : List Captured) (sdk : Sdk)
      → IsCaptured size r
      → replay (suc rounds) n (at (records (r ∷ rs))) sdk
        ≡ after_packet rounds n sdk (from_escape r.payload, at (records rs))
  unfolding records
  replay-record rounds n r rs sdk h =
      replay-suc rounds n (at (records (r ∷ rs))) sdk
      ∙ ap (replay_round rounds n sdk)
          (look file skip size large (records (r ∷ rs)) (records-lt r rs h))
      ∙ ap (after_packet rounds n sdk) (get_next-record file skip size large r (records rs) h)

  skip_on :
      (rounds n m : ℕ) (sdk after : Sdk) (rs : List Captured)
      → All (IsCaptured size) rs
      → replay rounds n (at (records rs)) sdk ≡ finished m after
      → (rs ≡ [] → finished n sdk ≡ finished m after)
      → after_packet rounds n sdk ([], at (records rs)) ≡ finished m after
  unfolding records
  skip_on rounds n m sdk after [] captured later at_last =
      ap (look_again rounds n sdk) (look_end file skip size large) ∙ at_last refl
  skip_on rounds n m sdk after (r ∷ rs) captured later at_last =
      ap (look_again rounds n sdk)
        (look file skip size large (records (r ∷ rs)) (records-lt r rs captured.0))
      ∙ later

  last_count :
      (n : ℕ) (sdk : Sdk) (rs : List Captured)
      → rs ≡ []
      → finished n sdk ≡ finished (n + length (packets rs)) (fed (packets rs) sdk)
  unfolding packets fed
  last_count n sdk [] e = ap (λ (m : ℕ). finished m sdk) (omega arith)
  last_count n sdk (r ∷ rs) e = absurd (cons-ne-nil r rs e)

  replay-records :
      (rounds n : ℕ) (rs : List Captured) (sdk : Sdk)
      → All (IsCaptured size) rs
      → All IsTaken (packets rs)
      → length rs < rounds
      → replay rounds n (at (records rs)) sdk
        ≡ finished (n + length (packets rs)) (fed (packets rs) sdk)
  unfolding records packets fed
  replay-records zero n rs sdk captured taken enough = absurd (omega (arith, enough))
  replay-records (suc rounds) n [] sdk captured taken enough =
      replay-suc rounds n (at []) sdk
      ∙ ap (replay_round rounds n sdk) (look_end file skip size large)
      ∙ ap (λ (m : ℕ). finished m sdk) (omega arith)
  replay-records (suc rounds) n (r ∷ rs) sdk captured taken enough =
      elim (Bool-cases (is_empty (from_escape r.payload))) [
        | inr packet ↦
            let more : packets (r ∷ rs) ≡ from_escape r.payload ∷ packets rs = rw packet refl in
            let (first, others) : All IsTaken (from_escape r.payload ∷ packets rs) =
              subst (All IsTaken) more taken in
            let after = (process_message (some (from_escape r.payload)) sdk).1 in
            let later : after_packet rounds n sdk (from_escape r.payload, at (records rs))
                ≡ finished (n + 1 + length (packets rs)) (fed (packets rs) after) =
              rw (packet, first sdk)
                (replay-records rounds (n + 1) rs after captured.1 others (omega arith)) in
            replay-record rounds n r rs sdk captured.0
            ∙ later
            ∙ ap (λ (m : ℕ). finished m (fed (packets rs) after)) (omega arith)
            ∙ ap (λ (l : List (List ℕ)). finished (n + length l) (fed l sdk)) (sym more)
        | inl nothing ↦
            let same : packets (r ∷ rs) ≡ packets rs = rw nothing refl in
            let later : after_packet rounds n sdk (from_escape r.payload, at (records rs))
                ≡ finished (n + length (packets rs)) (fed (packets rs) sdk) =
              rw nothing (
                skip_on rounds n (n + length (packets rs)) sdk (fed (packets rs) sdk) rs captured.1
                  (replay-records rounds n rs sdk captured.1 (subst (All IsTaken) same taken)
                    (omega arith))
                  (last_count n sdk rs)) in
            replay-record rounds n r rs sdk captured.0
            ∙ later
            ∙ ap (λ (l : List (List ℕ)). finished (n + length l) (fed l sdk)) (sym same)
      ]

-- A capture file has a global header, and records whose headers have their size and hold the number of
-- captured bytes, from 1 to 70000. The loop of the example, with one round more than there are records, reads
-- it to the end, feeds the SDK the packet of each payload from its first ESC code on, in order, skips the
-- payloads without one, and counts the packets, if the SDK throws on none of them.
pub replay-open_file :
    (file_header : List ℕ) (rs : List Captured) (size rounds : ℕ) (sdk : Sdk)
    → 12 ≤ size
    → All (IsCaptured size) rs
    → All IsTaken (packets rs)
    → length rs < rounds
    → replay rounds 0
        (open_file (
          log_file_packet_simulator (some (file_header ++ records rs)) (length file_header) size)).1
        sdk
      ≡ some (
        ok tt,
        record {
          packet_count = length (packets rs);
          simulator = at_end (some (file_header ++ records rs)) (length file_header) size;
          sdk = fed (packets rs) sdk;
        },
      )
unfolding open_file
replay-open_file file_header rs size rounds sdk large captured taken enough =
    let file = some (file_header ++ records rs) in
    let skip = length file_header in
    ap (λ (b : List ℕ). replay rounds 0 (inside file skip size b) sdk)
      (drop-append file_header (records rs))
    ∙ replay-records file skip size large rounds 0 rs sdk captured taken enough
    ∙ ap
        (λ (m : ℕ). some (
          ok tt,
          record {
            packet_count = m;
            simulator = at_end file skip size;
            sdk = fed (packets rs) sdk;
          },
        ))
        (omega arith)
