-- ===== src/NetworkManager/Packets.antt =====
-- Packets of the feeds on their way to the SDK.
use taifex_cpp_sdk.Prelude.{
  ℕ, ◌≡◌, refl, ◌∙◌, Bool, true, false, not, ◌||◌, Option, none, some, List, [], ◌∷◌, arith,
}
use taifex_cpp_sdk.ErrorCodes.{Result, ok, err}
use taifex_cpp_sdk.CommonHeader.{
  CommonHeader, default_header, parse, get_channel_id, get_channel_seq,
}
use taifex_cpp_sdk.Sdk.{Sdk, process_message}
use taifex_cpp_sdk.NetworkManager.{
  NetworkManager, combined_seq_key, read_key, remember, forward_to_sdk, admit_packet, is_set,
  process_incoming_packet,
}
use taifex_cpp_sdk.NetworkManager.Duplicates.{elem}

-- A packet of a feed, with the time at which it arrives, and the channel and number of its header.
pub record Arrival : Type 0 where
  pub time : ℕ
  pub packet : List ℕ
  pub channel : ℕ
  pub number : ℕ

abbrev pub key_of : Arrival → ℕ
key_of a = combined_seq_key a.channel a.number

-- The packet has such a header, and the SDK does not throw on it.
pub record IsReadable (a : Arrival) : Type 0 where
  pub header : CommonHeader
  pub parsed : parse (some a.packet) default_header ≡ (true, header)
  pub channel_read : get_channel_id header ≡ ok a.channel
  pub number_read : get_channel_seq header ≡ ok a.number
  pub accepted : (sdk : Sdk) → (process_message (some a.packet) sdk).0 ≡ ok tt

-- A running manager in front of an SDK, with both feeds.
pub record IsDual (nm : NetworkManager) (sdk : Sdk) : Type 0 where
  pub runs : nm.running ≡ true
  pub has_sdk : nm.sdk_core_logic ≡ some sdk
  pub dual : nm.config.dual_feed_enabled ≡ true

key-read : (a : Arrival) (readable : IsReadable a) → read_key readable.header ≡ ok (key_of a)
unfolding read_key
key-read a readable = rw (readable.channel_read, readable.number_read) refl

pub readable-admit :
    (a : Arrival) (is_retransmitted : Bool) (nm : NetworkManager)
    → IsReadable a
    → nm.running ≡ true
    → is_set nm.sdk_core_logic ≡ true
    → process_incoming_packet a.time a.packet is_retransmitted nm
      ≡ admit_packet a.time a.packet is_retransmitted (key_of a) nm
unfolding process_incoming_packet
readable-admit a is_retransmitted nm readable running has_sdk =
    let ready : (not nm.running || not (is_set nm.sdk_core_logic)) ≡ false = ground arith in
    rw (ready, process_incoming_packet, readable.parsed, key-read a readable) refl

-- The packets of which no earlier one has the same key.
unfoldable pub firsts : List ℕ → List Arrival → List Arrival
firsts seen [] = []
firsts seen (a ∷ arrivals) = elim (elem (key_of a) seen) [
  | true ↦ firsts seen arrivals
  | false ↦ a ∷ firsts (key_of a ∷ seen) arrivals
]

pub skipped :
    (a : Arrival) (arrivals : List Arrival) (seen : List ℕ)
    → elem (key_of a) seen ≡ true
    → firsts seen (a ∷ arrivals) ≡ firsts seen arrivals
unfolding firsts
skipped a arrivals seen old = rw (old, firsts) refl

pub taken :
    (a : Arrival) (arrivals : List Arrival) (seen : List ℕ)
    → elem (key_of a) seen ≡ false
    → firsts seen (a ∷ arrivals) ≡ a ∷ firsts (key_of a ∷ seen) arrivals
unfolding firsts
taken a arrivals seen new = rw (new, firsts) refl

-- The SDK after these packets and no others.
unfoldable pub fed_with : List Arrival → Sdk → Sdk
fed_with [] sdk = sdk
fed_with (a ∷ arrivals) sdk = fed_with arrivals (process_message (some a.packet) sdk).1

abbrev pub continue_with :
    (NetworkManager → Result (Unit {0}) × NetworkManager)
    → Result (Unit {0}) × NetworkManager
    → Result (Unit {0}) × NetworkManager
continue_with f (ok done, nm) = f nm
continue_with f (err e, nm) = (err e, nm)

-- The packets of both feeds, in the order in which they arrive.
unfoldable pub receive_all : List Arrival → NetworkManager → Result (Unit {0}) × NetworkManager
receive_all [] nm = (ok tt, nm)
receive_all (a ∷ arrivals) nm =
    continue_with (receive_all arrivals) (process_incoming_packet a.time a.packet false nm)

pub forward_to_sdk_lem :
    (packet : List ℕ) (nm : NetworkManager) (sdk : Sdk)
    → nm.sdk_core_logic ≡ some sdk
    → (process_message (some packet) sdk).0 ≡ ok tt
    → forward_to_sdk packet nm
      ≡ (ok tt, record nm { sdk_core_logic = some (process_message (some packet) sdk).1 })
unfolding forward_to_sdk
forward_to_sdk_lem packet nm sdk has_sdk accepted =
    go nm.sdk_core_logic has_sdk
    ∙ (λ i. (accepted i, record nm { sdk_core_logic = some (process_message (some packet) sdk).1 }))
  where
    go :
        (o : Option Sdk)
        → o ≡ some sdk
        → elim o as (λ x. Result (Unit {0}) × NetworkManager) [
          | none ↦ (ok tt, nm)
          | some s ↦
              let (result, after) = process_message (some packet) s in
              (result, record nm { sdk_core_logic = some after })
        ]
          ≡ (
            (process_message (some packet) sdk).0,
            record nm { sdk_core_logic = some (process_message (some packet) sdk).1 },
          )
    go none e = cc
    go (some s) e = let same : s ≡ sdk = cc in rw same refl

-- The manager after a packet that is new.
abbrev after_new : Arrival → NetworkManager → Sdk → NetworkManager
after_new a nm sdk = record nm {
  deduplication_log = remember nm.config a.time (key_of a) nm.deduplication_log;
  sdk_core_logic = some (process_message (some a.packet) sdk).1;
}
