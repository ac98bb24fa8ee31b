-- ===== src/NetworkManager/Interleaving.antt =====
-- Two feeds that carry the same packets, in any interleaving.
use taifex_cpp_sdk.Prelude.{ℕ, ◌≡◌, true, false, ◌⊎◌, some, List, [], ◌∷◌, ◌==◌, All}
use taifex_cpp_sdk.SortedMap.{SortedMap}
use taifex_cpp_sdk.Sdk.{Sdk, process_message}
use taifex_cpp_sdk.NetworkManager.{NetworkManager, combined_seq_key}
use taifex_cpp_sdk.NetworkManager.Duplicates.{elem}
use taifex_cpp_sdk.NetworkManager.Packets.{Arrival}

-- A packet of a feed, without the time of its arrival.
pub record Datagram : Type 0 where
  pub packet : List ℕ
  pub channel : ℕ
  pub number : ℕ

abbrev pub datagram : Arrival → Datagram
datagram a = record { packet = a.packet; channel = a.channel; number = a.number }

abbrev pub datagram_key : Datagram → ℕ
datagram_key d = combined_seq_key d.channel d.number

-- The arrivals are the packets of both lists, each list in its order.
abbrev pub Interleaves : List Datagram → List Datagram → List Arrival → Type 0
Interleaves xs ys [] = (xs ≡ []) × (ys ≡ [])
Interleaves xs ys (a ∷ arrivals) =
    ((xs' : List Datagram) × (xs ≡ datagram a ∷ xs') × Interleaves xs' ys arrivals)
    ⊎ ((ys' : List Datagram) × (ys ≡ datagram a ∷ ys') × Interleaves xs ys' arrivals)

abbrev Old : List ℕ → Datagram → Type 0
Old seen d = elem (datagram_key d) seen ≡ true

abbrev New : List ℕ → Datagram → Type 0
New seen d = elem (datagram_key d) seen ≡ false

-- No two packets of the feed have the same key.
abbrev pub Distinct : List Datagram → Type 0
Distinct [] = Unit
Distinct (d ∷ ds) = All (λ e. (datagram_key e == datagram_key d) ≡ false) ds × Distinct ds

-- The SDK after the packets of a feed.
unfoldable pub fed_packets : List Datagram → Sdk → Sdk
fed_packets [] sdk = sdk
fed_packets (d ∷ ds) sdk = fed_packets ds (process_message (some d.packet) sdk).1
