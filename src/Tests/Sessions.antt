-- ===== src/Tests/Sessions.antt =====
-- The SDK on whole messages.
use taifex_cpp_sdk.Prelude.{
  ℕ, max, ◌%◌, ◌^◌, ◌≡◌, refl, Option, some, List, [], ◌∷◌, ◌++◌, replicate, All, IsByte, arith,
  if◌then◌else◌,
}
use taifex_cpp_sdk.SortedMap.{find, same}
use taifex_cpp_sdk.SortedMap.Order.{lexicographic}
use taifex_cpp_sdk.Checksum.Detect.{xor_all}
use taifex_cpp_sdk.PackBcd.Value.{bcd_from}
use taifex_cpp_sdk.Messages.I081.{MessageI081}
use taifex_cpp_sdk.Messages.I083.{MessageI083}
use taifex_cpp_sdk.Messages.I081.RoundTrip as Update
use taifex_cpp_sdk.Messages.I083.RoundTrip as Snapshot
use taifex_cpp_sdk.OrderBook.{OrderBook, apply_update}
use taifex_cpp_sdk.OrderBook.LastWriter.{view, update_view, snapshot_view}
use taifex_cpp_sdk.OrderBook.Replay.{identity}
use taifex_cpp_sdk.Sdk.{
  Sdk, new_sdk, initialize, process_message, update_order_book, handle_i081, position,
}
use taifex_cpp_sdk.Sdk.State.{IsValid}
use taifex_cpp_sdk.Sdk.Verdict.{accepted, sequence_verdict, verdict, outcome}
use taifex_cpp_sdk.Sdk.Process.{process_message_lem}
use taifex_cpp_sdk.Sdk.Handlers.{
  book_for, changed, other_parts, handle_i081_lem, slash_without_book,
}
use taifex_cpp_sdk.Sdk.Reachable.{
  initializes, processes, start, next, Reachable-IsValid, fresh, initialized_after, fed,
  Fed-IsEmpty,
}
use taifex_cpp_sdk.Sdk.EndToEnd.{Session, FitsSession, play, session_book}
use taifex_cpp_sdk.Tests.Messages.{
  txf_long, txf_product, txf_product-FitsProduct, bid, delete_bid, bid-FitsEntry,
  delete_bid-FitsEntry,
}

abbrev session : Session
session = record {
  product = txf_product;
  prod_id = txf_long;
  flag = b'0';
  snapshot_seq = 12;
  levels = bid ∷ [];
  update_seq = 13;
  updates = delete_bid ∷ [];
}

session-FitsSession : FitsSession session
unfolding position
session-FitsSession = record {
  product_fits = txf_product-FitsProduct;
  id_size = refl;
  id_prefix = refl;
  no_slash = refl;
  snapshot_seq_fits = omega arith;
  levels_count = omega arith;
  levels_fit = (bid-FitsEntry, tt);
  update_seq_fits = omega arith;
  updates_count = omega arith;
  updates_fit = (delete_bid-FitsEntry, tt);
}

session_book_example :
    (book : OrderBook) × (find lexicographic txf_long (play session new_sdk).order_books
      ≡ some book)
    × (view book
        ≡ update_view
            (Update.entries_of (delete_bid ∷ []))
            (snapshot_view b'0' (Snapshot.entries_of (bid ∷ []))))
    × (identity book ≡ (txf_long, 2, max (12 % 2 ^ 32) (13 % 2 ^ 32)))
unfolding find
session_book_example = session_book new_sdk session session-FitsSession refl

abbrev pub ready : Sdk
ready = (initialize new_sdk).1

-- A heartbeat: channel 1, sequence number 42, no body.
abbrev heartbeat : List ℕ
heartbeat =
    0x1B
    ∷ b'0'
    ∷ b'1'
    ∷ (replicate 6 0 ++ (0 ∷ 1 ∷ 0 ∷ 0 ∷ 0 ∷ 0 ∷ 0x42 ∷ 1 ∷ 0 ∷ 0 ∷ 0x43 ∷ 0x0D ∷ 0x0A ∷ []))

pub ready-IsValid : IsValid ready
ready-IsValid = Reachable-IsValid (next start initializes)

heartbeat-IsByte : All IsByte heartbeat
heartbeat-IsByte = omega arith

heartbeat_accepted : verdict heartbeat ≡ accepted 1 42
unfolding verdict sequence_verdict xor_all bcd_from
heartbeat_accepted = refl

process_message_lem_example :
    process_message (some heartbeat) ready ≡ outcome (verdict heartbeat) ready
process_message_lem_example =
    process_message_lem heartbeat ready ready-IsValid heartbeat-IsByte refl

abbrev after_heartbeat : Sdk
after_heartbeat = (process_message (some heartbeat) ready).1

Reachable-IsValid_example : IsValid after_heartbeat
Reachable-IsValid_example =
    Reachable-IsValid (next (next start initializes) (processes (some heartbeat)))

Fed-IsEmpty_example : (after_heartbeat.product_info_cache ≡ []) × (after_heartbeat.order_books ≡ [])
Fed-IsEmpty_example = Fed-IsEmpty (fed (initialized_after fresh) (some heartbeat))

abbrev update_body : Option (List ℕ)
update_body = some (Update.body_wire txf_long 13 (delete_bid ∷ []) [])

abbrev snapshot_body : Option (List ℕ)
snapshot_body = some (Snapshot.body_wire txf_long 12 b'0' (bid ∷ []) [])

abbrev update_msg : MessageI081
update_msg = record {
  prod_id = txf_long;
  prod_msg_seq = 13 % 2 ^ 32;
  no_md_entries = 1;
  md_entries = Update.entries_of (delete_bid ∷ []);
}

abbrev snapshot_msg : MessageI083
snapshot_msg = record {
  prod_id = txf_long;
  prod_msg_seq = 12 % 2 ^ 32;
  calculated_flag = b'0';
  no_md_entries = 1;
  md_entries = Snapshot.entries_of (bid ∷ []);
}

handle_i081_lem_example :
    (find lexicographic txf_long (handle_i081 update_body ready).order_books ≡ (
      if same lexicographic txf_long txf_long
      then changed (λ book. apply_update book update_msg) (book_for txf_long ready)
      else find lexicographic txf_long ready.order_books))
    × (other_parts (handle_i081 update_body ready) ≡ other_parts ready)
handle_i081_lem_example = handle_i081_lem update_body ready txf_long update_msg (
    Update.parse_i081_body-wire txf_long 13 (delete_bid ∷ []) [] refl (omega arith) (omega arith)
      (delete_bid-FitsEntry, tt))

-- A spread whose first leg has five characters.
abbrev spread : List ℕ
spread = b'T' ∷ b'X' ∷ b'F' ∷ b'F' ∷ b'3' ∷ b'/' ∷ b'I' ∷ b'3' ∷ replicate 12 b' '

slash_without_book_example :
    update_order_book spread (λ book. apply_update book update_msg) ready ≡ ready
unfolding position find
slash_without_book_example =
    slash_without_book ready spread 5 (λ book. apply_update book update_msg) ready-IsValid refl
      (λ e. omega (arith, e)) refl
