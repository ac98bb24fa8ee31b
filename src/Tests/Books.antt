-- ===== src/Tests/Books.antt =====
-- The order book.
use taifex_cpp_sdk.Prelude.{ℕ, min, max, ◌≡◌, refl, some, [], ◌∷◌, length, All}
use taifex_cpp_sdk.Prelude.Int.{pos, negsuc}
use taifex_cpp_sdk.SortedMap.{find, insert}
use taifex_cpp_sdk.SortedMap.Order.{ascending, descending}
use taifex_cpp_sdk.Messages.I081.{MdEntryI081, MessageI081}
use taifex_cpp_sdk.Messages.I083.{MdEntryI083, MessageI083}
use taifex_cpp_sdk.OrderBook.{
  OrderBook, PriceQuantityLevel, order_book, reset, get_top_bids, get_top_asks, apply_update,
  apply_snapshot, apply_snapshot_entry, apply_sign_to_price, derived_quote, top_levels,
}
use taifex_cpp_sdk.OrderBook.Valid.{IsValid, book-IsValid, apply_snapshot-IsValid}
use taifex_cpp_sdk.OrderBook.LastWriter.{view, update_view, snapshot_view}
use taifex_cpp_sdk.OrderBook.Refinement.{view-apply_update, view-apply_snapshot}
use taifex_cpp_sdk.OrderBook.Replay.{
  identity, as_update, apply_update_twice, apply_update_seq, apply_snapshot-as_update,
}
use taifex_cpp_sdk.OrderBook.Top.{InOrder, IsRanked, top_levels_best}

abbrev pub level : ℕ → ℕ → ℕ → ℕ → MdEntryI083
level side sign_char px size = record {
  md_entry_type = side;
  sign = sign_char;
  md_entry_px = pos px;
  md_entry_size = pos size;
  md_price_level = 1;
}

abbrev change : ℕ → ℕ → ℕ → ℕ → MdEntryI081
change action side px size = record {
  md_update_action = action;
  md_entry_type = side;
  sign = b'0';
  md_entry_px = pos px;
  md_entry_size = pos size;
  md_price_level = 1;
}

-- Two bids, two asks, of which one has a negative price, and a derived bid.
abbrev snapshot : MessageI083
snapshot = record {
  prod_id = b'T' ∷ b'X' ∷ [];
  prod_msg_seq = 7;
  calculated_flag = b'0';
  no_md_entries = 5;
  md_entries =
      level b'0' b'0' 100 5
      ∷ level b'0' b'0' 101 2
      ∷ level b'1' b'0' 103 4
      ∷ level b'1' b'-' 3 1
      ∷ level b'E' b'0' 99 6
      ∷ [];
}

-- Delete a bid, change an ask, and clear the derived bid.
abbrev update : MessageI081
update = record {
  prod_id = b'T' ∷ b'X' ∷ [];
  prod_msg_seq = 6;
  no_md_entries = 3;
  md_entries = change b'2' b'0' 101 0 ∷ change b'1' b'1' 103 9 ∷ change b'5' b'E' 0 0 ∷ [];
}

abbrev empty_book : OrderBook
empty_book = order_book (b'T' ∷ b'X' ∷ []) 2

abbrev shown : OrderBook
shown = apply_snapshot empty_book snapshot

shown_levels :
    (get_top_bids shown 1 ≡ record { price = pos 101; quantity = 2 } ∷ [])
    × (get_top_asks shown 9
        ≡ record { price = negsuc 2; quantity = 1 } ∷ record { price = pos 103; quantity = 4 } ∷ [])
    × (shown.derived_bid ≡ some (record { price = pos 99; quantity = 6 }))
unfolding apply_snapshot apply_snapshot_entry apply_sign_to_price derived_quote top_levels insert
shown_levels = (refl, refl, refl)

shown-IsValid : IsValid shown
shown-IsValid = apply_snapshot-IsValid empty_book snapshot

view-apply_update_example :
    view (apply_update shown update) ≡ update_view update.md_entries (view shown)
view-apply_update_example = view-apply_update shown update shown-IsValid

view-apply_snapshot_example :
    view (apply_snapshot shown snapshot) ≡ snapshot_view b'0' snapshot.md_entries
view-apply_snapshot_example = view-apply_snapshot shown snapshot

book-IsValid_example : IsValid (apply_update shown update) × IsValid (apply_snapshot shown snapshot)
book-IsValid_example = book-IsValid shown shown update snapshot shown-IsValid

apply_update_twice_example :
    apply_update (apply_update shown update) update ≡ apply_update shown update
apply_update_twice_example = apply_update_twice shown update shown-IsValid

apply_update_seq_example :
    (identity (apply_update shown update)
      ≡ (shown.product_id, shown.decimal_locator, max shown.last_prod_msg_seq 6))
    × (view (apply_update shown update)
        ≡ view (apply_update shown (record update { prod_msg_seq = 9 })))
apply_update_seq_example = apply_update_seq shown update 9 shown-IsValid

apply_snapshot-as_update_example :
    apply_snapshot shown snapshot ≡ apply_update (reset shown) (as_update snapshot)
apply_snapshot-as_update_example = apply_snapshot-as_update shown snapshot

abbrev second_bid : PriceQuantityLevel
second_bid = record { price = pos 100; quantity = 5 }

abbrev second_ask : PriceQuantityLevel
second_ask = record { price = pos 103; quantity = 4 }

top_levels_best_example :
    (length (get_top_bids shown 1) ≡ min 1 (length shown.bids))
    × InOrder descending (get_top_bids shown 1)
    × All (λ t. find descending t.price shown.bids ≡ some t.quantity) (get_top_bids shown 1)
    × All (IsRanked descending (get_top_bids shown 1)) shown.bids
    × (length (get_top_asks shown 1) ≡ min 1 (length shown.asks))
    × InOrder ascending (get_top_asks shown 1)
    × All (λ t. find ascending t.price shown.asks ≡ some t.quantity) (get_top_asks shown 1)
    × All (IsRanked ascending (get_top_asks shown 1)) shown.asks
top_levels_best_example = top_levels_best shown 1 shown-IsValid
