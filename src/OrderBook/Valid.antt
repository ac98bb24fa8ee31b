-- ===== src/OrderBook/Valid.antt =====
-- The invariant of the book and that every operation keeps it.
use taifex_cpp_sdk.Prelude.{
  ℕ, zero, suc, ◌^◌, ◌<◌, ◌≢◌, ◌⊎◌, Option, none, some, List, [], ◌∷◌, foldl, arith, lt→ltb, inl,
  inr,
}
use taifex_cpp_sdk.Prelude.Int.{ℤ, pos, negsuc, to_u64, to_u64-lt}
use taifex_cpp_sdk.SortedMap.{Sorted, AllValues}
use taifex_cpp_sdk.SortedMap.Order.{ascending, descending}
use taifex_cpp_sdk.SortedMap.Sorted.{insert-Sorted, insert-AllValues}
use taifex_cpp_sdk.Messages.I081.{MdEntryI081, MessageI081}
use taifex_cpp_sdk.Messages.I083.{MdEntryI083, MessageI083}
use taifex_cpp_sdk.OrderBook.{
  OrderBook, PriceQuantityLevel, order_book, reset, apply_sign_to_price, derived_quote, apply_entry,
  apply_update, apply_snapshot, apply_snapshot_entry, note_seq,
}
use taifex_cpp_sdk.OrderBook.Entries.{IsQuantity, update_level-Sorted, update_level-AllValues}

-- A derived quote that is shown is not zero in both fields.
abbrev pub IsQuote : Option PriceQuantityLevel → Type 0
IsQuote none = Unit
IsQuote (some l) = ((0 < l.quantity) ⊎ (l.price ≢ pos 0)) × (l.quantity < 2 ^ 64)

pub record IsValid (book : OrderBook) : Type 0 where
  pub bids_sorted : Sorted descending book.bids
  pub asks_sorted : Sorted ascending book.asks
  pub bids_positive : AllValues IsQuantity book.bids
  pub asks_positive : AllValues IsQuantity book.asks
  pub bid_shown : IsQuote book.derived_bid
  pub ask_shown : IsQuote book.derived_ask

pub order_book-IsValid :
    (prod_id : List ℕ) (decimal_loc : ℕ) → IsValid (order_book prod_id decimal_loc)
order_book-IsValid prod_id decimal_loc = record {
  bids_sorted = tt;
  asks_sorted = tt;
  bids_positive = tt;
  asks_positive = tt;
  bid_shown = tt;
  ask_shown = tt;
}

reset_seq-IsValid :
    (seq : ℕ) (book : OrderBook) → IsValid (record (reset book) { last_prod_msg_seq = seq })
reset_seq-IsValid seq book = record {
  bids_sorted = tt;
  asks_sorted = tt;
  bids_positive = tt;
  asks_positive = tt;
  bid_shown = tt;
  ask_shown = tt;
}

pub reset-IsValid : (book : OrderBook) → IsValid (reset book)
reset-IsValid book = reset_seq-IsValid 0 book

pub derived_quote-IsQuote : (p : ℤ) (q : ℕ) → q < 2 ^ 64 → IsQuote (derived_quote p q)
unfolding derived_quote
derived_quote-IsQuote (pos zero) zero h = tt
derived_quote-IsQuote (pos (suc n)) zero h = (inr (ground arith), h)
derived_quote-IsQuote (negsuc n) zero h = (inr (ground arith), h)
derived_quote-IsQuote p (suc q) h = rw (lt→ltb 0 (suc q) (omega arith)) (inl (omega arith), h)

pub apply_entry-IsValid :
    (book : OrderBook) (entry : MdEntryI081) → IsValid book → IsValid (apply_entry book entry)
unfolding apply_entry
apply_entry-IsValid book entry h =
    let price = apply_sign_to_price entry.md_entry_px entry.sign in
    let quantity = to_u64 entry.md_entry_size in
    ground (
      arith,
      to_u64-lt entry.md_entry_size,
      update_level-Sorted descending price entry.md_update_action quantity book.bids,
      update_level-Sorted ascending price entry.md_update_action quantity book.asks,
      update_level-AllValues descending price entry.md_update_action quantity book.bids,
      update_level-AllValues ascending price entry.md_update_action quantity book.asks,
      derived_quote-IsQuote price quantity,
    )

pub apply_snapshot_entry-IsValid :
    (flag : ℕ) (book : OrderBook) (entry : MdEntryI083)
    → IsValid book
    → IsValid (apply_snapshot_entry flag book entry)
unfolding apply_snapshot_entry
apply_snapshot_entry-IsValid flag book entry h =
    let price = apply_sign_to_price entry.md_entry_px entry.sign in
    let quantity = to_u64 entry.md_entry_size in
    ground (
      arith,
      to_u64-lt entry.md_entry_size,
      insert-Sorted descending price quantity book.bids,
      insert-Sorted ascending price quantity book.asks,
      insert-AllValues descending IsQuantity price quantity book.bids,
      insert-AllValues ascending IsQuantity price quantity book.asks,
      derived_quote-IsQuote price quantity,
    )

pub foldl-IsValid :
    {E : Type 0} (step : OrderBook → E → OrderBook) (book : OrderBook) (entries : List E)
    → ((b : OrderBook) (e : E) → IsValid b → IsValid (step b e))
    → IsValid book
    → IsValid (foldl step book entries)
foldl-IsValid step book [] keeps h = h
foldl-IsValid step book (e ∷ entries) keeps h =
    foldl-IsValid step (step book e) entries keeps (keeps book e h)

pub note_seq-IsValid : (seq : ℕ) (book : OrderBook) → IsValid book → IsValid (note_seq seq book)
unfolding note_seq
note_seq-IsValid seq book h = ground arith

pub apply_snapshot-IsValid :
    (book : OrderBook) (snapshot : MessageI083) → IsValid (apply_snapshot book snapshot)
unfolding apply_snapshot
apply_snapshot-IsValid book snapshot =
    foldl-IsValid (apply_snapshot_entry snapshot.calculated_flag)
      (record (reset book) { last_prod_msg_seq = snapshot.prod_msg_seq }) snapshot.md_entries
      (apply_snapshot_entry-IsValid snapshot.calculated_flag)
      (reset_seq-IsValid snapshot.prod_msg_seq book)

pub apply_update-IsValid :
    (book : OrderBook) (update : MessageI081) → IsValid book → IsValid (apply_update book update)
unfolding apply_update
apply_update-IsValid book update h =
    foldl-IsValid apply_entry (note_seq update.prod_msg_seq book) update.md_entries
      apply_entry-IsValid (note_seq-IsValid update.prod_msg_seq book h)

-- Every update keeps the book valid: the bids strictly descending, the asks strictly ascending, each
-- quantity positive and below 2 ^ 64, and no derived quote shown with price and quantity zero; and a
-- snapshot leaves a valid book whatever the book was before. Both hold for every message.
pub book-IsValid :
    (book any : OrderBook) (update : MessageI081) (snapshot : MessageI083)
    → IsValid book
    → IsValid (apply_update book update) × IsValid (apply_snapshot any snapshot)
book-IsValid book any update snapshot h =
    (apply_update-IsValid book update h, apply_snapshot-IsValid any snapshot)
