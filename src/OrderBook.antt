-- ===== src/OrderBook.antt =====
-- order_book/order_book.cpp and .h: the book of one product. `bids_` and `asks_` are sorted maps from
-- the price, the bids by std::greater and the asks by std::less; a derived quote is an Option.
pub mod Entries
pub mod Valid
pub mod LastWriter
pub mod Refinement
pub mod Replay
pub mod Top
use taifex_cpp_sdk.Prelude.{
  ℕ, zero, suc, ◌≡◌, Bool, true, false, not, ◌||◌, Option, none, some, List, [], ◌∷◌, map, foldl,
  take, ltb, ◌==◌, if◌then◌else◌,
}
use taifex_cpp_sdk.Prelude.Int.{ℤ, pos, negsuc, negate, ltb_ℤ, to_u64}
use taifex_cpp_sdk.SortedMap.{SortedMap, find, insert, erase}
use taifex_cpp_sdk.SortedMap.Order.{StrictOrder, ascending, descending}
use taifex_cpp_sdk.Messages.I081.{MdEntryI081, MessageI081}
use taifex_cpp_sdk.Messages.I083.{MdEntryI083, MessageI083}

pub record PriceQuantityLevel : Type 0 where
  pub price : ℤ
  pub quantity : ℕ

pub record OrderBook : Type 0 where
  pub product_id : List ℕ
  pub decimal_locator : ℕ
  pub last_prod_msg_seq : ℕ
  pub bids : SortedMap ℤ ℕ
  pub asks : SortedMap ℤ ℕ
  pub derived_bid : Option PriceQuantityLevel
  pub derived_ask : Option PriceQuantityLevel

-- The constructor.
abbrev pub order_book : List ℕ → ℕ → OrderBook
order_book prod_id decimal_loc = record {
  product_id = prod_id;
  decimal_locator = decimal_loc;
  last_prod_msg_seq = 0;
  bids = [];
  asks = [];
  derived_bid = none;
  derived_ask = none;
}

abbrev pub reset : OrderBook → OrderBook
reset book = record book {
  last_prod_msg_seq = 0;
  bids = [];
  asks = [];
  derived_bid = none;
  derived_ask = none;
}

abbrev pub level_of : ℤ × ℕ → PriceQuantityLevel
level_of (p, q) = record { price = p; quantity = q }

-- The loop of get_top_bids and get_top_asks, with the levels that may still be pushed.
unfoldable pub top_levels : ℕ → SortedMap ℤ ℕ → List PriceQuantityLevel
top_levels zero m = []
top_levels (suc n) [] = []
top_levels (suc n) (level ∷ m) = level_of level ∷ top_levels n m

abbrev pub get_top_bids : OrderBook → ℕ → List PriceQuantityLevel
get_top_bids book n = top_levels n book.bids

abbrev pub get_top_asks : OrderBook → ℕ → List PriceQuantityLevel
get_top_asks book n = top_levels n book.asks

-- The sign character is '-' or anything else.
unfoldable pub apply_sign_to_price : ℤ → ℕ → ℤ
apply_sign_to_price price_magnitude sign_char =
    if sign_char == 45
    then (if ltb_ℤ (pos 0) price_magnitude then negate price_magnitude else price_magnitude)
    else price_magnitude

abbrev is_zero : ℤ → Bool
is_zero (pos zero) = true
is_zero (pos (suc n)) = false
is_zero (negsuc n) = false

-- The new derived quote: cleared if price and quantity are both zero.
unfoldable pub derived_quote : ℤ → ℕ → Option PriceQuantityLevel
derived_quote price quantity =
    if ltb 0 quantity || not (is_zero price)
    then some (record { price = price; quantity = quantity })
    else none

-- The actions '0' New, '1' Change and '2' Delete on one side of the book.
unfoldable pub update_level : StrictOrder ℤ → ℕ → ℤ → ℕ → SortedMap ℤ ℕ → SortedMap ℤ ℕ
update_level order action price quantity levels =
    if action == 48
    then (if ltb 0 quantity then insert order price quantity levels else levels)
    else if action == 49
    then (elim (find order price levels) [
      | some old ↦
          if ltb 0 quantity then insert order price quantity levels else erase order price levels
      | none ↦ if ltb 0 quantity then insert order price quantity levels else levels
    ])
    else if action == 50
    then erase order price levels
    else levels

-- The body of the loop in apply_update. The entry types are '0', '1', 'E' and 'F'; the derived quotes
-- only take the action '5' Overlay.
unfoldable pub apply_entry : OrderBook → MdEntryI081 → OrderBook
apply_entry book entry =
    let price = apply_sign_to_price entry.md_entry_px entry.sign in
    let quantity = to_u64 entry.md_entry_size in
    let action = entry.md_update_action in
    if entry.md_entry_type == 48
    then record book { bids = update_level descending action price quantity book.bids }
    else if entry.md_entry_type == 49
    then record book { asks = update_level ascending action price quantity book.asks }
    else if entry.md_entry_type == 69
    then (if action == 53 then record book { derived_bid = derived_quote price quantity } else book)
    else if entry.md_entry_type == 70
    then (if action == 53 then record book { derived_ask = derived_quote price quantity } else book)
    else book

-- The basic check of the sequence number; an older one changes nothing and does not return.
unfoldable pub note_seq : ℕ → OrderBook → OrderBook
note_seq seq book =
    if ltb book.last_prod_msg_seq seq || (book.last_prod_msg_seq == 0)
    then record book { last_prod_msg_seq = seq }
    else book

unfoldable pub apply_update : OrderBook → MessageI081 → OrderBook
apply_update book i081_msg =
    foldl apply_entry (note_seq i081_msg.prod_msg_seq book) i081_msg.md_entries

-- The body of the loop in apply_snapshot, with the flag of the message ('0' outside a call auction).
unfoldable pub apply_snapshot_entry : ℕ → OrderBook → MdEntryI083 → OrderBook
apply_snapshot_entry calculated_flag book entry =
    let price = apply_sign_to_price entry.md_entry_px entry.sign in
    let quantity = to_u64 entry.md_entry_size in
    if entry.md_entry_type == 48
    then (if ltb 0 quantity
        then record book { bids = insert descending price quantity book.bids }
        else book)
    else if entry.md_entry_type == 49
    then (if ltb 0 quantity
        then record book { asks = insert ascending price quantity book.asks }
        else book)
    else if entry.md_entry_type == 69
    then (if calculated_flag == 48
        then record book { derived_bid = derived_quote price quantity }
        else book)
    else if entry.md_entry_type == 70
    then (if calculated_flag == 48
        then record book { derived_ask = derived_quote price quantity }
        else book)
    else book

unfoldable pub apply_snapshot : OrderBook → MessageI083 → OrderBook
apply_snapshot book i083_msg =
    foldl (apply_snapshot_entry i083_msg.calculated_flag)
      (record (reset book) { last_prod_msg_seq = i083_msg.prod_msg_seq }) i083_msg.md_entries
