-- ===== src/OrderBook/LastWriter.antt =====
-- The book after a message, price by price: the last entry that writes a price decides what stands there.
use taifex_cpp_sdk.Prelude.{
  ℕ, zero, suc, ◌≡◌, refl, ap, ◌∙◌, ◌&&◌, Option, none, List, [], ◌∷◌, foldl, arith, ◌==◌,
  if◌then◌else◌,
}
use taifex_cpp_sdk.Prelude.Int.{ℤ, pos, negsuc, to_u64, ◌==ℤ◌}
use taifex_cpp_sdk.SortedMap.{find}
use taifex_cpp_sdk.SortedMap.Order.{ascending, descending}
use taifex_cpp_sdk.SortedMap.Laws.{find-insert}
use taifex_cpp_sdk.Messages.I081.{MdEntryI081}
use taifex_cpp_sdk.Messages.I083.{MdEntryI083}
use taifex_cpp_sdk.OrderBook.{
  OrderBook, PriceQuantityLevel, apply_sign_to_price, derived_quote, apply_entry,
  apply_snapshot_entry,
}
use taifex_cpp_sdk.OrderBook.Entries.{
  Effect, keep, remove, write, overwrite, level_effect, find-update_level, same-ascending,
  same-descending,
}
use taifex_cpp_sdk.OrderBook.Valid.{IsValid}

-- The book as a user sees it: the quantity at each price of each side, and the derived quotes.
pub record View : Type 0 where
  pub bid_at : ℤ → Option ℕ
  pub ask_at : ℤ → Option ℕ
  pub best_derived_bid : Option PriceQuantityLevel
  pub best_derived_ask : Option PriceQuantityLevel

abbrev pub view : OrderBook → View
view book = record {
  bid_at = λ p. find descending p book.bids;
  ask_at = λ p. find ascending p book.asks;
  best_derived_bid = book.derived_bid;
  best_derived_ask = book.derived_ask;
}

-- The second of two effects, unless it writes nothing.
abbrev later : {A : Type 0} → Effect A → Effect A → Effect A
later first keep = first
later first remove = remove
later first (write q) = write q

unfoldable pub last_effect : {E A : Type 0} → (E → Effect A) → List E → Effect A
last_effect effect [] = keep
last_effect effect (e ∷ es) = later (effect e) (last_effect effect es)

-- What an update entry writes at the price `p` of the side with the entry type `side`.
abbrev pub update_effect : ℕ → ℤ → MdEntryI081 → Effect ℕ
update_effect side p entry =
    if (entry.md_entry_type == side) && (apply_sign_to_price entry.md_entry_px entry.sign ==ℤ p)
    then level_effect entry.md_update_action (to_u64 entry.md_entry_size)
    else keep

-- A snapshot entry writes its quantity unless that is zero.
abbrev pub snapshot_effect : ℕ → ℤ → MdEntryI083 → Effect ℕ
snapshot_effect side p entry =
    if (entry.md_entry_type == side) && (apply_sign_to_price entry.md_entry_px entry.sign ==ℤ p)
    then (if to_u64 entry.md_entry_size == 0 then keep else write (to_u64 entry.md_entry_size))
    else keep

overwrite-later :
    {A : Type 0} (first second : Effect A) (old : Option A)
    → overwrite second (overwrite first old) ≡ overwrite (later first second) old
overwrite-later first keep old = refl
overwrite-later first remove old = refl
overwrite-later first (write q) old = refl

-- One loop over entries of which each acts on a part of the book as its effect says.
pub foldl-effect :
    {E A : Type 0} (step : OrderBook → E → OrderBook) (effect : E → Effect A)
    (part : OrderBook → Option A) (Holds : OrderBook → Type 0) (book : OrderBook) (entries : List E)
    → ((b : OrderBook) (e : E) → Holds b → Holds (step b e))
    → ((b : OrderBook) (e : E) → Holds b → part (step b e) ≡ overwrite (effect e) (part b))
    → Holds book
    → part (foldl step book entries) ≡ overwrite (last_effect effect entries) (part book)
unfolding last_effect
foldl-effect step effect part Holds book [] keeps acts h = refl
foldl-effect step effect part Holds book (e ∷ es) keeps acts h =
    foldl-effect step effect part Holds (step book e) es keeps acts (keeps book e h)
    ∙ ap (overwrite (last_effect effect es)) (acts book e h)
    ∙ overwrite-later (effect e) (last_effect effect es) (part book)

pub bid-apply_entry :
    (p : ℤ) (book : OrderBook) (entry : MdEntryI081)
    → IsValid book
    → (view (apply_entry book entry)).bid_at p
      ≡ overwrite (update_effect 48 p entry) ((view book).bid_at p)
unfolding apply_entry
bid-apply_entry p book entry h =
    let k = apply_sign_to_price entry.md_entry_px entry.sign in
    ground (
      arith,
      find-update_level descending p k entry.md_update_action (to_u64 entry.md_entry_size) book.bids
          h.bids_sorted,
      same-descending k p,
    )

pub ask-apply_entry :
    (p : ℤ) (book : OrderBook) (entry : MdEntryI081)
    → IsValid book
    → (view (apply_entry book entry)).ask_at p
      ≡ overwrite (update_effect 49 p entry) ((view book).ask_at p)
unfolding apply_entry
ask-apply_entry p book entry h =
    let k = apply_sign_to_price entry.md_entry_px entry.sign in
    ground (
      arith,
      find-update_level ascending p k entry.md_update_action (to_u64 entry.md_entry_size) book.asks
          h.asks_sorted,
      same-ascending k p,
    )

pub bid-apply_snapshot_entry :
    (flag : ℕ) (p : ℤ) (book : OrderBook) (entry : MdEntryI083)
    → (view (apply_snapshot_entry flag book entry)).bid_at p
      ≡ overwrite (snapshot_effect 48 p entry) ((view book).bid_at p)
unfolding apply_snapshot_entry
bid-apply_snapshot_entry flag p book entry =
    let k = apply_sign_to_price entry.md_entry_px entry.sign in
    ground (
      arith,
      find-insert descending p k (to_u64 entry.md_entry_size) book.bids,
      same-descending k p,
    )

pub ask-apply_snapshot_entry :
    (flag : ℕ) (p : ℤ) (book : OrderBook) (entry : MdEntryI083)
    → (view (apply_snapshot_entry flag book entry)).ask_at p
      ≡ overwrite (snapshot_effect 49 p entry) ((view book).ask_at p)
unfolding apply_snapshot_entry
ask-apply_snapshot_entry flag p book entry =
    let k = apply_sign_to_price entry.md_entry_px entry.sign in
    ground
      (arith, find-insert ascending p k (to_u64 entry.md_entry_size) book.asks, same-ascending k p)

-- A derived quote is removed by zero in both fields.
abbrev pub quote_effect : ℤ → ℕ → Effect PriceQuantityLevel
quote_effect p q =
    if (q == 0) && (p ==ℤ pos 0) then remove else write (record { price = p; quantity = q })

abbrev pub overlay_effect : ℕ → MdEntryI081 → Effect PriceQuantityLevel
overlay_effect side entry =
    if (entry.md_entry_type == side) && (entry.md_update_action == 53)
    then quote_effect (apply_sign_to_price entry.md_entry_px entry.sign)
        (to_u64 entry.md_entry_size)
    else keep

-- A snapshot shows derived quotes only outside a call auction.
abbrev pub snapshot_quote_effect : ℕ → ℕ → MdEntryI083 → Effect PriceQuantityLevel
snapshot_quote_effect flag side entry =
    if (entry.md_entry_type == side) && (flag == 48)
    then quote_effect (apply_sign_to_price entry.md_entry_px entry.sign)
        (to_u64 entry.md_entry_size)
    else keep

derived_quote-eq :
    (p : ℤ) (q : ℕ) (old : Option PriceQuantityLevel)
    → derived_quote p q ≡ overwrite (quote_effect p q) old
unfolding derived_quote
derived_quote-eq (pos zero) q old = ground arith
derived_quote-eq (pos (suc n)) q old = ground arith
derived_quote-eq (negsuc n) q old = ground arith

pub derived-apply_entry :
    (book : OrderBook) (entry : MdEntryI081)
    → ((apply_entry book entry).derived_bid ≡ overwrite (overlay_effect 69 entry) book.derived_bid)
      × ((apply_entry book entry).derived_ask
          ≡ overwrite (overlay_effect 70 entry) book.derived_ask)
unfolding apply_entry
derived-apply_entry book entry =
    let p = apply_sign_to_price entry.md_entry_px entry.sign in
    let q = to_u64 entry.md_entry_size in
    ground (arith, derived_quote-eq p q book.derived_bid, derived_quote-eq p q book.derived_ask)

pub derived-apply_snapshot_entry :
    (flag : ℕ) (book : OrderBook) (entry : MdEntryI083)
    → ((apply_snapshot_entry flag book entry).derived_bid
        ≡ overwrite (snapshot_quote_effect flag 69 entry) book.derived_bid)
      × ((apply_snapshot_entry flag book entry).derived_ask
          ≡ overwrite (snapshot_quote_effect flag 70 entry) book.derived_ask)
unfolding apply_snapshot_entry
derived-apply_snapshot_entry flag book entry =
    let p = apply_sign_to_price entry.md_entry_px entry.sign in
    let q = to_u64 entry.md_entry_size in
    ground (arith, derived_quote-eq p q book.derived_bid, derived_quote-eq p q book.derived_ask)

-- What a whole message writes, on the view of the book.
abbrev pub update_view : List MdEntryI081 → View → View
update_view entries v = record {
  bid_at = λ p. overwrite (last_effect (update_effect 48 p) entries) (v.bid_at p);
  ask_at = λ p. overwrite (last_effect (update_effect 49 p) entries) (v.ask_at p);
  best_derived_bid = overwrite (last_effect (overlay_effect 69) entries) v.best_derived_bid;
  best_derived_ask = overwrite (last_effect (overlay_effect 70) entries) v.best_derived_ask;
}

abbrev pub snapshot_view : ℕ → List MdEntryI083 → View
snapshot_view flag entries = record {
  bid_at = λ p. overwrite (last_effect (snapshot_effect 48 p) entries) none;
  ask_at = λ p. overwrite (last_effect (snapshot_effect 49 p) entries) none;
  best_derived_bid = overwrite (last_effect (snapshot_quote_effect flag 69) entries) none;
  best_derived_ask = overwrite (last_effect (snapshot_quote_effect flag 70) entries) none;
}
