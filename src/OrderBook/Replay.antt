-- ===== src/OrderBook/Replay.antt =====
-- Messages applied twice, late, or after a snapshot; and snapshots as updates.
use taifex_cpp_sdk.Prelude.{
  ℕ, max, ◌≡◌, refl, sym, ap, ◌∙◌, ◌||◌, Option, none, List, [], ◌∷◌, map, foldl, arith, ◌==◌,
  if◌then◌else◌,
}
use taifex_cpp_sdk.SortedMap.Order.{ascending, descending}
use taifex_cpp_sdk.SortedMap.Canonical.{find_ext}
use taifex_cpp_sdk.Messages.I081.{MdEntryI081, MessageI081}
use taifex_cpp_sdk.Messages.I083.{MdEntryI083, MessageI083}
use taifex_cpp_sdk.OrderBook.{
  OrderBook, reset, update_level, apply_entry, apply_update, apply_snapshot, apply_snapshot_entry,
  note_seq,
}
use taifex_cpp_sdk.OrderBook.Entries.{Effect, keep, remove, write, overwrite}
use taifex_cpp_sdk.OrderBook.Valid.{IsValid, apply_update-IsValid}
use taifex_cpp_sdk.OrderBook.LastWriter.{
  View, view, update_view, last_effect, update_effect, overlay_effect,
}
use taifex_cpp_sdk.OrderBook.Refinement.{view-apply_update}

-- What a message of entries never changes.
abbrev pub identity : OrderBook → List ℕ × ℕ × ℕ
identity book = (book.product_id, book.decimal_locator, book.last_prod_msg_seq)

abbrev pub product : OrderBook → List ℕ × ℕ
product book = (book.product_id, book.decimal_locator)

identity-apply_entry :
    (book : OrderBook) (entry : MdEntryI081) → identity (apply_entry book entry) ≡ identity book
unfolding apply_entry
identity-apply_entry book entry = ground arith

identity-foldl :
    (book : OrderBook) (entries : List MdEntryI081)
    → identity (foldl apply_entry book entries) ≡ identity book
identity-foldl book [] = refl
identity-foldl book (e ∷ es) = identity-foldl (apply_entry book e) es ∙ identity-apply_entry book e

pub identity-apply_update :
    (book : OrderBook) (msg : MessageI081)
    → identity (apply_update book msg)
      ≡ (book.product_id, book.decimal_locator, max book.last_prod_msg_seq msg.prod_msg_seq)
unfolding apply_update note_seq
identity-apply_update book msg =
    identity-foldl (note_seq msg.prod_msg_seq book) msg.md_entries ∙ ground arith

-- Two valid books that look alike and have the same identity are equal.
book_ext :
    (a b : OrderBook) → IsValid a → IsValid b → identity a ≡ identity b → view a ≡ view b → a ≡ b
book_ext a b ha hb same_id same_view =
    let bids : a.bids ≡ b.bids =
      find_ext descending a.bids b.bids ha.bids_sorted hb.bids_sorted
        (λ p. ap (λ (v : View). v.bid_at p) same_view) in
    let asks : a.asks ≡ b.asks =
      find_ext ascending a.asks b.asks ha.asks_sorted hb.asks_sorted
        (λ p. ap (λ (v : View). v.ask_at p) same_view) in
    λ i. record {
      product_id = (same_id i).0;
      decimal_locator = (same_id i).1;
      last_prod_msg_seq = (same_id i).2;
      bids = bids i;
      asks = asks i;
      derived_bid = (same_view i).best_derived_bid;
      derived_ask = (same_view i).best_derived_ask;
    }

overwrite_twice :
    {A : Type 0} (e : Effect A) (old : Option A) → overwrite e (overwrite e old) ≡ overwrite e old
overwrite_twice keep old = refl
overwrite_twice remove old = refl
overwrite_twice (write q) old = refl

update_view_twice :
    (entries : List MdEntryI081) (v : View)
    → update_view entries (update_view entries v) ≡ update_view entries v
update_view_twice entries v = λ i. record {
  bid_at = λ p. overwrite_twice (last_effect (update_effect 48 p) entries) (v.bid_at p) i;
  ask_at = λ p. overwrite_twice (last_effect (update_effect 49 p) entries) (v.ask_at p) i;
  best_derived_bid = overwrite_twice (last_effect (overlay_effect 69) entries) v.best_derived_bid i;
  best_derived_ask = overwrite_twice (last_effect (overlay_effect 70) entries) v.best_derived_ask i;
}

-- A valid book that receives the same update again right after it is unchanged, whatever the entries:
-- all of its fields are equal.
pub apply_update_twice :
    (book : OrderBook) (msg : MessageI081)
    → IsValid book
    → apply_update (apply_update book msg) msg ≡ apply_update book msg
apply_update_twice book msg h =
    let once : OrderBook = apply_update book msg in
    let valid : IsValid once = apply_update-IsValid book msg h in
    let id_once = identity-apply_update book msg in
    book_ext (apply_update once msg) once (apply_update-IsValid once msg valid) valid
      (identity-apply_update once msg
        ∙ ap (λ (n : ℕ). (once.product_id, once.decimal_locator, n))
            (omega (arith, ap (λ (t : List ℕ × ℕ × ℕ). t.2) id_once)))
      (view-apply_update once msg valid
        ∙ ap (update_view msg.md_entries) (view-apply_update book msg h)
        ∙ update_view_twice msg.md_entries (view book)
        ∙ sym (view-apply_update book msg h))

-- The sequence number of a book after an update is the larger of the two, its product and locator are
-- kept, and the levels and derived quotes do not depend on the number of the message: an update older
-- than the book is applied like any other.
pub apply_update_seq :
    (book : OrderBook) (msg : MessageI081) (other : ℕ)
    → IsValid book
    → (identity (apply_update book msg)
        ≡ (book.product_id, book.decimal_locator, max book.last_prod_msg_seq msg.prod_msg_seq))
      × (view (apply_update book msg)
          ≡ view (apply_update book (record msg { prod_msg_seq = other })))
apply_update_seq book msg other h = (
  identity-apply_update book msg,
  view-apply_update book msg h
      ∙ sym (view-apply_update book (record msg { prod_msg_seq = other }) h),
)

-- The snapshot entry as an update entry: New for a level, Overlay for a derived quote outside a call
-- auction, and else an action that the book ignores.
abbrev pub as_update_entry : ℕ → MdEntryI083 → MdEntryI081
as_update_entry flag entry = record {
  md_update_action =
      if (entry.md_entry_type == 48) || (entry.md_entry_type == 49)
      then 48
      else if flag == 48
      then 53
      else 57;
  md_entry_type = entry.md_entry_type;
  sign = entry.sign;
  md_entry_px = entry.md_entry_px;
  md_entry_size = entry.md_entry_size;
  md_price_level = entry.md_price_level;
}

abbrev pub as_update : MessageI083 → MessageI081
as_update msg = record {
  prod_id = msg.prod_id;
  prod_msg_seq = msg.prod_msg_seq;
  no_md_entries = msg.no_md_entries;
  md_entries = map (as_update_entry msg.calculated_flag) msg.md_entries;
}

as_update_entry-apply :
    (flag : ℕ) (book : OrderBook) (entry : MdEntryI083)
    → apply_snapshot_entry flag book entry ≡ apply_entry book (as_update_entry flag entry)
unfolding apply_snapshot_entry apply_entry update_level
as_update_entry-apply flag book entry = ground arith

as_update-foldl :
    (flag : ℕ) (book : OrderBook) (entries : List MdEntryI083)
    → foldl (apply_snapshot_entry flag) book entries
      ≡ foldl apply_entry book (map (as_update_entry flag) entries)
as_update-foldl flag book [] = refl
as_update-foldl flag book (e ∷ es) =
    as_update-foldl flag (apply_snapshot_entry flag book e) es
    ∙ ap (λ (b : OrderBook). foldl apply_entry b (map (as_update_entry flag) es))
        (as_update_entry-apply flag book e)

fresh_seq :
    (seq : ℕ) (book : OrderBook)
    → note_seq seq (reset book) ≡ record (reset book) { last_prod_msg_seq = seq }
unfolding note_seq
fresh_seq seq book = ground arith

-- A snapshot is a reset followed by one update, which adds its levels and overlays its derived quotes.
pub apply_snapshot-as_update :
    (book : OrderBook) (msg : MessageI083)
    → apply_snapshot book msg ≡ apply_update (reset book) (as_update msg)
unfolding apply_snapshot apply_update note_seq
apply_snapshot-as_update book msg =
    as_update-foldl msg.calculated_flag
      (record (reset book) { last_prod_msg_seq = msg.prod_msg_seq }) msg.md_entries
    ∙ ap
        (λ (b : OrderBook).
          foldl apply_entry b (map (as_update_entry msg.calculated_flag) msg.md_entries))
        (sym (fresh_seq msg.prod_msg_seq book))

apply_snapshot_identity :
    (a b : OrderBook) (msg : MessageI083)
    → product a ≡ product b
    → apply_snapshot a msg ≡ apply_snapshot b msg
unfolding apply_snapshot
apply_snapshot_identity a b msg e = λ i.
    foldl (apply_snapshot_entry msg.calculated_flag)
      (record {
        product_id = (e i).0;
        decimal_locator = (e i).1;
        last_prod_msg_seq = msg.prod_msg_seq;
        bids = [];
        asks = [];
        derived_bid = none;
        derived_ask = none;
      })
      msg.md_entries

same_product :
    (a b : OrderBook) {n : ℕ}
    → identity a ≡ (b.product_id, b.decimal_locator, n)
    → product a ≡ product b
same_product a b e = ap (λ (t : List ℕ × ℕ × ℕ). (t.0, t.1)) e

-- A snapshot makes a book forget the update and the snapshot that came before it.
pub apply_snapshot_forgets :
    (book : OrderBook) (update : MessageI081) (older newer : MessageI083)
    → (apply_snapshot (apply_update book update) newer ≡ apply_snapshot book newer)
      × (apply_snapshot (apply_snapshot book older) newer ≡ apply_snapshot book newer)
apply_snapshot_forgets book update older newer = (
  apply_snapshot_identity (apply_update book update) book newer
      (same_product (apply_update book update) book (identity-apply_update book update)),
  apply_snapshot_identity (apply_snapshot book older) book newer (
      same_product (apply_snapshot book older) book (
        ap identity (apply_snapshot-as_update book older)
        ∙ identity-apply_update (reset book) (as_update older))),
)

-- Messages keep the product of a book.
pub product-apply_update :
    (book : OrderBook) (msg : MessageI081) → product (apply_update book msg) ≡ product book
product-apply_update book msg =
    same_product (apply_update book msg) book (identity-apply_update book msg)

pub product-apply_snapshot :
    (book : OrderBook) (msg : MessageI083) → product (apply_snapshot book msg) ≡ product book
product-apply_snapshot book msg =
    ap product (apply_snapshot-as_update book msg)
    ∙ product-apply_update (reset book) (as_update msg)

pub identity-apply_snapshot :
    (book : OrderBook) (msg : MessageI083)
    → identity (apply_snapshot book msg) ≡ (book.product_id, book.decimal_locator, msg.prod_msg_seq)
identity-apply_snapshot book msg =
    ap identity (apply_snapshot-as_update book msg)
    ∙ identity-apply_update (reset book) (as_update msg)
    ∙ ap (λ (n : ℕ). (book.product_id, book.decimal_locator, n)) (zero_max msg.prod_msg_seq)
  where
    zero_max : (n : ℕ) → max 0 n ≡ n
    zero_max n = omega arith
