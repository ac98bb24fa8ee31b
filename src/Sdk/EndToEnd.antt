-- ===== src/Sdk/EndToEnd.antt =====
-- From the bytes of the exchange's messages to the book that the SDK shows.
use taifex_cpp_sdk.Prelude.{
  ℕ, max, ◌%◌, ◌^◌, ◌<◌, ◌≡◌, refl, ap, ◌∙◌, Option, none, some, List, [], length, take, All, arith,
  lt→ltb, if◌then◌else◌,
}
use taifex_cpp_sdk.SortedMap.{find, same}
use taifex_cpp_sdk.SortedMap.Order.{lexicographic}
use taifex_cpp_sdk.SortedMap.Laws.{find-insert_self, same_refl}
use taifex_cpp_sdk.Messages.I010.RoundTrip.{
  WireProduct, FitsProduct, product_of, product_wire, parse_i010_body-wire,
}
use taifex_cpp_sdk.Messages.I081.RoundTrip as Update
use taifex_cpp_sdk.Messages.I083.RoundTrip as Snapshot
use taifex_cpp_sdk.Messages.I083.{MessageI083}
use taifex_cpp_sdk.Messages.I081.{MessageI081}
use taifex_cpp_sdk.OrderBook.{OrderBook, order_book, apply_update, apply_snapshot}
use taifex_cpp_sdk.OrderBook.LastWriter.{view, update_view, snapshot_view}
use taifex_cpp_sdk.OrderBook.Valid.{apply_snapshot-IsValid}
use taifex_cpp_sdk.OrderBook.Refinement.{view-apply_update, view-apply_snapshot}
use taifex_cpp_sdk.OrderBook.Replay.{identity, identity-apply_update, identity-apply_snapshot}
use taifex_cpp_sdk.Sdk.{
  Sdk, position, get_base_prod_id_for_i010_lookup, handle_i010, handle_i081, handle_i083,
}
use taifex_cpp_sdk.Sdk.Handlers.{book_for, changed, handle_i081_lem, handle_i083_lem}

module _ (sdk : Sdk) (w : WireProduct) (prod_id behind_product : List ℕ)
    (fits : FitsProduct w) where
  -- The product of the message is cached under its id.
  cached :
      find lexicographic w.id
        (handle_i010 (some (product_wire w behind_product)) sdk).product_info_cache
      ≡ some (product_of w)
  unfolding handle_i010
  cached =
      rw (handle_i010, parse_i010_body-wire w behind_product fits)
        (find-insert_self lexicographic w.id (product_of w) sdk.product_info_cache)

  same_books :
      (handle_i010 (some (product_wire w behind_product)) sdk).order_books ≡ sdk.order_books
  unfolding handle_i010
  same_books = rw (handle_i010, parse_i010_body-wire w behind_product fits) refl

  base_id :
      length prod_id ≡ 20
      → take 10 prod_id ≡ w.id
      → position b'/' prod_id ≡ none
      → get_base_prod_id_for_i010_lookup prod_id ≡ w.id
  unfolding get_base_prod_id_for_i010_lookup
  base_id size prefix no_slash =
      rw (get_base_prod_id_for_i010_lookup, no_slash, lt→ltb 10 (length prod_id) (omega arith))
        prefix

  -- The first message for the product finds a fresh book with the locator of the product data.
  book_for_new :
      length prod_id ≡ 20
      → take 10 prod_id ≡ w.id
      → position b'/' prod_id ≡ none
      → find lexicographic prod_id sdk.order_books ≡ none
      → book_for prod_id (handle_i010 (some (product_wire w behind_product)) sdk)
        ≡ some (order_book prod_id w.locator)
  unfolding book_for
  book_for_new size prefix no_slash absent =
      rw (book_for, same_books, absent, base_id size prefix no_slash, cached) refl

-- A book that a message for the product changes is found changed.
found_changed :
    (after : Sdk) (product_id : List ℕ) (change : OrderBook → OrderBook)
    (target other : Option OrderBook) (book : OrderBook)
    → find lexicographic product_id after.order_books
      ≡ (if same lexicographic product_id product_id then changed change target else other)
    → target ≡ some book
    → find lexicographic product_id after.order_books ≡ some (change book)
found_changed after product_id change target other book e at_target =
    ground (arith, same_refl lexicographic product_id)

-- Product data, a snapshot and an update for one product, as the exchange sends them.
pub record Session : Type 0 where
  pub product : WireProduct
  pub prod_id : List ℕ
  pub flag : ℕ
  pub snapshot_seq : ℕ
  pub levels : List Snapshot.WireEntry
  pub update_seq : ℕ
  pub updates : List Update.WireEntry

pub record FitsSession (s : Session) : Type 0 where
  pub product_fits : FitsProduct s.product
  pub id_size : length s.prod_id ≡ 20
  pub id_prefix : take 10 s.prod_id ≡ s.product.id
  pub no_slash : position b'/' s.prod_id ≡ none
  pub snapshot_seq_fits : s.snapshot_seq < 10 ^ 10
  pub levels_count : length s.levels < 100
  pub levels_fit : All Snapshot.FitsEntry s.levels
  pub update_seq_fits : s.update_seq < 10 ^ 10
  pub updates_count : length s.updates < 100
  pub updates_fit : All Update.FitsEntry s.updates

abbrev pub play : Session → Sdk → Sdk
play s sdk = handle_i081 (some (Update.body_wire s.prod_id s.update_seq s.updates [])) (
    handle_i083 (some (Snapshot.body_wire s.prod_id s.snapshot_seq s.flag s.levels []))
      (handle_i010 (some (product_wire s.product [])) sdk))

abbrev snapshot_msg : Session → MessageI083
snapshot_msg s = record {
  prod_id = s.prod_id;
  prod_msg_seq = s.snapshot_seq % 2 ^ 32;
  calculated_flag = s.flag;
  no_md_entries = length s.levels;
  md_entries = Snapshot.entries_of s.levels;
}

abbrev update_msg : Session → MessageI081
update_msg s = record {
  prod_id = s.prod_id;
  prod_msg_seq = s.update_seq % 2 ^ 32;
  no_md_entries = length s.updates;
  md_entries = Update.entries_of s.updates;
}

-- From bytes to the book: after the handlers have taken the product data, a snapshot and an update of a
-- new product whose id has no slash and starts with the id of the product data, the SDK has a book for
-- it with the locator of the product data, the higher of the two sequence numbers modulo 2 ^ 32, and the
-- levels and derived quotes that the update makes of those of the snapshot.
pub session_book :
    (sdk : Sdk) (s : Session)
    → FitsSession s
    → find lexicographic s.prod_id sdk.order_books ≡ none
    → (book : OrderBook) × (find lexicographic s.prod_id (play s sdk).order_books ≡ some book)
      × (view book
          ≡ update_view
              (Update.entries_of s.updates)
              (snapshot_view s.flag (Snapshot.entries_of s.levels)))
      × (identity book
          ≡ (s.prod_id, s.product.locator, max (s.snapshot_seq % 2 ^ 32) (s.update_seq % 2 ^ 32)))
session_book sdk s fits absent =
    let fresh : OrderBook = order_book s.prod_id s.product.locator in
    let shown : OrderBook = apply_snapshot fresh (snapshot_msg s) in
    let sdk1 : Sdk = handle_i010 (some (product_wire s.product [])) sdk in
    let sdk2 : Sdk =
      handle_i083 (some (Snapshot.body_wire s.prod_id s.snapshot_seq s.flag s.levels [])) sdk1 in
    let snapshot_parsed =
      Snapshot.parse_i083_body-wire s.prod_id s.snapshot_seq s.flag s.levels [] fits.id_size
        fits.snapshot_seq_fits fits.levels_count fits.levels_fit in
    let update_parsed =
      Update.parse_i081_body-wire s.prod_id s.update_seq s.updates [] fits.id_size
        fits.update_seq_fits fits.updates_count fits.updates_fit in
    let new_book =
      book_for_new sdk s.product s.prod_id [] fits.product_fits fits.id_size fits.id_prefix
        fits.no_slash absent in
    let after_snapshot =
      found_changed sdk2 s.prod_id (λ b. apply_snapshot b (snapshot_msg s))
        (book_for s.prod_id sdk1) (find lexicographic s.prod_id sdk1.order_books) fresh
        (handle_i083_lem _ sdk1 s.prod_id (snapshot_msg s) snapshot_parsed).0 new_book in
    let after_update =
      found_changed (play s sdk) s.prod_id (λ b. apply_update b (update_msg s))
        (book_for s.prod_id sdk2) (find lexicographic s.prod_id sdk2.order_books) shown
        (handle_i081_lem _ sdk2 s.prod_id (update_msg s) update_parsed).0
        (unfold book_for in rw (book_for, after_snapshot) refl) in
    (
      apply_update shown (update_msg s),
      after_update,
      view-apply_update shown (update_msg s) (apply_snapshot-IsValid fresh (snapshot_msg s))
          ∙ ap (update_view (Update.entries_of s.updates))
              (view-apply_snapshot fresh (snapshot_msg s)),
      identity-apply_update shown (update_msg s)
          ∙ ap (λ (t : List ℕ × ℕ × ℕ). (t.0, t.1, max t.2 (s.update_seq % 2 ^ 32)))
              (identity-apply_snapshot fresh (snapshot_msg s)),
    )
