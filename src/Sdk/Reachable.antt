-- ===== src/Sdk/Reachable.antt =====
-- The SDK as a state machine: its steps, the states they reach, and what holds in all of them.
use taifex_cpp_sdk.Prelude.{
  ℕ, ◌^◌, ◌<◌, ◌≡◌, refl, ap, ◌∙◌, Option, List, [], arith, Option-cases, inl, inr,
}
use taifex_cpp_sdk.CommonHeader.{CommonHeader, get_channel_id, get_channel_seq}
use taifex_cpp_sdk.CommonHeader.Layout.{IsShaped}
use taifex_cpp_sdk.SortedMap.{find, insert}
use taifex_cpp_sdk.SortedMap.Order.{lexicographic, numeric}
use taifex_cpp_sdk.SortedMap.Sorted.{insert-Sorted}
use taifex_cpp_sdk.SortedMap.Entries.{
  insert-AllEntries, find-AllEntries, map_values-Sorted, map_values-AllEntries,
}
use taifex_cpp_sdk.Messages.I010.{parse_i010_body}
use taifex_cpp_sdk.Messages.I081.{parse_i081_body}
use taifex_cpp_sdk.Messages.I083.{parse_i083_body}
use taifex_cpp_sdk.OrderBook.{OrderBook, order_book, reset, apply_update, apply_snapshot}
use taifex_cpp_sdk.OrderBook.Valid.{
  order_book-IsValid, reset-IsValid, apply_update-IsValid, apply_snapshot-IsValid,
}
use taifex_cpp_sdk.OrderBook.Replay.{product-apply_update, product-apply_snapshot}
use taifex_cpp_sdk.Sdk.{
  Sdk, new_sdk, initialize, compare_sequence, record_sequence, process_message,
  get_base_prod_id_for_i010_lookup, update_order_book, handle_i010, handle_i081, handle_i083,
  handle_i001, handle_i002,
}
use taifex_cpp_sdk.Messages.I010.Shape.{length-prod_id_s}
use taifex_cpp_sdk.Sdk.Handlers.{get_or_create-present, get_or_create-unknown, get_or_create-fresh}
use taifex_cpp_sdk.Sdk.Keeps.{continue-keeps, process_message-keeps}
use taifex_cpp_sdk.Sdk.State.{
  IsValid, IsBook, IsProduct, IsSequence, new_sdk-IsValid, store_book-IsValid,
  record_sequence-IsValid,
}

-- One call on the SDK. The handlers are steps of their own: process_message does not call them.
pub data Step (sdk : Sdk) : Sdk → Type 0 where
  initializes : Step sdk (initialize sdk).1
  processes : (raw : Option (List ℕ)) → Step sdk (process_message raw sdk).1
  handles_i010 : (body : Option (List ℕ)) → Step sdk (handle_i010 body sdk)
  handles_i081 : (body : Option (List ℕ)) → Step sdk (handle_i081 body sdk)
  handles_i083 : (body : Option (List ℕ)) → Step sdk (handle_i083 body sdk)
  handles_i001 : (header : CommonHeader) → IsShaped header → Step sdk (handle_i001 header sdk).1
  handles_i002 : (header : CommonHeader) → IsShaped header → Step sdk (handle_i002 header sdk).1

pub data Reachable : Sdk → Type 0 where
  start : Reachable new_sdk
  next : {sdk after : Sdk} → Reachable sdk → Step sdk after → Reachable after

update_order_book-IsValid :
    (product_id : List ℕ) (change : OrderBook → OrderBook) (sdk : Sdk)
    → ((book : OrderBook) → IsBook product_id book → IsBook product_id (change book))
    → IsValid sdk
    → IsValid (update_order_book product_id change sdk)
unfolding update_order_book
update_order_book-IsValid product_id change sdk keeps h =
    elim (Option-cases (find lexicographic product_id sdk.order_books)) [
      | inr (book, present) ↦
          let (found, _) = get_or_create-present product_id sdk book present in
          let is_book =
            find-AllEntries lexicographic IsBook product_id book sdk.order_books h.books present in
          rw (update_order_book, found)
            (store_book-IsValid sdk product_id (change book) (keeps book is_book) h)
      | inl absent ↦
          elim (Option-cases (
            find lexicographic (get_base_prod_id_for_i010_lookup product_id)
              sdk.product_info_cache)) [
                | inl unknown ↦
                    let (found, _) = get_or_create-unknown product_id sdk absent unknown in
                    rw (update_order_book, found) h
                | inr (info, known) ↦
                    let (found, _) = get_or_create-fresh product_id sdk info absent known in
                    let book = order_book product_id info.decimal_locator in
                    let fresh : IsBook product_id book =
                      (order_book-IsValid product_id info.decimal_locator, refl) in
                    let created = record sdk {
                      order_books = insert lexicographic product_id book sdk.order_books;
                    } in
                    rw (update_order_book, found)
                      (store_book-IsValid created product_id (change book) (keeps book fresh)
                        (store_book-IsValid sdk product_id book fresh h))
              ]
    ]

handle_i010-IsValid :
    (body : Option (List ℕ)) (sdk : Sdk) → IsValid sdk → IsValid (handle_i010 body sdk)
unfolding handle_i010
handle_i010-IsValid body sdk h = elim (Option-cases (parse_i010_body body)) [
  | inl failed ↦ rw (handle_i010, failed) h
  | inr (msg, parsed) ↦
      rw (handle_i010, parsed)
        (record {
          cache_sorted =
              insert-Sorted lexicographic msg.prod_id_s msg sdk.product_info_cache h.cache_sorted;
          books_sorted = h.books_sorted;
          channels_sorted = h.channels_sorted;
          products =
              insert-AllEntries lexicographic IsProduct msg.prod_id_s msg sdk.product_info_cache
                (refl, length-prod_id_s body msg parsed) h.products;
          books = h.books;
          sequences = h.sequences;
        })
]

handle_i081-IsValid :
    (body : Option (List ℕ)) (sdk : Sdk) → IsValid sdk → IsValid (handle_i081 body sdk)
unfolding handle_i081
handle_i081-IsValid body sdk h = elim (Option-cases (parse_i081_body body)) [
  | inl failed ↦ rw (handle_i081, failed) h
  | inr (msg, parsed) ↦
      rw (handle_i081, parsed)
        (update_order_book-IsValid msg.prod_id (λ book. apply_update book msg) sdk
          (λ book b. (
            apply_update-IsValid book msg b.0,
            ap (λ (t : List ℕ × ℕ). t.0) (product-apply_update book msg) ∙ b.1,
          ))
          h)
]

handle_i083-IsValid :
    (body : Option (List ℕ)) (sdk : Sdk) → IsValid sdk → IsValid (handle_i083 body sdk)
unfolding handle_i083
handle_i083-IsValid body sdk h = elim (Option-cases (parse_i083_body body)) [
  | inl failed ↦ rw (handle_i083, failed) h
  | inr (msg, parsed) ↦
      rw (handle_i083, parsed)
        (update_order_book-IsValid msg.prod_id (λ book. apply_snapshot book msg) sdk
          (λ book b. (
            apply_snapshot-IsValid book msg,
            ap (λ (t : List ℕ × ℕ). t.0) (product-apply_snapshot book msg) ∙ b.1,
          ))
          h)
]

handle_i001-IsValid :
    (header : CommonHeader) (sdk : Sdk) → IsValid sdk → IsValid (handle_i001 header sdk).1
unfolding handle_i001
handle_i001-IsValid header sdk h =
    continue-keeps IsValid _ (get_channel_id header, sdk)
      (λ c s hs. continue-keeps IsValid _ (get_channel_seq header, s) (λ n u hu. hu) hs) h

handle_i002-IsValid :
    (header : CommonHeader) (sdk : Sdk) → IsValid sdk → IsValid (handle_i002 header sdk).1
unfolding handle_i002
handle_i002-IsValid header sdk h =
    continue-keeps IsValid _ (get_channel_id header, sdk)
      (λ c s hs. record {
        cache_sorted = hs.cache_sorted;
        books_sorted = map_values-Sorted lexicographic reset s.order_books hs.books_sorted;
        channels_sorted = insert-Sorted numeric c 0 s.channel_sequences hs.channels_sorted;
        products = hs.products;
        books =
            map_values-AllEntries IsBook reset s.order_books
              (λ key book b. (reset-IsValid book, b.1)) hs.books;
        sequences =
            insert-AllEntries numeric IsSequence c 0 s.channel_sequences (omega arith) hs.sequences;
      })
      h

Step-IsValid : {sdk after : Sdk} → Step sdk after → IsValid sdk → IsValid after
Step-IsValid initializes h = record {
  cache_sorted = h.cache_sorted;
  books_sorted = h.books_sorted;
  channels_sorted = h.channels_sorted;
  products = h.products;
  books = h.books;
  sequences = h.sequences;
}
Step-IsValid {sdk} (processes raw) h =
    process_message-keeps IsValid (λ s c n small hs. record_sequence-IsValid s c n small hs) raw sdk
      h
Step-IsValid {sdk} (handles_i010 body) h = handle_i010-IsValid body sdk h
Step-IsValid {sdk} (handles_i081 body) h = handle_i081-IsValid body sdk h
Step-IsValid {sdk} (handles_i083 body) h = handle_i083-IsValid body sdk h
Step-IsValid {sdk} (handles_i001 header shaped) h = handle_i001-IsValid header sdk h
Step-IsValid {sdk} (handles_i002 header shaped) h = handle_i002-IsValid header sdk h

-- In every state that calls on the SDK reach, in any order and with any bytes, the three maps are sorted
-- without double keys, each cached product stands under its own id of ten characters, each book is valid
-- and stands under its own product id, and each sequence number has at most ten digits.
pub Reachable-IsValid : {sdk : Sdk} → Reachable sdk → IsValid sdk
Reachable-IsValid start = new_sdk-IsValid
Reachable-IsValid (next before step) = Step-IsValid step (Reachable-IsValid before)

-- The public interface: initialize and process_message.
pub data Fed : Sdk → Type 0 where
  fresh : Fed new_sdk
  initialized_after : {sdk : Sdk} → Fed sdk → Fed (initialize sdk).1
  fed : {sdk : Sdk} → Fed sdk → (raw : Option (List ℕ)) → Fed (process_message raw sdk).1

abbrev IsEmpty : Sdk → Type 0
IsEmpty sdk = (sdk.product_info_cache ≡ []) × (sdk.order_books ≡ [])

stores-IsEmpty :
    (sdk : Sdk) (c n : ℕ) → n < 10 ^ 10 → IsEmpty sdk → IsEmpty (record_sequence c n sdk).1
unfolding record_sequence compare_sequence
stores-IsEmpty sdk c n small h = ground arith

-- Through the public interface no product and no book is ever stored: whatever messages are fed to
-- process_message, both maps stay empty, since its dispatch to the handlers is commented out.
pub Fed-IsEmpty : {sdk : Sdk} → Fed sdk → (sdk.product_info_cache ≡ []) × (sdk.order_books ≡ [])
Fed-IsEmpty fresh = (refl, refl)
Fed-IsEmpty (initialized_after before) = Fed-IsEmpty before
Fed-IsEmpty (fed {sdk} before raw) =
    process_message-keeps IsEmpty stores-IsEmpty raw sdk (Fed-IsEmpty before)
