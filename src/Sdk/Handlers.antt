-- ===== src/Sdk/Handlers.antt =====
-- What the handlers of the message bodies do to the books.
use taifex_cpp_sdk.Prelude.{
  ℕ, zero, suc, ◌<◌, ◌≡◌, ◌≢◌, refl, ap, ◌∙◌, Bool, Option, none, some, List, [], ◌∷◌, length, take,
  length-take, arith, if◌then◌else◌, Option-cases, ◌⊎◌, inl, inr,
}
use taifex_cpp_sdk.ErrorCodes.{Exception, ok, err, Result-cases}
use taifex_cpp_sdk.CommonHeader.{CommonHeader, get_channel_id}
use taifex_cpp_sdk.SortedMap.{SortedMap, find, insert, same}
use taifex_cpp_sdk.SortedMap.Order.{lexicographic, numeric}
use taifex_cpp_sdk.SortedMap.Laws.{find-insert, find-same}
use taifex_cpp_sdk.SortedMap.Entries.{find-AllEntries, find-map_values}
use taifex_cpp_sdk.Messages.I010.{MessageI010}
use taifex_cpp_sdk.Messages.I081.{MessageI081, parse_i081_body}
use taifex_cpp_sdk.Messages.I083.{MessageI083, parse_i083_body}
use taifex_cpp_sdk.OrderBook.{OrderBook, order_book, reset, apply_update, apply_snapshot}
use taifex_cpp_sdk.Sdk.{
  Sdk, write_through, position, get_base_prod_id_for_i010_lookup, get_or_create_order_book,
  update_order_book, handle_i081, handle_i083, handle_i002,
}
use taifex_cpp_sdk.Sdk.State.{IsValid, IsProduct}

-- The book that a message for the product changes: the present one, else a fresh one if the product
-- that its id leads to is known.
unfoldable pub book_for : List ℕ → Sdk → Option OrderBook
book_for product_id sdk = elim (find lexicographic product_id sdk.order_books) [
  | some book ↦ some book
  | none ↦
      elim (find lexicographic (get_base_prod_id_for_i010_lookup product_id)
        sdk.product_info_cache) [
          | some info ↦ some (order_book product_id info.decimal_locator)
          | none ↦ none
        ]
]

abbrev pub changed : (OrderBook → OrderBook) → Option OrderBook → Option OrderBook
changed change none = none
changed change (some book) = some (change book)

-- The parts of the state that no message for a book touches.
abbrev pub other_parts : Sdk → SortedMap (List ℕ) MessageI010 × SortedMap ℕ ℕ × Bool
other_parts sdk = (sdk.product_info_cache, sdk.channel_sequences, sdk.initialized)

-- The three cases of the lookup.
module _ (product_id : List ℕ) (sdk : Sdk) where
  pub get_or_create-present :
      (book : OrderBook)
      → find lexicographic product_id sdk.order_books ≡ some book
      → (get_or_create_order_book product_id sdk ≡ (some book, sdk))
        × (book_for product_id sdk ≡ some book)
  unfolding get_or_create_order_book book_for
  get_or_create-present book present =
      (rw (get_or_create_order_book, present) refl, rw (book_for, present) refl)

  pub get_or_create-unknown :
      find lexicographic product_id sdk.order_books ≡ none
      → find lexicographic (get_base_prod_id_for_i010_lookup product_id) sdk.product_info_cache
        ≡ none
      → (get_or_create_order_book product_id sdk ≡ (none, sdk)) × (book_for product_id sdk ≡ none)
  unfolding get_or_create_order_book book_for
  get_or_create-unknown absent unknown =
      (rw (get_or_create_order_book, absent, unknown) refl, rw (book_for, absent, unknown) refl)

  pub get_or_create-fresh :
      (info : MessageI010)
      → find lexicographic product_id sdk.order_books ≡ none
      → find lexicographic (get_base_prod_id_for_i010_lookup product_id) sdk.product_info_cache
        ≡ some info
      → (get_or_create_order_book product_id sdk ≡ (
        some (order_book product_id info.decimal_locator),
        record sdk {
          order_books =
              insert lexicographic product_id
                (order_book product_id info.decimal_locator)
                sdk.order_books;
        },
      ))
        × (book_for product_id sdk ≡ some (order_book product_id info.decimal_locator))
  unfolding get_or_create_order_book book_for
  get_or_create-fresh info absent known =
      (rw (get_or_create_order_book, absent, known) refl, rw (book_for, absent, known) refl)

module _ (product_id : List ℕ) (change : OrderBook → OrderBook) (sdk : Sdk) where
  -- What update_order_book does to the lookups and to the rest of the state.
  abbrev Updates : List ℕ → Sdk → Option OrderBook → Type 0
  Updates key after target =
      (find lexicographic key after.order_books ≡ (
        if same lexicographic product_id key
        then changed change target
        else find lexicographic key sdk.order_books))
      × (other_parts after ≡ other_parts sdk)

  update_order_book_lem :
      (key : List ℕ)
      → Updates key (update_order_book product_id change sdk) (book_for product_id sdk)
  unfolding update_order_book
  update_order_book_lem key =
      let base = get_base_prod_id_for_i010_lookup product_id in
      elim (Option-cases (find lexicographic product_id sdk.order_books)) [
        | inr (book, present) ↦
            let (found, target) = get_or_create-present product_id sdk book present in
            rw (update_order_book, found, target)
              (find-insert lexicographic key product_id (change book) sdk.order_books, refl)
        | inl absent ↦ elim (Option-cases (find lexicographic base sdk.product_info_cache)) [
          | inl unknown ↦
              let (found, target) = get_or_create-unknown product_id sdk absent unknown in
              rw (update_order_book, found, target)
                (
                  ground (arith, absent, find-same lexicographic key product_id sdk.order_books),
                  refl,
                )
          | inr (info, known) ↦
              let fresh = order_book product_id info.decimal_locator in
              let (found, target) = get_or_create-fresh product_id sdk info absent known in
              rw (update_order_book, found, target)
                (
                  ground (
                    arith,
                    find-insert lexicographic key product_id (change fresh)
                        (insert lexicographic product_id fresh sdk.order_books),
                    find-insert lexicographic key product_id fresh sdk.order_books,
                  ),
                  refl,
                )
        ]
      ]

module _ (body : Option (List ℕ)) (sdk : Sdk) (key : List ℕ) where
  -- A parsed order book update is applied to the book of its product, which is created first if the
  -- product's data is known, and to no other book; without a book and without data for one nothing
  -- changes, and the products, the channels and the flag never do.
  pub handle_i081_lem :
      (msg : MessageI081)
      → parse_i081_body body ≡ some msg
      → (find lexicographic key (handle_i081 body sdk).order_books ≡ (
          if same lexicographic msg.prod_id key
          then changed (λ book. apply_update book msg) (book_for msg.prod_id sdk)
          else find lexicographic key sdk.order_books))
        × (other_parts (handle_i081 body sdk) ≡ other_parts sdk)
  unfolding handle_i081
  handle_i081_lem msg parsed =
      rw (handle_i081, parsed)
        (update_order_book_lem msg.prod_id (λ book. apply_update book msg) sdk key)

  -- A parsed snapshot replaces the contents of the book of its product in the same way.
  pub handle_i083_lem :
      (msg : MessageI083)
      → parse_i083_body body ≡ some msg
      → (find lexicographic key (handle_i083 body sdk).order_books ≡ (
          if same lexicographic msg.prod_id key
          then changed (λ book. apply_snapshot book msg) (book_for msg.prod_id sdk)
          else find lexicographic key sdk.order_books))
        × (other_parts (handle_i083 body sdk) ≡ other_parts sdk)
  unfolding handle_i083
  handle_i083_lem msg parsed =
      rw (handle_i083, parsed)
        (update_order_book_lem msg.prod_id (λ book. apply_snapshot book msg) sdk key)

map_changed :
    (f : OrderBook → OrderBook) (o : Option OrderBook)
    → elim o [ none ↦ none | some v ↦ some (f v) ] ≡ changed f o
map_changed f none = refl
map_changed f (some v) = refl

-- A sequence reset of a readable channel leaves every book reset under its product, and no other book,
-- sets the number of that channel to 0 and keeps those of the other channels, and keeps the products; if
-- the channel cannot be read it throws and changes nothing.
pub handle_i002_lem :
    (header : CommonHeader) (sdk : Sdk) (key : List ℕ) (channel : ℕ)
    → ((channel_id : ℕ) × (get_channel_id header ≡ ok channel_id)
        × (find lexicographic key (handle_i002 header sdk).1.order_books
            ≡ changed reset (find lexicographic key sdk.order_books))
        × (find numeric channel (handle_i002 header sdk).1.channel_sequences ≡ (
            if same numeric channel_id channel
            then some 0
            else find numeric channel sdk.channel_sequences))
        × ((handle_i002 header sdk).1.product_info_cache ≡ sdk.product_info_cache)
        × ((handle_i002 header sdk).0 ≡ ok tt))
      ⊎ ((e : Exception) × (handle_i002 header sdk ≡ (err e, sdk)))
unfolding handle_i002
handle_i002_lem header sdk key channel = elim (Result-cases (get_channel_id header)) [
  | inr (e, thrown) ↦ inr (e, rw (handle_i002, thrown) refl)
  | inl (channel_id, read) ↦ inl (
    channel_id,
    read,
    rw (handle_i002, read)
        (find-map_values lexicographic reset key sdk.order_books
          ∙ map_changed reset (find lexicographic key sdk.order_books)),
    rw (handle_i002, read) (find-insert numeric channel channel_id 0 sdk.channel_sequences),
    rw (handle_i002, read) refl,
    rw (handle_i002, read) refl,
  )
]

position-lt : (c : ℕ) (s : List ℕ) (n : ℕ) → position c s ≡ some n → n < length s
unfolding position
position-lt c [] n e = absurd (ground arith)
position-lt c (x ∷ s) zero e = omega arith
position-lt c (x ∷ s) (suc n) e = ground (arith, position-lt c s n)

-- The position of the slash in a product id decides whether a book can be made for it: the keys of the
-- cache have ten characters, so with the first slash elsewhere than at position 10 no product is found,
-- and an update or a snapshot for it changes nothing unless it already has a book.
pub slash_without_book :
    (sdk : Sdk) (product_id : List ℕ) (slash_pos : ℕ) (change : OrderBook → OrderBook)
    → IsValid sdk
    → position b'/' product_id ≡ some slash_pos
    → slash_pos ≢ 10
    → find lexicographic product_id sdk.order_books ≡ none
    → update_order_book product_id change sdk ≡ sdk
unfolding update_order_book get_or_create_order_book get_base_prod_id_for_i010_lookup
slash_without_book sdk product_id slash_pos change valid at_slash other absent =
    let base : get_base_prod_id_for_i010_lookup product_id ≡ take slash_pos product_id =
      rw (get_base_prod_id_for_i010_lookup, at_slash) refl in
    elim (Option-cases (find lexicographic (take slash_pos product_id) sdk.product_info_cache)) [
      | inl unknown ↦
          let (found, _) = get_or_create-unknown product_id sdk absent (rw base unknown) in
          ap (write_through product_id change) found
      | inr (info, known) ↦
          let key =
            find-AllEntries lexicographic IsProduct (take slash_pos product_id) info
              sdk.product_info_cache valid.products known in
          absurd (
            other (
              omega (
                arith,
                key.1,
                length-take slash_pos product_id,
                position-lt b'/' product_id slash_pos at_slash,
              )))
    ]
