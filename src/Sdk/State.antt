-- ===== src/Sdk/State.antt =====
-- The invariant of the SDK's state, and the states that its calls can reach.
use taifex_cpp_sdk.Prelude.{
  ℕ, ◌^◌, ◌<◌, ◌≡◌, sym, ◌∙◌, List, length, arith, Option-cases, Bool-cases, ◌⊎◌, inl, inr,
}
use taifex_cpp_sdk.ErrorCodes.{ok, err, parsing_error}
use taifex_cpp_sdk.PackBcd.Value.{all_bcd, bcd_value}
use taifex_cpp_sdk.CommonHeader.{CommonHeader, get_channel_id, get_channel_seq}
use taifex_cpp_sdk.CommonHeader.Layout.{IsShaped}
use taifex_cpp_sdk.CommonHeader.Getters.{getters, bcd_result-lt}
use taifex_cpp_sdk.SortedMap.{find, insert, Sorted, AllEntries}
use taifex_cpp_sdk.SortedMap.Order.{lexicographic, numeric}
use taifex_cpp_sdk.SortedMap.Sorted.{insert-Sorted}
use taifex_cpp_sdk.SortedMap.Entries.{insert-AllEntries}
use taifex_cpp_sdk.Messages.I010.{MessageI010}
use taifex_cpp_sdk.OrderBook.{OrderBook}
use taifex_cpp_sdk.OrderBook.Valid as Book
use taifex_cpp_sdk.Sdk.{Sdk, new_sdk, compare_sequence, record_sequence}

abbrev pub IsBook : List ℕ → OrderBook → Type 0
IsBook key book = Book.IsValid book × (book.product_id ≡ key)

abbrev pub IsProduct : List ℕ → MessageI010 → Type 0
IsProduct key info = (info.prod_id_s ≡ key) × (length key ≡ 10)

-- Sequence numbers have at most ten digits.
abbrev pub IsSequence : ℕ → ℕ → Type 0
IsSequence channel_id seq = seq < 10 ^ 10

pub record IsValid (sdk : Sdk) : Type 0 where
  pub cache_sorted : Sorted lexicographic sdk.product_info_cache
  pub books_sorted : Sorted lexicographic sdk.order_books
  pub channels_sorted : Sorted numeric sdk.channel_sequences
  pub products : AllEntries IsProduct sdk.product_info_cache
  pub books : AllEntries IsBook sdk.order_books
  pub sequences : AllEntries IsSequence sdk.channel_sequences

pub new_sdk-IsValid : IsValid new_sdk
new_sdk-IsValid = record {
  cache_sorted = tt;
  books_sorted = tt;
  channels_sorted = tt;
  products = tt;
  books = tt;
  sequences = tt;
}

pub store-IsValid :
    (sdk : Sdk) (channel_id seq : ℕ)
    → seq < 10 ^ 10
    → IsValid sdk
    → IsValid
        (record sdk { channel_sequences = insert numeric channel_id seq sdk.channel_sequences })
store-IsValid sdk channel_id seq small h = record {
  cache_sorted = h.cache_sorted;
  books_sorted = h.books_sorted;
  products = h.products;
  books = h.books;
  channels_sorted = insert-Sorted numeric channel_id seq sdk.channel_sequences h.channels_sorted;
  sequences =
      insert-AllEntries numeric IsSequence channel_id seq sdk.channel_sequences small h.sequences;
}

pub store_book-IsValid :
    (sdk : Sdk) (key : List ℕ) (book : OrderBook)
    → IsBook key book
    → IsValid sdk
    → IsValid (record sdk { order_books = insert lexicographic key book sdk.order_books })
store_book-IsValid sdk key book is_book h = record {
  cache_sorted = h.cache_sorted;
  channels_sorted = h.channels_sorted;
  products = h.products;
  sequences = h.sequences;
  books_sorted = insert-Sorted lexicographic key book sdk.order_books h.books_sorted;
  books = insert-AllEntries lexicographic IsBook key book sdk.order_books is_book h.books;
}

compare_sequence-IsValid :
    (sdk : Sdk) (channel_id current last : ℕ)
    → current < 10 ^ 10
    → IsValid sdk
    → IsValid (compare_sequence channel_id current last sdk).1
unfolding compare_sequence
compare_sequence-IsValid sdk channel_id current last small h =
    ground (arith, store-IsValid sdk channel_id current small h)

pub record_sequence-IsValid :
    (sdk : Sdk) (channel_id current : ℕ)
    → current < 10 ^ 10
    → IsValid sdk
    → IsValid (record_sequence channel_id current sdk).1
unfolding record_sequence
record_sequence-IsValid sdk channel_id current small h =
    elim (Option-cases (find numeric channel_id sdk.channel_sequences)) [
      | inl unknown ↦ rw (record_sequence, unknown) (store-IsValid sdk channel_id current small h)
      | inr (last, known) ↦
          rw (record_sequence, known) (compare_sequence-IsValid sdk channel_id current last small h)
    ]

-- The two numbers of a header, or one of them malformed.
pub header_numbers :
    (header : CommonHeader)
    → IsShaped header
    → ((channel_id : ℕ) × (seq : ℕ) × (get_channel_id header ≡ ok channel_id)
        × (get_channel_seq header ≡ ok seq)
        × (seq < 10 ^ 10))
      ⊎ (get_channel_id header ≡ err parsing_error)
      ⊎ ((channel_id : ℕ) × (get_channel_id header ≡ ok channel_id)
          × (get_channel_seq header ≡ err parsing_error))
header_numbers header shaped =
    let (gi, gs, _, _, _) = getters header shaped in
    elim (Bool-cases (all_bcd header.channel_id_bcd)) [
      | inr invalid ↦ inr (inl (rw invalid at gi))
      | inl valid ↦
          let id_read = rw valid at gi in
          elim (Bool-cases (all_bcd header.channel_seq_bcd)) [
            | inr invalid ↦ inr (inr (bcd_value header.channel_id_bcd, id_read, rw invalid at gs))
            | inl both ↦
                let seq_read = rw both at gs in
                let small =
                  bcd_result-lt header.channel_seq_bcd 10 {v = bcd_value header.channel_seq_bcd}
                    (omega arith) (sym gs ∙ seq_read) in
                inl (
                  bcd_value header.channel_id_bcd,
                  bcd_value header.channel_seq_bcd,
                  id_read,
                  seq_read,
                  small,
                )
          ]
    ]
