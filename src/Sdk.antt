-- ===== src/Sdk.antt =====
-- sdk/taifex_sdk.cpp and .h: the product information, the order books and the channel sequences, the
-- checks on a raw message, and the handlers of the message bodies. A call that may throw returns its
-- result with the state it leaves. A pointer to an order book is the key of the book in the map.
pub mod State
pub mod Verdict
pub mod Process
pub mod Handlers
pub mod Keeps
pub mod Reachable
pub mod EndToEnd
use taifex_cpp_sdk.Prelude.{
  ℕ, zero, suc, ◌+◌, ◌-◌, ◌%◌, ◌^◌, Bool, true, false, not, ◌&&◌, ◌||◌, Option, none, some, List,
  [], ◌∷◌, length, is_empty, get_or, slice, take, ltb, leb, ◌==◌, if◌then◌else◌,
}
use taifex_cpp_sdk.ErrorCodes.{Exception, Result, ok, err}
use taifex_cpp_sdk.Checksum.{calculate_xor_checksum}
use taifex_cpp_sdk.CommonHeader.{
  CommonHeader, header_size, default_header, parse, get_channel_id, get_channel_seq,
  get_body_length,
}
use taifex_cpp_sdk.SortedMap.{SortedMap, find, insert, map_values}
use taifex_cpp_sdk.SortedMap.Order.{lexicographic, numeric}
use taifex_cpp_sdk.Messages.I010.{MessageI010, parse_i010_body}
use taifex_cpp_sdk.Messages.I081.{MessageI081, parse_i081_body}
use taifex_cpp_sdk.Messages.I083.{MessageI083, parse_i083_body}
use taifex_cpp_sdk.OrderBook.{OrderBook, order_book, reset, apply_update, apply_snapshot}

pub record Sdk : Type 0 where
  pub product_info_cache : SortedMap (List ℕ) MessageI010
  pub order_books : SortedMap (List ℕ) OrderBook
  pub channel_sequences : SortedMap ℕ ℕ
  pub initialized : Bool

-- The constructor.
abbrev pub new_sdk : Sdk
new_sdk = record {
  product_info_cache = [];
  order_books = [];
  channel_sequences = [];
  initialized = false;
}

abbrev pub initialize : Sdk → Bool × Sdk
initialize sdk = (true, record sdk { initialized = true })

-- A call on the SDK: what it returns or throws, and the state after it.
abbrev pub Call : Type 0 → Type 0
Call A = Sdk → Result A × Sdk

abbrev pub continue : {A B : Type 0} → (A → Call B) → Result A × Sdk → Result B × Sdk
continue f (ok a, after) = f a after
continue f (err e, after) = (err e, after)

infixl 5 ◌>>=◌
abbrev pub ◌>>=◌ : {A B : Type 0} → Call A → (A → Call B) → Call B
m >>= f = λ sdk. continue f (m sdk)

abbrev pub return : {A : Type 0} → A → Call A
return a = λ sdk. (ok a, sdk)

-- A getter of the header, which may throw.
abbrev pub get : {A : Type 0} → Result A → Call A
get r = λ sdk. (r, sdk)

-- Storing a sequence number for a channel.
abbrev store_sequence : ℕ → ℕ → Bool → Call Bool
store_sequence channel_id seq result = λ sdk. (
  ok result,
  record sdk { channel_sequences = insert numeric channel_id seq sdk.channel_sequences },
)

-- The three cases for a channel with a known number; `last_known_seq + 1` is a uint64_t.
unfoldable pub compare_sequence : ℕ → ℕ → ℕ → Call Bool
compare_sequence channel_id current last_known_seq =
    if current == (last_known_seq + 1) % 2 ^ 64
    then store_sequence channel_id current true
    else if leb current last_known_seq
    then return false
    else store_sequence channel_id current false

unfoldable pub record_sequence : ℕ → ℕ → Call Bool
record_sequence channel_id current sdk = elim (find numeric channel_id sdk.channel_sequences) [
  | none ↦ store_sequence channel_id current true sdk
  | some last_known_seq ↦ compare_sequence channel_id current last_known_seq sdk
]

unfoldable pub is_sequence_valid : CommonHeader → Call Bool
is_sequence_valid header = get (get_channel_id header) >>= λ channel_id.
    get (get_channel_seq header) >>= λ current. record_sequence channel_id current

-- From the debug message on, which reads three fields of the header and throws if one is malformed.
-- The result of is_sequence_valid is not used, the identified name is only logged, and the dispatch to
-- the handlers is commented out.
unfoldable pub accept_message : CommonHeader → Call Unit
accept_message header = get (get_body_length header) >>= λ body_length.
    get (get_channel_id header) >>= λ channel_id.
    get (get_channel_seq header) >>= λ channel_seq. is_sequence_valid header >>= λ valid. return tt

-- The length of the message and the checksum over all bytes but the first and the last three.
unfoldable pub check_body : List ℕ → CommonHeader → ℕ → Call Unit
check_body raw temp_header body_len =
    if not (length raw == header_size + body_len + 1 + 2)
    then return tt
    else if not (
        calculate_xor_checksum (slice 1 (header_size - 1 + body_len) raw)
        == get_or raw (header_size + body_len) 0)
    then return tt
    else accept_message temp_header

unfoldable pub check_message : List ℕ → CommonHeader → Call Unit
check_message raw temp_header = get (get_body_length temp_header) >>= check_body raw temp_header

unfoldable pub process_message : Option (List ℕ) → Call Unit
process_message none = return tt
process_message (some raw) = λ sdk.
    let (parsed, temp_header) = parse (some raw) default_header in
    if not sdk.initialized || is_empty raw || ltb (length raw) (header_size + 1 + 2) || not parsed
    then (ok tt, sdk)
    else check_message raw temp_header sdk

-- `find`: the position of the first such character.
unfoldable pub position : ℕ → List ℕ → Option ℕ
position c [] = none
position c (x ∷ s) =
    let rest = position c s in
    if x == c then some 0 else elim rest [ none ↦ none | some n ↦ some (suc n) ]

unfoldable pub get_base_prod_id_for_i010_lookup : List ℕ → List ℕ
get_base_prod_id_for_i010_lookup prod_id = elim (position b'/' prod_id) [
  | some slash_pos ↦ take slash_pos prod_id
  | none ↦ if ltb 10 (length prod_id) then take 10 prod_id else prod_id
]

-- The book for the product, and whether there is one now; `none` is the null pointer.
unfoldable pub get_or_create_order_book : List ℕ → Sdk → Option OrderBook × Sdk
get_or_create_order_book product_id sdk = elim (find lexicographic product_id sdk.order_books) [
  | some book ↦ (some book, sdk)
  | none ↦
      elim (find lexicographic (get_base_prod_id_for_i010_lookup product_id)
        sdk.product_info_cache) [
          | some info ↦
              let book = order_book product_id info.decimal_locator in
              (
                some book,
                record sdk { order_books = insert lexicographic product_id book sdk.order_books },
              )
          | none ↦ (none, sdk)
        ]
]

-- A change through the pointer.
abbrev pub write_through : List ℕ → (OrderBook → OrderBook) → Option OrderBook × Sdk → Sdk
write_through product_id change (some book, after) = record after {
  order_books = insert lexicographic product_id (change book) after.order_books;
}
write_through product_id change (none, after) = after

unfoldable pub update_order_book : List ℕ → (OrderBook → OrderBook) → Sdk → Sdk
update_order_book product_id change sdk =
    write_through product_id change (get_or_create_order_book product_id sdk)

-- The handlers do not read the header beyond the log messages; the product id argument is unnamed.
unfoldable pub handle_i010 : Option (List ℕ) → Sdk → Sdk
handle_i010 body sdk = elim (parse_i010_body body) [
  | some msg ↦ record sdk {
    product_info_cache = insert lexicographic msg.prod_id_s msg sdk.product_info_cache;
  }
  | none ↦ sdk
]

unfoldable pub handle_i081 : Option (List ℕ) → Sdk → Sdk
handle_i081 body sdk = elim (parse_i081_body body) [
  | some msg ↦ update_order_book msg.prod_id (λ book. apply_update book msg) sdk
  | none ↦ sdk
]

unfoldable pub handle_i083 : Option (List ℕ) → Sdk → Sdk
handle_i083 body sdk = elim (parse_i083_body body) [
  | some msg ↦ update_order_book msg.prod_id (λ book. apply_snapshot book msg) sdk
  | none ↦ sdk
]

-- The log message reads the channel and the sequence number.
unfoldable pub handle_i001 : CommonHeader → Call Unit
handle_i001 header = get (get_channel_id header) >>= λ channel_id.
    get (get_channel_seq header) >>= λ channel_seq. return tt

-- The first log message reads the channel before anything is reset.
unfoldable pub handle_i002 : CommonHeader → Call Unit
handle_i002 header = get (get_channel_id header) >>= λ channel_id. λ sdk. (
  ok tt,
  record sdk {
    order_books = map_values reset sdk.order_books;
    channel_sequences = insert numeric channel_id 0 sdk.channel_sequences;
  },
)
