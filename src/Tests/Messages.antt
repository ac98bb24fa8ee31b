-- ===== src/Tests/Messages.antt =====
-- The message bodies.
use taifex_cpp_sdk.Prelude.{ℕ, ◌%◌, ◌^◌, ◌≡◌, refl, some, List, [], ◌∷◌, ◌++◌, replicate, arith}
use taifex_cpp_sdk.Messages.I010.{parse_i010_body}
use taifex_cpp_sdk.Messages.I010.RoundTrip.{
  WireProduct, FitsProduct, product_of, product_wire, parse_i010_body-wire,
}
use taifex_cpp_sdk.Messages.I081.{MessageI081, parse_i081_body}
use taifex_cpp_sdk.Messages.I081.RoundTrip as Update
use taifex_cpp_sdk.Messages.I083.{MessageI083, parse_i083_body}
use taifex_cpp_sdk.Messages.I083.RoundTrip as Snapshot

abbrev pub txf : List ℕ
txf = b'T' ∷ b'X' ∷ b'F' ∷ b'F' ∷ b'3' ∷ replicate 5 b' '

abbrev pub txf_long : List ℕ
txf_long = txf ++ replicate 10 b' '

abbrev pub txf_product : WireProduct
txf_product = record {
  id = txf;
  price = 17250;
  kind = b'I';
  locator = 2;
  strike_locator = 0;
  begins = 20230101;
  ends = 20230920;
  group = 1;
  delivers = 20230920;
  banding = b'Y';
}

pub txf_product-FitsProduct : FitsProduct txf_product
txf_product-FitsProduct = record {
  id_fits = refl;
  price_fits = omega arith;
  locator_fits = omega arith;
  strike_fits = omega arith;
  group_fits = omega arith;
}

abbrev pub bid : Snapshot.WireEntry
bid = record { entry_type = b'0'; entry_sign = b'0'; price = 17250; quantity = 3; level = 1 }

abbrev pub delete_bid : Update.WireEntry
delete_bid = record {
  action = b'2';
  entry_type = b'0';
  entry_sign = b'0';
  price = 17250;
  quantity = 0;
  level = 1;
}

pub bid-FitsEntry : Snapshot.FitsEntry bid
bid-FitsEntry = record {
  price_fits = omega arith;
  quantity_fits = omega arith;
  level_fits = omega arith;
}

pub delete_bid-FitsEntry : Update.FitsEntry delete_bid
delete_bid-FitsEntry = record {
  price_fits = omega arith;
  quantity_fits = omega arith;
  level_fits = omega arith;
}

parse_i010_body-wire_example :
    parse_i010_body (some (product_wire txf_product [])) ≡ some (product_of txf_product)
parse_i010_body-wire_example = parse_i010_body-wire txf_product [] txf_product-FitsProduct

abbrev update_bytes : List ℕ
update_bytes = Update.body_wire txf_long 5000000000 (delete_bid ∷ []) []

abbrev snapshot_bytes : List ℕ
snapshot_bytes = Snapshot.body_wire txf_long 12 b'0' (bid ∷ []) []

abbrev update_parsed : MessageI081
update_parsed = record {
  prod_id = txf_long;
  prod_msg_seq = 5000000000 % 2 ^ 32;
  no_md_entries = 1;
  md_entries = Update.entries_of (delete_bid ∷ []);
}

abbrev snapshot_parsed : MessageI083
snapshot_parsed = record {
  prod_id = txf_long;
  prod_msg_seq = 12 % 2 ^ 32;
  calculated_flag = b'0';
  no_md_entries = 1;
  md_entries = Snapshot.entries_of (bid ∷ []);
}

parse_i081_body-wire_example : parse_i081_body (some update_bytes) ≡ some update_parsed
parse_i081_body-wire_example =
    Update.parse_i081_body-wire txf_long 5000000000 (delete_bid ∷ []) [] refl (omega arith)
      (omega arith) (delete_bid-FitsEntry, tt)

parse_i083_body-wire_example : parse_i083_body (some snapshot_bytes) ≡ some snapshot_parsed
parse_i083_body-wire_example =
    Snapshot.parse_i083_body-wire txf_long 12 b'0' (bid ∷ []) [] refl (omega arith) (omega arith)
      (bid-FitsEntry, tt)

-- Two announced entries, and no byte of them.
abbrev empty_announcement : List ℕ
empty_announcement = txf_long ++ (replicate 6 0 ++ 2 ∷ [])
