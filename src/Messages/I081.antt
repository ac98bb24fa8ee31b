-- ===== src/Messages/I081.antt =====
-- messages/message_i081.cpp and .h: the differential order book update.
pub mod RoundTrip
pub mod Bounds
use taifex_cpp_sdk.Prelude.{
  ℕ, zero, suc, ◌+◌, ◌*◌, ◌%◌, ◌^◌, Option, none, some, List, [], ◌∷◌, length, get_or, slice, ltb,
}
use taifex_cpp_sdk.Prelude.Int.{ℤ}
use taifex_cpp_sdk.Messages.ParserUtils.{read_unsigned, reject_if, ◌>>=◌, ◌>>◌}
use taifex_cpp_sdk.Messages.PriceFields.{parse_price_fields}

pub record MdEntryI081 : Type 0 where
  pub md_update_action : ℕ
  pub md_entry_type : ℕ
  pub sign : ℕ
  pub md_entry_px : ℤ
  pub md_entry_size : ℤ
  pub md_price_level : ℕ

pub record MessageI081 : Type 0 where
  pub prod_id : List ℕ
  pub prod_msg_seq : ℕ
  pub no_md_entries : ℕ
  pub md_entries : List MdEntryI081

-- One round of the loop over the entries, at `offset`.
unfoldable pub parse_entry : ℕ → List ℕ → Option MdEntryI081
parse_entry offset body = do
  fields ← parse_price_fields (offset + 3) body
  some (record {
    md_update_action = get_or body offset 0;
    md_entry_type = get_or body (offset + 1) 0;
    sign = get_or body (offset + 2) 0;
    md_entry_px = fields.0;
    md_entry_size = fields.1;
    md_price_level = fields.2;
  })

-- The loop, with the rounds left and the offset.
unfoldable pub parse_entries : ℕ → ℕ → List ℕ → Option (List MdEntryI081)
parse_entries zero offset body = some []
parse_entries (suc left) offset body = do
  entry ← parse_entry offset body
  rest ← parse_entries left (offset + 13) body
  some (entry ∷ rest)

unfoldable pub parse_i081_body : Option (List ℕ) → Option MessageI081
parse_i081_body none = none
parse_i081_body (some body) = do
  reject_if (ltb (length body) 26)
  seq ← read_unsigned (slice 20 5 body) 10
  count ← read_unsigned (slice 25 1 body) 2
  reject_if (ltb (length body) (26 + count % 256 * 13))
  entries ← parse_entries (count % 256) 26 body
  some (record {
    prod_id = slice 0 20 body;
    prod_msg_seq = seq % 2 ^ 32;
    no_md_entries = count % 256;
    md_entries = entries;
  })
