-- ===== src/Messages/I083.antt =====
-- messages/message_i083.cpp and .h: the order book snapshot.
pub mod RoundTrip
pub mod Bounds
use taifex_cpp_sdk.Prelude.{
  ℕ, zero, suc, ◌+◌, ◌*◌, ◌%◌, ◌^◌, Option, none, some, List, [], ◌∷◌, length, get_or, slice, ltb,
}
use taifex_cpp_sdk.Prelude.Int.{ℤ}
use taifex_cpp_sdk.Messages.ParserUtils.{read_unsigned, reject_if, ◌>>=◌, ◌>>◌}
use taifex_cpp_sdk.Messages.PriceFields.{parse_price_fields}

pub record MdEntryI083 : Type 0 where
  pub md_entry_type : ℕ
  pub sign : ℕ
  pub md_entry_px : ℤ
  pub md_entry_size : ℤ
  pub md_price_level : ℕ

pub record MessageI083 : Type 0 where
  pub prod_id : List ℕ
  pub prod_msg_seq : ℕ
  pub calculated_flag : ℕ
  pub no_md_entries : ℕ
  pub md_entries : List MdEntryI083

-- One round of the loop over the entries, at `offset`.
unfoldable pub parse_entry : ℕ → List ℕ → Option MdEntryI083
parse_entry offset body = do
  fields ← parse_price_fields (offset + 2) body
  some (record {
    md_entry_type = get_or body offset 0;
    sign = get_or body (offset + 1) 0;
    md_entry_px = fields.0;
    md_entry_size = fields.1;
    md_price_level = fields.2;
  })

-- The loop, with the rounds left and the offset.
unfoldable pub parse_entries : ℕ → ℕ → List ℕ → Option (List MdEntryI083)
parse_entries zero offset body = some []
parse_entries (suc left) offset body = do
  entry ← parse_entry offset body
  rest ← parse_entries left (offset + 12) body
  some (entry ∷ rest)

unfoldable pub parse_i083_body : Option (List ℕ) → Option MessageI083
parse_i083_body none = none
parse_i083_body (some body) = do
  reject_if (ltb (length body) 27)
  seq ← read_unsigned (slice 20 5 body) 10
  count ← read_unsigned (slice 26 1 body) 2
  reject_if (ltb (length body) (27 + count % 256 * 12))
  entries ← parse_entries (count % 256) 27 body
  some (record {
    prod_id = slice 0 20 body;
    prod_msg_seq = seq % 2 ^ 32;
    calculated_flag = get_or body 25 0;
    no_md_entries = count % 256;
    md_entries = entries;
  })
