-- ===== src/Messages/I010.antt =====
-- messages/message_i010.cpp and .h: the basic data of a product.
pub mod Shape
pub mod RoundTrip
use taifex_cpp_sdk.Prelude.{ℕ, ◌%◌, Option, none, some, List, length, get_or, slice, ltb}
use taifex_cpp_sdk.Prelude.Int.{ℤ}
use taifex_cpp_sdk.Messages.ParserUtils.{
  read_digits, read_unsigned, read_signed, reject_if, ◌>>=◌, ◌>>◌,
}

pub record MessageI010 : Type 0 where
  pub prod_id_s : List ℕ
  pub reference_price : ℤ
  pub prod_kind : ℕ
  pub decimal_locator : ℕ
  pub strike_price_decimal_locator : ℕ
  pub begin_date : List ℕ
  pub end_date : List ℕ
  pub flow_group : ℕ
  pub delivery_date : List ℕ
  pub dynamic_banding : ℕ

unfoldable pub parse_i010_body : Option (List ℕ) → Option MessageI010
parse_i010_body none = none
parse_i010_body (some body) = do
  reject_if (ltb (length body) 32)
  price ← read_signed (slice 10 5 body) 9
  locator ← read_unsigned (slice 16 1 body) 1
  strike_locator ← read_unsigned (slice 17 1 body) 1
  begin_date ← read_digits (slice 18 4 body) 8
  end_date ← read_digits (slice 22 4 body) 8
  group ← read_unsigned (slice 26 1 body) 2
  delivery_date ← read_digits (slice 27 4 body) 8
  some (record {
    prod_id_s = slice 0 10 body;
    reference_price = price;
    prod_kind = get_or body 15 0;
    decimal_locator = locator % 256;
    strike_price_decimal_locator = strike_locator % 256;
    begin_date = begin_date;
    end_date = end_date;
    flow_group = group % 256;
    delivery_date = delivery_date;
    dynamic_banding = get_or body 31 0;
  })
