-- ===== src/Messages/PriceFields.antt =====
-- The last three fields of an entry, read alike by message_i081.cpp and message_i083.cpp.
use taifex_cpp_sdk.Prelude.{
  ℕ, ◌+◌, ◌%◌, ◌^◌, ◌<◌, ◌≡◌, ap, Option, some, List, ◌++◌, length, length-append, slice, arith,
  append_assoc, slice_here, slice_front, take_front,
}
use taifex_cpp_sdk.Prelude.Int.{ℤ, pos}
use taifex_cpp_sdk.Messages.ParserUtils.{read_unsigned, read_signed, ◌>>=◌}
use taifex_cpp_sdk.Messages.Wire.{bcd_bytes, length-bcd_bytes, read_number}

-- MD-ENTRY-PX, MD-ENTRY-SIZE and MD-PRICE-LEVEL from `offset` on.
pub parse_price_fields : ℕ → List ℕ → Option (ℤ × ℤ × ℕ)
parse_price_fields offset body = do
  px ← read_signed (slice offset 5 body) 9
  size ← read_signed (slice (offset + 5) 4 body) 8
  level ← read_unsigned (slice (offset + 9) 1 body) 2
  some (px, size, level % 256)

unfoldable pub price_wire : ℕ → ℕ → ℕ → List ℕ
price_wire px size level = bcd_bytes 5 px ++ (bcd_bytes 4 size ++ bcd_bytes 1 level)

pub length-price_wire : (px size level : ℕ) → length (price_wire px size level) ≡ 10
unfolding price_wire
length-price_wire px size level = omega (
  arith,
  length-append (bcd_bytes 5 px) (bcd_bytes 4 size ++ bcd_bytes 1 level),
  length-append (bcd_bytes 4 size) (bcd_bytes 1 level),
  length-bcd_bytes 5 px,
  length-bcd_bytes 4 size,
  length-bcd_bytes 1 level,
)

-- The three fields are read back wherever they stand.
pub parse_price_fields-wire :
    (px size level offset : ℕ) (before after : List ℕ)
    → px < 10 ^ 9
    → size < 10 ^ 8
    → level < 100
    → length before ≡ offset
    → parse_price_fields offset (before ++ (price_wire px size level ++ after))
      ≡ some (pos px, pos size, level)
unfolding parse_price_fields price_wire
parse_price_fields-wire px size level offset before after hp hs hl at_offset =
    let l2 : List ℕ = bcd_bytes 1 level ++ after in
    let l1 : List ℕ = bcd_bytes 4 size ++ l2 in
    let l0 : List ℕ = bcd_bytes 5 px ++ l1 in
    let whole : before ++ ((bcd_bytes 5 px ++ (bcd_bytes 4 size ++ bcd_bytes 1 level)) ++ after)
        ≡ before ++ l0 =
      simp append_assoc in
    rw
      (
        whole,
        slice_here offset 5 before l0 at_offset,
        slice_front offset 5 4 before l0 at_offset,
        slice_front offset 9 1 before l0 at_offset,
        take_front 5 (bcd_bytes 5 px) l1 (length-bcd_bytes 5 px),
        slice_here 5 4 (bcd_bytes 5 px) l1 (length-bcd_bytes 5 px),
        slice_front 5 4 1 (bcd_bytes 5 px) l1 (length-bcd_bytes 5 px),
        take_front 4 (bcd_bytes 4 size) l2 (length-bcd_bytes 4 size),
        slice_here 4 1 (bcd_bytes 4 size) l2 (length-bcd_bytes 4 size),
        take_front 1 (bcd_bytes 1 level) after (length-bcd_bytes 1 level),
        (read_number 5 9 px (omega arith) (omega arith) (omega arith) (omega arith) hp).1,
        (read_number 4 8 size (omega arith) (omega arith) (omega arith) (omega arith) hs).1,
        (read_number 1 2 level (omega arith) (omega arith) (omega arith) (omega arith) hl).0,
      )
      (ap (λ (t : ℕ). some (pos px, pos size, t)) (small_mod level hl))
  where
    small_mod : (n : ℕ) → n < 100 → n % 256 ≡ n
    small_mod n h = omega arith
