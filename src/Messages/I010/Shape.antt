-- ===== src/Messages/I010/Shape.antt =====
-- What every parsed I010 satisfies.
use taifex_cpp_sdk.Prelude.{
  ℕ, ◌≡◌, sym, ap, ◌∙◌, Option, none, some, List, length, length-slice, slice, ltb, arith,
}
use taifex_cpp_sdk.Messages.ParserUtils.{
  read_digits, read_unsigned, read_signed, bind_some, reject_if-some,
}
use taifex_cpp_sdk.Messages.I010.{MessageI010, parse_i010_body}

-- The product id of a parsed message is ten bytes long.
pub length-prod_id_s :
    (body : Option (List ℕ)) (msg : MessageI010)
    → parse_i010_body body ≡ some msg
    → length msg.prod_id_s ≡ 10
unfolding parse_i010_body
length-prod_id_s none msg e = absurd (ground arith)
length-prod_id_s (some body) msg e =
    let (long, e0) = reject_if-some (ltb (length body) 32) _ msg e in
    let (price, _, e1) = bind_some (read_signed (slice 10 5 body) 9) _ msg e0 in
    let (locator, _, e2) = bind_some (read_unsigned (slice 16 1 body) 1) _ msg e1 in
    let (strike, _, e3) = bind_some (read_unsigned (slice 17 1 body) 1) _ msg e2 in
    let (begins, _, e4) = bind_some (read_digits (slice 18 4 body) 8) _ msg e3 in
    let (ends, _, e5) = bind_some (read_digits (slice 22 4 body) 8) _ msg e4 in
    let (group, _, e6) = bind_some (read_unsigned (slice 26 1 body) 2) _ msg e5 in
    let (delivers, _, e7) = bind_some (read_digits (slice 27 4 body) 8) _ msg e6 in
    let id : slice 0 10 body ≡ msg.prod_id_s = ground arith in
    ap length (sym id) ∙ length-slice 0 10 body (ground arith)
