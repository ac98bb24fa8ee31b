-- ===== src/Messages/I010/RoundTrip.antt =====
-- Product data in the wire format of I010, written down independently of the parser, is parsed back.
use taifex_cpp_sdk.Prelude.{
  ℕ, ◌%◌, ◌^◌, ◌≤◌, ◌<◌, ◌≡◌, refl, ap, some, List, [], ◌∷◌, ◌++◌, length, arith, le→ltb, drop,
  length-drop, this_field, next_field, this_byte,
}
use taifex_cpp_sdk.Prelude.Int.{pos}
use taifex_cpp_sdk.PackBcd.Value.{ascii}
use taifex_cpp_sdk.Messages.Wire.{bcd_bytes, length-bcd_bytes, read_number, read_date}
use taifex_cpp_sdk.Messages.I010.{MessageI010, parse_i010_body}

-- The fields as the exchange sends them; the dates are numbers of eight digits.
pub record WireProduct : Type 0 where
  pub id : List ℕ
  pub price : ℕ
  pub kind : ℕ
  pub locator : ℕ
  pub strike_locator : ℕ
  pub begins : ℕ
  pub ends : ℕ
  pub group : ℕ
  pub delivers : ℕ
  pub banding : ℕ

pub record FitsProduct (w : WireProduct) : Type 0 where
  pub id_fits : length w.id ≡ 10
  pub price_fits : w.price < 10 ^ 9
  pub locator_fits : w.locator < 10
  pub strike_fits : w.strike_locator < 10
  pub group_fits : w.group < 100

abbrev pub product_of : WireProduct → MessageI010
product_of w = record {
  prod_id_s = w.id;
  reference_price = pos w.price;
  prod_kind = w.kind;
  decimal_locator = w.locator;
  strike_price_decimal_locator = w.strike_locator;
  begin_date = ascii (bcd_bytes 4 w.begins);
  end_date = ascii (bcd_bytes 4 w.ends);
  flow_group = w.group;
  delivery_date = ascii (bcd_bytes 4 w.delivers);
  dynamic_banding = w.banding;
}

unfoldable pub product_wire : WireProduct → List ℕ → List ℕ
product_wire w trailing =
    w.id
    ++ (bcd_bytes 5 w.price
        ++ (w.kind
            ∷ (bcd_bytes 1 w.locator
                ++ (bcd_bytes 1 w.strike_locator
                    ++ (bcd_bytes 4 w.begins
                        ++ (bcd_bytes 4 w.ends
                            ++ (bcd_bytes 1 w.group
                                ++ (bcd_bytes 4 w.delivers ++ (w.banding ∷ trailing)))))))))

-- Product data in the wire format is parsed back field by field, with anything behind it; the dates are
-- their eight digits.
pub parse_i010_body-wire :
    (w : WireProduct) (trailing : List ℕ)
    → FitsProduct w
    → parse_i010_body (some (product_wire w trailing)) ≡ some (product_of w)
unfolding parse_i010_body product_wire
parse_i010_body-wire w trailing fits =
    let body : List ℕ = product_wire w trailing in
    let l9 : List ℕ = w.banding ∷ trailing in
    let l8 : List ℕ = bcd_bytes 4 w.delivers ++ l9 in
    let l7 : List ℕ = bcd_bytes 1 w.group ++ l8 in
    let l6 : List ℕ = bcd_bytes 4 w.ends ++ l7 in
    let l5 : List ℕ = bcd_bytes 4 w.begins ++ l6 in
    let l4 : List ℕ = bcd_bytes 1 w.strike_locator ++ l5 in
    let l3 : List ℕ = bcd_bytes 1 w.locator ++ l4 in
    let l2 : List ℕ = w.kind ∷ l3 in
    let l1 : List ℕ = bcd_bytes 5 w.price ++ l2 in
    let d1 = next_field body 0 10 w.id l1 refl fits.id_fits in
    let d2 = next_field body 10 5 (bcd_bytes 5 w.price) l2 d1 (length-bcd_bytes 5 w.price) in
    let d3 : drop 16 body ≡ l3 = next_field body 15 1 (w.kind ∷ []) l3 d2 refl in
    let d4 = next_field body 16 1 (bcd_bytes 1 w.locator) l4 d3 (length-bcd_bytes 1 w.locator) in
    let d5 =
      next_field body 17 1 (bcd_bytes 1 w.strike_locator) l5 d4
        (length-bcd_bytes 1 w.strike_locator) in
    let d6 = next_field body 18 4 (bcd_bytes 4 w.begins) l6 d5 (length-bcd_bytes 4 w.begins) in
    let d7 = next_field body 22 4 (bcd_bytes 4 w.ends) l7 d6 (length-bcd_bytes 4 w.ends) in
    let d8 = next_field body 26 1 (bcd_bytes 1 w.group) l8 d7 (length-bcd_bytes 1 w.group) in
    let d9 = next_field body 27 4 (bcd_bytes 4 w.delivers) l9 d8 (length-bcd_bytes 4 w.delivers) in
    let long : 32 ≤ length body = omega (arith, length-drop 31 body, ap length d9) in
    rw
      (
        le→ltb (length body) 32 long,
        this_field body 10 5 (bcd_bytes 5 w.price) l2 d1 (length-bcd_bytes 5 w.price),
        this_byte body 15 w.kind l3 0 d2,
        this_field body 16 1 (bcd_bytes 1 w.locator) l4 d3 (length-bcd_bytes 1 w.locator),
        this_field body 17 1 (bcd_bytes 1 w.strike_locator) l5 d4
            (length-bcd_bytes 1 w.strike_locator),
        this_field body 18 4 (bcd_bytes 4 w.begins) l6 d5 (length-bcd_bytes 4 w.begins),
        this_field body 22 4 (bcd_bytes 4 w.ends) l7 d6 (length-bcd_bytes 4 w.ends),
        this_field body 26 1 (bcd_bytes 1 w.group) l8 d7 (length-bcd_bytes 1 w.group),
        this_field body 27 4 (bcd_bytes 4 w.delivers) l9 d8 (length-bcd_bytes 4 w.delivers),
        this_byte body 31 w.banding trailing 0 d9,
        (read_number 5 9 w.price (omega arith) (omega arith) (omega arith) (omega arith)
            fits.price_fits).1,
        (read_number 1 1 w.locator (omega arith) (omega arith) (omega arith) (omega arith)
            fits.locator_fits).0,
        (read_number 1 1 w.strike_locator (omega arith) (omega arith) (omega arith) (omega arith)
            fits.strike_fits).0,
        read_date w.begins,
        read_date w.ends,
        (read_number 1 2 w.group (omega arith) (omega arith) (omega arith) (omega arith)
            fits.group_fits).0,
        read_date w.delivers,
        this_field body 0 10 w.id l1 refl fits.id_fits,
        small w.locator fits.locator_fits,
        small w.strike_locator fits.strike_fits,
        small_group,
      )
      refl
  where
    small : (n : ℕ) → n < 10 → n % 256 ≡ n
    small n h = omega arith

    small_group : w.group % 256 ≡ w.group
    small_group = omega arith
