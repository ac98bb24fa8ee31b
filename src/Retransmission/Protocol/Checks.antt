-- ===== src/Retransmission/Protocol/Checks.antt =====
-- What the checksum of the retransmission protocol detects, and the check code of a numeric password.
use taifex_cpp_sdk.Prelude.{
  ℕ, ◌+◌, ◌*◌, ◌/◌, ◌%◌, ◌^◌, ◌<◌, ◌≡◌, ◌≢◌, refl, ap, ◌∙◌, true, false, List, [], ◌∷◌, ◌++◌,
  is_empty, arith,
}
use taifex_cpp_sdk.Conversion.{all_digits, digits_value}
use taifex_cpp_sdk.Conversion.Decimal.{convert_digits}
use taifex_cpp_sdk.Retransmission.Protocol.{
  byte_sum, calculate_retransmission_checksum, calculate_check_code,
}

unfoldable pub sum_all : List ℕ → ℕ
sum_all [] = 0
sum_all (b ∷ bs) = b + sum_all bs

byte_sum_lem : (sum : ℕ) (bs : List ℕ) → byte_sum sum bs % 256 ≡ (sum + sum_all bs) % 256
unfolding byte_sum sum_all
byte_sum_lem sum [] = omega arith
byte_sum_lem sum (b ∷ bs) = omega (arith, byte_sum_lem ((sum + b) % 2 ^ 32) bs)

sum_all-append : (xs ys : List ℕ) → sum_all (xs ++ ys) ≡ sum_all xs + sum_all ys
unfolding sum_all
sum_all-append [] ys = omega arith
sum_all-append (x ∷ xs) ys = omega (arith, sum_all-append xs ys)

-- The retransmission checksum is the sum of the bytes modulo 256, whatever their number, and it detects
-- every change of exactly one byte.
pub calculate_retransmission_checksum_one_byte :
    (xs ys : List ℕ) (a b : ℕ)
    → a < 256
    → b < 256
    → a ≢ b
    → (calculate_retransmission_checksum (xs ++ a ∷ ys) ≡ sum_all (xs ++ a ∷ ys) % 256)
      × (calculate_retransmission_checksum (xs ++ a ∷ ys)
          ≢ calculate_retransmission_checksum (xs ++ b ∷ ys))
unfolding calculate_retransmission_checksum sum_all
calculate_retransmission_checksum_one_byte xs ys a b ha hb differ = (
  omega (arith, byte_sum_lem 0 (xs ++ a ∷ ys)),
  λ e. differ (
      omega (
        arith,
        e,
        byte_sum_lem 0 (xs ++ a ∷ ys),
        byte_sum_lem 0 (xs ++ b ∷ ys),
        sum_all-append xs (a ∷ ys),
        sum_all-append xs (b ∷ ys),
      )),
)

-- The check code of a nonempty numeric password is the product with the operator, without its last two
-- digits, modulo 100, as long as the product fits in 63 bits; it has at most two digits.
pub calculate_check_code_lem :
    (mult_op : ℕ) (password : List ℕ)
    → password ≢ []
    → all_digits password ≡ true
    → digits_value 0 password < 2 ^ 63
    → mult_op * digits_value 0 password < 2 ^ 63
    → (calculate_check_code mult_op password ≡ mult_op * digits_value 0 password / 100 % 100)
      × (calculate_check_code mult_op password < 100)
unfolding calculate_check_code
calculate_check_code_lem mult_op password present digits small fits =
    let (_, _, converted) = convert_digits password present digits small in
    let v = digits_value 0 password in
    let filled : is_empty password ≡ false = not_empty password present in
    let code : calculate_check_code mult_op password ≡ mult_op * v / 100 % 100 =
      rw (calculate_check_code, filled, converted)
        (ap (λ (t : ℕ). mult_op * t / 100 % 100 % 256) (plus_zero v) ∙ below (mult_op * v)) in
    (code, omega (arith, code))
  where
    not_empty : (l : List ℕ) → l ≢ [] → is_empty l ≡ false
    not_empty [] h = absurd (h refl)
    not_empty (x ∷ l) h = refl

    plus_zero : (n : ℕ) → n + 0 ≡ n
    plus_zero n = omega arith

    below : (n : ℕ) → n / 100 % 100 % 256 ≡ n / 100 % 100
    below n = omega arith
