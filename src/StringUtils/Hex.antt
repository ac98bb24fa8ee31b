-- ===== src/StringUtils/Hex.antt =====
-- A reader of the text that string_utils.cpp writes.
use taifex_cpp_sdk.Prelude.{
  ℕ, ◌+◌, ◌-◌, ◌*◌, ◌/◌, ◌%◌, ◌<◌, ◌≡◌, refl, true, some, List, [], ◌∷◌, length, ltb, leb, ◌&&◌,
  ◌||◌, if◌then◌else◌, arith, All, IsByte,
}
use taifex_cpp_sdk.StringUtils.{
  hex_digit, hex_loop, bytes_to_hex_string, bytes_to_hex_string_vector,
}

-- The value of an uppercase hexadecimal digit.
abbrev pub digit_value : ℕ → ℕ
digit_value c = if ltb c b'A' then c - b'0' else c - b'A' + 10

-- A text of two digits for each byte, read back.
unfoldable pub parse_hex : List ℕ → List ℕ
parse_hex [] = []
parse_hex (c ∷ []) = []
parse_hex (c ∷ d ∷ text) = (digit_value c * 16 + digit_value d) ∷ parse_hex text

value-hex_digit : (n : ℕ) → n < 16 → digit_value (hex_digit n) ≡ n
value-hex_digit n h = ground arith

-- What a digit looks like.
abbrev pub IsHexDigit : ℕ → Type 0
IsHexDigit c = ((leb b'0' c && leb c b'9') || (leb b'A' c && leb c b'F')) ≡ true

hex_digit-IsHexDigit : (n : ℕ) → n < 16 → IsHexDigit (hex_digit n)
hex_digit-IsHexDigit n h = ground arith

-- The text of some bytes has two uppercase hexadecimal digits for each byte, from which the bytes are read
-- back, and both overloads agree.
pub parse_hex-bytes_to_hex_string :
    (bytes : List ℕ)
    → All IsByte bytes
    → (parse_hex (bytes_to_hex_string (some bytes)) ≡ bytes)
      × (length (bytes_to_hex_string (some bytes)) ≡ 2 * length bytes)
      × All IsHexDigit (bytes_to_hex_string (some bytes))
      × (bytes_to_hex_string_vector bytes ≡ bytes_to_hex_string (some bytes))
unfolding parse_hex hex_loop bytes_to_hex_string bytes_to_hex_string_vector
parse_hex-bytes_to_hex_string [] h = (refl, refl, tt, refl)
parse_hex-bytes_to_hex_string (b ∷ bytes) h =
    let (back, size, digits, same) = parse_hex-bytes_to_hex_string bytes h.1 in
    let byte = h.0 in
    let high = value-hex_digit (b / 16) (omega arith) in
    let low = value-hex_digit (b % 16) (omega arith) in
    let value : digit_value (hex_digit (b / 16)) * 16 + digit_value (hex_digit (b % 16)) ≡ b =
      omega (arith, high, low) in
    (
      (λ i. value i ∷ back i),
      omega arith,
      (
        hex_digit-IsHexDigit (b / 16) (omega arith),
        (hex_digit-IsHexDigit (b % 16) (omega arith), digits),
      ),
      refl,
    )
