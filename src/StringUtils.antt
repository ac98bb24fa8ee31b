-- ===== src/StringUtils.antt =====
-- string_utils.cpp and .h: bytes as text.
pub mod Hex
use taifex_cpp_sdk.Prelude.{
  ℕ, ◌+◌, ◌-◌, ◌/◌, ◌%◌, Option, none, some, List, [], ◌∷◌, ltb, if◌then◌else◌,
}

-- A null pointer is none. The length is that of the list.
unfoldable pub bytes_to_string : Option (List ℕ) → List ℕ
bytes_to_string none = []
bytes_to_string (some bytes) = bytes

-- `std::hex` and `std::uppercase`
abbrev pub hex_digit : ℕ → ℕ
hex_digit n = if ltb n 10 then b'0' + n else b'A' + n - 10

-- One value below 256 with `setw(2)` and `setfill('0')`.
abbrev pub hex_byte : ℕ → List ℕ → List ℕ
hex_byte b text = hex_digit (b / 16) ∷ hex_digit (b % 16) ∷ text

unfoldable pub hex_loop : List ℕ → List ℕ
hex_loop [] = []
hex_loop (b ∷ bytes) = hex_byte b (hex_loop bytes)

unfoldable pub bytes_to_hex_string : Option (List ℕ) → List ℕ
bytes_to_hex_string none = []
bytes_to_hex_string (some bytes) = hex_loop bytes

-- The overload for a vector.
unfoldable pub bytes_to_hex_string_vector : List ℕ → List ℕ
bytes_to_hex_string_vector [] = []
bytes_to_hex_string_vector (b ∷ bytes) = bytes_to_hex_string (some (b ∷ bytes))
