-- ===== src/Checksum.antt =====
-- checksum.cpp: the XOR checksum of a market data message. A span or vector of bytes is a list.
pub mod Detect
use taifex_cpp_sdk.Prelude.{
  ℕ, ◌%◌, ◌<◌, ◌≡◌, Bool, true, false, List, [], ◌∷◌, bit_xor, ◌==◌, if◌then◌else◌, is_empty,
}

-- `for (std::byte b : data_segment) checksum ^= b`, on an unsigned char.
xor_loop : ℕ → List ℕ → ℕ
xor_loop checksum [] = checksum
xor_loop checksum (b ∷ bs) = xor_loop (bit_xor checksum b % 256) bs

unfoldable pub calculate_xor_checksum : List ℕ → ℕ
unfolding xor_loop
calculate_xor_checksum data_segment = if is_empty data_segment then 0 else xor_loop 0 data_segment

pub calculate_xor_checksum_vector : List ℕ → ℕ
calculate_xor_checksum_vector bytes = if is_empty bytes then 0 else calculate_xor_checksum bytes

unfoldable pub verify_xor_checksum : List ℕ → ℕ → Bool
verify_xor_checksum data_segment expected_checksum =
    calculate_xor_checksum data_segment == expected_checksum

pub verify_xor_checksum_vector : List ℕ → ℕ → Bool
verify_xor_checksum_vector bytes expected_checksum = verify_xor_checksum bytes expected_checksum
