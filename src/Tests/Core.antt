-- ===== src/Tests/Core.antt =====
-- The utilities: checksum, packed decimals, common header.
use taifex_cpp_sdk.Prelude.{
  length, ◌/◌, ℕ, ◌≡◌, refl, true, false, some, List, [], ◌∷◌, ◌++◌, replicate, arith,
  if◌then◌else◌,
}
use taifex_cpp_sdk.ErrorCodes.{ok, err, runtime_error, parsing_error, ◌>>=◌}
use taifex_cpp_sdk.Conversion.{all_digits}
use taifex_cpp_sdk.PackBcd.{ascii_to_pack_bcd, pack_bcd_to_ascii}
use taifex_cpp_sdk.PackBcd.Value.{all_bcd, ascii, bcd_value, IsField, pack_bcd_to_ascii-value}
use taifex_cpp_sdk.PackBcd.RoundTrip.{pack_bcd_to_ascii-ascii_to_pack_bcd}
use taifex_cpp_sdk.CommonHeader.{
  CommonHeader, default_header, parse, get_channel_id, get_channel_seq, get_version_no,
  get_body_length, get_information_time_string,
}
use taifex_cpp_sdk.CommonHeader.Layout.{IsShaped, wire, parse-wire}
use taifex_cpp_sdk.CommonHeader.Getters.{bcd_result, getters}
use taifex_cpp_sdk.Checksum.{
  calculate_xor_checksum, verify_xor_checksum, verify_xor_checksum_vector,
}
use taifex_cpp_sdk.Checksum.Detect.{verify_xor_checksum_one_byte}

checksum_123 : calculate_xor_checksum (0x01 ∷ 0x02 ∷ 0x03 ∷ 0x05 ∷ []) ≡ 5
unfolding calculate_xor_checksum
checksum_123 = refl

verify_xor_checksum_one_byte_example :
    (verify_xor_checksum (1 ∷ 9 ∷ 3 ∷ []) 0 ≡ false)
    × (verify_xor_checksum_vector (1 ∷ 9 ∷ 3 ∷ []) 0 ≡ false)
unfolding verify_xor_checksum calculate_xor_checksum
verify_xor_checksum_one_byte_example =
    verify_xor_checksum_one_byte (1 ∷ []) 2 9 (3 ∷ []) 0 (omega arith) (omega arith) (omega arith)
      refl

pack_bcd_to_ascii-value_example :
    (s : List ℕ) × (pack_bcd_to_ascii (0x12 ∷ 0x34 ∷ []) 3 ≡ ok s)
    × IsField 3 (bcd_value (0x12 ∷ 0x34 ∷ [])) s
pack_bcd_to_ascii-value_example = pack_bcd_to_ascii-value (0x12 ∷ 0x34 ∷ []) 3 refl (omega arith)

pack_bcd_to_ascii-ascii_to_pack_bcd_example :
    ((ascii_to_pack_bcd (b'1' ∷ b'2' ∷ b'x' ∷ []) >>= λ bcd. ok (length bcd))
      ≡ (if all_digits (b'1' ∷ b'2' ∷ b'x' ∷ []) then ok (4 / 2) else err runtime_error))
    × ((ascii_to_pack_bcd (b'1' ∷ b'2' ∷ b'x' ∷ []) >>= λ bcd. pack_bcd_to_ascii bcd 3) ≡ (
        if all_digits (b'1' ∷ b'2' ∷ b'x' ∷ [])
        then ok (b'1' ∷ b'2' ∷ b'x' ∷ [])
        else err runtime_error))
pack_bcd_to_ascii-ascii_to_pack_bcd_example =
    pack_bcd_to_ascii-ascii_to_pack_bcd (b'1' ∷ b'2' ∷ b'x' ∷ [])

abbrev header : CommonHeader
header = record default_header {
  transmission_code = b'1';
  message_kind = b'1';
  channel_seq_bcd = 0 ∷ 0 ∷ 0 ∷ 0x12 ∷ 0x34 ∷ [];
}

abbrev options_header : CommonHeader
options_header = record default_header { transmission_code = b'4'; message_kind = b'1' }

header-IsShaped : IsShaped header
header-IsShaped = record {
  time_size = refl;
  channel_size = refl;
  seq_size = refl;
  body_size = refl;
}

getters_example :
    (get_channel_id header ≡ bcd_result (0 ∷ 0 ∷ []))
    × (get_channel_seq header ≡ bcd_result (0 ∷ 0 ∷ 0 ∷ 0x12 ∷ 0x34 ∷ []))
    × (get_version_no header ≡ bcd_result (0 ∷ []))
    × (get_body_length header ≡ bcd_result (0 ∷ 0 ∷ []))
    × (get_information_time_string header
        ≡ (if all_bcd (replicate 6 0) then ok (ascii (replicate 6 0)) else err parsing_error))
getters_example = getters header header-IsShaped

parse-wire_example : parse (some (wire header ++ (7 ∷ []))) default_header ≡ (true, header)
parse-wire_example = parse-wire header default_header (7 ∷ []) header-IsShaped
