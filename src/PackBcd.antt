-- ===== src/PackBcd.antt =====
-- pack_bcd.cpp: packed binary coded decimals, two digits to a byte, and their ASCII digits.
pub mod RoundTrip
pub mod Value
use taifex_cpp_sdk.Prelude.{
  ℕ, zero, suc, ◌+◌, ◌-◌, ◌*◌, ◌/◌, ◌%◌, Bool, true, false, not, ◌||◌, List, [], ◌∷◌, ◌++◌, length,
  drop, replicate, bit_or, ltb, ◌==◌, if◌then◌else◌, is_empty,
}
use taifex_cpp_sdk.ErrorCodes.{Result, ok, err, runtime_error, ◌>>=◌}
use taifex_cpp_sdk.Conversion.{all_digits}

-- `unsigned char d = c - '0'`
digit_of : ℕ → ℕ
digit_of c = (c + 256 - b'0') % 256

-- `(d1 << 4) | d2`, pushed as an unsigned char
pub pack_byte : ℕ → ℕ → ℕ
unfolding digit_of
pack_byte c1 c2 = bit_or (digit_of c1 * 16) (digit_of c2) % 256

-- The loop over `s[i], s[i + 1]`; past an odd end stands the terminator of the string.
pub pack_pairs : List ℕ → List ℕ
pack_pairs [] = []
pack_pairs (c1 ∷ []) = pack_byte c1 0 ∷ []
pack_pairs (c1 ∷ c2 ∷ s) = pack_byte c1 c2 ∷ pack_pairs s

pub pad_even : List ℕ → List ℕ
pad_even s = if not (length s % 2 == 0) then b'0' ∷ s else s

pub ascii_to_pack_bcd : List ℕ → Result (List ℕ)
unfolding pack_pairs pad_even pack_byte
ascii_to_pack_bcd s =
    if not (all_digits s)
    then (if is_empty s then ok [] else err runtime_error)
    else (if is_empty s then ok [] else ok (pack_pairs (pad_even s)))

-- `(byte >> 4) & 0x0F` and `byte & 0x0F`
abbrev pub nibble1 : ℕ → ℕ
nibble1 byte = byte / 16 % 16

abbrev pub nibble2 : ℕ → ℕ
nibble2 byte = byte % 16

-- The loop that appends two digits for each byte, or throws.
pub unpack : List ℕ → Result (List ℕ)
unpack [] = ok []
unpack (byte ∷ bytes) =
    let rest = unpack bytes in
    if ltb 9 (nibble1 byte) || ltb 9 (nibble2 byte)
    then err runtime_error
    else rest >>= λ s. ok ((nibble1 byte + b'0') ∷ (nibble2 byte + b'0') ∷ s)

-- Zeros in front up to the wanted length, or the last digits.
pub fit_digits : List ℕ → ℕ → List ℕ
fit_digits full num_digits =
    if ltb (length full) num_digits
    then replicate (num_digits - length full) b'0' ++ full
    else (if ltb num_digits (length full) then drop (length full - num_digits) full else full)

pub pack_bcd_to_ascii : List ℕ → ℕ → Result (List ℕ)
unfolding unpack fit_digits
pack_bcd_to_ascii bcd num_digits = unpack bcd >>= λ full.
    if num_digits == 0
    then (if not (is_empty bcd) then ok full else ok [])
    else ok (fit_digits full num_digits)

-- The overload without a number of digits, with its own loop.
unpack_all : List ℕ → Result (List ℕ)
unpack_all [] = ok []
unpack_all (byte ∷ bytes) =
    let rest = unpack_all bytes in
    if ltb 9 (nibble1 byte)
    then err runtime_error
    else (if ltb 9 (nibble2 byte)
        then err runtime_error
        else rest >>= λ s. ok ((nibble1 byte + b'0') ∷ (nibble2 byte + b'0') ∷ s))

pub pack_bcd_to_ascii_all : List ℕ → Result (List ℕ)
unfolding unpack_all
pack_bcd_to_ascii_all bcd = if is_empty bcd then ok [] else unpack_all bcd
