-- ===== src/Conversion.antt =====
-- std::stoul, std::stoull and std::stoll of the C++ standard library in base 10, on an LP64 platform:
-- white space, a sign, and the longest run of digits. Strings are lists of character codes.
pub mod Decimal
use taifex_cpp_sdk.Prelude.{
  ℕ, zero, suc, ◌+◌, ◌-◌, ◌*◌, ◌%◌, ◌^◌, Bool, true, false, ◌&&◌, ◌||◌, List, [], ◌∷◌, ltb, leb,
  ◌==◌, if◌then◌else◌,
}
use taifex_cpp_sdk.Prelude.Int.{ℤ, pos, negsuc}
use taifex_cpp_sdk.ErrorCodes.{Result, ok, err, out_of_range, invalid_argument, ◌>>=◌}

-- std::isdigit and std::isspace in the "C" locale
abbrev pub is_digit : ℕ → Bool
is_digit c = leb b'0' c && leb c b'9'

-- std::all_of with std::isdigit
unfoldable pub all_digits : List ℕ → Bool
all_digits [] = true
all_digits (c ∷ s) = is_digit c && all_digits s

abbrev pub is_space : ℕ → Bool
is_space c = (c == 32) || (leb 9 c && leb c 13)

skip_spaces : List ℕ → List ℕ
skip_spaces [] = []
skip_spaces (c ∷ s) = if is_space c then skip_spaces s else c ∷ s

take_sign : List ℕ → Bool × List ℕ
take_sign [] = (false, [])
take_sign (c ∷ s) =
    if c == b'-' then (true, s) else (if c == b'+' then (false, s) else (false, c ∷ s))

-- The value of the leading digits, after `acc`.
unfoldable pub digits_value : ℕ → List ℕ → ℕ
digits_value acc [] = acc
digits_value acc (c ∷ s) =
    let rest = digits_value (acc * 10 + (c - b'0')) s in if is_digit c then rest else acc

starts_with_digit : List ℕ → Bool
starts_with_digit [] = false
starts_with_digit (c ∷ s) = is_digit c

-- Whether there is a minus sign, and the magnitude.
parse_integer : List ℕ → Result (Bool × ℕ)
unfolding skip_spaces take_sign starts_with_digit digits_value
parse_integer s =
    let (negative, t) = take_sign (skip_spaces s) in
    if starts_with_digit t then ok (negative, digits_value 0 t) else err invalid_argument

-- A minus sign negates modulo 2 ^ 64.
to_unsigned : Bool × ℕ → Result ℕ
to_unsigned (negative, v) =
    if ltb (2 ^ 64 - 1) v
    then err out_of_range
    else ok (if negative then (2 ^ 64 - v) % 2 ^ 64 else v)

to_signed : Bool × ℕ → Result ℤ
to_signed (false, v) = if ltb (2 ^ 63 - 1) v then err out_of_range else ok (pos v)
to_signed (true, zero) = ok (pos 0)
to_signed (true, suc v) = if ltb (2 ^ 63) (suc v) then err out_of_range else ok (negsuc v)

pub stoul : List ℕ → Result ℕ
unfolding parse_integer to_unsigned
stoul s = parse_integer s >>= to_unsigned

pub stoull : List ℕ → Result ℕ
unfolding parse_integer to_unsigned
stoull s = parse_integer s >>= to_unsigned

pub stoll : List ℕ → Result ℤ
unfolding parse_integer to_signed
stoll s = parse_integer s >>= to_signed
