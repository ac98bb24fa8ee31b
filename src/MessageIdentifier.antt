-- ===== src/MessageIdentifier.antt =====
-- message_identifier.cpp: the message of a header, from its transmission code and message kind.
pub mod Laws
use taifex_cpp_sdk.Prelude.{
  ℕ, zero, suc, ◌+◌, ◌-◌, ◌/◌, ◌%◌, Bool, true, false, ◌&&◌, Option, none, some, List, [], ◌∷◌,
  ◌++◌, length, replicate, ltb, ◌==◌, if◌then◌else◌,
}
use taifex_cpp_sdk.Prelude.Int.{ℤ, pos, negsuc, ◌==ℤ◌}
use taifex_cpp_sdk.CommonHeader.{CommonHeader}

-- std::to_string of an int that is not negative: at most ten digits.
unfoldable pub decimal_digits : ℕ → ℕ → List ℕ
decimal_digits zero n = []
decimal_digits (suc left) n =
    let front = decimal_digits left (n / 10) in
    (if ltb n 10 then [] else front) ++ ((n % 10 + b'0') ∷ [])

-- std::setfill('0') and std::setw(3): padded on the left to three characters.
unfoldable pub set_width : ℕ → List ℕ → List ℕ
set_width width s = replicate (width - length s) b'0' ++ s

unfoldable pub format_last_three_digits : ℤ → List ℕ
format_last_three_digits (pos code_val) = set_width 3 (decimal_digits 10 (code_val % 1000))
format_last_three_digits (negsuc n) = b'X' ∷ b'X' ∷ b'X' ∷ []

-- `message_map`, in the order of its initializer.
abbrev pub message_map : List ((ℕ × ℕ) × ℤ)
message_map =
    ((b'0', b'1'), pos 1001)
    ∷ ((b'0', b'2'), pos 1002)
    ∷ ((b'1', b'1'), pos 1010)
    ∷ ((b'1', b'2'), pos 1030)
    ∷ ((b'1', b'3'), pos 1011)
    ∷ ((b'1', b'4'), pos 1050)
    ∷ ((b'1', b'5'), pos 1060)
    ∷ ((b'1', b'6'), pos 1120)
    ∷ ((b'1', b'7'), pos 1130)
    ∷ ((b'1', b'8'), pos 1064)
    ∷ ((b'1', b'A'), pos 1012)
    ∷ ((b'2', b'1'), pos 1070)
    ∷ ((b'2', b'2'), pos 1071)
    ∷ ((b'2', b'3'), pos 1072)
    ∷ ((b'2', b'4'), pos 1100)
    ∷ ((b'2', b'A'), pos 1081)
    ∷ ((b'2', b'B'), pos 1083)
    ∷ ((b'2', b'C'), pos 1084)
    ∷ ((b'2', b'D'), pos 1024)
    ∷ ((b'2', b'E'), pos 1025)
    ∷ ((b'3', b'1'), pos 1070)
    ∷ ((b'3', b'3'), pos 1140)
    ∷ ((b'3', b'4'), pos 1073)
    ∷ ((b'4', b'1'), pos 1010)
    ∷ ((b'4', b'2'), pos 1030)
    ∷ ((b'4', b'3'), pos 1011)
    ∷ ((b'4', b'4'), pos 1050)
    ∷ ((b'4', b'5'), pos 1060)
    ∷ ((b'4', b'6'), pos 1120)
    ∷ ((b'4', b'7'), pos 1130)
    ∷ ((b'4', b'8'), pos 1064)
    ∷ ((b'4', b'A'), pos 1012)
    ∷ ((b'5', b'1'), pos 1070)
    ∷ ((b'5', b'2'), pos 1071)
    ∷ ((b'5', b'3'), pos 1072)
    ∷ ((b'5', b'4'), pos 1100)
    ∷ ((b'5', b'A'), pos 1081)
    ∷ ((b'5', b'B'), pos 1083)
    ∷ ((b'5', b'C'), pos 1084)
    ∷ ((b'5', b'D'), pos 1024)
    ∷ ((b'5', b'E'), pos 1025)
    ∷ []

-- `find` in the map: the keys are compared as pairs, and of two equal keys the first counts.
unfoldable pub find_code : ℕ → ℕ → List ((ℕ × ℕ) × ℤ) → Option ℤ
find_code tc mk [] = none
find_code tc mk (((t, k), code) ∷ rest) =
    if (tc == t) && (mk == k) then some code else find_code tc mk rest

-- The name of a found code: "M1001", "M1002", or 'I' and three digits.
abbrev pub name_of : ℤ → List ℕ
name_of code_val =
    if code_val ==ℤ pos 1001
    then b'M' ∷ b'1' ∷ b'0' ∷ b'0' ∷ b'1' ∷ []
    else if code_val ==ℤ pos 1002
    then b'M' ∷ b'1' ∷ b'0' ∷ b'0' ∷ b'2' ∷ []
    else b'I' ∷ format_last_three_digits code_val

unfoldable pub identify_message_id : CommonHeader → List ℕ
identify_message_id header =
    elim (find_code header.transmission_code header.message_kind message_map) [
      | some code_val ↦ name_of code_val
      | none ↦ []
    ]
