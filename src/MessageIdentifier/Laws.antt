-- ===== src/MessageIdentifier/Laws.antt =====
-- Three digits, the names of the table, and the two markets.
use taifex_cpp_sdk.Prelude.{
  ℕ, ◌+◌, ◌/◌, ◌%◌, ◌≤◌, ◌<◌, ◌≡◌, refl, sym, ap, ◌∙◌, Bool, true, false, ◌&&◌, none, some, List,
  [], ◌∷◌, arith, ltb, ltb→lt, leb, &&-true, Option-cases, ◌==◌, if◌then◌else◌, ◌⊎◌, Bool-cases,
  inl, inr,
}
use taifex_cpp_sdk.Prelude.Int.{ℤ, pos, negsuc, ◌==ℤ◌, ==ℤ_iff}
use taifex_cpp_sdk.CommonHeader.{CommonHeader}
use taifex_cpp_sdk.Conversion.{is_digit, digits_value}
use taifex_cpp_sdk.MessageIdentifier.{
  decimal_digits, set_width, format_last_three_digits, message_map, find_code, name_of,
  identify_message_id,
}

-- The three characters are the hundreds, tens and units digits of the code, for every code that is not negative.
pub format_last_three_digits_lem :
    (n : ℕ)
    → format_last_three_digits (pos n)
      ≡ (n / 100 % 10 + b'0') ∷ (n / 10 % 10 + b'0') ∷ (n % 10 + b'0') ∷ []
unfolding format_last_three_digits set_width decimal_digits
format_last_three_digits_lem n =
    let r : ℕ = n % 1000 in
    let small : ltb (r / 10 / 10) 10 ≡ true = ground arith in
    elim (Bool-cases (ltb r 10)) [
      | inl one ↦ rw one (
          by_digits (omega (arith, ltb→lt r 10 one)) (omega (arith, ltb→lt r 10 one)) (omega arith))
      | inr more ↦ rw more (elim (Bool-cases (ltb (r / 10) 10)) [
        | inl two ↦ rw two (
            by_digits (omega (arith, ltb→lt (r / 10) 10 two))
              (omega (arith, ltb→lt (r / 10) 10 two)) (omega arith))
        | inr three ↦ rw (three, small) (by_digits (omega arith) (omega arith) (omega arith))
      ])
    ]
  where
    by_digits :
        {a b c x y z : ℕ}
        → a ≡ x
        → b ≡ y
        → c ≡ z
        → ◌≡◌ {A = List ℕ} (a ∷ b ∷ c ∷ []) (x ∷ y ∷ z ∷ [])
    by_digits p q r = cc

-- Each message kind has one name in the futures groups and the options groups: the transmission codes
-- '1' and '4', and likewise '2' and '5', agree on every message kind, the unknown ones included.
pub identify_message_id_markets :
    (futures options : CommonHeader)
    → ((futures.transmission_code ≡ b'1') × (options.transmission_code ≡ b'4'))
      ⊎ ((futures.transmission_code ≡ b'2') × (options.transmission_code ≡ b'5'))
    → futures.message_kind ≡ options.message_kind
    → identify_message_id futures ≡ identify_message_id options
unfolding identify_message_id find_code
identify_message_id_markets f o (inl (hf, ho)) same = rw (hf, ho, same) refl
identify_message_id_markets f o (inr (hf, ho)) same = rw (hf, ho, same) refl

-- The code that a name stands for: the digits after 'I' are those behind the thousand.
unfoldable pub code_of_name : List ℕ → ℕ
code_of_name [] = 0
code_of_name (c ∷ s) = (if c == b'I' then 1000 else 0) + digits_value 0 s

-- Codes from 1000 to 1999.
abbrev in_range : ℤ → Bool
in_range (pos n) = leb 1000 n && ltb n 2000
in_range (negsuc n) = false

unfoldable all_in_range : List ((ℕ × ℕ) × ℤ) → Bool
all_in_range [] = true
all_in_range ((key, code) ∷ table) = in_range code && all_in_range table

find_code-in_range :
    (tc mk : ℕ) (table : List ((ℕ × ℕ) × ℤ)) (code : ℤ)
    → all_in_range table ≡ true
    → find_code tc mk table ≡ some code
    → in_range code ≡ true
unfolding find_code all_in_range
find_code-in_range tc mk [] code h e = absurd (ground arith)
find_code-in_range tc mk (((t, k), c) ∷ rest) code h e =
    let both = &&-true (in_range c) (all_in_range rest) h in
    elim (Bool-cases ((tc == t) && (mk == k))) [
      | inl here ↦
          let found : find_code tc mk (((t, k), c) ∷ rest) ≡ some c = rw here refl in
          ground (arith, found, both.0)
      | inr past ↦
          let later : find_code tc mk (((t, k), c) ∷ rest) ≡ find_code tc mk rest = rw past refl in
          find_code-in_range tc mk rest code both.1 (sym later ∙ e)
    ]

digit_of_lem : (n : ℕ) → is_digit (n % 10 + b'0') ≡ true
digit_of_lem n = ground arith

bounds : (n : ℕ) → in_range (pos n) ≡ true → (1000 ≤ n) × (n < 2000)
bounds n h = ground arith

name_of_lem : (code : ℤ) → in_range code ≡ true → pos (code_of_name (name_of code)) ≡ code
unfolding code_of_name digits_value
name_of_lem (pos n) h = elim (Bool-cases (pos n ==ℤ pos 1001)) [
  | inl heartbeat ↦ rw heartbeat (sym ((==ℤ_iff (pos n) (pos 1001)).0 heartbeat))
  | inr other ↦ rw other (elim (Bool-cases (pos n ==ℤ pos 1002)) [
    | inl seq_reset ↦ rw seq_reset (sym ((==ℤ_iff (pos n) (pos 1002)).0 seq_reset))
    | inr rest ↦
        rw
          (
            rest,
            format_last_three_digits_lem n,
            digit_of_lem (n / 100),
            digit_of_lem (n / 10),
            digit_of_lem n,
          )
          (ap pos (omega (arith, bounds n h)))
  ])
]
name_of_lem (negsuc n) h = absurd (ground arith)

table_in_range : all_in_range message_map ≡ true
unfolding all_in_range
table_in_range = refl

-- The name of a message tells its internal code: for every header that the table knows, the code read
-- off the name is the one of the table, so two headers with the same name have the same code. A header
-- that the table does not know has the empty name.
pub code-identify_message_id :
    (header : CommonHeader)
    → ((code : ℤ) × (find_code header.transmission_code header.message_kind message_map ≡ some code)
        × (pos (code_of_name (identify_message_id header)) ≡ code))
      ⊎ ((find_code header.transmission_code header.message_kind message_map ≡ none)
          × (identify_message_id header ≡ []))
unfolding identify_message_id
code-identify_message_id header =
    elim (Option-cases (find_code header.transmission_code header.message_kind message_map)) [
      | inl unknown ↦ inr (unknown, rw (identify_message_id, unknown) refl)
      | inr (code, known) ↦ inl (
        code,
        known,
        rw (identify_message_id, known)
            (name_of_lem code (
              find_code-in_range header.transmission_code header.message_kind message_map code
                table_in_range known)),
      )
    ]
