-- ===== src/Messages/Wire.antt =====
-- The decimal fields of the message format, written independently of the parsers, and what the
-- readers of ParserUtils make of them.
use native.Mathlib.Nat.{pow-suc, mod-eq_of_lt}
use taifex_cpp_sdk.Prelude.{
  ℕ, zero, suc, ◌+◌, ◌*◌, ◌/◌, ◌%◌, ◌^◌, ◌≤◌, ◌<◌, ◌≡◌, refl, ◌∙◌, ap, true, false, ◌&&◌, none,
  some, List, [], ◌∷◌, ◌++◌, length, length-append, All, All-append, IsByte, is_empty, arith,
  lt→ltb,
}
use taifex_cpp_sdk.Prelude.Int.{pos}
use taifex_cpp_sdk.PackBcd.Value.{
  all_bcd, ascii, bcd_from, bcd_value, pack_bcd_to_ascii-IsNumber, pack_bcd_to_ascii_error,
  pack_bcd_to_ascii-fit, length-ascii,
}
use taifex_cpp_sdk.PackBcd.{nibble1, nibble2}
use taifex_cpp_sdk.PackBcd.RoundTrip.{fit_digits_same}
use taifex_cpp_sdk.Messages.ParserUtils.{
  bcd_bytes_to_ascii_string_helper, read_digits, read_unsigned, read_signed,
}

pub nonempty-is_empty : (s : List ℕ) → 0 < length s → is_empty s ≡ false
nonempty-is_empty [] h = absurd (omega arith)
nonempty-is_empty (c ∷ s) h = refl

-- On nonempty bytes the readers return the value modulo the power of ten, or fail on a nibble
-- above 9.
pub read_valid :
    (bs : List ℕ) (digits : ℕ)
    → all_bcd bs ≡ true
    → is_empty bs ≡ false
    → 0 < digits
    → digits ≤ 18
    → (read_unsigned bs digits ≡ some (bcd_value bs % 10 ^ digits))
      × (read_signed bs digits ≡ some (pos (bcd_value bs % 10 ^ digits)))
unfolding read_unsigned read_signed read_digits bcd_bytes_to_ascii_string_helper
read_valid bs digits valid nonempty asked most =
    let (s, e, number) = pack_bcd_to_ascii-IsNumber bs digits valid asked most in
    let (full, ul, _, ll, _) = number in
    (rw (nonempty, e) (rw full (rw ul)), rw (nonempty, e) (rw full (rw ll)))

pub read_invalid :
    (bs : List ℕ) (digits : ℕ)
    → all_bcd bs ≡ false
    → 0 < digits
    → (read_unsigned bs digits ≡ none)
      × (read_signed bs digits ≡ none)
      × (read_digits bs digits ≡ none)
unfolding read_unsigned read_signed read_digits bcd_bytes_to_ascii_string_helper
read_invalid [] digits invalid asked = cc
read_invalid (b ∷ bs) digits invalid asked =
    let e = (pack_bcd_to_ascii_error (b ∷ bs) digits).0.1 invalid in
    let positive = lt→ltb 0 digits asked in (rw (e, positive), rw (e, positive), rw (e, positive))

-- `size` bytes, two digits each, the most significant first.
unfoldable pub bcd_bytes : ℕ → ℕ → List ℕ
bcd_bytes zero n = []
bcd_bytes (suc size) n = bcd_bytes size (n / 100) ++ (n % 100 / 10 * 16 + n % 10) ∷ []

pub length-bcd_bytes : (size n : ℕ) → length (bcd_bytes size n) ≡ size
unfolding bcd_bytes
length-bcd_bytes zero n = refl
length-bcd_bytes (suc size) n = omega (
  arith,
  length-append (bcd_bytes size (n / 100)) ((n % 100 / 10 * 16 + n % 10) ∷ []),
  length-bcd_bytes size (n / 100),
)

pub bcd_bytes-IsByte : (size n : ℕ) → All IsByte (bcd_bytes size n)
unfolding bcd_bytes
bcd_bytes-IsByte zero n = tt
bcd_bytes-IsByte (suc size) n =
    All-append IsByte (bcd_bytes size (n / 100)) ((n % 100 / 10 * 16 + n % 10) ∷ [])
      (bcd_bytes-IsByte size (n / 100)) (omega arith)

all_bcd-append : (xs ys : List ℕ) → all_bcd (xs ++ ys) ≡ (all_bcd xs && all_bcd ys)
all_bcd-append [] ys = refl
all_bcd-append (x ∷ xs) ys = ground (arith, all_bcd-append xs ys)

bcd_from-append :
    (acc : ℕ) (xs ys : List ℕ) → bcd_from acc (xs ++ ys) ≡ bcd_from (bcd_from acc xs) ys
unfolding bcd_from
bcd_from-append acc [] ys = refl
bcd_from-append acc (x ∷ xs) ys = bcd_from-append (acc * 100 + nibble1 x * 10 + nibble2 x) xs ys

pub bcd_bytes_valid : (size n : ℕ) → all_bcd (bcd_bytes size n) ≡ true
unfolding bcd_bytes
bcd_bytes_valid zero n = refl
bcd_bytes_valid (suc size) n = ground (
  arith,
  all_bcd-append (bcd_bytes size (n / 100)) ((n % 100 / 10 * 16 + n % 10) ∷ []),
  bcd_bytes_valid size (n / 100),
)

pub bcd_value-bcd_bytes : (size n : ℕ) → n < 100 ^ size → bcd_value (bcd_bytes size n) ≡ n
unfolding bcd_bytes bcd_from
bcd_value-bcd_bytes zero n h = omega arith
bcd_value-bcd_bytes (suc size) n h = omega (
  arith,
  bcd_from-append 0 (bcd_bytes size (n / 100)) ((n % 100 / 10 * 16 + n % 10) ∷ []),
  bcd_value-bcd_bytes size (n / 100) (omega (arith, pow-suc 100 size)),
)

-- A field of the wire format is read back by both conversions.
pub read_number :
    (size digits n : ℕ)
    → 0 < size
    → 0 < digits
    → digits ≤ 18
    → n < 100 ^ size
    → n < 10 ^ digits
    → (read_unsigned (bcd_bytes size n) digits ≡ some n)
      × (read_signed (bcd_bytes size n) digits ≡ some (pos n))
read_number size digits n nonempty asked most fits small =
    let bs = bcd_bytes size n in
    let (unsigned, signed) =
      read_valid bs digits (bcd_bytes_valid size n)
        (nonempty-is_empty bs (omega (arith, length-bcd_bytes size n))) asked most in
    let value : bcd_value bs % 10 ^ digits ≡ n =
      ap (λ (v : ℕ). v % 10 ^ digits) (bcd_value-bcd_bytes size n fits) ∙ mod-eq_of_lt small in
    (rw value at unsigned, rw value at signed)

-- A field of eight digits, such as a date, is read back as its digits.
pub read_date : (n : ℕ) → read_digits (bcd_bytes 4 n) 8 ≡ some (ascii (bcd_bytes 4 n))
unfolding read_digits bcd_bytes_to_ascii_string_helper
read_date n =
    let bs = bcd_bytes 4 n in
    rw
      (
        nonempty-is_empty bs (omega (arith, length-bcd_bytes 4 n)),
        pack_bcd_to_ascii-fit bs 8 (bcd_bytes_valid 4 n) (omega arith),
        fit_digits_same (ascii bs) 8 (omega (arith, length-ascii bs, length-bcd_bytes 4 n)),
      )
      (rw (nonempty-is_empty (ascii bs) (omega (arith, length-ascii bs, length-bcd_bytes 4 n))))
