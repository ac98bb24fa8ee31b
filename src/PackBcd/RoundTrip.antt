-- ===== src/PackBcd/RoundTrip.antt =====
-- Encoding after decoding and decoding after encoding with pack_bcd.cpp.
use taifex_cpp_sdk.Prelude.{
  ℕ, suc, ◌+◌, ◌-◌, ◌*◌, ◌/◌, ◌%◌, ◌≡◌, refl, ap, true, List, [], ◌∷◌, length, drop, All, IsByte,
  arith, leb, if◌then◌else◌, Bool-cases, le→ltb, lt→ltb, ◌⊎◌, inl, inr,
}
use taifex_cpp_sdk.Prelude.Bits.{bit_or_nibbles}
use taifex_cpp_sdk.ErrorCodes.{ok, err, runtime_error, ◌>>=◌}
use taifex_cpp_sdk.Conversion.{is_digit, all_digits}
use taifex_cpp_sdk.PackBcd.{
  nibble1, nibble2, pack_byte, pack_pairs, pad_even, ascii_to_pack_bcd, fit_digits,
  pack_bcd_to_ascii,
}
use taifex_cpp_sdk.PackBcd.Value.{
  all_bcd, ascii, pack_bcd_to_ascii-fit, pack_bcd_to_ascii_empty, length-ascii, ascii-all_digits,
}

pack_byte-digits :
    (x y : ℕ)
    → is_digit x ≡ true
    → is_digit y ≡ true
    → (nibble1 (pack_byte x y) + b'0' ≡ x)
      × (nibble2 (pack_byte x y) + b'0' ≡ y)
      × (leb (nibble1 (pack_byte x y)) 9 ≡ true)
      × (leb (nibble2 (pack_byte x y)) 9 ≡ true)
unfolding pack_byte
pack_byte-digits x y hx hy =
    ground (arith, bit_or_nibbles ((x + 256 - 48) % 256) ((y + 256 - 48) % 256))

pack_byte-nibbles :
    (b : ℕ)
    → IsByte b
    → leb (nibble1 b) 9 ≡ true
    → leb (nibble2 b) 9 ≡ true
    → pack_byte (nibble1 b + b'0') (nibble2 b + b'0') ≡ b
unfolding pack_byte
pack_byte-nibbles b byte h1 h2 =
    ground (
      arith,
      bit_or_nibbles ((nibble1 b + 48 + 256 - 48) % 256) ((nibble2 b + 48 + 256 - 48) % 256),
    )

-- On an even number of digits packing and unpacking are inverse.
unpack-pack_pairs :
    (s : List ℕ)
    → all_digits s ≡ true
    → length s % 2 ≡ 0
    → (all_bcd (pack_pairs s) ≡ true) × (ascii (pack_pairs s) ≡ s)
unfolding all_digits pack_pairs ascii
unpack-pack_pairs [] h even = (refl, refl)
unpack-pack_pairs (c ∷ []) h even = absurd (omega arith)
unpack-pack_pairs (c ∷ d ∷ s) h even = ground (arith, pack_byte-digits c d, unpack-pack_pairs s)

pack_pairs-ascii : (bs : List ℕ) → All IsByte bs → all_bcd bs ≡ true → pack_pairs (ascii bs) ≡ bs
unfolding pack_pairs ascii
pack_pairs-ascii [] h valid = refl
pack_pairs-ascii (b ∷ bs) h valid = ground (arith, pack_byte-nibbles b h.0, pack_pairs-ascii bs h.1)

pub fit_digits_same : (s : List ℕ) (n : ℕ) → length s ≡ n → fit_digits s n ≡ s
unfolding fit_digits
fit_digits_same s n e = ground arith

pad_even_even : (s : List ℕ) → length s % 2 ≡ 0 → pad_even s ≡ s
unfolding pad_even
pad_even_even s even = ground arith

pad_even_odd : (s : List ℕ) → length s % 2 ≡ 1 → pad_even s ≡ b'0' ∷ s
unfolding pad_even
pad_even_odd s odd = ground arith

fit_digits-suc : (c : ℕ) (s : List ℕ) → fit_digits (c ∷ s) (length s) ≡ s
unfolding fit_digits
fit_digits-suc c s =
    rw
      (
        le→ltb (suc (length s)) (length s) (omega arith),
        lt→ltb (length s) (suc (length s)) (omega arith),
      )
      (ap (λ (k : ℕ). drop k (c ∷ s)) (one_more (length s)))
  where
    one_more : (n : ℕ) → suc n - n ≡ 1
    one_more n = omega arith

parity : (n : ℕ) → (n % 2 ≡ 0) ⊎ (n % 2 ≡ 1)
parity n = ground arith

-- The padded string is even, and fitted to the length of the original it is the original.
pad_even_lem :
    (s : List ℕ)
    → all_digits s ≡ true
    → (all_digits (pad_even s) ≡ true)
      × (length (pad_even s) % 2 ≡ 0)
      × (fit_digits (pad_even s) (length s) ≡ s)
unfolding all_digits
pad_even_lem s h = elim (parity (length s)) [
  | inl even ↦ rw (pad_even_even s even) (h, even, fit_digits_same s (length s) refl)
  | inr odd ↦ rw (pad_even_odd s odd) (h, omega arith, fit_digits-suc b'0' s)
]

length-pack_pairs : (s : List ℕ) → length s % 2 ≡ 0 → length (pack_pairs s) ≡ length s / 2
unfolding pack_pairs
length-pack_pairs [] even = omega arith
length-pack_pairs (c ∷ []) even = absurd (omega arith)
length-pack_pairs (c ∷ d ∷ s) even = omega (arith, length-pack_pairs s (omega arith))

-- Two digits to a byte, the first byte of an odd number with one of them.
length-encoded : (s : List ℕ) → length (pack_pairs (pad_even s)) ≡ (length s + 1) / 2
unfolding pack_pairs
length-encoded s = elim (parity (length s)) [
  | inl even ↦ rw (pad_even_even s even) (omega (arith, length-pack_pairs s even))
  | inr odd ↦ rw (pad_even_odd s odd) (omega (arith, length-pack_pairs (b'0' ∷ s) (omega arith)))
]

encoded :
    (s : List ℕ)
    → (ascii_to_pack_bcd s >>= λ bcd. ok (length bcd))
      ≡ (if all_digits s then ok ((length s + 1) / 2) else err runtime_error)
unfolding ascii_to_pack_bcd
encoded [] = unfold all_digits in refl
encoded (c ∷ s) = elim (Bool-cases (all_digits (c ∷ s))) [
  | inl digits ↦ rw digits (ap ok (length-encoded (c ∷ s)))
  | inr other ↦ rw other refl
]

decoded :
    (s : List ℕ)
    → (ascii_to_pack_bcd s >>= λ bcd. pack_bcd_to_ascii bcd (length s))
      ≡ (if all_digits s then ok s else err runtime_error)
unfolding ascii_to_pack_bcd
decoded [] = unfold all_digits in pack_bcd_to_ascii_empty
decoded (c ∷ s) = elim (Bool-cases (all_digits (c ∷ s))) [
  | inl digits ↦
      let (digits', even, fitted) = pad_even_lem (c ∷ s) digits in
      let (valid, same) = unpack-pack_pairs (pad_even (c ∷ s)) digits' even in
      rw digits (
        cc (
          pack_bcd_to_ascii-fit (pack_pairs (pad_even (c ∷ s))) (length (c ∷ s)) valid
              (omega arith),
          same,
          fitted,
        ))
  | inr other ↦ rw other
]

-- The encoder turns a string of n digits into (n + 1) / 2 bytes and throws on any other string; what it
-- returns is decoded to the string again, to its own length, also if that is odd, for which the encoder adds
-- a zero.
pub pack_bcd_to_ascii-ascii_to_pack_bcd :
    (s : List ℕ)
    → ((ascii_to_pack_bcd s >>= λ bcd. ok (length bcd))
        ≡ (if all_digits s then ok ((length s + 1) / 2) else err runtime_error))
      × ((ascii_to_pack_bcd s >>= λ bcd. pack_bcd_to_ascii bcd (length s))
          ≡ (if all_digits s then ok s else err runtime_error))
pack_bcd_to_ascii-ascii_to_pack_bcd s = (encoded s, decoded s)

-- Valid bytes survive decoding to all of their digits and encoding.
pub ascii_to_pack_bcd-pack_bcd_to_ascii :
    (bs : List ℕ)
    → All IsByte bs
    → all_bcd bs ≡ true
    → (pack_bcd_to_ascii bs (2 * length bs) >>= ascii_to_pack_bcd) ≡ ok bs
ascii_to_pack_bcd-pack_bcd_to_ascii [] h valid =
    unfold ascii_to_pack_bcd all_digits in rw pack_bcd_to_ascii_empty
ascii_to_pack_bcd-pack_bcd_to_ascii (b ∷ bs) h valid =
    let whole = b ∷ bs in
    let fit : fit_digits (ascii whole) (2 * length whole) ≡ ascii whole =
      fit_digits_same (ascii whole) (2 * length whole) (length-ascii whole) in
    let padded : pad_even (ascii whole) ≡ ascii whole =
      pad_even_even (ascii whole) (omega (arith, length-ascii whole)) in
    rw (pack_bcd_to_ascii-fit whole (2 * length whole) valid (omega arith), fit)
      (unfold ascii_to_pack_bcd in
        rw (ascii-all_digits whole valid, padded, pack_pairs-ascii whole h valid)
          (unfold ascii in refl))
