-- ===== src/Conversion/Decimal.antt =====
-- Conversions of strings that hold digits only, which is all that the BCD decoders hand over.
use native.Mathlib.Nat.{pow-suc, mul-add-mod_self_right, mod-eq_of_lt}
use taifex_cpp_sdk.Prelude.{
  ℕ, zero, suc, ◌+◌, ◌-◌, ◌*◌, ◌%◌, ◌^◌, ◌≤◌, ◌<◌, ◌≡◌, ◌≢◌, refl, true, false, ◌&&◌, List, [], ◌∷◌,
  ◌++◌, length, take, drop, take-append-drop, length-drop, arith, &&-true, ap,
}
use taifex_cpp_sdk.Prelude.Int.{pos}
use taifex_cpp_sdk.ErrorCodes.{ok}
use taifex_cpp_sdk.Conversion.{
  is_digit, all_digits, digits_value, parse_integer, stoul, stoull, stoll,
}

pub all_digits-append : (s t : List ℕ) → all_digits (s ++ t) ≡ (all_digits s && all_digits t)
unfolding all_digits
all_digits-append [] t = refl
all_digits-append (c ∷ s) t = ground (arith, all_digits-append s t)

pub digits_value-append :
    (acc : ℕ) (s t : List ℕ)
    → all_digits s ≡ true
    → digits_value acc (s ++ t) ≡ digits_value (digits_value acc s) t
unfolding all_digits digits_value
digits_value-append acc [] t h = refl
digits_value-append acc (c ∷ s) t h =
    ground (arith, digits_value-append (acc * 10 + (c - b'0')) s t)

digits_value_acc :
    (acc : ℕ) (s : List ℕ)
    → all_digits s ≡ true
    → digits_value acc s ≡ acc * 10 ^ length s + digits_value 0 s
unfolding all_digits digits_value
digits_value_acc acc [] h = ground arith
digits_value_acc acc (c ∷ s) h =
    let (digit, rest) = &&-true (is_digit c) (all_digits s) h in
    rw digit (
      omega (
        arith,
        digits_value_acc (acc * 10 + (c - b'0')) s rest,
        digits_value_acc (0 + (c - b'0')) s rest,
        ap (λ (t : ℕ). acc * t) (pow-suc 10 (length s)),
      ))

pub digits_value-lt : (s : List ℕ) → all_digits s ≡ true → digits_value 0 s < 10 ^ length s
unfolding all_digits digits_value
digits_value-lt [] h = omega arith
digits_value-lt (c ∷ s) h =
    let (digit, rest) = &&-true (is_digit c) (all_digits s) h in
    let below : c - b'0' ≤ 9 = ground arith in
    rw digit (
      grind (
        arith,
        digits_value_acc (0 + (c - b'0')) s rest,
        digits_value-lt s rest,
        pow-suc 10 (length s),
      ))

pub drop-all_digits : (k : ℕ) (s : List ℕ) → all_digits s ≡ true → all_digits (drop k s) ≡ true
unfolding all_digits
drop-all_digits zero s h = h
drop-all_digits (suc k) [] h = h
drop-all_digits (suc k) (c ∷ s) h = drop-all_digits k s (&&-true _ _ h).1

-- The value of the last digits is the remainder by the power of ten.
pub digits_value-drop :
    (k : ℕ) (s : List ℕ)
    → all_digits s ≡ true
    → k ≤ length s
    → digits_value 0 (drop k s) ≡ digits_value 0 s % 10 ^ (length s - k)
digits_value-drop k s h le =
    let (front, back) =
      &&-true (all_digits (take k s)) (all_digits (drop k s))
        (rw (← all_digits-append (take k s) (drop k s), take-append-drop) h) in
    let split : digits_value 0 s
        ≡ digits_value 0 (take k s) * 10 ^ length (drop k s) + digits_value 0 (drop k s) =
      cc (
        ap (digits_value 0) (take-append-drop k s),
        digits_value-append 0 (take k s) (drop k s) front,
        digits_value_acc (digits_value 0 (take k s)) (drop k s) back,
      ) in
    cc (
      ap (λ (t : ℕ). t % 10 ^ (length s - k)) split,
      ap (λ (t : ℕ). 10 ^ t) (length-drop k s),
      mul-add-mod_self_right (digits_value 0 (take k s)) (10 ^ length (drop k s))
          (digits_value 0 (drop k s)),
      mod-eq_of_lt (digits_value-lt (drop k s) back),
    )

parse_digits :
    (s : List ℕ) → s ≢ [] → all_digits s ≡ true → parse_integer s ≡ ok (false, digits_value 0 s)
unfolding all_digits parse_integer
parse_digits [] ne h = absurd (ne refl)
parse_digits (c ∷ s) ne h = ground arith

-- A nonempty string of digits below 2 ^ 63 converts to its value, by all three functions.
pub convert_digits :
    (s : List ℕ)
    → s ≢ []
    → all_digits s ≡ true
    → digits_value 0 s < 2 ^ 63
    → (stoul s ≡ ok (digits_value 0 s))
      × (stoull s ≡ ok (digits_value 0 s))
      × (stoll s ≡ ok (pos (digits_value 0 s)))
unfolding stoul stoull stoll
convert_digits s ne h lt = rw (parse_digits s ne h) (ground arith, ground arith, ground arith)
