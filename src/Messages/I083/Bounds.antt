-- ===== src/Messages/I083/Bounds.antt =====
-- Which bodies of I083 are refused.
use taifex_cpp_sdk.Prelude.{
  ℕ, ◌+◌, ◌*◌, ◌%◌, ◌<◌, ◌≡◌, refl, true, false, Option, none, some, List, length, length-slice,
  slice, ltb, lt→ltb, arith, Bool-cases, ◌⊎◌, inl, inr,
}
use taifex_cpp_sdk.PackBcd.Value.{all_bcd, bcd_value}
use taifex_cpp_sdk.Messages.ParserUtils.{read_unsigned, ◌>>=◌}
use taifex_cpp_sdk.Messages.Wire.{nonempty-is_empty, read_valid, read_invalid}
use taifex_cpp_sdk.Messages.I083.{MessageI083, parse_i083_body}

-- A body is refused if it is null or shorter than the fixed fields, if a nibble of the sequence number or
-- of the count is above 9, or if the announced entries do not fit.
pub parse_i083_body_rejects :
    (body : List ℕ)
    → (length body < 27)
      ⊎ (all_bcd (slice 20 5 body) ≡ false)
      ⊎ (all_bcd (slice 26 1 body) ≡ false)
      ⊎ ((all_bcd (slice 26 1 body) ≡ true)
          × (length body < 27 + bcd_value (slice 26 1 body) % 100 * 12))
    → (parse_i083_body (some body) ≡ none) × (parse_i083_body none ≡ none)
unfolding parse_i083_body
parse_i083_body_rejects body h = (
  elim (Bool-cases (ltb (length body) 27)) [
    | inl short ↦ rw short refl
    | inr long ↦ rw long (elim h [
      | inl short ↦ absurd (ground arith)
      | inr (inl bad_seq) ↦ rw (read_invalid (slice 20 5 body) 10 bad_seq (omega arith)).0 refl
      | inr (inr (inl bad_count)) ↦
          after_seq body (read_unsigned (slice 20 5 body) 10)
            (λ seq. rw (read_invalid (slice 26 1 body) 2 bad_count (omega arith)).0 refl)
      | inr (inr (inr (valid, small))) ↦
          let bytes : List ℕ = slice 26 1 body in
          let count = bcd_value bytes % 100 in
          let present : 0 < length bytes = omega (arith, length-slice 26 1 body (ground arith)) in
          let read : read_unsigned bytes 2 ≡ some count =
            (read_valid bytes 2 valid (nonempty-is_empty bytes present) (omega arith)
              (omega arith)).0 in
          let kept : count % 256 ≡ count = omega arith in
          after_seq body (read_unsigned (slice 20 5 body) 10)
            (λ seq. rw (read, kept, lt→ltb (length body) (27 + count * 12) small) refl)
    ])
  ],
  refl,
)
  where
    after_seq :
        (b : List ℕ) (m : Option ℕ) {k : ℕ → Option MessageI083}
        → ((n : ℕ) → k n ≡ none)
        → (m >>= k) ≡ none
    after_seq b none f = refl
    after_seq b (some n) f = f n
