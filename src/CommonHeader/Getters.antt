-- ===== src/CommonHeader/Getters.antt =====
-- What the BCD getters of common_header.cpp return, on every branch.
use native.Mathlib.Nat.{mod-eq_of_lt}
use taifex_cpp_sdk.Prelude.{
  ℕ, ◌+◌, ◌-◌, ◌*◌, ◌%◌, ◌^◌, ◌≤◌, ◌<◌, ◌≡◌, Bool, true, false, inl, inr, List, [], ◌∷◌, length,
  arith, le→ltb, Bool-cases, if◌then◌else◌, ap, sym, ◌∙◌,
}
use taifex_cpp_sdk.ErrorCodes.{Result, ok, err, parsing_error, catch, ◌>>=◌}
use taifex_cpp_sdk.Conversion.{stoul}
use taifex_cpp_sdk.PackBcd.Value.{
  all_bcd, ascii, bcd_value, bcd_value-lt, pack_bcd_to_ascii-IsNumber, pack_bcd_to_ascii_error,
  pack_bcd_to_ascii-fit, IsNumber, length-ascii,
}
use taifex_cpp_sdk.PackBcd.RoundTrip.{fit_digits_same}
use taifex_cpp_sdk.CommonHeader.{
  CommonHeader, bcd_array_to_numeric_string, bcd_byte_to_numeric_string, narrow, rethrow_conversion,
  get_information_time_string, get_channel_id, get_channel_seq, get_version_no, get_body_length,
}
use taifex_cpp_sdk.CommonHeader.Layout.{IsShaped}

-- The result of a getter over some bytes.
abbrev pub bcd_result : List ℕ → Result ℕ
bcd_result bs = if all_bcd bs then ok (bcd_value bs) else err parsing_error

module _ (bs : List ℕ) (n : ℕ) where
  decode_invalid : all_bcd bs ≡ false → bcd_array_to_numeric_string bs n ≡ err parsing_error
  unfolding bcd_array_to_numeric_string
  decode_invalid invalid = rw ((pack_bcd_to_ascii_error bs n).0.1 invalid)

  -- Valid bytes with as many digits as the field asks for.
  decode_valid :
      all_bcd bs ≡ true
      → 2 * length bs ≡ n
      → 0 < n
      → n ≤ 18
      → (s : List ℕ) × (bcd_array_to_numeric_string bs n ≡ ok s) × IsNumber n (bcd_value bs) s
  unfolding bcd_array_to_numeric_string
  decode_valid valid size p q =
      let (s, e, number) = pack_bcd_to_ascii-IsNumber bs n valid p q in
      let whole : bcd_value bs % 10 ^ n ≡ bcd_value bs =
        mod-eq_of_lt (rw size at (bcd_value-lt bs valid)) in
      (s, rw e, rw whole at number)

  -- A getter that narrows to a type that holds every value of the field.
  narrow_getter :
      (limit : ℕ)
      → 2 * length bs ≡ n
      → 0 < n
      → n ≤ 18
      → 10 ^ n ≤ limit + 1
      → (bcd_array_to_numeric_string bs n >>= λ s.
          catch (stoul s >>= narrow limit) (λ e. err (rethrow_conversion e)))
        ≡ bcd_result bs
  unfolding narrow
  narrow_getter limit size p q fits = elim (Bool-cases (all_bcd bs)) [
    | inr invalid ↦ rw (decode_invalid invalid, invalid)
    | inl valid ↦
        let (s, e, number) = decode_valid valid size p q in
        let (_, ul, _, _, bound) = number in
        rw (e, valid, ul, le→ltb limit (bcd_value bs) (omega arith))
          (ap ok (mod-eq_of_lt {n = bcd_value bs} {m = limit + 1} (omega arith)))
  ]

seq_getter : (h : CommonHeader) → IsShaped h → get_channel_seq h ≡ bcd_result h.channel_seq_bcd
unfolding get_channel_seq
seq_getter h shaped = elim (Bool-cases (all_bcd h.channel_seq_bcd)) [
  | inr invalid ↦ rw (decode_invalid h.channel_seq_bcd 10 invalid, invalid)
  | inl valid ↦
      let (s, e, number) =
        decode_valid h.channel_seq_bcd 10 valid (omega arith) (omega arith) (omega arith) in
      rw (e, valid, number.2)
]

time_getter :
    (h : CommonHeader)
    → IsShaped h
    → get_information_time_string h ≡ (
        if all_bcd h.information_time_bcd
        then ok (ascii h.information_time_bcd)
        else err parsing_error)
unfolding get_information_time_string bcd_array_to_numeric_string
time_getter h shaped =
    let bs = h.information_time_bcd in
    elim (Bool-cases (all_bcd bs)) [
      | inr invalid ↦ rw ((pack_bcd_to_ascii_error bs 12).0.1 invalid, invalid)
      | inl valid ↦ rw (
        pack_bcd_to_ascii-fit bs 12 valid (omega arith),
        fit_digits_same (ascii bs) 12 (omega (arith, length-ascii bs)),
        valid,
      )
    ]

pub bcd_result-lt :
    (bs : List ℕ) (n : ℕ) {v : ℕ} → 2 * length bs ≡ n → bcd_result bs ≡ ok v → v < 10 ^ n
bcd_result-lt bs n {v} size e = elim (Bool-cases (all_bcd bs)) [
  | inr invalid ↦
      cc (e, ap (λ (b : Bool). if b then ok (bcd_value bs) else err parsing_error) invalid)
  | inl valid ↦
      let value : bcd_value bs ≡ v =
        cc (e, ap (λ (b : Bool). if b then ok (bcd_value bs) else err parsing_error) valid) in
      rw (value, size) at (bcd_value-lt bs valid)
]

-- Each numeric getter returns the number that its field spells, and throws a ParsingError if the
-- field has a nibble above 9; the time is returned as its twelve digits under the same condition.
pub getters :
    (h : CommonHeader)
    → IsShaped h
    → (get_channel_id h ≡ bcd_result h.channel_id_bcd)
      × (get_channel_seq h ≡ bcd_result h.channel_seq_bcd)
      × (get_version_no h ≡ bcd_result (h.version_no_bcd ∷ []))
      × (get_body_length h ≡ bcd_result h.body_length_bcd)
      × (get_information_time_string h ≡ (
          if all_bcd h.information_time_bcd
          then ok (ascii h.information_time_bcd)
          else err parsing_error))
unfolding get_channel_id get_version_no get_body_length bcd_byte_to_numeric_string
getters h shaped = (
  narrow_getter h.channel_id_bcd 4 (2 ^ 32 - 1) (omega arith) (omega arith) (omega arith)
      (omega arith),
  seq_getter h shaped,
  narrow_getter (h.version_no_bcd ∷ []) 2 (2 ^ 8 - 1) (omega arith) (omega arith) (omega arith)
      (omega arith),
  narrow_getter h.body_length_bcd 4 (2 ^ 16 - 1) (omega arith) (omega arith) (omega arith)
      (omega arith),
  time_getter h shaped,
)

-- What the getters return fits the decimal field: four, ten, two and four digits.
pub getters_bounds :
    (h : CommonHeader) {channel_id channel_seq version_no body_length : ℕ}
    → IsShaped h
    → get_channel_id h ≡ ok channel_id
    → get_channel_seq h ≡ ok channel_seq
    → get_version_no h ≡ ok version_no
    → get_body_length h ≡ ok body_length
    → (channel_id < 10 ^ 4)
      × (channel_seq < 10 ^ 10)
      × (version_no < 10 ^ 2)
      × (body_length < 10 ^ 4)
getters_bounds h shaped ei es ev eb =
    let (gi, gs, gv, gb, _) = getters h shaped in
    (
      bcd_result-lt h.channel_id_bcd 4 (omega arith) (sym gi ∙ ei),
      bcd_result-lt h.channel_seq_bcd 10 (omega arith) (sym gs ∙ es),
      bcd_result-lt (h.version_no_bcd ∷ []) 2 (omega arith) (sym gv ∙ ev),
      bcd_result-lt h.body_length_bcd 4 (omega arith) (sym gb ∙ eb),
    )
