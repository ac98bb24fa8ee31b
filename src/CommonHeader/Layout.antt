-- ===== src/CommonHeader/Layout.antt =====
-- The byte layout that `CommonHeader::parse` reads.
use taifex_cpp_sdk.Prelude.{
  ℕ, ◌≤◌, ◌<◌, ◌≡◌, refl, true, false, none, some, List, ◌∷◌, ◌++◌, length, get_or, slice, take,
  arith, le→ltb, lt→ltb, slice-cons, slice-append, length-slice, append_assoc, length-append, sym,
  ◌∙◌, ap, take_front, drop_front, get_or_front,
}
use taifex_cpp_sdk.CommonHeader.{CommonHeader, header_size, parse}

-- The bytes of a header, field by field as the message format lists them.
unfoldable pub wire : CommonHeader → List ℕ
wire h =
    h.esc_code
    ∷ h.transmission_code
    ∷ h.message_kind
    ∷ (h.information_time_bcd
        ++ (h.channel_id_bcd ++ (h.channel_seq_bcd ++ h.version_no_bcd ∷ h.body_length_bcd)))

-- The arrays have their sizes.
pub record IsShaped (h : CommonHeader) : Type 0 where
  pub time_size : length h.information_time_bcd ≡ 6
  pub channel_size : length h.channel_id_bcd ≡ 2
  pub seq_size : length h.channel_seq_bcd ≡ 5
  pub body_size : length h.body_length_bcd ≡ 2

-- The first 19 bytes, cut into the fields.
header_fields :
    (b : List ℕ)
    → header_size ≤ length b
    → take header_size b
      ≡ get_or b 0 0
        ∷ get_or b 1 0
        ∷ get_or b 2 0
        ∷ (slice 3 6 b ++ (slice 9 2 b ++ (slice 11 5 b ++ get_or b 16 0 ∷ slice 17 2 b)))
header_fields b h =
    slice-cons 0 18 b 0 (omega arith)
    ∙ ap (λ l. get_or b 0 0 ∷ l) (slice-cons 1 17 b 0 (omega arith))
    ∙ ap (λ l. get_or b 0 0 ∷ get_or b 1 0 ∷ l) (slice-cons 2 16 b 0 (omega arith))
    ∙ ap (λ l. get_or b 0 0 ∷ get_or b 1 0 ∷ get_or b 2 0 ∷ l) arrays
  where
    arrays :
        slice 3 16 b
        ≡ slice 3 6 b ++ (slice 9 2 b ++ (slice 11 5 b ++ get_or b 16 0 ∷ slice 17 2 b))
    arrays =
        slice-append 3 6 10 b
        ∙ ap (λ l. slice 3 6 b ++ l) (slice-append 9 2 8 b)
        ∙ ap (λ l. slice 3 6 b ++ (slice 9 2 b ++ l)) (slice-append 11 5 3 b)
        ∙ ap (λ l. slice 3 6 b ++ (slice 9 2 b ++ (slice 11 5 b ++ l)))
            (slice-cons 16 2 b 0 (omega arith))

-- A buffer of at least 19 bytes is read whole and in order, whatever stood in `out_header`, and the
-- arrays are full.
pub wire-parse :
    (buffer : List ℕ) (out_header : CommonHeader)
    → header_size ≤ length buffer
    → ((parse (some buffer) out_header).0 ≡ true)
      × (wire (parse (some buffer) out_header).1 ≡ take header_size buffer)
      × IsShaped (parse (some buffer) out_header).1
unfolding parse wire
wire-parse buffer out_header h = rw (le→ltb (length buffer) header_size h) (
  refl,
  sym (header_fields buffer h),
  omega (
    arith,
    length-slice 3 6 buffer (omega arith),
    length-slice 9 2 buffer (omega arith),
    length-slice 11 5 buffer (omega arith),
    length-slice 17 2 buffer (omega arith),
  ),
)

-- A shorter buffer, or a null pointer, is refused and leaves `out_header` alone.
pub parse_short :
    (buffer : List ℕ) (out_header : CommonHeader)
    → length buffer < header_size
    → (parse (some buffer) out_header ≡ (false, out_header))
      × (parse none out_header ≡ (false, out_header))
unfolding parse
parse_short buffer out_header h = rw (lt→ltb (length buffer) header_size h) (refl, refl)

-- Fields of these sizes, one behind the other, are found at the offsets of the parser.
fields_read :
    (t c q : List ℕ) (v : ℕ) (b rest : List ℕ)
    → length t ≡ 6
    → length c ≡ 2
    → length q ≡ 5
    → length b ≡ 2
    → let l = t ++ (c ++ (q ++ v ∷ (b ++ rest))) in
      (take 6 l ≡ t)
      × (slice 6 2 l ≡ c)
      × (slice 8 5 l ≡ q)
      × (get_or l 13 0 ≡ v)
      × (slice 14 2 l ≡ b)
fields_read t c q v b rest ht hc hq hb =
    let l3 : List ℕ = v ∷ (b ++ rest) in
    let l2 : List ℕ = q ++ l3 in
    let l1 : List ℕ = c ++ l2 in
    (
      take_front 6 t l1 ht,
      rw (drop_front 6 0 t l1 ht) (take_front 2 c l2 hc),
      rw (drop_front 6 2 t l1 ht, drop_front 2 0 c l2 hc) (take_front 5 q l3 hq),
      get_or_front 6 7 t l1 0 ht ∙ get_or_front 2 5 c l2 0 hc ∙ get_or_front 5 0 q l3 0 hq,
      rw (drop_front 6 8 t l1 ht, drop_front 2 6 c l2 hc, drop_front 5 1 q l3 hq)
          (take_front 2 b rest hb),
    )

wire-append :
    (h : CommonHeader) (rest : List ℕ)
    → wire h ++ rest
      ≡ h.esc_code
        ∷ h.transmission_code
        ∷ h.message_kind
        ∷ (h.information_time_bcd
            ++ (h.channel_id_bcd
                ++ (h.channel_seq_bcd ++ h.version_no_bcd ∷ (h.body_length_bcd ++ rest))))
unfolding wire
wire-append h rest = simp append_assoc

length-wire-append :
    (h : CommonHeader) (rest : List ℕ) → IsShaped h → header_size ≤ length (wire h ++ rest)
unfolding wire
length-wire-append h rest shaped = omega (
  arith,
  length-append (wire h) rest,
  length-append h.information_time_bcd
      (h.channel_id_bcd ++ (h.channel_seq_bcd ++ h.version_no_bcd ∷ h.body_length_bcd)),
  length-append h.channel_id_bcd (h.channel_seq_bcd ++ h.version_no_bcd ∷ h.body_length_bcd),
  length-append h.channel_seq_bcd (h.version_no_bcd ∷ h.body_length_bcd),
)

-- A header that was written to a buffer is read back, with anything behind it.
pub parse-wire :
    (h out_header : CommonHeader) (rest : List ℕ)
    → IsShaped h
    → parse (some (wire h ++ rest)) out_header ≡ (true, h)
unfolding parse
parse-wire h out_header rest shaped =
    let long = length-wire-append h rest shaped in
    let (et, ec, eq, ev, eb) =
      fields_read h.information_time_bcd h.channel_id_bcd h.channel_seq_bcd h.version_no_bcd
        h.body_length_bcd rest shaped.time_size shaped.channel_size shaped.seq_size
        shaped.body_size in
    rw (le→ltb (length (wire h ++ rest)) header_size long, wire-append h rest, et, ec, eq, ev, eb)
