-- ===== src/Messages/I081/RoundTrip.antt =====
-- Messages in the wire format of I081, written down independently of the parser, are parsed back.
use taifex_cpp_sdk.Prelude.{
  ℕ, ◌+◌, ◌*◌, ◌%◌, ◌^◌, ◌<◌, ◌≡◌, refl, ◌∙◌, some, List, [], ◌∷◌, ◌++◌, length, length-append,
  slice, All, arith, append_assoc, le→ltb, slice_here, slice_front, take_front, get_or_here,
  get_or_front,
}
use taifex_cpp_sdk.Prelude.Int.{pos}
use taifex_cpp_sdk.Messages.PriceFields.{
  price_wire, length-price_wire, parse_price_fields, parse_price_fields-wire,
}
use taifex_cpp_sdk.Messages.Wire.{bcd_bytes, length-bcd_bytes, read_number}
use taifex_cpp_sdk.Messages.I081.{MdEntryI081, parse_entry, parse_entries, parse_i081_body}

-- The fields of an entry as the exchange sends them.
pub record WireEntry : Type 0 where
  pub action : ℕ
  pub entry_type : ℕ
  pub entry_sign : ℕ
  pub price : ℕ
  pub quantity : ℕ
  pub level : ℕ

pub record FitsEntry (w : WireEntry) : Type 0 where
  pub price_fits : w.price < 10 ^ 9
  pub quantity_fits : w.quantity < 10 ^ 8
  pub level_fits : w.level < 100

abbrev pub entry_of : WireEntry → MdEntryI081
entry_of w = record {
  md_update_action = w.action;
  md_entry_type = w.entry_type;
  sign = w.entry_sign;
  md_entry_px = pos w.price;
  md_entry_size = pos w.quantity;
  md_price_level = w.level;
}

abbrev pub entries_of : List WireEntry → List MdEntryI081
entries_of [] = []
entries_of (w ∷ ws) = entry_of w ∷ entries_of ws

unfoldable pub entry_wire : WireEntry → List ℕ
entry_wire w =
    (w.action ∷ w.entry_type ∷ w.entry_sign ∷ []) ++ price_wire w.price w.quantity w.level

unfoldable pub entries_wire : List WireEntry → List ℕ
entries_wire [] = []
entries_wire (w ∷ ws) = entry_wire w ++ entries_wire ws

length-entry_wire : (w : WireEntry) → length (entry_wire w) ≡ 13
unfolding entry_wire
length-entry_wire w = omega (arith, length-price_wire w.price w.quantity w.level)

length-entries_wire : (ws : List WireEntry) → length (entries_wire ws) ≡ length ws * 13
unfolding entries_wire
length-entries_wire [] = omega arith
length-entries_wire (w ∷ ws) = omega (
  arith,
  length-append (entry_wire w) (entries_wire ws),
  length-entry_wire w,
  length-entries_wire ws,
)

parse_entry-wire :
    (w : WireEntry) (offset : ℕ) (before after : List ℕ)
    → FitsEntry w
    → length before ≡ offset
    → parse_entry offset (before ++ (entry_wire w ++ after)) ≡ some (entry_of w)
unfolding parse_entry entry_wire
parse_entry-wire w offset before after fits at_offset =
    let head : List ℕ = w.action ∷ w.entry_type ∷ w.entry_sign ∷ [] in
    let prices : List ℕ = price_wire w.price w.quantity w.level in
    let tail_eq : before ++ ((head ++ prices) ++ after) ≡ (before ++ head) ++ (prices ++ after) =
      simp append_assoc in
    let fields : parse_price_fields (offset + 3) (before ++ ((head ++ prices) ++ after))
        ≡ some (pos w.price, pos w.quantity, w.level) =
      rw tail_eq (
        parse_price_fields-wire w.price w.quantity w.level (offset + 3) (before ++ head) after
          fits.price_fits fits.quantity_fits fits.level_fits
          (omega (arith, length-append before head))) in
    rw (
      fields,
      get_or_here offset before ((head ++ prices) ++ after) 0 at_offset,
      get_or_front offset 1 before ((head ++ prices) ++ after) 0 at_offset,
      get_or_front offset 2 before ((head ++ prices) ++ after) 0 at_offset,
    )

parse_entries-wire :
    (ws : List WireEntry) (offset : ℕ) (before after : List ℕ)
    → All FitsEntry ws
    → length before ≡ offset
    → parse_entries (length ws) offset (before ++ (entries_wire ws ++ after)) ≡ some (entries_of ws)
unfolding parse_entries entries_wire
parse_entries-wire [] offset before after fits at_offset = refl
parse_entries-wire (w ∷ ws) offset before after fits at_offset =
    let rest : List ℕ = entries_wire ws in
    let split : before ++ ((entry_wire w ++ rest) ++ after)
        ≡ before ++ (entry_wire w ++ (rest ++ after)) =
      simp append_assoc in
    let moved : before ++ (entry_wire w ++ (rest ++ after))
        ≡ (before ++ entry_wire w) ++ (rest ++ after) =
      simp append_assoc in
    let later =
      parse_entries-wire ws (offset + 13) (before ++ entry_wire w) after fits.1
        (omega (arith, length-append before (entry_wire w), length-entry_wire w)) in
    rw (split, parse_entry-wire w offset before (rest ++ after) fits.0 at_offset)
      (rw (moved, later) refl)

-- A whole body: the product id, the sequence number, the number of entries and the entries, and what
-- may stand behind them.
unfoldable pub body_wire : List ℕ → ℕ → List WireEntry → List ℕ → List ℕ
body_wire prod_id seq ws trailing =
    prod_id ++ (bcd_bytes 5 seq ++ (bcd_bytes 1 (length ws) ++ (entries_wire ws ++ trailing)))

length-body_wire :
    (prod_id : List ℕ) (seq : ℕ) (ws : List WireEntry) (trailing : List ℕ)
    → length prod_id ≡ 20
    → length (body_wire prod_id seq ws trailing) ≡ 26 + length ws * 13 + length trailing
unfolding body_wire
length-body_wire prod_id seq ws trailing hp = omega (
  arith,
  length-append prod_id
      (bcd_bytes 5 seq ++ (bcd_bytes 1 (length ws) ++ (entries_wire ws ++ trailing))),
  length-append (bcd_bytes 5 seq) (bcd_bytes 1 (length ws) ++ (entries_wire ws ++ trailing)),
  length-append (bcd_bytes 1 (length ws)) (entries_wire ws ++ trailing),
  length-append (entries_wire ws) trailing,
  length-bcd_bytes 5 seq,
  length-bcd_bytes 1 (length ws),
  length-entries_wire ws,
)

module _ (prod_id : List ℕ) (seq : ℕ) (ws : List WireEntry) (trailing : List ℕ) where
  -- A message in the wire format is parsed back field by field, with anything behind it: the product id,
  -- the sequence number modulo 2 ^ 32, the number of entries and the entries in their order.
  pub parse_i081_body-wire :
      length prod_id ≡ 20
      → seq < 10 ^ 10
      → length ws < 100
      → All FitsEntry ws
      → parse_i081_body (some (body_wire prod_id seq ws trailing))
        ≡ some (record {
          prod_id = prod_id;
          prod_msg_seq = seq % 2 ^ 32;
          no_md_entries = length ws;
          md_entries = entries_of ws;
        })
  unfolding parse_i081_body body_wire
  parse_i081_body-wire hp hs hn fits =
      let seqb : List ℕ = bcd_bytes 5 seq in
      let cntb : List ℕ = bcd_bytes 1 (length ws) in
      let l2 : List ℕ = entries_wire ws ++ trailing in
      let l1 : List ℕ = cntb ++ l2 in
      let l0 : List ℕ = seqb ++ l1 in
      let body : List ℕ = prod_id ++ l0 in
      let size : length body ≡ 26 + length ws * 13 + length trailing =
        length-body_wire prod_id seq ws trailing hp in
      let small : length ws % 256 ≡ length ws = omega arith in
      let seq_bytes : slice 20 5 body ≡ seqb =
        slice_here 20 5 prod_id l0 hp ∙ take_front 5 seqb l1 (length-bcd_bytes 5 seq) in
      let count_bytes : slice 25 1 body ≡ cntb =
        slice_front 20 5 1 prod_id l0 hp
        ∙ slice_here 5 1 seqb l1 (length-bcd_bytes 5 seq)
        ∙ take_front 1 cntb l2 (length-bcd_bytes 1 (length ws)) in
      let head : List ℕ = prod_id ++ (seqb ++ cntb) in
      let split : body ≡ head ++ l2 = simp append_assoc in
      let entries : parse_entries (length ws) 26 body ≡ some (entries_of ws) = rw split (
        parse_entries-wire ws 26 head trailing fits (
          omega (
            arith,
            length-append prod_id (seqb ++ cntb),
            length-append seqb cntb,
            length-bcd_bytes 5 seq,
            length-bcd_bytes 1 (length ws),
          ))) in
      rw (
        le→ltb (length body) 26 (omega (arith, size)),
        seq_bytes,
        (read_number 5 10 seq (omega arith) (omega arith) (omega arith) (omega arith) hs).0,
        count_bytes,
        (read_number 1 2 (length ws) (omega arith) (omega arith) (omega arith) (omega arith)
            (omega arith)).0,
        small,
        le→ltb (length body) (26 + length ws * 13) (omega (arith, size)),
        entries,
        take_front 20 prod_id l0 hp,
      )
