-- ===== src/RetransmissionClient/Chunks/Frames.antt =====
-- A complete frame at the front of the buffer when more bytes arrive.
use taifex_cpp_sdk.Prelude.{
  ℕ, zero, suc, ◌+◌, ◌≤◌, ◌<◌, ◌≡◌, ◌≢◌, refl, sym, ap, ◌∙◌, true, false, Option, none, some, inl,
  inr, List, [], ◌∷◌, ◌++◌, length, get_or, take, drop, ltb, leb, ◌==◌, arith, take-append-drop,
  append_assoc, length-append, take-append_le, Option-cases, Bool-cases,
}
use taifex_cpp_sdk.ErrorCodes.{Result-cases}
use taifex_cpp_sdk.CommonHeader.{CommonHeader, header_size, default_header, parse, get_body_length}
use taifex_cpp_sdk.CommonHeader.Layout.{wire, wire-parse, parse-wire}
use taifex_cpp_sdk.Retransmission.Protocol.{get_short, deserialize_header}
use taifex_cpp_sdk.RetransmissionClient.Framing.{
  Frame, waits, discards, market, malformed, protocol, throws, market_frame, protocol_frame,
  next_frame,
}

-- The bytes that a round erases.
abbrev pub consumed : Frame → Option ℕ
consumed (market n) = some n
consumed (malformed n) = some n
consumed (protocol n header) = some n
consumed _ = none

-- The header is read from the first 19 bytes.
pub parse_front :
    (b x : List ℕ)
    → header_size ≤ length b
    → (h : CommonHeader) × (parse (some b) default_header ≡ (true, h))
      × (parse (some (b ++ x)) default_header ≡ (true, h))
parse_front b x long =
    let (good, written, shaped) = wire-parse b default_header long in
    let h = (parse (some b) default_header).1 in
    let cut : b ≡ wire h ++ drop header_size b =
      sym (take-append-drop header_size b) ∙ ap (λ l. l ++ drop header_size b) (sym written) in
    let cut_more : b ++ x ≡ wire h ++ (drop header_size b ++ x) =
      ap (λ l. l ++ x) cut ∙ append_assoc (wire h) (drop header_size b) x in
    (
      h,
      ap (λ l. parse (some l) default_header) cut
          ∙ parse-wire h default_header (drop header_size b) shaped,
      ap (λ l. parse (some l) default_header) cut_more
          ∙ parse-wire h default_header (drop header_size b ++ x) shaped,
    )

-- What is known of a frame that is no longer waited for.
abbrev pub Settled : List ℕ → Frame → Type 0
Settled b waits = Unit
Settled b discards = ⊥
Settled b (throws e) = Unit
Settled b (market n) = (0 < n) × (n ≤ length b)
Settled b (malformed n) = (0 < n) × (n ≤ length b)
Settled b (protocol n header) = (0 < n) × (n ≤ length b)

market_frame-Settled : (b : List ℕ) → Settled b (market_frame b)
unfolding market_frame
market_frame-Settled b = elim (Bool-cases (ltb (length b) header_size)) [
  | inl short ↦ rw (short, market_frame) tt
  | inr long ↦
      let (h, parsed, _) = parse_front b [] (ground arith) in
      elim (Result-cases (get_body_length h)) [
        | inl (n, e) ↦ elim (Bool-cases (leb (header_size + n + 1 + 2) (length b))) [
          | inl enough ↦ rw (long, parsed, market_frame, e, enough) (omega arith, ground arith)
          | inr more ↦ rw (long, parsed, market_frame, e, more) tt
        ]
        | inr (x, e) ↦ rw (long, parsed, market_frame, e) tt
      ]
]

protocol_frame-Settled : (b : List ℕ) → Settled b (protocol_frame b)
unfolding protocol_frame
protocol_frame-Settled b =
    let n = 2 + get_short b 0 + 1 in
    elim (Bool-cases (ltb (length b) 2)) [
      | inl short ↦ rw (short, protocol_frame) tt
      | inr long ↦ elim (Bool-cases (leb n (length b))) [
        | inr more ↦ rw (long, protocol_frame, more) tt
        | inl enough ↦ elim (Option-cases (deserialize_header (take n b) 0)) [
          | inl absent ↦ rw (long, protocol_frame, enough, absent) (omega arith, ground arith)
          | inr (header, e) ↦ rw (long, protocol_frame, enough, e) (omega arith, ground arith)
        ]
      ]
    ]

pub next_frame-Settled : (b : List ℕ) → Settled b (next_frame b)
unfolding next_frame
next_frame-Settled b = elim (Bool-cases (get_or b 0 0 == 0x1B)) [
  | inl e ↦ rw (e, next_frame) (market_frame-Settled b)
  | inr e ↦ rw (e, next_frame) (protocol_frame-Settled b)
]

market_frame-append :
    (b x : List ℕ) → market_frame b ≢ waits → market_frame (b ++ x) ≡ market_frame b
unfolding market_frame
market_frame-append b x ready = elim (Bool-cases (ltb (length b) header_size)) [
  | inl short ↦ absurd (ready (rw (short, market_frame) refl))
  | inr long ↦
      let (h, parsed, parsed_more) = parse_front b x (ground arith) in
      let long_more : ltb (length (b ++ x)) header_size ≡ false =
        ground (arith, length-append b x) in
      elim (Result-cases (get_body_length h)) [
        | inl (n, e) ↦ elim (Bool-cases (leb (header_size + n + 1 + 2) (length b))) [
          | inl enough ↦
              let enough_more : leb (header_size + n + 1 + 2) (length (b ++ x)) ≡ true =
                ground (arith, length-append b x) in
              rw (long, long_more, parsed, parsed_more, market_frame, e, enough, enough_more) refl
          | inr more ↦ absurd (ready (rw (long, parsed, market_frame, e, more) refl))
        ]
        | inr (err_e, e) ↦ rw (long, long_more, parsed, parsed_more, market_frame, e) refl
      ]
]

-- The first bytes are the same.
get_or-append : (b x : List ℕ) (i : ℕ) → i < length b → get_or (b ++ x) i 0 ≡ get_or b i 0
get_or-append [] x i h = absurd (omega arith)
get_or-append (y ∷ b) x zero h = refl
get_or-append (y ∷ b) x (suc i) h = get_or-append b x i (omega arith)

protocol_frame-append :
    (b x : List ℕ) → protocol_frame b ≢ waits → protocol_frame (b ++ x) ≡ protocol_frame b
unfolding protocol_frame
protocol_frame-append b x ready =
    let n = 2 + get_short b 0 + 1 in
    elim (Bool-cases (ltb (length b) 2)) [
      | inl short ↦ absurd (ready (rw (short, protocol_frame) refl))
      | inr long ↦ elim (Bool-cases (leb n (length b))) [
        | inr more ↦ absurd (ready (rw (long, protocol_frame, more) refl))
        | inl enough ↦
            let first = get_or-append b x 0 (ground arith) in
            let second = get_or-append b x 1 (ground arith) in
            let long_more : ltb (length (b ++ x)) 2 ≡ false = ground (arith, length-append b x) in
            let enough_more : leb n (length (b ++ x)) ≡ true = ground (arith, length-append b x) in
            let same_take = take-append_le n b x (ground arith) in
            elim (Option-cases (deserialize_header (take n b) 0)) [
              | inl absent ↦
                  rw
                    (
                      long, long_more, first, second, enough, enough_more, same_take, absent, first,
                      second,
                    )
                    refl
              | inr (header, e) ↦
                  rw
                    (
                      long, long_more, first, second, enough, enough_more, same_take, e, first,
                      second,
                    )
                    refl
            ]
      ]
    ]

-- Once a frame is complete, further bytes do not change it.
pub next_frame-append :
    (b x : List ℕ) → b ≢ [] → next_frame b ≢ waits → next_frame (b ++ x) ≡ next_frame b
unfolding next_frame
next_frame-append [] x filled ready = absurd (filled refl)
next_frame-append (y ∷ b) x filled ready = elim (Bool-cases (y == 0x1B)) [
  | inl e ↦ rw (e, next_frame) (market_frame-append (y ∷ b) x (λ w. ready (rw (e, next_frame) w)))
  | inr e ↦ rw (e, next_frame) (protocol_frame-append (y ∷ b) x (λ w. ready (rw (e, next_frame) w)))
]
