-- ===== src/Sdk/Keeps.antt =====
-- A condition that storing a sequence number keeps holds after process_message if it held before.
use taifex_cpp_sdk.Prelude.{
  ℕ, ◌^◌, ◌<◌, ◌≡◌, true, not, ◌||◌, Option, none, some, List, length, is_empty, arith, ltb,
  Bool-cases, inl, inr,
}
use taifex_cpp_sdk.ErrorCodes.{Result, ok, err}
use taifex_cpp_sdk.CommonHeader.{
  CommonHeader, default_header, parse, get_body_length, get_channel_id, get_channel_seq,
}
use taifex_cpp_sdk.CommonHeader.Layout.{IsShaped, wire-parse}
use taifex_cpp_sdk.Sdk.{
  Sdk, Call, continue, record_sequence, is_sequence_valid, accept_message, check_body,
  check_message, process_message,
}
use taifex_cpp_sdk.Sdk.State.{header_numbers}

module _ (P : Sdk → Type 0) where
  pub continue-keeps :
      {A B : Type 0} (f : A → Call B) (t : Result A × Sdk)
      → ((a : A) (sdk : Sdk) → P sdk → P (f a sdk).1)
      → P t.1
      → P (continue f t).1
  continue-keeps f (ok a, sdk) keeps h = keeps a sdk h
  continue-keeps f (err e, sdk) keeps h = h

-- What storing a sequence number keeps, process_message keeps.
module _ (P : Sdk → Type 0)
    (stores : (sdk : Sdk) (c n : ℕ) → n < 10 ^ 10 → P sdk → P (record_sequence c n sdk).1) where
  is_sequence_valid-keeps :
      (header : CommonHeader) (sdk : Sdk)
      → IsShaped header
      → P sdk
      → P (is_sequence_valid header sdk).1
  unfolding is_sequence_valid
  is_sequence_valid-keeps header sdk shaped h = elim (header_numbers header shaped) [
    | inr (inl no_channel) ↦ rw (is_sequence_valid, no_channel) h
    | inr (inr (channel_id, channel_read, no_seq)) ↦ rw (is_sequence_valid, channel_read, no_seq) h
    | inl (channel_id, seq, channel_read, seq_read, small) ↦
        rw (is_sequence_valid, channel_read, seq_read) (stores sdk channel_id seq small h)
  ]

  accept_message-keeps :
      (header : CommonHeader) (sdk : Sdk)
      → IsShaped header
      → P sdk
      → P (accept_message header sdk).1
  unfolding accept_message
  accept_message-keeps header sdk shaped h =
      continue-keeps P _ (get_body_length header, sdk)
        (λ n s hs.
          continue-keeps P _ (get_channel_id header, s)
            (λ c s' hs'.
              continue-keeps P _ (get_channel_seq header, s')
                (λ q s'' hs''.
                  continue-keeps P _ (is_sequence_valid header s'') (λ v u hu. hu)
                    (is_sequence_valid-keeps header s'' shaped hs''))
                hs')
            hs)
        h

  check_body-keeps :
      (raw : List ℕ) (header : CommonHeader) (n : ℕ) (sdk : Sdk)
      → IsShaped header
      → P sdk
      → P (check_body raw header n sdk).1
  unfolding check_body
  check_body-keeps raw header n sdk shaped h =
      ground (arith, accept_message-keeps header sdk shaped h)

  pub process_message-keeps :
      (raw : Option (List ℕ)) (sdk : Sdk) → P sdk → P (process_message raw sdk).1
  unfolding process_message check_message
  process_message-keeps none sdk h = h
  process_message-keeps (some raw) sdk h =
      let header = (parse (some raw) default_header).1 in
      elim (Bool-cases (ltb (length raw) 19)) [
        | inl short ↦
            let guard : (not sdk.initialized
                  || is_empty raw
                  || ltb (length raw) 22
                  || not (parse (some raw) default_header).0)
                ≡ true =
              ground arith in
            rw (process_message, guard) h
        | inr long ↦
            let (_, _, shaped) = wire-parse raw default_header (ground arith) in
            let checked : P (check_message raw header sdk).1 =
              continue-keeps P (check_body raw header) (get_body_length header, sdk)
                (λ n s hs. check_body-keeps raw header n s shaped hs) h in
            elim (Bool-cases (
              not sdk.initialized
              || is_empty raw
              || ltb (length raw) 22
              || not (parse (some raw) default_header).0)) [
                | inl stop ↦ rw (process_message, stop) h
                | inr go ↦ rw (process_message, go) checked
              ]
      ]
