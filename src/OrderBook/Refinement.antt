-- ===== src/OrderBook/Refinement.antt =====
-- The detailed book implements its abstract view.
use taifex_cpp_sdk.Prelude.{ℕ, ◌≡◌, ap, ◌∙◌, List, foldl, arith}
use taifex_cpp_sdk.Prelude.Int.{ℤ}
use taifex_cpp_sdk.SortedMap.{find}
use taifex_cpp_sdk.SortedMap.Order.{ascending, descending}
use taifex_cpp_sdk.Messages.I081.{MdEntryI081, MessageI081}
use taifex_cpp_sdk.Messages.I083.{MdEntryI083, MessageI083}
use taifex_cpp_sdk.OrderBook.{
  OrderBook, reset, apply_entry, apply_update, apply_snapshot, apply_snapshot_entry, note_seq,
}
use taifex_cpp_sdk.OrderBook.Valid.{IsValid, apply_entry-IsValid, note_seq-IsValid}
use taifex_cpp_sdk.OrderBook.LastWriter.{
  view, foldl-effect, update_effect, snapshot_effect, overlay_effect, snapshot_quote_effect,
  bid-apply_entry, ask-apply_entry, bid-apply_snapshot_entry, ask-apply_snapshot_entry,
  derived-apply_entry, derived-apply_snapshot_entry, update_view, snapshot_view,
}

pub view-note_seq : (seq : ℕ) (book : OrderBook) → view (note_seq seq book) ≡ view book
unfolding note_seq
view-note_seq seq book = ground arith

-- An update refines the abstract one: on a valid book, the last entry of the message that writes at a
-- price of a side decides the quantity there, a price that no entry writes keeps its quantity, and each
-- derived quote is the last overlay of the message, or as before if there is none.
pub view-apply_update :
    (book : OrderBook) (msg : MessageI081)
    → IsValid book
    → view (apply_update book msg) ≡ update_view msg.md_entries (view book)
unfolding apply_update
view-apply_update book msg h =
    let start : OrderBook = note_seq msg.prod_msg_seq book in
    let valid : IsValid start = note_seq-IsValid msg.prod_msg_seq book h in
    let entries : List MdEntryI081 = msg.md_entries in
    let bids = λ (p : ℤ).
      foldl-effect apply_entry (update_effect 48 p) (λ b. find descending p b.bids) IsValid start
        entries apply_entry-IsValid (bid-apply_entry p) valid in
    let asks = λ (p : ℤ).
      foldl-effect apply_entry (update_effect 49 p) (λ b. find ascending p b.asks) IsValid start
        entries apply_entry-IsValid (ask-apply_entry p) valid in
    let bid =
      foldl-effect apply_entry (overlay_effect 69) (λ b. b.derived_bid) IsValid start entries
        apply_entry-IsValid (λ b e _. (derived-apply_entry b e).0) valid in
    let ask =
      foldl-effect apply_entry (overlay_effect 70) (λ b. b.derived_ask) IsValid start entries
        apply_entry-IsValid (λ b e _. (derived-apply_entry b e).1) valid in
    let whole : view (foldl apply_entry start entries) ≡ update_view entries (view start) = λ i.
      record {
        bid_at = λ p. bids p i;
        ask_at = λ p. asks p i;
        best_derived_bid = bid i;
        best_derived_ask = ask i;
      } in
    whole ∙ ap (update_view entries) (view-note_seq msg.prod_msg_seq book)

-- A snapshot refines the abstract one: whatever the book held, afterwards the quantity at a price of a
-- side is that of the last entry for it with a quantity above zero, and a price without such an entry
-- has no level; derived quotes are those of the last entries for them if the message is not of a call
-- auction, else absent.
pub view-apply_snapshot :
    (book : OrderBook) (msg : MessageI083)
    → view (apply_snapshot book msg) ≡ snapshot_view msg.calculated_flag msg.md_entries
unfolding apply_snapshot
view-apply_snapshot book msg =
    let start : OrderBook = record (reset book) { last_prod_msg_seq = msg.prod_msg_seq } in
    let step = apply_snapshot_entry msg.calculated_flag in
    let flag = msg.calculated_flag in
    let entries : List MdEntryI083 = msg.md_entries in
    let any : OrderBook → Type 0 = λ b. Unit in
    let bids = λ (p : ℤ).
      foldl-effect step (snapshot_effect 48 p) (λ b. find descending p b.bids) any start entries
        (λ b e u. tt) (λ b e u. bid-apply_snapshot_entry flag p b e) tt in
    let asks = λ (p : ℤ).
      foldl-effect step (snapshot_effect 49 p) (λ b. find ascending p b.asks) any start entries
        (λ b e u. tt) (λ b e u. ask-apply_snapshot_entry flag p b e) tt in
    let bid =
      foldl-effect step (snapshot_quote_effect flag 69) (λ b. b.derived_bid) any start entries
        (λ b e u. tt) (λ b e u. (derived-apply_snapshot_entry flag b e).0) tt in
    let ask =
      foldl-effect step (snapshot_quote_effect flag 70) (λ b. b.derived_ask) any start entries
        (λ b e u. tt) (λ b e u. (derived-apply_snapshot_entry flag b e).1) tt in
    unfold find in
    λ i. record {
      bid_at = λ p. bids p i;
      ask_at = λ p. asks p i;
      best_derived_bid = bid i;
      best_derived_ask = ask i;
    }
