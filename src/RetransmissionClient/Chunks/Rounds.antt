-- ===== src/RetransmissionClient/Chunks/Rounds.antt =====
-- The rounds of the loop over the buffer, one at a time.
use taifex_cpp_sdk.Prelude.{
  ℕ, zero, suc, ◌≤◌, ◌<◌, ◌≡◌, ◌≢◌, refl, true, false, none, some, List, [], ◌∷◌, length, take,
  drop, arith,
}
use taifex_cpp_sdk.ErrorCodes.{Result, ok, err}
use taifex_cpp_sdk.RetransmissionClient.{Host, Connection, Client, call, market_data}
use taifex_cpp_sdk.RetransmissionClient.Handlers.{handle_protocol_message}
use taifex_cpp_sdk.RetransmissionClient.Framing.{
  Frame, waits, discards, market, malformed, protocol, throws, next_frame, client, take_frames,
}
use taifex_cpp_sdk.RetransmissionClient.Chunks.Frames.{consumed, Settled, next_frame-Settled}

-- What a round does to the connection.
abbrev pub handled : Host → Frame → List ℕ → Connection → Connection
handled host (market n) message c = call c.callbacks.market_data_callback (market_data message) c
handled host (protocol n header) message c = handle_protocol_message host header message c
handled host _ message c = c

-- What the last round returns.
abbrev pub last : Frame → Connection → List ℕ → Result (Unit {0}) × Client
last (throws e) c b = (err e, client c b)
last discards c b = (ok tt, client c [])
last _ c b = (ok tt, client c b)

module _ (host : Host) (c : Connection) (running : c.running ≡ true) where
  pub round_next :
      (r : ℕ) (b : List ℕ) (F : Frame) (n : ℕ)
      → b ≢ []
      → next_frame b ≡ F
      → consumed F ≡ some n
      → take_frames host (suc r) c b ≡ take_frames host r (handled host F (take n b) c) (drop n b)
  unfolding take_frames
  round_next r [] F n filled e eats = absurd (filled refl)
  round_next r (y ∷ b) waits n filled e eats = cc
  round_next r (y ∷ b) discards n filled e eats = cc
  round_next r (y ∷ b) (throws x) n filled e eats = cc
  round_next r (y ∷ b) (market m) n filled e eats = ground arith
  round_next r (y ∷ b) (malformed m) n filled e eats =
      let same : m ≡ n = cc in simp running (rw (e, same) refl)
  round_next r (y ∷ b) (protocol m h) n filled e eats =
      let same : m ≡ n = cc in simp running (rw (e, same) refl)

  pub round_last :
      (r : ℕ) (b : List ℕ) (F : Frame)
      → b ≢ []
      → next_frame b ≡ F
      → consumed F ≡ none
      → take_frames host (suc r) c b ≡ last F c b
  unfolding take_frames
  round_last r [] F filled e eats = absurd (filled refl)
  round_last r (y ∷ b) waits filled e eats = simp running (rw e refl)
  round_last r (y ∷ b) discards filled e eats = simp running (rw e refl)
  round_last r (y ∷ b) (throws x) filled e eats = simp running (rw e refl)
  round_last r (y ∷ b) (market m) filled e eats = cc
  round_last r (y ∷ b) (malformed m) filled e eats = cc
  round_last r (y ∷ b) (protocol m h) filled e eats = cc

pub stopped :
    (host : Host) (c : Connection) (r : ℕ) (b : List ℕ)
    → c.running ≡ false
    → take_frames host r c b ≡ (ok tt, client c b)
unfolding take_frames
stopped host c zero b h = refl
stopped host c (suc r) b h = rw h refl

pub no_bytes :
    (host : Host) (c : Connection) (r : ℕ) → take_frames host r c [] ≡ (ok tt, client c [])
unfolding take_frames
no_bytes host c zero = refl
no_bytes host c (suc r) = ground arith

-- A round takes some bytes, and no more than there are.
pub eaten : (b : List ℕ) (n : ℕ) → consumed (next_frame b) ≡ some n → (0 < n) × (n ≤ length b)
eaten b n = sizes (next_frame b) (next_frame-Settled b)
  where
    sizes : (F : Frame) → Settled b F → consumed F ≡ some n → (0 < n) × (n ≤ length b)
    sizes waits s e = cc
    sizes discards s e = cc
    sizes (throws x) s e = cc
    sizes (market m) s e = let same : m ≡ n = cc in rw (← same) s
    sizes (malformed m) s e = let same : m ≡ n = cc in rw (← same) s
    sizes (protocol m h) s e = let same : m ≡ n = cc in rw (← same) s
