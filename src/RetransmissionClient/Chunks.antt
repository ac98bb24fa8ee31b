-- ===== src/RetransmissionClient/Chunks.antt =====
-- The loop over the buffer when the stream is cut into chunks.
mod Frames
mod Rounds
use taifex_cpp_sdk.Prelude.{
  cons-ne-nil, ℕ, zero, suc, ◌+◌, ◌-◌, ◌≤◌, ◌<◌, ◌≡◌, ◌≢◌, refl, sym, ap, ◌∙◌, Bool, true, false,
  Option, none, some, inl, inr, List, [], ◌∷◌, ◌++◌, append_assoc, append-nil, length, take, drop,
  arith, length-append, length-drop, take-append_le, drop-append_le, Bool-cases, Option-cases,
}
use taifex_cpp_sdk.ErrorCodes.{Exception, Result, ok, err}
use taifex_cpp_sdk.RetransmissionClient.{Host, Connection, Client}
use taifex_cpp_sdk.RetransmissionClient.Framing.{
  Frame, waits, discards, market, malformed, protocol, throws, next_frame, client, take_frames,
  process_incoming_data,
}
pub use Frames.{consumed, next_frame-append}
pub use Rounds.{handled, last, round_next, round_last, stopped, no_bytes, eaten}
use Frames.{Settled, next_frame-Settled}

-- Rounds beyond the length of the buffer change nothing.
pub take_frames_enough :
    (host : Host) (f g : ℕ) (c : Connection) (b : List ℕ)
    → length b ≤ f
    → length b ≤ g
    → take_frames host f c b ≡ take_frames host g c b
take_frames_enough host f g c [] hf hg = no_bytes host c f ∙ sym (no_bytes host c g)
take_frames_enough host zero g c (y ∷ b) hf hg = absurd (omega arith)
take_frames_enough host (suc f) zero c (y ∷ b) hf hg = absurd (omega arith)
take_frames_enough host (suc f) (suc g) c (y ∷ b) hf hg = elim (Bool-cases c.running) [
  | inr halted ↦ stopped host c (suc f) (y ∷ b) halted ∙ sym (stopped host c (suc g) (y ∷ b) halted)
  | inl running ↦
      let F = next_frame (y ∷ b) in
      let filled = cons-ne-nil y b in
      elim (Option-cases (consumed F)) [
        | inl none_eaten ↦
            round_last host c running f (y ∷ b) F filled refl none_eaten
            ∙ sym (round_last host c running g (y ∷ b) F filled refl none_eaten)
        | inr (n, eats) ↦
            let (some_eaten, within) = eaten (y ∷ b) n eats in
            let left = length-drop n (y ∷ b) in
            round_next host c running f (y ∷ b) F n filled refl eats
            ∙ take_frames_enough host f g (handled host F (take n (y ∷ b)) c) (drop n (y ∷ b))
                (omega arith) (omega arith)
            ∙ sym (round_next host c running g (y ∷ b) F n filled refl eats)
      ]
]

-- What becomes of a call when more bytes `x` arrive after it; after an exception they stay in the buffer.
abbrev pub resume : Host → List ℕ → Result (Unit {0}) × Client → Result (Unit {0}) × Client
resume host x (ok done, k) =
    take_frames host (length (k.tcp_receive_buffer ++ x)) k.connection (k.tcp_receive_buffer ++ x)
resume host x (err e, k) = (err e, client k.connection (k.tcp_receive_buffer ++ x))

resume-last :
    (host : Host) (c : Connection) (b x : List ℕ) (F : Frame)
    → c.running ≡ true
    → b ≢ []
    → next_frame b ≡ F
    → Settled b F
    → consumed F ≡ none
    → take_frames host (length (b ++ x)) c (b ++ x) ≡ resume host x (last F c b)
resume-last host c [] x F running filled e settled eats = absurd (filled refl)
resume-last host c (y ∷ b) x waits running filled e settled eats = refl
resume-last host c (y ∷ b) x discards running filled e settled eats = absurd settled
resume-last host c (y ∷ b) x (throws t) running filled e settled eats =
    round_last host c running (length (b ++ x)) (y ∷ (b ++ x)) (throws t) (cons-ne-nil y (b ++ x))
      (next_frame-append (y ∷ b) x filled (λ w. cc) ∙ e) refl
resume-last host c (y ∷ b) x (market n) running filled e settled eats = cc
resume-last host c (y ∷ b) x (malformed n) running filled e settled eats = cc
resume-last host c (y ∷ b) x (protocol n h) running filled e settled eats = cc

pub eats-ne-waits : (F : Frame) (n : ℕ) → consumed F ≡ some n → F ≢ waits
eats-ne-waits F n eats w = cc (ap consumed w)

pub take_frames-append :
    (host : Host) (r : ℕ) (c : Connection) (b x : List ℕ)
    → length b ≤ r
    → take_frames host (length (b ++ x)) c (b ++ x) ≡ resume host x (take_frames host r c b)
take_frames-append host r c [] x h = rw (no_bytes host c r) refl
take_frames-append host zero c (y ∷ b) x h = absurd (omega arith)
take_frames-append host (suc r) c (y ∷ b) x h = elim (Bool-cases c.running) [
  | inr halted ↦ rw (stopped host c (suc r) (y ∷ b) halted) refl
  | inl running ↦
      let F = next_frame (y ∷ b) in
      let filled = cons-ne-nil y b in
      elim (Option-cases (consumed F)) [
        | inl none_eaten ↦
            resume-last host c (y ∷ b) x F running filled refl (next_frame-Settled (y ∷ b))
              none_eaten
            ∙ ap (resume host x)
                (sym (round_last host c running r (y ∷ b) F filled refl none_eaten))
        | inr (n, eats) ↦
            let (some_eaten, within) = eaten (y ∷ b) n eats in
            let left = length-drop n (y ∷ b) in
            let after = handled host F (take n (y ∷ b)) c in
            let kept = next_frame-append (y ∷ b) x filled (eats-ne-waits F n eats) in
            let rest = drop n (y ∷ b) ++ x in
            let same_take = take-append_le n (y ∷ b) x within in
            let same_drop = drop-append_le n (y ∷ b) x within in
            round_next host c running (length (b ++ x)) (y ∷ (b ++ x)) F n (cons-ne-nil y (b ++ x))
              kept eats
            ∙ ap
                (λ (l : List ℕ).
                  take_frames host (length (b ++ x)) (handled host F l c) (drop n (y ∷ (b ++ x))))
                same_take
            ∙ ap (λ (l : List ℕ). take_frames host (length (b ++ x)) after l) same_drop
            ∙ take_frames_enough host (length (b ++ x)) (length rest) after rest
                (omega (arith, length-append b x, length-append (drop n (y ∷ b)) x)) (omega arith)
            ∙ take_frames-append host r after (drop n (y ∷ b)) x (omega arith)
            ∙ ap (resume host x) (sym (round_next host c running r (y ∷ b) F n filled refl eats))
      ]
]
