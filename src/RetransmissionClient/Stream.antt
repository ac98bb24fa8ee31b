-- ===== src/RetransmissionClient/Stream.antt =====
-- process_incoming_data over a whole stream: chunks, and where it stops.
use taifex_cpp_sdk.Prelude.{
  ℕ, zero, suc, ◌≤◌, ◌≡◌, ◌≢◌, refl, sym, ap, ◌∙◌, ◌⊎◌, true, false, Option, none, some, inl, inr,
  List, [], ◌∷◌, ◌++◌, append_assoc, append-nil, length, take, drop, arith, length-drop, Bool-cases,
  Option-cases,
}
use taifex_cpp_sdk.ErrorCodes.{Result, ok, err}
use taifex_cpp_sdk.RetransmissionClient.{Host, Connection, Client}
use taifex_cpp_sdk.RetransmissionClient.Framing.{
  Frame, waits, discards, market, malformed, protocol, throws, next_frame, client, take_frames,
  process_incoming_data,
}
use taifex_cpp_sdk.RetransmissionClient.Chunks.{
  consumed, handled, round_next, round_last, stopped, no_bytes, eaten, take_frames_enough,
  take_frames-append, resume,
}

-- More bytes after a call that returned or threw.
abbrev pub then_receive : Host → List ℕ → Result (Unit {0}) × Client → Result (Unit {0}) × Client
then_receive host x (ok done, k) = process_incoming_data host x k
then_receive host x (err e, k) = (err e, client k.connection (k.tcp_receive_buffer ++ x))

resume-eq-then_receive :
    (host : Host) (x : List ℕ) (r : Result (Unit {0}) × Client)
    → resume host x r ≡ then_receive host x r
unfolding process_incoming_data
resume-eq-then_receive host x (ok done, k) = refl
resume-eq-then_receive host x (err e, k) = refl

-- Two chunks do what one chunk with the bytes of both does: the second is handled in the state that the
-- first leaves, and after an exception it stays in the buffer.
pub process_incoming_data-append :
    (host : Host) (a x : List ℕ) (k : Client)
    → process_incoming_data host (a ++ x) k ≡ then_receive host x (process_incoming_data host a k)
unfolding process_incoming_data
process_incoming_data-append host a x k =
    let b = k.tcp_receive_buffer ++ a in
    ap (λ (l : List ℕ). take_frames host (length l) k.connection l)
      (sym (append_assoc k.tcp_receive_buffer a x))
    ∙ take_frames-append host (length b) k.connection b x (omega arith)
    ∙ resume-eq-then_receive host x (take_frames host (length b) k.connection b)

abbrev proceed :
    (Client → Result (Unit {0}) × Client) → Result (Unit {0}) × Client → Result (Unit {0}) × Client
proceed f (ok done, k) = f k
proceed f (err e, k) = (err e, k)

-- The chunks that recv returned, one after the other; an exception ends the thread.
unfoldable pub receive_chunks : Host → List (List ℕ) → Client → Result (Unit {0}) × Client
receive_chunks host [] k = (ok tt, k)
receive_chunks host (x ∷ xs) k = proceed (receive_chunks host xs) (process_incoming_data host x k)

abbrev pub concat : List (List ℕ) → List ℕ
concat [] = []
concat (x ∷ xs) = x ++ concat xs

-- What can be seen of a call: the outcome, the connection, and the buffer if nothing was thrown.
abbrev pub seen : Result (Unit {0}) × Client → Result (Unit {0}) × Connection × Option (List ℕ)
seen (ok done, k) = (ok done, k.connection, some k.tcp_receive_buffer)
seen (err e, k) = (err e, k.connection, none)

seen_after :
    (host : Host) (f : Client → Result (Unit {0}) × Client) (x : List ℕ)
    (r : Result (Unit {0}) × Client)
    → ((k : Client) → seen (f k) ≡ seen (process_incoming_data host x k))
    → seen (proceed f r) ≡ seen (then_receive host x r)
seen_after host f x (ok done, k) h = h k
seen_after host f x (err e, k) h = refl

seen_last :
    (host : Host) (r : Result (Unit {0}) × Client)
    → seen (proceed (receive_chunks host []) r) ≡ seen r
unfolding receive_chunks
seen_last host (ok tt, k) = refl
seen_last host (err e, k) = refl

-- However the stream is cut into chunks, what can be seen is what the whole stream does when it is
-- received at once: the same outcome and connection, with every callback and reply, and the same buffer if
-- nothing was thrown.
pub receive_chunks-concat :
    (host : Host) (x : List ℕ) (xs : List (List ℕ)) (k : Client)
    → seen (receive_chunks host (x ∷ xs) k) ≡ seen (process_incoming_data host (concat (x ∷ xs)) k)
unfolding receive_chunks
receive_chunks-concat host x [] k =
    rw (append-nil x) (seen_last host (process_incoming_data host x k))
receive_chunks-concat host x (y ∷ ys) k =
    rw (process_incoming_data-append host x (concat (y ∷ ys)) k) (
      seen_after host (receive_chunks host (y ∷ ys)) (concat (y ∷ ys))
        (process_incoming_data host x k) (receive_chunks-concat host y ys))

pub seen-ok :
    (r : Result (Unit {0}) × Client) (k : Client) → seen r ≡ seen (ok tt, k) → r ≡ (ok tt, k)
seen-ok (ok tt, d) k e = ground arith
seen-ok (err x, d) k e = absurd (ground arith)

-- A call has come to its end: the client was stopped, or the buffer is empty or waits for more bytes, or
-- the exception is that of the frame at the front.
abbrev pub Ended : Result (Unit {0}) × Client → Type 0
Ended (ok done, k) =
    (k.connection.running ≡ false)
    ⊎ ((k.tcp_receive_buffer ≡ []) ⊎ (next_frame k.tcp_receive_buffer ≡ waits))
Ended (err e, k) = next_frame k.tcp_receive_buffer ≡ throws e

last-Ended :
    (host : Host) (c : Connection) (r : ℕ) (b : List ℕ) (F : Frame)
    → c.running ≡ true
    → b ≢ []
    → next_frame b ≡ F
    → consumed F ≡ none
    → Ended (take_frames host (suc r) c b)
last-Ended host c r b waits running filled e eats =
    rw (round_last host c running r b waits filled e eats) (inr (inr e))
last-Ended host c r b discards running filled e eats =
    rw (round_last host c running r b discards filled e eats) (inr (inl refl))
last-Ended host c r b (throws x) running filled e eats =
    rw (round_last host c running r b (throws x) filled e eats) e
last-Ended host c r b (market n) running filled e eats = cc
last-Ended host c r b (malformed n) running filled e eats = cc
last-Ended host c r b (protocol n h) running filled e eats = cc

take_frames-Ended :
    (host : Host) (r : ℕ) (c : Connection) (b : List ℕ)
    → length b ≤ r
    → Ended (take_frames host r c b)
take_frames-Ended host r c [] h = rw (no_bytes host c r) (inr (inl refl))
take_frames-Ended host zero c (y ∷ b) h = absurd (omega arith)
take_frames-Ended host (suc r) c (y ∷ b) h = elim (Bool-cases c.running) [
  | inr halted ↦ rw (stopped host c (suc r) (y ∷ b) halted) (inl halted)
  | inl running ↦
      let F = next_frame (y ∷ b) in
      let filled : y ∷ b ≢ [] = λ e. absurd (ground arith) in
      elim (Option-cases (consumed F)) [
        | inl none_eaten ↦ last-Ended host c r (y ∷ b) F running filled refl none_eaten
        | inr (n, eats) ↦
            let (some_eaten, within) = eaten (y ∷ b) n eats in
            let left = length-drop n (y ∷ b) in
            rw (round_next host c running r (y ∷ b) F n filled refl eats) (
              take_frames-Ended host r (handled host F (take n (y ∷ b)) c) (drop n (y ∷ b))
                (omega arith))
      ]
]

-- The loop over the buffer ends: within as many rounds as there are bytes it has no complete message left,
-- or the client is stopped, or the frame at the front throws; more rounds do not change the result.
pub process_incoming_data_ends :
    (host : Host) (x : List ℕ) (k : Client) (r : ℕ)
    → length (k.tcp_receive_buffer ++ x) ≤ r
    → Ended (process_incoming_data host x k)
      × (take_frames host r k.connection (k.tcp_receive_buffer ++ x)
          ≡ process_incoming_data host x k)
unfolding process_incoming_data
process_incoming_data_ends host x k r enough =
    let b = k.tcp_receive_buffer ++ x in
    (
      take_frames-Ended host (length b) k.connection b (omega arith),
      take_frames_enough host r (length b) k.connection b enough (omega arith),
    )
