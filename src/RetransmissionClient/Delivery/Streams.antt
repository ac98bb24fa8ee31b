-- ===== src/RetransmissionClient/Delivery/Streams.antt =====
-- A stream of messages from the server.
use taifex_cpp_sdk.Prelude.{
  cons-ne-nil, ℕ, zero, suc, ◌≤◌, ◌≡◌, ◌≢◌, refl, ap, ◌∙◌, ◌⊎◌, true, some, inl, inr, List, [], ◌∷◌,
  ◌++◌, append_assoc, length, drop, arith, All, length-append, take-append, drop-append,
}
use taifex_cpp_sdk.ErrorCodes.{ok}
use taifex_cpp_sdk.RetransmissionClient.{Host, Connection, Client, disconnect}
use taifex_cpp_sdk.RetransmissionClient.Framing.{
  waits, next_frame, client, take_frames, process_incoming_data,
}
use taifex_cpp_sdk.RetransmissionClient.Chunks.{
  consumed, handled, round_next, round_last, no_bytes, eaten, next_frame-append, eats-ne-waits,
}
use taifex_cpp_sdk.RetransmissionClient.Stream.{
  receive_chunks, receive_chunks-concat, concat, seen, seen-ok,
}
use taifex_cpp_sdk.RetransmissionClient.Keeps.{IsKept, handled-keeps}
use taifex_cpp_sdk.RetransmissionClient.Delivery.{Message, bytes_of, IsSendable, deliver}
use taifex_cpp_sdk.RetransmissionClient.Delivery.Arrival.{Arrives, message-Arrives}

abbrev pub stream : List Message → List ℕ
stream [] = []
stream (m ∷ ms) = bytes_of m ++ stream ms

-- The messages, one after the other.
unfoldable pub deliver_all : Host → List Message → Connection → Connection
deliver_all host [] c = c
deliver_all host (m ∷ ms) c = deliver_all host ms (deliver host m c)

abbrev IsRunning : Connection → Type 0
IsRunning c = c.running ≡ true

IsRunning-kept : IsKept IsRunning
unfolding disconnect
IsRunning-kept = record {
  disconnects = λ c h. ground arith;
  emits = λ c e h. h;
  counts = λ c n h. h;
  numbers = λ c n small h. h;
  logs_in = λ c b h. h;
}

deliver-running :
    (host : Host) (m : Message) (c : Connection)
    → Arrives host m
    → c.running ≡ true
    → (deliver host m c).running ≡ true
deliver-running host m c arrives h =
    rw (← arrives.is_delivered c)
      (handled-keeps IsRunning IsRunning-kept host arrives.frame (bytes_of m) c h)

-- What is left at the end is no complete message.
abbrev pub IsPartial : List ℕ → Type 0
IsPartial rest = (rest ≡ []) ⊎ (next_frame rest ≡ waits)

partial_waits :
    (host : Host) (c : Connection) (r : ℕ) (rest : List ℕ)
    → c.running ≡ true
    → IsPartial rest
    → take_frames host r c rest ≡ (ok tt, client c rest)
unfolding take_frames
partial_waits host c zero rest running h = refl
partial_waits host c (suc r) [] running h = no_bytes host c (suc r)
partial_waits host c (suc r) (y ∷ rest) running (inl e) = absurd (cons-ne-nil y rest e)
partial_waits host c (suc r) (y ∷ rest) running (inr e) =
    round_last host c running r (y ∷ rest) waits (cons-ne-nil y rest) e refl

first_message :
    (host : Host) (r : ℕ) (m : Message) (x : List ℕ) (c : Connection)
    → Arrives host m
    → c.running ≡ true
    → take_frames host (suc r) c (bytes_of m ++ x) ≡ take_frames host r (deliver host m c) x
first_message host r m x c arrives running =
    let b = bytes_of m in
    let first : next_frame b ≡ arrives.frame = arrives.is_first in
    let whole : consumed (next_frame b) ≡ some (length b) = ap consumed first ∙ arrives.is_whole in
    let (some_bytes, _) = eaten b (length b) whole in
    let filled : b ≢ [] = λ e. absurd (omega (arith, ap length e)) in
    let filled_more : b ++ x ≢ [] = λ e. absurd (omega (arith, ap length e, length-append b x)) in
    let kept : next_frame (b ++ x) ≡ arrives.frame =
      next_frame-append b x filled (eats-ne-waits (next_frame b) (length b) whole) ∙ first in
    round_next host c running r (b ++ x) arrives.frame (length b) filled_more kept arrives.is_whole
    ∙ ap
        (λ (l : List ℕ).
          take_frames host r (handled host arrives.frame l c) (drop (length b) (b ++ x)))
        (take-append b x)
    ∙ ap (λ (l : List ℕ). take_frames host r (handled host arrives.frame b c) l) (drop-append b x)
    ∙ ap (λ (d : Connection). take_frames host r d x) (arrives.is_delivered c)

stream_delivered :
    (host : Host) (ms : List Message) (rest : List ℕ) (c : Connection) (r : ℕ)
    → All IsSendable ms
    → c.running ≡ true
    → IsPartial rest
    → length (stream ms ++ rest) ≤ r
    → take_frames host r c (stream ms ++ rest) ≡ (ok tt, client (deliver_all host ms c) rest)
unfolding deliver_all
stream_delivered host [] rest c r sendable running partial enough =
    partial_waits host c r rest running partial
stream_delivered host (m ∷ ms) rest c zero sendable running partial enough =
    let arrives = message-Arrives host m sendable.0 in
    let (some_bytes, _) =
      eaten (bytes_of m) (length (bytes_of m)) (ap consumed arrives.is_first ∙ arrives.is_whole) in
    absurd (
      omega (
        arith,
        length-append (bytes_of m ++ stream ms) rest,
        length-append (bytes_of m) (stream ms),
      ))
stream_delivered host (m ∷ ms) rest c (suc r) sendable running partial enough =
    let arrives = message-Arrives host m sendable.0 in
    let (some_bytes, _) =
      eaten (bytes_of m) (length (bytes_of m)) (ap consumed arrives.is_first ∙ arrives.is_whole) in
    ap (λ (l : List ℕ). take_frames host (suc r) c l) (append_assoc (bytes_of m) (stream ms) rest)
    ∙ first_message host r m (stream ms ++ rest) c arrives running
    ∙ stream_delivered host ms rest (deliver host m c) r sendable.1
        (deliver-running host m c arrives running) partial
        (omega (
          arith,
          length-append (bytes_of m ++ stream ms) rest,
          length-append (bytes_of m) (stream ms),
          length-append (stream ms) rest,
        ))

-- The messages that a server sends have fields that fit, market data announces the length of its body, and
-- no data response has a size that begins with the byte 0x1B. However the bytes of a stream of such
-- messages, and of the front of another one, are cut into chunks: a running client with an empty buffer
-- delivers every message once and in order (market data to its callback whole, a login by its start
-- message, data responses and errors to their callbacks, a heartbeat by its reply), throws nothing, and
-- keeps the bytes of the message that is not complete yet.
pub receive_chunks-stream :
    (host : Host) (ms : List Message) (rest x : List ℕ) (xs : List (List ℕ)) (c : Connection)
    → All IsSendable ms
    → c.running ≡ true
    → IsPartial rest
    → concat (x ∷ xs) ≡ stream ms ++ rest
    → receive_chunks host (x ∷ xs) (client c []) ≡ (ok tt, client (deliver_all host ms c) rest)
unfolding process_incoming_data
receive_chunks-stream host ms rest x xs c sendable running partial cut =
    let k : Client = client (deliver_all host ms c) rest in
    let at_once : process_incoming_data host (concat (x ∷ xs)) (client c []) ≡ (ok tt, k) =
      ap (λ (l : List ℕ). process_incoming_data host l (client c [])) cut
      ∙ stream_delivered host ms rest c (length (stream ms ++ rest)) sendable running partial
          (omega arith) in
    seen-ok (receive_chunks host (x ∷ xs) (client c [])) k
      (receive_chunks-concat host x xs (client c []) ∙ ap seen at_once)
