-- ===== src/RetransmissionClient/Sending.antt =====
-- What send_tcp_message hands to the network.
use taifex_cpp_sdk.Prelude.{
  ℕ, zero, suc, ◌+◌, ◌≤◌, ◌<◌, ◌≡◌, refl, sym, ap, ◌∙◌, ◌⊎◌, Bool, true, false, not, ◌||◌, Option,
  none, some, inl, inr, List, [], ◌∷◌, ◌++◌, append_assoc, append-nil, length, take, drop, arith,
  length-drop, take-append-drop, take-add,
}
use taifex_cpp_sdk.RetransmissionClient.{
  Host, Connection, Effect, sent, closed, market_data, status, error_notification, disconnected,
  login_complete, is_open, emit, call, close_effects, close_socket, disconnect, send_rounds,
  send_tcp_message,
}

-- The bytes that the network accepted, in order.
unfoldable pub sent_bytes : List Effect → List ℕ
sent_bytes [] = []
sent_bytes (sent b ∷ es) = b ++ sent_bytes es
sent_bytes (closed fd ∷ es) = sent_bytes es
sent_bytes (market_data b ∷ es) = sent_bytes es
sent_bytes (status h m d s ∷ es) = sent_bytes es
sent_bytes (error_notification h m s ∷ es) = sent_bytes es
sent_bytes (disconnected ∷ es) = sent_bytes es
sent_bytes (login_complete ∷ es) = sent_bytes es

regroup : (a b c : List ℕ) → (a ++ (b ++ [])) ++ c ≡ a ++ (b ++ c)
regroup a b c = simp (append-nil, append_assoc)

pub sent_bytes-append :
    (es fs : List Effect) → sent_bytes (es ++ fs) ≡ sent_bytes es ++ sent_bytes fs
unfolding sent_bytes
sent_bytes-append [] fs = refl
sent_bytes-append (sent b ∷ es) fs = simp (sent_bytes-append es fs, append_assoc)
sent_bytes-append (closed fd ∷ es) fs = sent_bytes-append es fs
sent_bytes-append (market_data b ∷ es) fs = sent_bytes-append es fs
sent_bytes-append (status h m d s ∷ es) fs = sent_bytes-append es fs
sent_bytes-append (error_notification h m s ∷ es) fs = sent_bytes-append es fs
sent_bytes-append (disconnected ∷ es) fs = sent_bytes-append es fs
sent_bytes-append (login_complete ∷ es) fs = sent_bytes-append es fs

-- Everything was accepted and the connection stands.
abbrev pub IsSent : List ℕ → Connection → Connection → Type 0
IsSent m c d =
    (sent_bytes d.effects ≡ sent_bytes c.effects ++ m)
    × (d.connected ≡ c.connected)
    × (d.logged_in ≡ c.logged_in)
    × (d.socket_fd ≡ c.socket_fd)

-- Only a proper prefix was accepted, and the connection is closed.
abbrev pub IsLost : List ℕ → Connection → Connection → Type 0
IsLost m c d =
    (n : ℕ) × (n < length m)
    × (sent_bytes d.effects ≡ sent_bytes c.effects ++ take n m)
    × (d.connected ≡ false)
    × (d.logged_in ≡ false)
    × (d.socket_fd ≡ none)

-- What closing an open socket adds to the effects.
abbrev pub closing : Option ℕ → List Effect
closing none = []
closing (some fd) = closed fd ∷ []

pub close_effects-eq-closing : (fd : Option ℕ) → close_effects fd ≡ closing fd
close_effects-eq-closing none = refl
close_effects-eq-closing (some fd) = refl

quiet_close :
    (es : List Effect) (s : Option ℕ) → sent_bytes (es ++ close_effects s) ≡ sent_bytes es ++ []
unfolding sent_bytes
quiet_close es none = sent_bytes-append es []
quiet_close es (some fd) = sent_bytes-append es (closed fd ∷ [])

quiet_call :
    (b : Bool) (c : Connection) → sent_bytes (call b disconnected c).effects ≡ sent_bytes c.effects
unfolding sent_bytes
quiet_call true c =
    sent_bytes-append c.effects (disconnected ∷ []) ∙ append-nil (sent_bytes c.effects)
quiet_call false c = refl

-- Closing sends nothing, and an error of send loses the connection before any further byte.
IsLost-now : (x : ℕ) (m : List ℕ) (c : Connection) → IsLost (x ∷ m) c (disconnect c)
unfolding disconnect
IsLost-now x m c =
    let shut : Connection = record (close_socket c) { connected = false; logged_in = false } in
    (
      0,
      omega arith,
      quiet_call c.callbacks.disconnected_callback shut ∙ quiet_close c.effects c.socket_fd,
      ground arith,
      ground arith,
      ground arith,
    )

accepted :
    (m : List ℕ) (c d : Connection) (n : ℕ)
    → IsSent (drop n m) (emit (sent (take n m)) (record c { calls = c.calls + 1 })) d
    → IsSent m c d
unfolding sent_bytes
accepted m c d n (bytes, connected, logged, socket) = (
  bytes
      ∙ ap (λ (l : List ℕ). l ++ drop n m) (sent_bytes-append c.effects (sent (take n m) ∷ []))
      ∙ regroup (sent_bytes c.effects) (take n m) (drop n m)
      ∙ ap (λ (l : List ℕ). sent_bytes c.effects ++ l) (take-append-drop n m),
  connected,
  logged,
  socket,
)

accepted_part :
    (m : List ℕ) (c d : Connection) (n : ℕ)
    → n ≤ length m
    → IsLost (drop n m) (emit (sent (take n m)) (record c { calls = c.calls + 1 })) d
    → IsLost m c d
unfolding sent_bytes
accepted_part m c d n within (k, less, bytes, connected, logged, socket) = (
  n + k,
  omega (arith, length-drop n m),
  bytes
      ∙ ap (λ (l : List ℕ). l ++ take k (drop n m))
          (sent_bytes-append c.effects (sent (take n m) ∷ []))
      ∙ regroup (sent_bytes c.effects) (take n m) (take k (drop n m))
      ∙ ap (λ (l : List ℕ). sent_bytes c.effects ++ l) (sym (take-add n k m)),
  connected,
  logged,
  socket,
)

-- A round with its answer.
round_sends :
    (host : Host) (rounds x : ℕ) (m : List ℕ) (c : Connection) (answer : Option ℕ)
    → host.send c.calls (x ∷ m) ≡ answer
    → ((l : List ℕ) (d : Connection)
        → length l ≤ rounds
        → IsSent l d (send_rounds host rounds l d) ⊎ IsLost l d (send_rounds host rounds l d))
    → length m ≤ rounds
    → IsSent (x ∷ m) c (send_rounds host (suc rounds) (x ∷ m) c)
      ⊎ IsLost (x ∷ m) c (send_rounds host (suc rounds) (x ∷ m) c)
unfolding send_rounds
round_sends host rounds x m c none e ih h =
    rw (e, send_rounds) (inr (IsLost-now x m (record c { calls = c.calls + 1 })))
round_sends host rounds x m c (some zero) e ih h =
    rw (e, send_rounds) (inr (IsLost-now x m (record c { calls = c.calls + 1 })))
round_sends host rounds x m c (some (suc n)) e ih h =
    let further : Connection =
      emit (sent (take (suc n) (x ∷ m))) (record c { calls = c.calls + 1 }) in
    let after : Connection = send_rounds host rounds (drop n m) further in
    rw (e, send_rounds)
      (elim (ih (drop n m) further (omega (arith, length-drop n m))) [
        | inl done ↦ inl (accepted (x ∷ m) c after (suc n) done)
        | inr lost ↦
            inr
              (accepted_part (x ∷ m) c after (suc n) (omega (arith, length-drop n m, lost.1)) lost)
      ])

send_rounds_lem :
    (host : Host) (rounds : ℕ) (m : List ℕ) (c : Connection)
    → length m ≤ rounds
    → IsSent m c (send_rounds host rounds m c) ⊎ IsLost m c (send_rounds host rounds m c)
unfolding send_rounds
send_rounds_lem host zero [] c h = inl (sym (append-nil (sent_bytes c.effects)), refl, refl, refl)
send_rounds_lem host zero (x ∷ m) c h = absurd (omega arith)
send_rounds_lem host (suc rounds) [] c h =
    inl (sym (append-nil (sent_bytes c.effects)), refl, refl, refl)
send_rounds_lem host (suc rounds) (x ∷ m) c h =
    round_sends host rounds x m c (host.send c.calls (x ∷ m)) refl (send_rounds_lem host rounds)
      (omega arith)

-- On an open connection the loop of send ends, whatever partial counts and errors the system answers:
-- either the network has accepted the whole message in order, each byte once, and the connection stands,
-- or it has accepted a proper prefix and the connection is closed.
pub send_tcp_message_lem :
    (host : Host) (m : List ℕ) (c : Connection)
    → c.connected ≡ true
    → is_open c.socket_fd ≡ true
    → IsSent m c (send_tcp_message host m c) ⊎ IsLost m c (send_tcp_message host m c)
unfolding send_tcp_message
send_tcp_message_lem host m c connected opened =
    let ready : (not c.connected || not (is_open c.socket_fd)) ≡ false = ground arith in
    rw (ready, send_tcp_message) (send_rounds_lem host (length m) m c (omega arith))
