-- ===== src/Messages/Empty.antt =====
-- messages/message_i001.cpp and message_i002.cpp: heartbeat and sequence reset have no body. The
-- parsers look at the length only.
use taifex_cpp_sdk.Prelude.{ℕ, ◌≡◌, ◌↔◌, ◌⊎◌, Bool, true, false, arith, ◌==◌, if◌then◌else◌}

pub parse_i001_body : ℕ → Bool
parse_i001_body body_length =
    if body_length == 0 then true else (if body_length == 3 then true else false)

pub parse_i002_body : ℕ → Bool
parse_i002_body body_length =
    if body_length == 0 then true else (if body_length == 3 then true else false)

-- Both parsers accept exactly the lengths 0 and 3.
pub parse_empty_body_iff :
    (n : ℕ)
    → ((parse_i001_body n ≡ true) ↔ ((n ≡ 0) ⊎ (n ≡ 3)))
      × ((parse_i002_body n ≡ true) ↔ ((n ≡ 0) ⊎ (n ≡ 3)))
unfolding parse_i001_body parse_i002_body
parse_empty_body_iff n = ground arith
