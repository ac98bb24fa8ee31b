-- ===== src/NetworkManager/Duplicates.antt =====
-- The keys of the packets, and the log of the keys seen.
use taifex_cpp_sdk.Prelude.{
  ℕ, ◌+◌, ◌*◌, ◌%◌, ◌^◌, ◌≤◌, ◌<◌, ◌≡◌, bit_or, refl, sym, ap, ◌∙◌, Bool, false, ◌||◌, none, List,
  [], ◌∷◌, length, drop, ltb, ◌==◌, arith, if_cases,
}
use taifex_cpp_sdk.Prelude.BitOr.{bit_or_shifted, bit_or-zero, bit_or_odd}
use taifex_cpp_sdk.SortedMap.{SortedMap, find, insert, same, Sorted}
use taifex_cpp_sdk.SortedMap.Order.{numeric}
use taifex_cpp_sdk.SortedMap.Laws.{find-insert}
use taifex_cpp_sdk.SortedMap.Sorted.{insert-Sorted}
use taifex_cpp_sdk.NetworkManager.{NetworkManagerConfig, combined_seq_key, window, remember, is_set}

shifted : (c : ℕ) → c < 2 ^ 32 → c * 2 ^ 32 % 2 ^ 64 ≡ c * 2 ^ 32
shifted c h = omega arith

key_low : (c s : ℕ) → c < 2 ^ 32 → s < 2 ^ 32 → combined_seq_key c s ≡ c * 2 ^ 32 + s
unfolding combined_seq_key
key_low c s hc hs =
    ap (λ (t : ℕ). bit_or t s) (shifted c hc)
    ∙ ap (λ (t : ℕ). bit_or (c * 2 ^ 32) t) (padded s)
    ∙ bit_or_shifted 32 c 0 s hs
    ∙ ap (λ (t : ℕ). t * 2 ^ 32 + s) (bit_or-zero c)
  where
    padded : (s : ℕ) → s ≡ 0 * 2 ^ 32 + s
    padded s = omega arith

-- Packets with sequence numbers below 2^32 have the same key only if channel and number agree.
pub combined_seq_key_injective :
    (c d s t : ℕ)
    → c < 2 ^ 32
    → d < 2 ^ 32
    → s < 2 ^ 32
    → t < 2 ^ 32
    → combined_seq_key c s ≡ combined_seq_key d t
    → (c ≡ d) × (s ≡ t)
combined_seq_key_injective c d s t hc hd hs ht e =
    omega (arith, e, key_low c s hc hs, key_low d t hd ht)

-- Sequence numbers have up to ten digits. On a channel with an odd number, the number 2^32 later has the
-- same key.
pub combined_seq_key_collides :
    (c s : ℕ)
    → c < 2 ^ 32
    → c % 2 ≡ 1
    → s < 2 ^ 32
    → combined_seq_key c (2 ^ 32 + s) ≡ combined_seq_key c s
unfolding combined_seq_key
combined_seq_key_collides c s hc odd hs =
    ap (λ (t : ℕ). bit_or t (2 ^ 32 + s)) (shifted c hc)
    ∙ ap (λ (t : ℕ). bit_or (c * 2 ^ 32) t) (padded s)
    ∙ bit_or_shifted 32 c 1 s hs
    ∙ ap (λ (t : ℕ). t * 2 ^ 32 + s) (bit_or_odd c odd)
    ∙ sym (key_low c s hc hs)
  where
    padded : (s : ℕ) → 2 ^ 32 + s ≡ 1 * 2 ^ 32 + s
    padded s = omega arith

length-insert_new :
    (k v : ℕ) (log : SortedMap ℕ ℕ)
    → find numeric k log ≡ none
    → length (insert numeric k v log) ≡ length log + 1
unfolding find insert
length-insert_new k v [] h = omega arith
length-insert_new k v ((j, w) ∷ log) h = ground (arith, length-insert_new k v log)

tail-Sorted : (log : SortedMap ℕ ℕ) → Sorted numeric log → Sorted numeric (drop 1 log)
tail-Sorted [] h = tt
tail-Sorted (e ∷ log) h = h.1

pub remember-Sorted :
    (config : NetworkManagerConfig) (now k : ℕ) (log : SortedMap ℕ ℕ)
    → Sorted numeric log
    → Sorted numeric (remember config now k log)
unfolding remember
remember-Sorted config now k log sorted =
    let stored = insert numeric k now log in
    let fine = insert-Sorted numeric k now log sorted in
    if_cases (Sorted numeric) (ltb (window config) (length stored))
      (λ full. tail-Sorted stored fine) (λ room. fine)

-- The log stays sorted, and grows to at most one entry beyond the window before it is pruned.
pub remember_bounded :
    (config : NetworkManagerConfig) (now k : ℕ) (log : SortedMap ℕ ℕ)
    → Sorted numeric log
    → find numeric k log ≡ none
    → length log ≤ window config
    → Sorted numeric (remember config now k log)
      × (length (remember config now k log) ≤ window config)
unfolding remember
remember_bounded config now k log sorted absent small =
    let stored = insert numeric k now log in
    let longer = length-insert_new k now log absent in
    let fine = insert-Sorted numeric k now log sorted in
    if_cases (λ (l : SortedMap ℕ ℕ). Sorted numeric l × (length l ≤ window config))
      (ltb (window config) (length stored))
      (λ full. (tail-Sorted stored fine, pruned stored (omega arith)))
      (λ room. (fine, ground arith))
  where
    pruned : (l : SortedMap ℕ ℕ) → length l ≤ window config + 1 → length (drop 1 l) ≤ window config
    pruned [] h = omega arith
    pruned (e ∷ l) h = omega arith

-- Below the window nothing is pruned.
remember_room :
    (config : NetworkManagerConfig) (now k : ℕ) (log : SortedMap ℕ ℕ)
    → find numeric k log ≡ none
    → length log < window config
    → remember config now k log ≡ insert numeric k now log
unfolding remember
remember_room config now k log absent room =
    let full : ltb (window config) (length (insert numeric k now log)) ≡ false =
      ground (arith, length-insert_new k now log absent) in
    rw full refl

abbrev pub elem : ℕ → List ℕ → Bool
elem k [] = false
elem k (j ∷ l) = k == j || elem k l

-- The log holds the keys of a list, each once.
pub record Holds (log : SortedMap ℕ ℕ) (seen : List ℕ) : Type 0 where
  pub same_size : length log ≡ length seen
  pub same_keys : (k : ℕ) → is_set (find numeric k log) ≡ elem k seen

same-eq : (j k : ℕ) → same numeric j k ≡ (j == k)
same-eq j k = ground arith

found_after :
    (j k now : ℕ) (log : SortedMap ℕ ℕ)
    → is_set (find numeric j (insert numeric k now log)) ≡ (j == k || is_set (find numeric j log))
found_after j k now log = ap is_set (find-insert numeric j k now log) ∙ ground (arith, same-eq j k)

pub remember-Holds :
    (config : NetworkManagerConfig) (now k : ℕ) (log : SortedMap ℕ ℕ) (seen : List ℕ)
    → Holds log seen
    → find numeric k log ≡ none
    → length seen < window config
    → Holds (remember config now k log) (k ∷ seen)
remember-Holds config now k log seen h absent room =
    let stored = remember_room config now k log absent (omega (arith, h.same_size)) in
    record {
      same_size = ap length stored ∙ omega (arith, length-insert_new k now log absent, h.same_size);
      same_keys = λ j.
          ap (λ (l : SortedMap ℕ ℕ). is_set (find numeric j l)) stored
          ∙ found_after j k now log
          ∙ ap (λ (b : Bool). j == k || b) (h.same_keys j);
    }
