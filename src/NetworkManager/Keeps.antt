-- ===== src/NetworkManager/Keeps.antt =====
-- What each operation of the manager keeps: the sorted log, the valid SDK behind it, and whether it runs.
use taifex_cpp_sdk.Prelude.{
  ℕ, ◌≡◌, refl, ap, ◌∙◌, Bool, true, false, not, ◌&&◌, ◌||◌, Option, none, some, List, if_cases,
}
use taifex_cpp_sdk.ErrorCodes.{Result, ok, err}
use taifex_cpp_sdk.CommonHeader.{default_header, parse}
use taifex_cpp_sdk.SortedMap.{find, Sorted}
use taifex_cpp_sdk.SortedMap.Order.{numeric}
use taifex_cpp_sdk.Sdk.{Sdk, process_message}
use taifex_cpp_sdk.Sdk.Keeps.{process_message-keeps}
use taifex_cpp_sdk.Sdk.State.{record_sequence-IsValid}
use taifex_cpp_sdk.Sdk.State
use taifex_cpp_sdk.RetransmissionClient.{Client}
use taifex_cpp_sdk.NetworkManager.{
  NetworkManager, remember, is_set, forward_to_sdk, admit_packet, read_key, process_incoming_packet,
}
use taifex_cpp_sdk.NetworkManager.Duplicates.{remember-Sorted}

abbrev pub IsSdk : Option Sdk → Type 0
IsSdk none = Unit
IsSdk (some sdk) = State.IsValid sdk

abbrev pub client_runs : Option Client → Bool
client_runs none = false
client_runs (some k) = k.connection.running

-- The log is sorted, the SDK valid, and the client of a manager that is stopped is stopped too.
pub record IsValid (nm : NetworkManager) : Type 0 where
  pub log_sorted : Sorted numeric nm.deduplication_log
  pub sdk_valid : IsSdk nm.sdk_core_logic
  pub idle : (nm.running || not (client_runs nm.client)) ≡ true

-- The log is sorted and the SDK valid, and whether the manager runs and its client are known.
pub record IsSound (b : Bool) (k : Option Client) (nm : NetworkManager) : Type 0 where
  pub log_sorted : Sorted numeric nm.deduplication_log
  pub sdk_valid : IsSdk nm.sdk_core_logic
  pub same_running : nm.running ≡ b
  pub same_client : nm.client ≡ k

pub sound : (nm : NetworkManager) → IsValid nm → IsSound nm.running nm.client nm
sound nm h = record {
  log_sorted = h.log_sorted;
  sdk_valid = h.sdk_valid;
  same_running = refl;
  same_client = refl;
}

pub forward_to_sdk-IsSound :
    (b : Bool) (k : Option Client) (packet : List ℕ) (nm : NetworkManager)
    → IsSound b k nm
    → IsSound b k (forward_to_sdk packet nm).1
unfolding forward_to_sdk
forward_to_sdk-IsSound b k packet nm h = go nm.sdk_core_logic h.sdk_valid
  where
    go :
        (o : Option Sdk)
        → IsSdk o
        → IsSound b k
            (elim o as (λ x. Result (Unit {0}) × NetworkManager) [
              | none ↦ (ok tt, nm)
              | some sdk ↦
                  let (result, after) = process_message (some packet) sdk in
                  (result, record nm { sdk_core_logic = some after })
            ]).1
    go none v = h
    go (some sdk) v = record {
      log_sorted = h.log_sorted;
      sdk_valid =
          process_message-keeps State.IsValid
            (λ s c n small hs. record_sequence-IsValid s c n small hs) (some packet) sdk v;
      same_running = h.same_running;
      same_client = h.same_client;
    }

pub admit_packet-IsSound :
    (b : Bool) (k : Option Client) (now : ℕ) (packet : List ℕ) (is_retransmitted : Bool) (key : ℕ)
    (nm : NetworkManager)
    → IsSound b k nm
    → IsSound b k (admit_packet now packet is_retransmitted key nm).1
unfolding admit_packet
admit_packet-IsSound b k now packet is_retransmitted key nm h =
    if_cases (λ (t : Result (Unit {0}) × NetworkManager). IsSound b k t.1)
      (nm.config.dual_feed_enabled && not is_retransmitted)
      (λ both. go (find numeric key nm.deduplication_log))
      (λ single. forward_to_sdk-IsSound b k packet nm h)
  where
    logged : NetworkManager
    logged = record nm { deduplication_log = remember nm.config now key nm.deduplication_log }

    go :
        (o : Option ℕ)
        → IsSound b k
            (elim o as (λ x. Result (Unit {0}) × NetworkManager) [
              | some seen ↦ (ok tt, nm)
              | none ↦ forward_to_sdk packet logged
            ]).1
    go (some seen) = h
    go none = forward_to_sdk-IsSound b k packet logged (record {
      log_sorted = remember-Sorted nm.config now key nm.deduplication_log h.log_sorted;
      sdk_valid = h.sdk_valid;
      same_running = h.same_running;
      same_client = h.same_client;
    })

pub process_incoming_packet-IsSound :
    (b : Bool) (k : Option Client) (now : ℕ) (packet : List ℕ) (is_retransmitted : Bool)
    (nm : NetworkManager)
    → IsSound b k nm
    → IsSound b k (process_incoming_packet now packet is_retransmitted nm).1
unfolding process_incoming_packet
process_incoming_packet-IsSound b k now packet is_retransmitted nm h =
    if_cases (λ (t : Result (Unit {0}) × NetworkManager). IsSound b k t.1)
      (not nm.running || not (is_set nm.sdk_core_logic)) (λ off. h)
      (λ on.
        if_cases (λ (t : Result (Unit {0}) × NetworkManager). IsSound b k t.1)
          (not (parse (some packet) default_header).0) (λ bad. h)
          (λ good. go (read_key (parse (some packet) default_header).1)))
  where
    go :
        (r : Result ℕ)
        → IsSound b k
            (elim r as (λ x. Result (Unit {0}) × NetworkManager) [
              | err e ↦ (err e, nm)
              | ok key ↦ admit_packet now packet is_retransmitted key nm
            ]).1
    go (err e) = h
    go (ok key) = admit_packet-IsSound b k now packet is_retransmitted key nm h

-- The client does not change, so it stays stopped.
pub packet-IsValid :
    (now : ℕ) (packet : List ℕ) (is_retransmitted : Bool) (nm : NetworkManager)
    → IsValid nm
    → IsValid (process_incoming_packet now packet is_retransmitted nm).1
packet-IsValid now packet is_retransmitted nm h =
    let s =
      process_incoming_packet-IsSound nm.running nm.client now packet is_retransmitted nm
        (sound nm h) in
    record {
      log_sorted = s.log_sorted;
      sdk_valid = s.sdk_valid;
      idle =
          ap
            (λ (t : Bool).
              t
              || not
                  (client_runs (process_incoming_packet now packet is_retransmitted nm).1.client))
            s.same_running
          ∙ ap (λ (o : Option Client). nm.running || not (client_runs o)) s.same_client
          ∙ h.idle;
    }
