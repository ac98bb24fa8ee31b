-- ===== src/NetworkManager/Running.antt =====
-- What the callbacks and the calls keep of a manager that runs.
use taifex_cpp_sdk.Prelude.{
  ℕ, ◌≡◌, refl, Bool, true, false, not, ◌&&◌, ◌||◌, Option, none, some, List, [], ◌∷◌,
  if◌then◌else◌, arith, if_cases,
}
use taifex_cpp_sdk.ErrorCodes.{Result, ok, err}
use taifex_cpp_sdk.SortedMap.{Sorted}
use taifex_cpp_sdk.SortedMap.Order.{numeric}
use taifex_cpp_sdk.RetransmissionClient.{
  Host, Client, Effect, sent, closed, market_data, status, error_notification, disconnected,
  login_complete, Thread, receiving, other,
}
use taifex_cpp_sdk.RetransmissionClient
use taifex_cpp_sdk.NetworkManager.{
  NetworkManager, RetransmissionServerConfig, all_callbacks, is_set, process_incoming_packet,
  on_retransmitted_market_data, connect_retransmission_client, stop_client, continue, bind,
  on_retransmission_disconnected, on_effect, on_effects,
}
use taifex_cpp_sdk.NetworkManager.Keeps.{IsSdk, IsValid, process_incoming_packet-IsSound}

-- A manager that runs.
pub record IsActive (nm : NetworkManager) : Type 0 where
  pub log_sorted : Sorted numeric nm.deduplication_log
  pub sdk_valid : IsSdk nm.sdk_core_logic
  pub runs : nm.running ≡ true

pub active-IsValid : (nm : NetworkManager) → IsActive nm → IsValid nm
active-IsValid nm h = record {
  log_sorted = h.log_sorted;
  sdk_valid = h.sdk_valid;
  idle = ground (arith, h.runs);
}

packet-IsActive :
    (now : ℕ) (packet : List ℕ) (is_retransmitted : Bool) (nm : NetworkManager)
    → IsActive nm
    → IsActive (process_incoming_packet now packet is_retransmitted nm).1
packet-IsActive now packet is_retransmitted nm h =
    let s = process_incoming_packet-IsSound true nm.client now packet is_retransmitted nm (record {
      log_sorted = h.log_sorted;
      sdk_valid = h.sdk_valid;
      same_running = h.runs;
      same_client = refl;
    }) in
    record { log_sorted = s.log_sorted; sdk_valid = s.sdk_valid; runs = s.same_running }

pub connect-IsActive :
    (primary : Bool) (nm : NetworkManager)
    → IsActive nm
    → IsActive (connect_retransmission_client primary nm)
unfolding connect_retransmission_client
connect-IsActive primary nm h =
    go (if primary then nm.config.primary_retrans_server else nm.config.backup_retrans_server)
  where
    go :
        (o : Option RetransmissionServerConfig)
        → IsActive (elim o as (λ x. NetworkManager) [
          | none ↦ nm
          | some server ↦
              let fresh =
                RetransmissionClient.retransmission_client server.session_id server.password
                  all_callbacks in
              record nm {
                client =
                    some (record fresh {
                      connection = (RetransmissionClient.start fresh.connection).1;
                    });
              }
        ])
    go none = h
    go (some server) = record { log_sorted = h.log_sorted; sdk_valid = h.sdk_valid; runs = h.runs }

pub stop_client-IsActive :
    (thread : Thread) (nm : NetworkManager) → IsActive nm → IsActive (stop_client thread nm).1
unfolding stop_client
stop_client-IsActive thread nm h = go nm.client
  where
    go :
        (o : Option Client)
        → IsActive
            (elim o as (λ x. Result (Unit {0}) × NetworkManager) [
              | none ↦ (ok tt, nm)
              | some k ↦
                  let (result, after) = RetransmissionClient.stop thread k.connection in
                  (result, record nm { client = some (record k { connection = after }) })
            ]).1
    go none = h
    go (some k) = record { log_sorted = h.log_sorted; sdk_valid = h.sdk_valid; runs = h.runs }

pub disconnected-IsActive :
    (thread : Thread) (nm : NetworkManager)
    → IsActive nm
    → IsActive (on_retransmission_disconnected thread nm).1
unfolding on_retransmission_disconnected
disconnected-IsActive thread nm h =
    if_cases (λ (t : Result (Unit {0}) × NetworkManager). IsActive t.1)
      (nm.retrans_primary_active && is_set nm.config.backup_retrans_server)
      (λ over. go (stop_client thread nm) (stop_client-IsActive thread nm h)) (λ stays. h)
  where
    go :
        (r : Result (Unit {0}) × NetworkManager)
        → IsActive r.1
        → IsActive
            (continue
              (λ after.
                connect_retransmission_client false
                  (record after { retrans_primary_active = false }))
              r).1
    go (ok done, after) a =
        connect-IsActive false (record after { retrans_primary_active = false })
          (record { log_sorted = a.log_sorted; sdk_valid = a.sdk_valid; runs = a.runs })
    go (err e, after) a = a

on_effect-IsActive :
    (now : ℕ) (thread : Thread) (e : Effect) (nm : NetworkManager)
    → IsActive nm
    → IsActive (on_effect now thread e nm).1
unfolding on_effect on_retransmitted_market_data
on_effect-IsActive now thread (market_data packet) nm h =
    if_cases (λ (t : Result (Unit {0}) × NetworkManager). IsActive t.1)
      (not nm.running || not (is_set nm.sdk_core_logic)) (λ off. h)
      (λ on. packet-IsActive now packet true nm h)
on_effect-IsActive now thread disconnected nm h = disconnected-IsActive thread nm h
on_effect-IsActive now thread (sent b) nm h = h
on_effect-IsActive now thread (closed fd) nm h = h
on_effect-IsActive now thread (status a m b s) nm h = h
on_effect-IsActive now thread (error_notification a code s) nm h = h
on_effect-IsActive now thread login_complete nm h = h

pub on_effects-IsActive :
    (now : ℕ) (thread : Thread) (es : List Effect) (nm : NetworkManager)
    → IsActive nm
    → IsActive (on_effects now thread es nm).1
unfolding on_effects
on_effects-IsActive now thread [] nm h = h
on_effects-IsActive now thread (e ∷ es) nm h =
    go (on_effect now thread e nm) (on_effect-IsActive now thread e nm h)
      (on_effects-IsActive now thread es)
  where
    go :
        (r : Result (Unit {0}) × NetworkManager)
        → IsActive r.1
        → ((m : NetworkManager) → IsActive m → IsActive (on_effects now thread es m).1)
        → IsActive (bind (on_effects now thread es) r).1
    go (ok done, after) a later = later after a
    go (err x, after) a later = a
