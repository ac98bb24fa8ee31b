-- ===== src/NetworkManager/Reachable.antt =====
-- The manager as a state machine, with the SDK behind it and the rounds of its client.
use taifex_cpp_sdk.Prelude.{
  ℕ, ◌≡◌, refl, sym, ◌∙◌, Bool, true, false, not, ◌&&◌, ◌||◌, Option, none, some, List, [], ◌∷◌,
  length, drop, if◌then◌else◌, arith, if_cases,
}
use mathlib.Core.Path.{subst}
use taifex_cpp_sdk.ErrorCodes.{Result, ok}
use taifex_cpp_sdk.SortedMap.{Sorted}
use taifex_cpp_sdk.SortedMap.Order.{numeric}
use taifex_cpp_sdk.Sdk.{Sdk}
use taifex_cpp_sdk.MulticastReceiver.{GroupHost, MulticastGroupSubscription}
use taifex_cpp_sdk.Retransmission.Protocol.{DataRequest101}
use taifex_cpp_sdk.RetransmissionClient.{
  Host, Client, Effect, sent, closed, market_data, status, error_notification, disconnected,
  login_complete, Thread, receiving, other,
}
use taifex_cpp_sdk.RetransmissionClient
use taifex_cpp_sdk.NetworkManager.{
  NetworkManager, NetworkManagerConfig, network_manager, is_set, process_incoming_packet,
  connect_retransmission_client, stop_client, on_effects, trigger_retransmission_request,
}
use taifex_cpp_sdk.NetworkManager.Lifecycle.{
  stop, configure_feeds, finish_start, start_receiver, start_receivers, configure_and_start,
}
use taifex_cpp_sdk.RetransmissionClient.Framing.{receive_round}
use taifex_cpp_sdk.NetworkManager.Keeps.{IsSdk, client_runs, IsValid, packet-IsValid}
use taifex_cpp_sdk.NetworkManager.Running.{active-IsValid, on_effects-IsActive}

-- A stopped client does not run.
stopped_client :
    (nm : NetworkManager)
    → Sorted numeric nm.deduplication_log
    → IsSdk nm.sdk_core_logic
    → IsValid (stop_client other nm).1
unfolding stop_client RetransmissionClient.stop
stopped_client nm sorted valid = go nm.client refl
  where
    go :
        (o : Option Client)
        → nm.client ≡ o
        → IsValid
            (elim o as (λ x. Result (Unit {0}) × NetworkManager) [
              | none ↦ (ok tt, nm)
              | some k ↦
                  let (result, after) = RetransmissionClient.stop other k.connection in
                  (result, record nm { client = some (record k { connection = after }) })
            ]).1
    go none e = record { log_sorted = sorted; sdk_valid = valid; idle = ground arith }
    go (some k) e = record { log_sorted = sorted; sdk_valid = valid; idle = ground arith }

stop-IsValid : (nm : NetworkManager) → IsValid nm → IsValid (stop nm).1
unfolding stop
stop-IsValid nm h =
    if_cases (λ (t : Result (Unit {0}) × NetworkManager). IsValid t.1) (not nm.running) (λ idle. h)
      (λ runs. stopped_client _ h.log_sorted h.sdk_valid)

finish_start-IsValid :
    (primary secondary : Bool) (nm : NetworkManager)
    → Sorted numeric nm.deduplication_log
    → IsSdk nm.sdk_core_logic
    → IsValid (finish_start primary secondary nm).1
unfolding finish_start
finish_start-IsValid primary secondary nm sorted valid =
    if_cases (λ (t : Bool × NetworkManager). IsValid t.1)
      ((primary || (secondary || is_set nm.client)) && not nm.running)
      (λ failed. stopped_client _ sorted valid)
      (λ fine. record {
        log_sorted = sorted;
        sdk_valid = valid;
        idle = no_client nm.client primary secondary nm.running fine;
      })
  where
    no_client :
        (o : Option Client) (p s r : Bool)
        → ((p || (s || is_set o)) && not r) ≡ false
        → (r || not (client_runs o)) ≡ true
    no_client none p s r e = ground arith
    no_client (some k) p s r e = ground arith

start_receivers-IsValid :
    (primary_host secondary_host : GroupHost) (nm : NetworkManager)
    → Sorted numeric nm.deduplication_log
    → IsSdk nm.sdk_core_logic
    → IsValid (start_receivers primary_host secondary_host nm).1
unfolding start_receivers
start_receivers-IsValid primary_host secondary_host nm sorted valid =
    let (primary_started, primary) = start_receiver primary_host nm.primary_multicast_receiver in
    let (secondary_started, secondary) =
      start_receiver secondary_host nm.secondary_multicast_receiver in
    let running = primary_started || not (is_set nm.primary_multicast_receiver) in
    let begun = record nm { running = running; primary_multicast_receiver = primary } in
    let both = record begun { secondary_multicast_receiver = secondary } in
    if_cases (λ (t : Bool × NetworkManager). IsValid t.1) running
      {x = finish_start primary_started secondary_started both}
      {y = finish_start primary_started false begun}
      (λ up. finish_start-IsValid primary_started secondary_started both sorted valid)
      (λ down. finish_start-IsValid primary_started false begun sorted valid)

-- Configuring keeps the log and the SDK.
abbrev Kept : NetworkManager → NetworkManager → Type 0
Kept nm after =
    (after.deduplication_log ≡ nm.deduplication_log) × (after.sdk_core_logic ≡ nm.sdk_core_logic)

configure_feeds-Kept :
    (feeds : List MulticastGroupSubscription) (nm : NetworkManager)
    → Kept nm (configure_feeds feeds nm)
unfolding configure_feeds
configure_feeds-Kept [] nm = (refl, refl)
configure_feeds-Kept (primary ∷ []) nm = (refl, refl)
configure_feeds-Kept (primary ∷ secondary ∷ feeds) nm = ground arith

connect-Kept :
    (primary : Bool) (nm : NetworkManager) → Kept nm (connect_retransmission_client primary nm)
unfolding connect_retransmission_client
connect-Kept primary nm = ground arith

configure_and_start-IsValid :
    (primary_host secondary_host : GroupHost) (config : NetworkManagerConfig) (nm : NetworkManager)
    → IsValid nm
    → IsValid (configure_and_start primary_host secondary_host config nm).1
unfolding configure_and_start
configure_and_start-IsValid primary_host secondary_host config nm h =
    let configured = configure_feeds config.multicast_feeds (record nm { config = config }) in
    let first = record configured { retrans_primary_active = true } in
    let ready =
      if is_set config.primary_retrans_server
      then connect_retransmission_client true first
      else configured in
    let fed = configure_feeds-Kept config.multicast_feeds (record nm { config = config }) in
    let connected = connect-Kept true first in
    let kept : Kept nm ready =
      if_cases (Kept nm) (is_set config.primary_retrans_server)
        (λ server. (connected.0 ∙ fed.0, connected.1 ∙ fed.1)) (λ none_set. fed) in
    if_cases (λ (t : Bool × NetworkManager). IsValid t.1) nm.running (λ runs. h)
      (λ idle.
        start_receivers-IsValid primary_host secondary_host ready
          (subst (Sorted numeric) (sym kept.0) h.log_sorted) (subst IsSdk (sym kept.1) h.sdk_valid))

trigger-IsValid :
    (host : Host) (now : ℕ) (req : DataRequest101) (nm : NetworkManager)
    → IsValid nm
    → IsValid (trigger_retransmission_request host now req nm).1
unfolding trigger_retransmission_request
trigger-IsValid host now req nm h =
    if_cases (λ (t : Result (Unit {0}) × NetworkManager). IsValid t.1) (not nm.running) (λ idle. h)
      (λ runs. go (ground arith) nm.client)
  where
    go :
        nm.running ≡ true
        → (o : Option Client)
        → IsValid
            (elim o as (λ x. Result (Unit {0}) × NetworkManager) [
              | none ↦ (ok tt, nm)
              | some k ↦
                  let after =
                    (RetransmissionClient.request_retransmission host req k.connection).1 in
                  on_effects now other
                    (drop (length k.connection.effects) after.effects)
                    (record nm { client = some (record k { connection = after }) })
            ]).1
    go runs none = h
    go runs (some k) =
        let after = (RetransmissionClient.request_retransmission host req k.connection).1 in
        let requested : NetworkManager = record nm {
          client = some (record k { connection = after });
        } in
        active-IsValid _ (
          on_effects-IsActive now other (drop (length k.connection.effects) after.effects) requested
            (record { log_sorted = h.log_sorted; sdk_valid = h.sdk_valid; runs = runs }))

-- A call on the manager, a packet of a feed or of the client, or a round of the client with what it calls
-- back.
pub data Step (nm : NetworkManager) : NetworkManager → Type 0 where
  configures :
      (primary_host secondary_host : GroupHost) (config : NetworkManagerConfig)
      → Step nm (configure_and_start primary_host secondary_host config nm).1
  stops : Step nm (stop nm).1
  receives :
      (now : ℕ) (packet : List ℕ) (is_retransmitted : Bool)
      → Step nm (process_incoming_packet now packet is_retransmitted nm).1
  requests :
      (host : Host) (now : ℕ) (req : DataRequest101)
      → Step nm (trigger_retransmission_request host now req nm).1
  client_round :
      (host : Host) (now : ℕ) (k : Client)
      → nm.running ≡ true
      → nm.client ≡ some k
      → Step nm
          (on_effects now receiving
            (drop (length k.connection.effects) (receive_round host k).1.connection.effects)
            (record nm { client = some (receive_round host k).1 })).1

pub data Reachable (sdk : Option Sdk) : NetworkManager → Type 0 where
  fresh : Reachable sdk (network_manager sdk)
  next : {nm after : NetworkManager} → Reachable sdk nm → Step nm after → Reachable sdk after

Step-IsValid : {nm after : NetworkManager} → Step nm after → IsValid nm → IsValid after
Step-IsValid {nm} (configures primary_host secondary_host config) h =
    configure_and_start-IsValid primary_host secondary_host config nm h
Step-IsValid {nm} stops h = stop-IsValid nm h
Step-IsValid {nm} (receives now packet is_retransmitted) h =
    packet-IsValid now packet is_retransmitted nm h
Step-IsValid {nm} (requests host now req) h = trigger-IsValid host now req nm h
Step-IsValid {nm} (client_round host now k runs client_set) h =
    let after = (receive_round host k).1 in
    active-IsValid _ (
      on_effects-IsActive now receiving
        (drop (length k.connection.effects) after.connection.effects)
        (record nm { client = some after })
        (record { log_sorted = h.log_sorted; sdk_valid = h.sdk_valid; runs = runs }))

-- However calls, packets of both feeds and rounds of the client follow one another: the log of the keys is
-- sorted without double keys, the SDK behind the manager is valid if it was at the start, and a manager
-- that is stopped has no client that runs.
pub Reachable_manager-IsValid :
    (sdk : Option Sdk) {nm : NetworkManager} → IsSdk sdk → Reachable sdk nm → IsValid nm
Reachable_manager-IsValid sdk valid fresh = record {
  log_sorted = tt;
  sdk_valid = valid;
  idle = refl;
}
Reachable_manager-IsValid sdk valid (next before step) =
    Step-IsValid step (Reachable_manager-IsValid sdk valid before)
