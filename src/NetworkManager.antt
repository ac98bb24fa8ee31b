-- ===== src/NetworkManager.antt =====
-- networking/network_manager.cpp and .h: the feeds, the detection of duplicates, the retransmission client
-- and its failover, in front of the SDK. The SDK is owned by the application; its state is kept here, none
-- for a null pointer. Times and the answers of the operating system are arguments.
pub mod Lifecycle
pub mod Duplicates
pub mod Packets
pub mod Interleaving
pub mod Failover
pub mod Recovery
pub mod Keeps
pub mod Running
pub mod Reachable
use taifex_cpp_sdk.Prelude.{
  ℕ, ◌+◌, ◌*◌, ◌%◌, ◌^◌, bit_or, Bool, true, false, not, ◌&&◌, ◌||◌, Option, none, some, List, [],
  ◌∷◌, length, drop, ltb, if◌then◌else◌,
}
use taifex_cpp_sdk.ErrorCodes.{Exception, Result, ok, err, ◌>>=◌}
use taifex_cpp_sdk.CommonHeader.{
  CommonHeader, default_header, parse, get_channel_id, get_channel_seq,
}
use taifex_cpp_sdk.SortedMap.{SortedMap, find, insert}
use taifex_cpp_sdk.SortedMap.Order.{numeric}
use taifex_cpp_sdk.Sdk.{Sdk, process_message}
use taifex_cpp_sdk.MulticastReceiver.{
  GroupHost, MulticastGroupSubscription, MulticastReceiver, multicast_receiver, add_subscription,
}
use taifex_cpp_sdk.MulticastReceiver
use taifex_cpp_sdk.Retransmission.Protocol.{DataRequest101}
use taifex_cpp_sdk.RetransmissionClient.{
  Host, Callbacks, Connection, Client, Effect, sent, closed, market_data, status,
  error_notification, disconnected, login_complete, Thread, receiving, other, retransmission_client,
  request_retransmission,
}
use taifex_cpp_sdk.RetransmissionClient

pub record RetransmissionServerConfig : Type 0 where
  pub ip : List ℕ
  pub port : ℕ
  pub session_id : ℕ
  pub password : List ℕ

pub record NetworkManagerConfig : Type 0 where
  pub multicast_feeds : List MulticastGroupSubscription
  pub primary_retrans_server : Option RetransmissionServerConfig
  pub backup_retrans_server : Option RetransmissionServerConfig
  pub dual_feed_enabled : Bool

pub record NetworkManager : Type 0 where
  pub sdk_core_logic : Option Sdk
  pub config : NetworkManagerConfig
  pub primary_multicast_receiver : Option MulticastReceiver
  pub secondary_multicast_receiver : Option MulticastReceiver
  pub client : Option Client
  pub deduplication_log : SortedMap ℕ ℕ
  pub running : Bool
  pub retrans_primary_active : Bool

-- The constructor.
abbrev pub network_manager : Option Sdk → NetworkManager
network_manager sdk_core_logic = record {
  sdk_core_logic = sdk_core_logic;
  config = record {
    multicast_feeds = [];
    primary_retrans_server = none;
    backup_retrans_server = none;
    dual_feed_enabled = false;
  };
  primary_multicast_receiver = none;
  secondary_multicast_receiver = none;
  client = none;
  deduplication_log = [];
  running = false;
  retrans_primary_active = true;
}

-- `(channel_id << 32) | channel_seq` in an uint64_t
unfoldable pub combined_seq_key : ℕ → ℕ → ℕ
combined_seq_key channel_id channel_seq = bit_or (channel_id * 2 ^ 32 % 2 ^ 64) channel_seq

-- The largest number of entries that the pruning leaves.
abbrev pub window : NetworkManagerConfig → ℕ
window config = 100 * length config.multicast_feeds

-- The entry is stored, and the smallest key erased if there are too many.
unfoldable pub remember : NetworkManagerConfig → ℕ → ℕ → SortedMap ℕ ℕ → SortedMap ℕ ℕ
remember config now key log =
    let stored = insert numeric key now log in
    if ltb (window config) (length stored) then drop 1 stored else stored

unfoldable pub forward_to_sdk : List ℕ → NetworkManager → Result (Unit {0}) × NetworkManager
forward_to_sdk packet nm = elim nm.sdk_core_logic [
  | none ↦ (ok tt, nm)
  | some sdk ↦
      let (result, after) = process_message (some packet) sdk in
      (result, record nm { sdk_core_logic = some after })
]

-- Behind the header: a duplicate of the feeds is dropped, all else is forwarded.
unfoldable pub admit_packet :
    ℕ → List ℕ → Bool → ℕ → NetworkManager → Result (Unit {0}) × NetworkManager
admit_packet now packet is_retransmitted key nm =
    if nm.config.dual_feed_enabled && not is_retransmitted
    then elim (find numeric key nm.deduplication_log) [
      | some seen ↦ (ok tt, nm)
      | none ↦
          forward_to_sdk packet
            (record nm { deduplication_log = remember nm.config now key nm.deduplication_log })
    ]
    else forward_to_sdk packet nm

abbrev pub is_set : {A : Type 0} → Option A → Bool
is_set none = false
is_set (some a) = true

-- The key of a packet; the getters may throw.
unfoldable pub read_key : CommonHeader → Result ℕ
read_key header = do
  channel_id ← get_channel_id header
  channel_seq ← get_channel_seq header
  ok (combined_seq_key channel_id channel_seq)

-- The flag for the primary feed only reaches the log.
unfoldable pub process_incoming_packet :
    ℕ → List ℕ → Bool → NetworkManager → Result (Unit {0}) × NetworkManager
process_incoming_packet now packet is_retransmitted nm =
    if not nm.running || not (is_set nm.sdk_core_logic)
    then (ok tt, nm)
    else (let (parsed, header) = parse (some packet) default_header in
        if not parsed then (ok tt, nm) else elim (read_key header) [
          | err e ↦ (err e, nm)
          | ok key ↦ admit_packet now packet is_retransmitted key nm
        ])

-- The callbacks of both receivers.
abbrev pub on_multicast_data : ℕ → List ℕ → NetworkManager → Result (Unit {0}) × NetworkManager
on_multicast_data now packet = process_incoming_packet now packet false

unfoldable pub on_retransmitted_market_data :
    ℕ → List ℕ → NetworkManager → Result (Unit {0}) × NetworkManager
on_retransmitted_market_data now packet nm =
    if not nm.running || not (is_set nm.sdk_core_logic)
    then (ok tt, nm)
    else process_incoming_packet now packet true nm

abbrev pub all_callbacks : Callbacks
all_callbacks = record {
  market_data_callback = true;
  status_callback = true;
  error_callback = true;
  disconnected_callback = true;
  logged_in_callback = true;
}

-- A new client for the server, started; the one before is destroyed.
unfoldable pub connect_retransmission_client : Bool → NetworkManager → NetworkManager
connect_retransmission_client use_primary_server nm =
    elim (if use_primary_server
      then nm.config.primary_retrans_server
      else nm.config.backup_retrans_server) [
        | none ↦ nm
        | some server ↦
            let fresh = retransmission_client server.session_id server.password all_callbacks in
            record nm {
              client =
                  some
                    (record fresh { connection = (RetransmissionClient.start fresh.connection).1 });
            }
      ]

-- The client is stopped by the thread that calls.
unfoldable pub stop_client : Thread → NetworkManager → Result (Unit {0}) × NetworkManager
stop_client thread nm = elim nm.client [
  | none ↦ (ok tt, nm)
  | some k ↦
      let (result, after) = RetransmissionClient.stop thread k.connection in
      (result, record nm { client = some (record k { connection = after }) })
]

abbrev continue :
    (NetworkManager → NetworkManager)
    → Result (Unit {0}) × NetworkManager
    → Result (Unit {0}) × NetworkManager
continue f (ok done, nm) = (ok done, f nm)
continue f (err e, nm) = (err e, nm)

-- The callback runs in the thread that found the connection lost.
unfoldable pub on_retransmission_disconnected :
    Thread → NetworkManager → Result (Unit {0}) × NetworkManager
on_retransmission_disconnected thread nm =
    if nm.retrans_primary_active && is_set nm.config.backup_retrans_server
    then continue
        (λ after.
          connect_retransmission_client false (record after { retrans_primary_active = false }))
        (stop_client thread nm)
    else (ok tt, nm)

-- The callbacks of the client; the others only log.
unfoldable pub on_effect : ℕ → Thread → Effect → NetworkManager → Result (Unit {0}) × NetworkManager
on_effect now thread (market_data packet) nm = on_retransmitted_market_data now packet nm
on_effect now thread disconnected nm = on_retransmission_disconnected thread nm
on_effect now thread (sent b) nm = (ok tt, nm)
on_effect now thread (closed fd) nm = (ok tt, nm)
on_effect now thread (status h m b s) nm = (ok tt, nm)
on_effect now thread (error_notification h code s) nm = (ok tt, nm)
on_effect now thread login_complete nm = (ok tt, nm)

abbrev bind :
    (NetworkManager → Result (Unit {0}) × NetworkManager)
    → Result (Unit {0}) × NetworkManager
    → Result (Unit {0}) × NetworkManager
bind f (ok done, nm) = f nm
bind f (err e, nm) = (err e, nm)

-- What the client did, in order.
unfoldable pub on_effects :
    ℕ → Thread → List Effect → NetworkManager → Result (Unit {0}) × NetworkManager
on_effects now thread [] nm = (ok tt, nm)
on_effects now thread (e ∷ es) nm = bind (on_effects now thread es) (on_effect now thread e nm)

-- The result of the request is only logged.
unfoldable pub trigger_retransmission_request :
    Host → ℕ → DataRequest101 → NetworkManager → Result (Unit {0}) × NetworkManager
trigger_retransmission_request host now req nm =
    if not nm.running then (ok tt, nm) else elim nm.client [
      | none ↦ (ok tt, nm)
      | some k ↦
          let after = (request_retransmission host req k.connection).1 in
          on_effects now other (drop (length k.connection.effects) after.effects)
            (record nm { client = some (record k { connection = after }) })
    ]
