-- ===== src/Tests/Network.antt =====
-- The feeds and the manager on whole packets.
use taifex_cpp_sdk.Prelude.{ℕ, ◌+◌, ◌^◌, ◌≡◌, refl, true, false, some, List, [], ◌∷◌, arith}
use taifex_cpp_sdk.ErrorCodes.{Exception, ok, err}
use taifex_cpp_sdk.MulticastReceiver.{GroupHost, MulticastGroupSubscription}
use taifex_cpp_sdk.RetransmissionClient.{
  Connection, connection_of, receiving, other, Client, disconnected,
}
use taifex_cpp_sdk.RetransmissionClient.Framing.{client}
use taifex_cpp_sdk.NetworkManager.{
  NetworkManager, RetransmissionServerConfig, network_manager, combined_seq_key,
  process_incoming_packet, all_callbacks, on_effects,
}
use taifex_cpp_sdk.NetworkManager.Lifecycle.{configure_and_start}
use taifex_cpp_sdk.NetworkManager.Packets.{Arrival}
use taifex_cpp_sdk.NetworkManager.Interleaving.{Datagram, datagram}
use taifex_cpp_sdk.NetworkManager.Duplicates.{combined_seq_key_collides}
use taifex_cpp_sdk.NetworkManager.Keeps
use taifex_cpp_sdk.NetworkManager.Reachable.{
  fresh, next, configures, receives, Reachable_manager-IsValid,
}
use taifex_cpp_sdk.NetworkManager.Failover.{
  CanFailOver, IsShut, running_for, failover_in_receive_loop,
}
use taifex_cpp_sdk.Tests.Sessions.{ready, ready-IsValid}
use taifex_cpp_sdk.Tests.Packets.{packet_42, arrival_42, arrival_43}

abbrev pub group : MulticastGroupSubscription
group = record { group_ip = b'1' ∷ []; port = 10000; local_interface_ip = [] }

abbrev server : ℕ → RetransmissionServerConfig
server session_id = record {
  ip = b'1' ∷ [];
  port = 20000;
  session_id = session_id;
  password = b'7' ∷ [];
}

-- A manager that runs, with two feeds and two servers.
abbrev pub dual : NetworkManager
dual = record (network_manager (some ready)) {
  running = true;
  config = record {
    multicast_feeds = group ∷ group ∷ [];
    primary_retrans_server = some (server 5);
    backup_retrans_server = some (server 6);
    dual_feed_enabled = true;
  };
}

-- The two feeds interleaved, the second late.
abbrev both_feeds : List Arrival
both_feeds = arrival_42 1 ∷ arrival_43 2 ∷ arrival_42 3 ∷ arrival_43 4 ∷ []

abbrev feed : List Datagram
feed = datagram (arrival_42 0) ∷ datagram (arrival_43 0) ∷ []

combined_seq_key_collides_example : combined_seq_key 1 (2 ^ 32 + 42) ≡ combined_seq_key 1 42
combined_seq_key_collides_example = combined_seq_key_collides 1 42 (omega arith) refl (omega arith)

-- A configured manager that has received a packet.
abbrev pub group_host : GroupHost
group_host = record { socket = λ i. some 8; reuse = λ i. true; bind = λ i. true; join = λ i. true }

abbrev started : NetworkManager
started = (configure_and_start group_host group_host dual.config (network_manager (some ready))).1

abbrev has_received : NetworkManager
has_received = (process_incoming_packet 1 packet_42 false started).1

Reachable_manager-IsValid_example : Keeps.IsValid has_received
Reachable_manager-IsValid_example =
    Reachable_manager-IsValid (some ready) ready-IsValid (
      next (next fresh (configures group_host group_host dual.config)) (receives 1 packet_42 false))

-- A client that is connected and logged in.
abbrev pub joined : Connection
joined = record (connection_of 5 (b'7' ∷ []) all_callbacks) {
  running = true;
  connected = true;
  logged_in = true;
  joinable = true;
  socket_fd = some 3;
}

abbrev with_client : NetworkManager
with_client = record dual { client = some (client joined []) }

with_client-CanFailOver : CanFailOver with_client (client joined []) (server 6)
with_client-CanFailOver = record {
  active = refl;
  backup_set = refl;
  client_set = refl;
  client_runs = refl;
  thread_runs = refl;
}

failover_in_receive_loop_example :
    let (result, after) = on_effects 1 receiving (disconnected ∷ []) with_client in
    let (result', after') = on_effects 1 other (disconnected ∷ []) with_client in
    (result ≡ err Exception.system_error)
    × (after.retrans_primary_active ≡ true)
    × ((l : Client) × (after.client ≡ some l) × IsShut (client joined []) l)
    × (result' ≡ ok tt)
    × (after'.retrans_primary_active ≡ false)
    × (after'.client ≡ some (running_for (server 6)))
failover_in_receive_loop_example =
    failover_in_receive_loop 1 [] with_client (client joined []) (server 6) with_client-CanFailOver
