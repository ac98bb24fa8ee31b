-- ===== src/NetworkManager/Lifecycle.antt =====
-- configure_and_start and stop of networking/network_manager.cpp.
use taifex_cpp_sdk.Prelude.{
  Bool, true, false, not, ◌&&◌, ◌||◌, Option, none, some, List, [], ◌∷◌, if◌then◌else◌,
}
use taifex_cpp_sdk.ErrorCodes.{Result, ok}
use taifex_cpp_sdk.MulticastReceiver.{
  GroupHost, MulticastGroupSubscription, MulticastReceiver, multicast_receiver, add_subscription,
}
use taifex_cpp_sdk.MulticastReceiver
use taifex_cpp_sdk.RetransmissionClient.{other}
use taifex_cpp_sdk.NetworkManager.{
  NetworkManagerConfig, NetworkManager, is_set, stop_client, connect_retransmission_client,
}

abbrev pub stop_receiver : Option MulticastReceiver → Option MulticastReceiver
stop_receiver none = none
stop_receiver (some r) = some (MulticastReceiver.stop r)

unfoldable pub stop : NetworkManager → Result (Unit {0}) × NetworkManager
stop nm =
    if not nm.running
    then (ok tt, nm)
    else stop_client other (record nm {
      running = false;
      primary_multicast_receiver = stop_receiver nm.primary_multicast_receiver;
      secondary_multicast_receiver = stop_receiver nm.secondary_multicast_receiver;
    })

-- A new receiver with its subscription.
abbrev subscribed : MulticastGroupSubscription → Option MulticastReceiver
subscribed feed =
    let (added, r) = add_subscription feed multicast_receiver in if added then some r else none

-- Receivers of an earlier configuration stay where the new one has no feed for them.
unfoldable pub configure_feeds : List MulticastGroupSubscription → NetworkManager → NetworkManager
configure_feeds [] nm = nm
configure_feeds (primary ∷ []) nm = record nm { primary_multicast_receiver = subscribed primary }
configure_feeds (primary ∷ secondary ∷ feeds) nm =
    let with_primary = record nm { primary_multicast_receiver = subscribed primary } in
    if nm.config.dual_feed_enabled
    then record with_primary { secondary_multicast_receiver = subscribed secondary }
    else with_primary

-- Whether the receiver started.
abbrev pub start_receiver : GroupHost → Option MulticastReceiver → Bool × Option MulticastReceiver
start_receiver host none = (false, none)
start_receiver host (some r) =
    let (started, after) = MulticastReceiver.start host r in (started, some after)

abbrev stop_started : Bool → Option MulticastReceiver → Option MulticastReceiver
stop_started started r = if started then stop_receiver r else r

-- The end of configure_and_start, with what was started.
unfoldable pub finish_start : Bool → Bool → NetworkManager → Bool × NetworkManager
finish_start primary_started secondary_started nm =
    if (primary_started || (secondary_started || is_set nm.client)) && not nm.running
    then (
      false,
      (stop_client other (record nm {
        primary_multicast_receiver = stop_started primary_started nm.primary_multicast_receiver;
        secondary_multicast_receiver =
            stop_started secondary_started nm.secondary_multicast_receiver;
      })).1,
    )
    else (nm.running, nm)

unfoldable pub start_receivers : GroupHost → GroupHost → NetworkManager → Bool × NetworkManager
start_receivers primary_host secondary_host nm =
    let (primary_started, primary) = start_receiver primary_host nm.primary_multicast_receiver in
    let running = primary_started || not (is_set nm.primary_multicast_receiver) in
    let begun = record nm { running = running; primary_multicast_receiver = primary } in
    if running
    then (let (secondary_started, secondary) =
          start_receiver secondary_host nm.secondary_multicast_receiver in
        finish_start primary_started secondary_started
          (record begun { secondary_multicast_receiver = secondary }))
    else finish_start primary_started false begun

unfoldable pub configure_and_start :
    GroupHost → GroupHost → NetworkManagerConfig → NetworkManager → Bool × NetworkManager
configure_and_start primary_host secondary_host config nm =
    if nm.running
    then (false, nm)
    else (let configured = configure_feeds config.multicast_feeds (record nm { config = config }) in
        start_receivers primary_host secondary_host (
          if is_set config.primary_retrans_server
          then connect_retransmission_client true
              (record configured { retrans_primary_active = true })
          else configured))
