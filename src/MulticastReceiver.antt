-- ===== src/MulticastReceiver.antt =====
-- networking/multicast_receiver.cpp and .h: the sockets that listen to multicast groups. The calls of the
-- operating system are a parameter; a log holds the descriptors that were opened and closed.
pub mod Descriptors
use taifex_cpp_sdk.Prelude.{
  ℕ, ◌+◌, Bool, true, false, ◌&&◌, ◌||◌, Option, none, some, List, [], ◌∷◌, ◌++◌, is_empty,
  if◌then◌else◌,
}

-- socket, SO_REUSEADDR, bind and IP_ADD_MEMBERSHIP for the subscription at a position of the list; false is
-- an error.
pub record GroupHost : Type 0 where
  pub socket : ℕ → Option ℕ
  pub reuse : ℕ → Bool
  pub bind : ℕ → Bool
  pub join : ℕ → Bool

pub record MulticastGroupSubscription : Type 0 where
  pub group_ip : List ℕ
  pub port : ℕ
  pub local_interface_ip : List ℕ

-- `joinable` says that the thread of the subscription was started and not joined.
pub record ActiveSubscription : Type 0 where
  pub config : MulticastGroupSubscription
  pub socket_fd : Option ℕ
  pub thread_running_flag : Bool
  pub joinable : Bool

pub data SocketCall : Type 0 where
  opened closed : ℕ → SocketCall

pub record MulticastReceiver : Type 0 where
  pub subscriptions : List ActiveSubscription
  pub running : Bool
  pub log : List SocketCall

-- The constructor.
abbrev pub multicast_receiver : MulticastReceiver
multicast_receiver = record { subscriptions = []; running = false; log = [] }

unfoldable pub add_subscription :
    MulticastGroupSubscription → MulticastReceiver → Bool × MulticastReceiver
add_subscription config r = if r.running then (false, r) else (
  true,
  record r {
    subscriptions =
        r.subscriptions
        ++ record {
          config = config;
          socket_fd = none;
          thread_running_flag = false;
          joinable = false;
        }
          ∷ [];
  },
)

-- One round of the loop of start, for the subscription at position `i`: whether it was started, what it is
-- then, and the calls made. On an error the socket is closed again.
unfoldable pub start_subscription :
    GroupHost → ℕ → ActiveSubscription → Bool × ActiveSubscription × List SocketCall
start_subscription host i sub = elim (host.socket i) [
  | none ↦ (false, record sub { socket_fd = none }, [])
  | some fd ↦
      if host.reuse i && host.bind i && host.join i
      then (
        true,
        record sub { socket_fd = some fd; thread_running_flag = true; joinable = true },
        opened fd ∷ [],
      )
      else (false, record sub { socket_fd = none }, opened fd ∷ closed fd ∷ [])
]

unfoldable pub start_subscriptions :
    GroupHost → ℕ → List ActiveSubscription → Bool × List ActiveSubscription × List SocketCall
start_subscriptions host i [] = (false, [], [])
start_subscriptions host i (sub ∷ subs) =
    let (started, sub', calls) = start_subscription host i sub in
    let (any, subs', rest) = start_subscriptions host (i + 1) subs in
    (started || any, sub' ∷ subs', calls ++ rest)

unfoldable pub start : GroupHost → MulticastReceiver → Bool × MulticastReceiver
start host r =
    if r.running
    then (true, r)
    else if is_empty r.subscriptions
    then (false, r)
    else (let (any, subs, calls) = start_subscriptions host 0 r.subscriptions in
        (any, record { subscriptions = subs; running = any; log = r.log ++ calls }))

-- The threads are joined and the sockets closed.
unfoldable pub close_subscriptions : List ActiveSubscription → List SocketCall
close_subscriptions [] = []
close_subscriptions (sub ∷ subs) = elim sub.socket_fd [
  | none ↦ close_subscriptions subs
  | some fd ↦ closed fd ∷ close_subscriptions subs
]

unfoldable pub stop : MulticastReceiver → MulticastReceiver
stop r =
    if r.running
    then record {
      subscriptions = [];
      running = false;
      log = r.log ++ close_subscriptions r.subscriptions;
    }
    else r

-- One round of receive_loop with the answer of recvfrom, none for an error: what the callback is given.
unfoldable pub receive_datagram :
    Option (List ℕ) → ActiveSubscription → MulticastReceiver → Option (List ℕ × List ℕ × ℕ)
receive_datagram none sub r = none
receive_datagram (some []) sub r = none
receive_datagram (some (b ∷ bs)) sub r =
    if r.running && sub.thread_running_flag
    then some (b ∷ bs, sub.config.group_ip, sub.config.port)
    else none
