-- ===== src/MulticastReceiver/Descriptors.antt =====
-- The descriptors that MulticastReceiver opens and closes.
use taifex_cpp_sdk.Prelude.{
  ℕ, ◌+◌, ◌≡◌, refl, Bool, false, none, some, inl, inr, List, [], ◌∷◌, ◌++◌, is_empty, ◌==◌,
  if◌then◌else◌, arith, Bool-cases, if_cases,
}
use taifex_cpp_sdk.MulticastReceiver.{
  GroupHost, MulticastGroupSubscription, ActiveSubscription, SocketCall, opened, closed,
  MulticastReceiver, multicast_receiver, add_subscription, start_subscription, start_subscriptions,
  start, close_subscriptions, stop,
}

abbrev one : Bool → ℕ
one b = if b then 1 else 0

-- How often a descriptor was opened, and closed.
unfoldable pub times_opened : ℕ → List SocketCall → ℕ
times_opened fd [] = 0
times_opened fd (opened g ∷ l) = one (fd == g) + times_opened fd l
times_opened fd (closed g ∷ l) = times_opened fd l

unfoldable pub times_closed : ℕ → List SocketCall → ℕ
times_closed fd [] = 0
times_closed fd (opened g ∷ l) = times_closed fd l
times_closed fd (closed g ∷ l) = one (fd == g) + times_closed fd l

-- How often a subscription holds it.
unfoldable pub times_held : ℕ → List ActiveSubscription → ℕ
times_held fd [] = 0
times_held fd (sub ∷ subs) = elim sub.socket_fd [
  | none ↦ times_held fd subs
  | some g ↦ one (fd == g) + times_held fd subs
]

times_opened-append :
    (fd : ℕ) (l m : List SocketCall)
    → times_opened fd (l ++ m) ≡ times_opened fd l + times_opened fd m
unfolding times_opened
times_opened-append fd [] m = omega arith
times_opened-append fd (opened g ∷ l) m = omega (arith, times_opened-append fd l m)
times_opened-append fd (closed g ∷ l) m = omega (arith, times_opened-append fd l m)

times_closed-append :
    (fd : ℕ) (l m : List SocketCall)
    → times_closed fd (l ++ m) ≡ times_closed fd l + times_closed fd m
unfolding times_closed
times_closed-append fd [] m = omega arith
times_closed-append fd (opened g ∷ l) m = omega (arith, times_closed-append fd l m)
times_closed-append fd (closed g ∷ l) m = omega (arith, times_closed-append fd l m)

times_held-append :
    (fd : ℕ) (l m : List ActiveSubscription)
    → times_held fd (l ++ m) ≡ times_held fd l + times_held fd m
unfolding times_held
times_held-append fd [] m = omega arith
times_held-append fd (sub ∷ l) m = ground (arith, times_held-append fd l m)

-- What is opened in starting is closed again or held.
start_subscription-balance :
    (host : GroupHost) (i : ℕ) (sub : ActiveSubscription) (fd : ℕ)
    → let (any, sub', calls) = start_subscription host i sub in
      times_opened fd calls ≡ times_closed fd calls + times_held fd (sub' ∷ [])
unfolding start_subscription times_opened times_closed times_held
start_subscription-balance host i sub fd = ground arith

start_subscriptions-balance :
    (host : GroupHost) (i : ℕ) (subs : List ActiveSubscription) (fd : ℕ)
    → let (any, subs', calls) = start_subscriptions host i subs in
      times_opened fd calls ≡ times_closed fd calls + times_held fd subs'
unfolding start_subscriptions times_opened times_closed times_held
start_subscriptions-balance host i [] fd = refl
start_subscriptions-balance host i (sub ∷ subs) fd =
    let (started, sub', calls) = start_subscription host i sub in
    let (any, subs', rest) = start_subscriptions host (i + 1) subs in
    omega (
      arith,
      start_subscription-balance host i sub fd,
      start_subscriptions-balance host (i + 1) subs fd,
      times_opened-append fd calls rest,
      times_closed-append fd calls rest,
      times_held-append fd (sub' ∷ []) subs',
    )

close_subscriptions-balance :
    (subs : List ActiveSubscription) (fd : ℕ)
    → (times_opened fd (close_subscriptions subs) ≡ 0)
      × (times_closed fd (close_subscriptions subs) ≡ times_held fd subs)
unfolding close_subscriptions times_opened times_closed times_held
close_subscriptions-balance [] fd = (refl, refl)
close_subscriptions-balance (sub ∷ subs) fd = ground (arith, close_subscriptions-balance subs fd)

times_held-nil : (fd : ℕ) → times_held fd [] ≡ 0
unfolding times_held
times_held-nil fd = refl

new_holds_nothing :
    (fd : ℕ) (config : MulticastGroupSubscription)
    → times_held fd (
        record { config = config; socket_fd = none; thread_running_flag = false; joinable = false }
        ∷ [])
      ≡ 0
unfolding times_held
new_holds_nothing fd config = refl

start_subscription_failed :
    (host : GroupHost) (i : ℕ) (sub : ActiveSubscription) (fd : ℕ)
    → (start_subscription host i sub).0 ≡ false
    → times_held fd ((start_subscription host i sub).1 ∷ []) ≡ 0
unfolding start_subscription times_held
start_subscription_failed host i sub fd e = ground arith

start_subscriptions_failed :
    (host : GroupHost) (i : ℕ) (subs : List ActiveSubscription) (fd : ℕ)
    → (start_subscriptions host i subs).0 ≡ false
    → times_held fd (start_subscriptions host i subs).1 ≡ 0
unfolding start_subscriptions
start_subscriptions_failed host i [] fd e = times_held-nil fd
start_subscriptions_failed host i (sub ∷ subs) fd e =
    let (started, sub', calls) = start_subscription host i sub in
    let (any, subs', rest) = start_subscriptions host (i + 1) subs in
    omega (
      arith,
      times_held-append fd (sub' ∷ []) subs',
      start_subscription_failed host i sub fd (ground arith),
      start_subscriptions_failed host (i + 1) subs fd (ground arith),
    )

-- A call on the receiver. The system may answer otherwise at each start.
pub data Step (r : MulticastReceiver) : MulticastReceiver → Type 0 where
  adds : (config : MulticastGroupSubscription) → Step r (add_subscription config r).1
  starts : (host : GroupHost) → Step r (start host r).1
  stops : Step r (stop r)

pub data Reachable : MulticastReceiver → Type 0 where
  fresh : Reachable multicast_receiver
  next : {r after : MulticastReceiver} → Reachable r → Step r after → Reachable after

-- For a descriptor: what was opened was closed or is held, and a receiver that does not run holds nothing.
pub record IsBalanced (fd : ℕ) (r : MulticastReceiver) : Type 0 where
  pub accounted : times_opened fd r.log ≡ times_closed fd r.log + times_held fd r.subscriptions
  pub idle_empty : (if r.running then 0 else times_held fd r.subscriptions) ≡ 0

add-IsBalanced :
    (fd : ℕ) (config : MulticastGroupSubscription) (r : MulticastReceiver)
    → IsBalanced fd r
    → IsBalanced fd (add_subscription config r).1
unfolding add_subscription
add-IsBalanced fd config r h =
    if_cases (λ (t : Bool × MulticastReceiver). IsBalanced fd t.1) r.running (λ running. h)
      (λ idle.
        let added : ActiveSubscription = record {
          config = config;
          socket_fd = none;
          thread_running_flag = false;
          joinable = false;
        } in
        let nothing = new_holds_nothing fd config in
        let more = times_held-append fd r.subscriptions (added ∷ []) in
        let before = h.accounted in
        let empty = h.idle_empty in record { accounted = omega arith; idle_empty = ground arith })

start-IsBalanced :
    (fd : ℕ) (host : GroupHost) (r : MulticastReceiver)
    → IsBalanced fd r
    → IsBalanced fd (start host r).1
unfolding start
start-IsBalanced fd host r h =
    if_cases (λ (t : Bool × MulticastReceiver). IsBalanced fd t.1) r.running (λ running. h)
      (λ idle.
        if_cases (λ (t : Bool × MulticastReceiver). IsBalanced fd t.1) (is_empty r.subscriptions)
          (λ nobody. h)
          (λ somebody.
            let (any, subs, calls) = start_subscriptions host 0 r.subscriptions in
            let balance = start_subscriptions-balance host 0 r.subscriptions fd in
            let opened_before = times_opened-append fd r.log calls in
            let closed_before = times_closed-append fd r.log calls in
            let before = h.accounted in
            let empty = h.idle_empty in
            (record {
              accounted = ground arith;
              idle_empty = elim (Bool-cases any) [
                | inl started ↦ rw started refl
                | inr failed ↦
                    rw failed (start_subscriptions_failed host 0 r.subscriptions fd failed)
              ];
            })))

stop-balance :
    (fd : ℕ) (r : MulticastReceiver)
    → IsBalanced fd r
    → IsBalanced fd (stop r) × (times_opened fd (stop r).log ≡ times_closed fd (stop r).log)
unfolding stop
stop-balance fd r h =
    let (none_opened, all_closed) = close_subscriptions-balance r.subscriptions fd in
    let opened_before = times_opened-append fd r.log (close_subscriptions r.subscriptions) in
    let closed_before = times_closed-append fd r.log (close_subscriptions r.subscriptions) in
    let nothing = times_held-nil fd in
    let before = h.accounted in
    let empty = h.idle_empty in
    if_cases (λ t. IsBalanced fd t × (times_opened fd t.log ≡ times_closed fd t.log)) r.running
      (λ running. (record { accounted = omega arith; idle_empty = nothing }, omega arith))
      (λ idle. (h, ground arith))

Reachable-IsBalanced : (fd : ℕ) {r : MulticastReceiver} → Reachable r → IsBalanced fd r
unfolding times_opened times_closed times_held
Reachable-IsBalanced fd fresh = record { accounted = refl; idle_empty = refl }
Reachable-IsBalanced fd (next {r} before (adds config)) =
    add-IsBalanced fd config r (Reachable-IsBalanced fd before)
Reachable-IsBalanced fd (next {r} before (starts host)) =
    start-IsBalanced fd host r (Reachable-IsBalanced fd before)
Reachable-IsBalanced fd (next {r} before stops) =
    (stop-balance fd r (Reachable-IsBalanced fd before)).0

-- In every state that calls reach, whatever fails in a start, each descriptor was opened as often as it was
-- closed or is held by a subscription; after stop it was closed as often as it was opened.
pub Reachable-closes :
    (fd : ℕ) {r : MulticastReceiver}
    → Reachable r
    → (times_opened fd r.log ≡ times_closed fd r.log + times_held fd r.subscriptions)
      × (times_opened fd (stop r).log ≡ times_closed fd (stop r).log)
Reachable-closes fd {r} reached =
    let balanced = Reachable-IsBalanced fd reached in
    (balanced.accounted, (stop-balance fd r balanced).1)
