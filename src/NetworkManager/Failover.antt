-- ===== src/NetworkManager/Failover.antt =====
-- The loss of the connection to the primary retransmission server.
use taifex_cpp_sdk.Prelude.{
  ℕ, ◌≡◌, refl, sym, ap, Bool, not, if_cases, true, false, ◌&&◌, Option, none, some, List, [], ◌∷◌,
  ◌++◌, arith,
}
use mathlib.Core.Path.{subst}
use taifex_cpp_sdk.ErrorCodes.{Exception, Result, ok, err}
use taifex_cpp_sdk.RetransmissionClient.{
  Connection, Client, Effect, disconnected, connection_of, is_receiving, close_socket, Thread,
  receiving, other, retransmission_client,
}
use taifex_cpp_sdk.RetransmissionClient.Sending.{closing, close_effects-eq-closing}
use taifex_cpp_sdk.RetransmissionClient
use taifex_cpp_sdk.NetworkManager.{
  NetworkManager, RetransmissionServerConfig, is_set, all_callbacks, connect_retransmission_client,
  continue, bind, stop_client, on_retransmission_disconnected, on_effect, on_effects,
}

-- The primary server is active, a backup is configured, and the client runs in its thread.
pub record CanFailOver (nm : NetworkManager) (k : Client) (backup : RetransmissionServerConfig)
    : Type 0 where
  pub active : nm.retrans_primary_active ≡ true
  pub backup_set : nm.config.backup_retrans_server ≡ some backup
  pub client_set : nm.client ≡ some k
  pub client_runs : k.connection.running ≡ true
  pub thread_runs : k.connection.joinable ≡ true

fails_over :
    (thread : Thread) (nm : NetworkManager) (k : Client) (backup : RetransmissionServerConfig)
    → CanFailOver nm k backup
    → on_retransmission_disconnected thread nm
      ≡ continue
          (λ after.
            connect_retransmission_client false (record after { retrans_primary_active = false }))
          (stop_client thread nm)
unfolding on_retransmission_disconnected
fails_over thread nm k backup h =
    let chosen : (nm.retrans_primary_active && is_set nm.config.backup_retrans_server) ≡ true =
      ground (arith, h.active, h.backup_set) in
    rw (on_retransmission_disconnected, chosen) refl

stop_client_lem :
    (thread : Thread) (nm : NetworkManager) (k : Client)
    → nm.client ≡ some k
    → stop_client thread nm ≡ (
      (RetransmissionClient.stop thread k.connection).0,
      record nm {
        client = some (record k { connection = (RetransmissionClient.stop thread k.connection).1 });
      },
    )
unfolding stop_client
stop_client_lem thread nm k e = go nm.client e
  where
    go :
        (o : Option Client)
        → o ≡ some k
        → elim o as (λ x. Result (Unit {0}) × NetworkManager) [
          | none ↦ (ok tt, nm)
          | some l ↦
              let (result, after) = RetransmissionClient.stop thread l.connection in
              (result, record nm { client = some (record l { connection = after }) })
        ]
          ≡ (
            (RetransmissionClient.stop thread k.connection).0,
            record nm {
              client =
                  some
                    (record k { connection = (RetransmissionClient.stop thread k.connection).1 });
            },
          )
    go none p = cc
    go (some l) p = let same : l ≡ k = cc in rw same refl

-- The client was shut down: it does not run, its socket is closed once, but its thread was not joined and
-- its flags of the connection stand as they did; the rest of it is the same.
abbrev pub IsShut : Client → Client → Type 0
IsShut k l =
    (l.connection.running ≡ false)
    × (l.connection.socket_fd ≡ none)
    × (l.connection.effects ≡ k.connection.effects ++ closing k.connection.socket_fd)
    × (l.connection.joinable ≡ true)
    × (l.connection.connected ≡ k.connection.connected)
    × (l.connection.logged_in ≡ k.connection.logged_in)
    × (l.connection.session_id ≡ k.connection.session_id)
    × (l.tcp_receive_buffer ≡ k.tcp_receive_buffer)

-- A client that was made for the server and runs, without a connection yet.
abbrev pub running_for : RetransmissionServerConfig → Client
running_for server = record {
  connection = record (connection_of server.session_id server.password all_callbacks) {
    running = true;
    joinable = true;
  };
  tcp_receive_buffer = [];
}

stop-IsShut :
    (k : Client)
    → k.connection.running ≡ true
    → k.connection.joinable ≡ true
    → ((RetransmissionClient.stop receiving k.connection).0 ≡ err Exception.system_error)
      × IsShut k (record k { connection = (RetransmissionClient.stop receiving k.connection).1 })
unfolding RetransmissionClient.stop
stop-IsShut k runs joins =
    if_cases Shuts (not k.connection.running) (λ off. absurd (ground arith))
      (λ on. go (k.connection.joinable && is_receiving receiving) (ground arith))
  where
    shut : Connection
    shut = close_socket (record k.connection { running = false })

    Shuts : Result (Unit {0}) × Connection → Type 0
    Shuts r = (r.0 ≡ err Exception.system_error) × IsShut k (record k { connection = r.1 })

    go :
        (b : Bool)
        → b ≡ true
        → Shuts (elim b as (λ x. Result (Unit {0}) × Connection) [
          | true ↦ (err Exception.system_error, shut)
          | false ↦ (ok tt, record shut { joinable = false; connected = false; logged_in = false })
        ])
    go true e = (
      refl,
      (
        refl,
        refl,
        ap (λ (l : List Effect). k.connection.effects ++ l)
            (close_effects-eq-closing k.connection.socket_fd),
        joins,
        refl,
        refl,
        refl,
        refl,
      ),
    )
    go false e = absurd (ground arith)

in_receive_loop :
    (now : ℕ) (es : List Effect) (nm : NetworkManager) (k : Client)
    (backup : RetransmissionServerConfig)
    → CanFailOver nm k backup
    → let (result, after) = on_effects now receiving (disconnected ∷ es) nm in
      (result ≡ err Exception.system_error)
      × (after.retrans_primary_active ≡ true)
      × (after.client
          ≡ some (record k { connection = (RetransmissionClient.stop receiving k.connection).1 }))
unfolding on_effects on_effect
in_receive_loop now es nm k backup h =
    let stopped = stop_client_lem receiving nm k h.client_set in
    rw (fails_over receiving nm k backup h, stopped, (stop-IsShut k h.client_runs h.thread_runs).0)
      (refl, h.active, refl)

nothing_after : (r : Result (Unit {0}) × NetworkManager) → bind (λ nm. (ok tt, nm)) r ≡ r
nothing_after (ok tt, nm) = refl
nothing_after (err e, nm) = refl

only_disconnected :
    (now : ℕ) (nm : NetworkManager)
    → on_effects now other (disconnected ∷ []) nm ≡ on_retransmission_disconnected other nm
unfolding on_effects on_effect
only_disconnected now nm = nothing_after (on_retransmission_disconnected other nm)

failover_elsewhere :
    (nm : NetworkManager) (k : Client) (backup : RetransmissionServerConfig)
    → CanFailOver nm k backup
    → let (result, after) = on_retransmission_disconnected other nm in
      (result ≡ ok tt)
      × (after.retrans_primary_active ≡ false)
      × (after.client ≡ some (running_for backup))
unfolding connect_retransmission_client RetransmissionClient.stop RetransmissionClient.start
failover_elsewhere nm k backup h =
    let stopped = stop_client_lem other nm k h.client_set in
    let done : (RetransmissionClient.stop other k.connection).0 ≡ ok tt =
      ground (arith, h.client_runs, h.thread_runs) in
    rw (fails_over other nm k backup h, stopped, done, h.backup_set) (refl, refl, refl)

-- A backup is configured and the client of the primary server runs in its thread. If the receive loop of
-- that client finds the connection lost, the backup is never reached, whatever is to be called back after
-- that: the thread is to join itself, and the exception of join leaves the callback with the primary server
-- still active and the old client in its place, which does not run any more, whose socket is closed and
-- whose thread is not joined. If another thread finds it lost, the manager switches to the backup, with a
-- new client for that server that runs.
pub failover_in_receive_loop :
    (now : ℕ) (es : List Effect) (nm : NetworkManager) (k : Client)
    (backup : RetransmissionServerConfig)
    → CanFailOver nm k backup
    → let (result, after) = on_effects now receiving (disconnected ∷ es) nm in
      let (result', after') = on_effects now other (disconnected ∷ []) nm in
      (result ≡ err Exception.system_error)
      × (after.retrans_primary_active ≡ true)
      × ((l : Client) × (after.client ≡ some l) × IsShut k l)
      × (result' ≡ ok tt)
      × (after'.retrans_primary_active ≡ false)
      × (after'.client ≡ some (running_for backup))
failover_in_receive_loop now es nm k backup h =
    let (thrown, active, kept) = in_receive_loop now es nm k backup h in
    let shut = (stop-IsShut k h.client_runs h.thread_runs).1 in
    let (done, switched, replaced) =
      subst
        (λ r.
          (r.0 ≡ ok tt)
          × (r.1.retrans_primary_active ≡ false)
          × (r.1.client ≡ some (running_for backup)))
        (sym (only_disconnected now nm)) (failover_elsewhere nm k backup h) in
    (thrown, active, (_, kept, shut), done, switched, replaced)
