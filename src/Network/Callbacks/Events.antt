-- ===== src/Network/Callbacks/Events.antt =====
-- src/network.c, `net_handle_event`: the messages about a connection.
use wlr_remote.Base.{ℕ, ◌≡◌, ◌≢◌, ◌<◌, arith, none, ◌∷◌, pos}
use wlr_remote.Pointer.{codes}
use wlr_remote.System.Types.{Session}
use wlr_remote.System.Event.{Trace, log, no_client_address, perror, received_alert}
use wlr_remote.System.Env.{Env}
use wlr_remote.Network.Callbacks.{net_handle_event, print_event}

module _ (env : Env) (session : Session) (level code : ℕ) (t : Trace) where
  -- Where the peer's address cannot be converted, an alert other than the end of the connection is
  -- reported, after two warnings, with the contents of a buffer that nothing was written to.
  net_handle_event-unwritten :
      env.inet_ntop session.addr ≡ none
      → 0 < level
      → code ≢ env.close_notify
      → net_handle_event env session level code t ≡ (
        pos 0,
        log (received_alert level code none)
            ∷ log (perror (codes "inet_ntop"))
            ∷ log no_client_address
            ∷ t,
      )
  unfolding net_handle_event print_event
  net_handle_event-unwritten h l c = ground arith
