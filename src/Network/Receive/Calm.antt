-- ===== src/Network/Receive/Calm.antt =====
-- src/network.c, `net_handle_epoll`: it opens and closes nothing.
use wlr_remote.Base.{ℕ, ◌≡◌, refl, arith, ◌∷◌, ℤ}
use wlr_remote.System.Types.{ClientState, Received, datagram, recv_failed}
use wlr_remote.System.Event.{Trace, recvfrom}
use wlr_remote.System.Env.{Env}
use wlr_remote.Network.Callbacks.Calm.{held, dtls_handle_message-held}
use wlr_remote.Network.Receive.{handle_received, net_handle_epoll}
use wlr_remote.Network.Receive.Keeps.{net_handle_epoll-keeps}

module _ (n : ℕ) (env : Env) (state : ClientState) where
  handle_received-held :
      (t0 : Trace) (fd : ℤ) (r : Received) (t : Trace)
      → held n t ≡ held n t0
      → held n (handle_received env state r (recvfrom fd r ∷ t)).1 ≡ held n t0
  unfolding handle_received
  handle_received-held t0 fd (recv_failed e) t h = ground arith
  handle_received-held t0 fd (datagram s b) t h =
      ground (arith, dtls_handle_message-held n env state s b (recvfrom fd (datagram s b) ∷ t))

  pub net_handle_epoll-held :
      (fuel : ℕ) (fd : ℤ) (t : Trace) → held n (net_handle_epoll env fuel state fd t).1 ≡ held n t
  net_handle_epoll-held fuel fd t =
      net_handle_epoll-keeps env state (λ u. held n u ≡ held n t) (handle_received-held t) fuel fd t
        refl
