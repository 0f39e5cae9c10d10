-- ===== src/Network/Receive/Traffic.antt =====
-- src/network.c, `net_handle_epoll`: what goes out is what tinydtls wants to go out.
use wlr_remote.Base.{◌≡◌, ℕ, arith, ◌∷◌, ℤ}
use wlr_remote.System.Types.{ClientState, Sockets, Received, datagram, recv_failed}
use wlr_remote.System.Event.{Trace, recvfrom}
use wlr_remote.System.Env.{Env}
use wlr_remote.Network.Callbacks.Traffic.{IsSent, dtls_handle_message-IsSent}
use wlr_remote.Network.Receive.{handle_received, net_handle_epoll}
use wlr_remote.Network.Receive.Keeps.{net_handle_epoll-keeps}

module _ (env : Env) (state : ClientState) {socks : Sockets} (fit : state.socks ≡ socks) where
  handle_received-IsSent :
      (fd : ℤ) (r : Received) (t : Trace)
      → IsSent socks t
      → IsSent socks (handle_received env state r (recvfrom fd r ∷ t)).1
  unfolding handle_received
  handle_received-IsSent fd (recv_failed e) t h = ground arith
  handle_received-IsSent fd (datagram s b) t h =
      ground
        (arith, dtls_handle_message-IsSent env state fit s b (recvfrom fd (datagram s b) ∷ t) h)

  pub net_handle_epoll-IsSent :
      (fuel : ℕ) (fd : ℤ) (t : Trace)
      → IsSent socks t
      → IsSent socks (net_handle_epoll env fuel state fd t).1
  net_handle_epoll-IsSent fuel fd t h =
      net_handle_epoll-keeps env state (IsSent socks) handle_received-IsSent fuel fd t h
