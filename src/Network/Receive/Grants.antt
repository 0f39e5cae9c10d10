-- ===== src/Network/Receive/Grants.antt =====
-- src/network.c, `net_handle_epoll`: what tinydtls is given as a credential.
use wlr_remote.Base.{ℕ, arith, ◌∷◌, ℤ, Bytes}
use wlr_remote.System.Types.{ClientState, Received, datagram, recv_failed}
use wlr_remote.System.Event.{Trace, recvfrom}
use wlr_remote.System.Env.{Env}
use wlr_remote.Network.Callbacks.Grants.{Keyed, AllGranted, dtls_handle_message-AllGranted}
use wlr_remote.Network.Receive.{handle_received, net_handle_epoll}
use wlr_remote.Network.Receive.Keeps.{net_handle_epoll-keeps}

module _ (env : Env) (state : ClientState) {key : Bytes} {len : ℕ} (has : Keyed key len state) where
  handle_received-AllGranted :
      (fd : ℤ) (r : Received) (t : Trace)
      → AllGranted key len t
      → AllGranted key len (handle_received env state r (recvfrom fd r ∷ t)).1
  unfolding handle_received
  handle_received-AllGranted fd (recv_failed e) t h = ground arith
  handle_received-AllGranted fd (datagram s b) t h =
      ground
        (arith, dtls_handle_message-AllGranted env state has s b (recvfrom fd (datagram s b) ∷ t) h)

  pub net_handle_epoll-AllGranted :
      (fuel : ℕ) (fd : ℤ) (t : Trace)
      → AllGranted key len t
      → AllGranted key len (net_handle_epoll env fuel state fd t).1
  net_handle_epoll-AllGranted fuel fd t h =
      net_handle_epoll-keeps env state (AllGranted key len) handle_received-AllGranted fuel fd t h
