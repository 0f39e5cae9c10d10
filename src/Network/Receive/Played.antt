-- ===== src/Network/Receive/Played.antt =====
-- src/network.c, `net_handle_epoll`: the pointer does what the plaintexts say.
use wlr_remote.Base.{ℕ, arith, ◌∷◌, ℤ}
use wlr_remote.System.Types.{ClientState, Received, datagram, recv_failed}
use wlr_remote.System.Event.{Trace, recvfrom}
use wlr_remote.System.Env.{Env}
use wlr_remote.Network.Callbacks.Played.{PlaintextLaws, IsPlayed, dtls_handle_message-IsPlayed}
use wlr_remote.Network.Receive.{handle_received, net_handle_epoll}
use wlr_remote.Network.Receive.Keeps.{net_handle_epoll-keeps}

module _ (env : Env) (laws : PlaintextLaws env) (state : ClientState) where
  handle_received-IsPlayed :
      (fd : ℤ) (r : Received) (t : Trace)
      → IsPlayed env t
      → IsPlayed env (handle_received env state r (recvfrom fd r ∷ t)).1
  unfolding handle_received
  handle_received-IsPlayed fd (recv_failed e) t h = ground arith
  handle_received-IsPlayed fd (datagram s b) t h =
      ground
        (arith, dtls_handle_message-IsPlayed env state s b (recvfrom fd (datagram s b) ∷ t) laws h)

  pub net_handle_epoll-IsPlayed :
      (fuel : ℕ) (fd : ℤ) (t : Trace)
      → IsPlayed env t
      → IsPlayed env (net_handle_epoll env fuel state fd t).1
  net_handle_epoll-IsPlayed =
      net_handle_epoll-keeps env state (IsPlayed env) handle_received-IsPlayed
