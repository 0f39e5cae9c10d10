-- ===== src/Network/Receive.antt =====
-- src/network.c, `net_handle_epoll`: all datagrams that wait on a socket go to tinydtls.
pub mod Calm
pub mod Delivery
pub mod Grants
pub mod Traffic
pub mod Keeps
pub mod Played
pub mod Drained
use wlr_remote.Base.{
  ℕ, zero, suc, Option, none, some, Bytes, length, ltb, if◌then◌else◌, ℤ, pos, minus_one, is_neg,
}
use wlr_remote.Pointer.{codes}
use wlr_remote.System.Types.{ClientState, Session, Received, datagram, recv_failed}
use wlr_remote.System.Event.{recvfrom, perror, packet_exceeds_buffer}
use wlr_remote.System.Env.{Env}
use wlr_remote.System.Monad.{M, pure, perform, print, ◌>>=◌, ◌>>◌}
use wlr_remote.Network.Callbacks.{would_block, dtls_handle_message}

module _ (env : Env) where
  -- What a round makes of what it received: a result to return, or none to go on.
  unfoldable pub handle_received : ClientState → Received → M (Option ℤ)
  handle_received state (recv_failed e) =
      if would_block e
      then pure (some (pos 0))
      else (do print (perror (codes "recvfrom")); pure (some minus_one))
  handle_received state (datagram session bytes) =
      if ltb env.dtls_max_buf (length bytes)
      then (do print (packet_exceeds_buffer (length bytes)); pure none)
      else (do
        res ← dtls_handle_message env state session bytes
        pure (if is_neg res then some res else none))

  -- The body of `while (true)`.
  unfoldable pub receive_round : ClientState → ℤ → M (Option ℤ)
  receive_round state sock_fd = do
    received ← perform (λ t. env.recvfrom t sock_fd) (recvfrom sock_fd)
    handle_received state received

  -- The loop, with a bound on its rounds; `none` is a loop that is not done by then.
  unfoldable pub net_handle_epoll : ℕ → ClientState → ℤ → M (Option ℤ)
  net_handle_epoll zero state sock_fd t = (none, t)
  net_handle_epoll (suc fuel) state sock_fd t =
      let (done, t') = receive_round state sock_fd t in
      elim done [ some res ↦ (some res, t') | none ↦ net_handle_epoll fuel state sock_fd t' ]
