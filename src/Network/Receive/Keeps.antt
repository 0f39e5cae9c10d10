-- ===== src/Network/Receive/Keeps.antt =====
-- src/network.c, `net_handle_epoll`: what one round keeps, the loop keeps.
use wlr_remote.Base.{ℕ, zero, suc, Option-cases, inl, inr, ◌∷◌, ℤ}
use wlr_remote.System.Types.{ClientState, Received}
use wlr_remote.System.Event.{Trace, recvfrom}
use wlr_remote.System.Env.{Env}
use wlr_remote.Network.Receive.{handle_received, receive_round, net_handle_epoll}

module _ (env : Env) (state : ClientState) (P : Trace → Type 0)
    (round_keeps : (fd : ℤ) (r : Received) (t : Trace)
      → P t
      → P (handle_received env state r (recvfrom fd r ∷ t)).1) where
  pub net_handle_epoll-keeps :
      (fuel : ℕ) (fd : ℤ) (t : Trace) → P t → P (net_handle_epoll env fuel state fd t).1
  unfolding net_handle_epoll receive_round
  net_handle_epoll-keeps zero fd t h = h
  net_handle_epoll-keeps (suc fuel) fd t h =
      let r = env.recvfrom t fd in
      let (done, u) = handle_received env state r (recvfrom fd r ∷ t) in
      let at_u = round_keeps fd r t h in
      elim (Option-cases done) [
        | inl more ↦ rw (more, net_handle_epoll) (net_handle_epoll-keeps fuel fd u at_u)
        | inr (res, over) ↦ rw (over, net_handle_epoll) at_u
      ]
