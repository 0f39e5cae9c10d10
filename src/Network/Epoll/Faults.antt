-- ===== src/Network/Epoll/Faults.antt =====
-- src/network.c, `net_setup_epoll`: it closes only what is open.
use wlr_remote.Base.{ℕ, ◌+◌, ◌≤◌, ◌≡◌, arith, ◌∷◌, ℤ, pos}
use wlr_remote.System.Types.{ClientState, Sockets}
use wlr_remote.System.Event.{Trace, epoll_create, epoll_add}
use wlr_remote.System.Env.{Env}
use wlr_remote.System.Descriptors.{live, holds, mark}
use wlr_remote.System.Ledger.{faults}
use wlr_remote.Network.Epoll.{
  epoll_ctl_add, add_socket, add_sockets, err_close_fds, net_setup_epoll,
}

module _ (n : ℕ) where
  err_close_fds-faults :
      (socks : Sockets) (epoll_fd : ℤ) (t : Trace)
      → holds (pos n) socks + mark epoll_fd (pos n) ≤ live (pos n) t
      → faults n (err_close_fds socks epoll_fd t).1 ≡ faults n t
  unfolding err_close_fds
  err_close_fds-faults socks epoll_fd t h = ground arith

  module _ (env : Env) where
    add_socket-held :
        (epoll_fd fd : ℤ) (t : Trace)
        → let u = (add_socket env epoll_fd fd t).1 in
          (live (pos n) u ≡ live (pos n) t) × (faults n u ≡ faults n t)
    unfolding add_socket epoll_ctl_add
    add_socket-held epoll_fd fd t = ground arith

    add_sockets-faults :
        (socks : Sockets) (epoll_fd : ℤ) (t : Trace)
        → holds (pos n) socks + mark epoll_fd (pos n) ≤ live (pos n) t
        → faults n (add_sockets env socks epoll_fd t).1 ≡ faults n t
    unfolding add_sockets
    add_sockets-faults socks epoll_fd t h =
        let t4 = (add_socket env epoll_fd socks.v4 t).1 in
        let t6 = (add_socket env epoll_fd socks.v6 t4).1 in
        let (live4, faults4) = add_socket-held epoll_fd socks.v4 t in
        let (live6, faults6) = add_socket-held epoll_fd socks.v6 t4 in
        ground (
          arith,
          err_close_fds-faults socks epoll_fd t4 (omega arith),
          err_close_fds-faults socks epoll_fd t6 (omega arith),
        )

    -- If the sockets are open, nothing is closed that is not.
    pub net_setup_epoll-faults :
        (state : ClientState) (wl_fd : ℤ) (t : Trace)
        → holds (pos n) state.socks ≤ live (pos n) t
        → faults n (net_setup_epoll env state wl_fd t).1 ≡ faults n t
    unfolding net_setup_epoll epoll_ctl_add
    net_setup_epoll-faults state wl_fd t h =
        let epoll_fd = env.epoll_create t in
        let t1 = epoll_create epoll_fd ∷ t in
        let t2 = epoll_add epoll_fd wl_fd (env.epoll_ctl t1 epoll_fd wl_fd) ∷ t1 in
        ground (
          arith,
          err_close_fds-faults state.socks epoll_fd t2,
          add_sockets-faults state.socks epoll_fd t2,
        )
