-- ===== src/Advertise/Service/Watched.antt =====
-- src/advertise.c, `advertise_setup_epoll`: what is waited for once the service is set up.
use wlr_remote.Base.{true, ◌≡◌, arith, ◌++◌, ℤ}
use wlr_remote.System.Event.{Trace}
use wlr_remote.System.Env.{Env}
use wlr_remote.Network.Epoll.{watched, socket_list, add_socket, epoll_ctl_add}
use wlr_remote.Advertise.Types.{Service}
use wlr_remote.Advertise.Service.{advertise_setup_epoll}

-- If the call succeeds, the set watches each socket of the service that there is, besides what it
-- watched before.
pub advertise_setup_epoll-watched :
    (env : Env) (s : Service) (epoll_fd : ℤ) (t : Trace)
    → (advertise_setup_epoll env s epoll_fd t).0 ≡ true
    → watched epoll_fd (advertise_setup_epoll env s epoll_fd t).1
      ≡ socket_list s.socks.v6 ++ (socket_list s.socks.v4 ++ watched epoll_fd t)
unfolding advertise_setup_epoll add_socket epoll_ctl_add
advertise_setup_epoll-watched env s epoll_fd t h = ground arith
