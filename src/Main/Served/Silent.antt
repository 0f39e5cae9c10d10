-- ===== src/Main/Served/Silent.antt =====
-- What leaves the receiving side alone: no datagram comes or goes on, and no pointer is moved.
use wlr_remote.Base.{ap, ℕ, ◌≡◌, refl, arith, [], ◌∷◌, List, ℤ, pos, Bytes}
use wlr_remote.System.Types.{
  ClientState, AddrInfo, Resolved, resolved, gai_failed, Sockets, MdnsRecord,
}
use wlr_remote.System.Event.{Trace, getaddrinfo}
use wlr_remote.System.Descriptors.{live}
use wlr_remote.System.Ledger.{heap, epoll_sets, faults}
use wlr_remote.System.Objects.{objects, waits, contexts_made}
use wlr_remote.System.Notices.{Notice, notices, told}
use wlr_remote.System.Env.{Env}
use wlr_remote.Base.{Bool, Option}
use wlr_remote.System.Types.{Callback}
use wlr_remote.System.Signals.{Handler, handlers}
use wlr_remote.System.Grants.{grants}
use wlr_remote.System.Controls.{Control, controls}
use wlr_remote.System.Traffic.{traffic}
use wlr_remote.System.Types.{Session}
use wlr_remote.System.Terminal.{echo_on}
use wlr_remote.Pointer.Frames.{Phase, phase}
use wlr_remote.Pointer.Commands.{Request, requests}
use wlr_remote.Network.Callbacks.Played.{plaintexts}
use wlr_remote.Network.Callbacks.Quiet.{Mail, received_mail, handed_mail}
use wlr_remote.Network.Sockets.{
  port_str, Kept, try_address, try_addresses, setup_resolved, net_setup_udp_sockets,
}
use wlr_remote.Network.Epoll.{
  net_setup_epoll, epoll_ctl_add, add_sockets, add_socket, err_close_fds,
}

-- What the receiving side is about, the terminal, the credentials, and what goes out.
abbrev pub View : Type 0
View =
    Mail
    × Mail
    × Phase
    × List Request
    × List Bytes
    × Bool
    × List (Option Callback × Bytes)
    × (List (ℤ × Session × Bytes) × List (Session × Bytes))

abbrev pub view : Trace → View
view t = (
  received_mail t,
  handed_mail t,
  phase t,
  requests t,
  plaintexts t,
  echo_on t,
  grants t,
  traffic t,
)

-- The same, with the objects, the rounds of the event loop and the notices, and with the descriptor
-- and the block that have the number `n`, what was done to the epoll sets, and the handlers of signals.
abbrev pub still :
    ℕ
    → Trace
    → (View × (ℕ × ℕ × ℕ × ℕ × ℕ) × ℕ × List Notice)
      × ℕ
      × ℕ
      × ℕ
      × ℕ
      × List Control
      × List (ℕ × Handler)
still n t = (
  (view t, objects t, waits t, notices t),
  live (pos n) t,
  heap n t,
  epoll_sets (pos n) t,
  faults n t,
  controls t,
  handlers t,
)

-- The same as `view`, with the objects, the rounds of the event loop, the notices, the records that
-- were sent, how many contexts were ever made, and the handlers of signals.
abbrev pub Silence : Type 0
Silence = View × (ℕ × ℕ × ℕ × ℕ × ℕ) × ℕ × List Notice × List MdnsRecord × ℕ × List (ℕ × Handler)

abbrev pub silent : Trace → Silence
silent t = (view t, objects t, waits t, notices t, told t, contexts_made t, handlers t)

-- The same as `silent`, with what was done to the epoll sets.
abbrev pub hidden : Trace → Silence × List Control
hidden t = (silent t, controls t)

-- The same as `view`, with the rounds of the event loop, and what was done to the epoll sets.
abbrev pub rested : Trace → View × ℕ × List Control
rested t = (view t, waits t, controls t)

-- The same as `silent`, with the block and the epoll set that have the number `n`, and its faults.
abbrev pub spared : ℕ → Trace → Silence × ℕ × ℕ × ℕ
spared n t = (silent t, heap n t, epoll_sets (pos n) t, faults n t)

module _ (n : ℕ) (env : Env) where
  try_address-spared :
      (info : AddrInfo) (kept : Kept) (t : Trace)
      → spared n (try_address env info kept t).1 ≡ spared n t
  unfolding try_address
  try_address-spared info kept t = ground arith

  try_addresses-spared :
      (infos : List AddrInfo) (kept : Kept) (t : Trace)
      → spared n (try_addresses env infos kept t).1 ≡ spared n t
  unfolding try_addresses
  try_addresses-spared [] kept t = refl
  try_addresses-spared (info ∷ rest) kept t =
      let (kept', t') = try_address env info kept t in
      ground (arith, try_addresses-spared rest kept' t', try_address-spared info kept t)

  setup_resolved-spared :
      (port : Bytes) (socks : Sockets) (found : Resolved) (t : Trace)
      → spared n (setup_resolved env port socks found (getaddrinfo port found ∷ t)).1 ≡ spared n t
  unfolding setup_resolved
  setup_resolved-spared port socks (gai_failed code) t = refl
  setup_resolved-spared port socks (resolved infos) t =
      ground (arith, try_addresses-spared infos (0, socks) (getaddrinfo port (resolved infos) ∷ t))

  pub net_setup_udp_sockets-spared :
      (socks : Sockets) (port : ℕ) (t : Trace)
      → spared n (net_setup_udp_sockets env socks port t).1 ≡ spared n t
  unfolding net_setup_udp_sockets
  net_setup_udp_sockets-spared socks port t =
      let name = port_str port in
      let found = env.getaddrinfo t name in setup_resolved-spared name socks found t

  pub net_setup_epoll-spared :
      (state : ClientState) (fd : ℤ) (t : Trace)
      → let u = (net_setup_epoll env state fd t).1 in (silent u ≡ silent t) × (heap n u ≡ heap n t)
  unfolding net_setup_epoll epoll_ctl_add add_sockets add_socket err_close_fds
  net_setup_epoll-spared state fd t = ground arith

module _ (env : Env) where
  pub net_setup_udp_sockets-silent :
      (socks : Sockets) (port : ℕ) (t : Trace)
      → silent (net_setup_udp_sockets env socks port t).1 ≡ silent t
  net_setup_udp_sockets-silent socks port t =
      ap (λ v. v.0) (net_setup_udp_sockets-spared 0 env socks port t)

  pub net_setup_epoll-silent :
      (state : ClientState) (fd : ℤ) (t : Trace)
      → silent (net_setup_epoll env state fd t).1 ≡ silent t
  net_setup_epoll-silent state fd t = (net_setup_epoll-spared 0 env state fd t).0
