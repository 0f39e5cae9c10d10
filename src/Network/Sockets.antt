-- ===== src/Network/Sockets.antt =====
-- src/network.c, `net_setup_udp_sockets`.
pub mod Owned
pub mod Port
pub mod Ready
use wlr_remote.Base.{
  ℕ, zero, suc, ◌+◌, Bool, true, false, not, ◌&&◌, List, [], ◌∷◌, Bytes, ltb, ◌==◌, if◌then◌else◌,
  ⊤, ℤ, pos, minus_one, is_neg, eq_ℤ,
}
use wlr_remote.Libc.Text.{decimal, snprintf}
use wlr_remote.Pointer.{codes}
use wlr_remote.System.Types.{AddrInfo, Sockets, Resolved, resolved, gai_failed, is_inet, is_inet6}
use wlr_remote.System.Event.{
  getaddrinfo, freeaddrinfo, socket, set_v6only, bind, close, perror, gai_strerror, failed_to_bind,
}
use wlr_remote.System.Env.{Env}
use wlr_remote.System.Monad.{M, pure, perform, emit, print, ◌>>=◌, ◌>>◌}

-- `sizeof (port_str)`.
abbrev pub port_str_size : ℕ
port_str_size = 6

-- `snprintf (port_str, sizeof (port_str), "%hu", port)`.
unfoldable pub port_str : ℕ → Bytes
port_str port = snprintf port_str_size (decimal port)

-- The two variables that the loop changes: how many sockets it has kept, and which.
abbrev pub Kept : Type 0
Kept = ℕ × Sockets

-- The last test of a round: the socket is kept if it is the first of its family.
unfoldable pub keep_socket : AddrInfo → ℤ → Kept → M Kept
keep_socket info sock (count, socks) =
    if is_inet info.family && eq_ℤ socks.v4 minus_one
    then pure (count + 1, record socks { v4 = sock })
    else if is_inet6 info.family && eq_ℤ socks.v6 minus_one
    then pure (count + 1, record socks { v6 = sock })
    else (do emit (close sock); pure (count, socks))

module _ (env : Env) where
  open_socket : AddrInfo → M ℤ
  open_socket info =
      perform (λ t. env.socket t info) (socket info.family info.socktype info.protocol)

  set_sock_v6only : ℤ → M ℤ
  set_sock_v6only sock = perform (λ t. env.set_v6only t sock) (set_v6only sock)

  bind_sock : AddrInfo → ℤ → M ℤ
  bind_sock info sock = perform (λ t. env.bind t sock info.addr) (bind sock info.addr)

  -- A round from `bind` on.
  bind_and_keep : AddrInfo → ℤ → Kept → M Kept
  unfolding bind_sock keep_socket
  bind_and_keep info sock kept = do
    bound ← bind_sock info sock
    if is_neg bound
        then (do print (perror (codes "bind")); emit (close sock); pure kept)
        else keep_socket info sock kept

  -- A round from `setsockopt` on.
  restrict_and_bind : AddrInfo → ℤ → Kept → M Kept
  unfolding set_sock_v6only bind_and_keep
  restrict_and_bind info sock kept =
      if is_inet6 info.family
      then (do
        set ← set_sock_v6only sock
        if is_neg set
            then (do print (perror (codes "setsockopt IPV6_V6ONLY")); emit (close sock); pure kept)
            else bind_and_keep info sock kept)
      else bind_and_keep info sock kept

  -- The body of the loop; a `continue` leaves the variables as they are.
  unfoldable pub try_address : AddrInfo → Kept → M Kept
  unfolding open_socket restrict_and_bind
  try_address info kept = do
    sock ← open_socket info
    if is_neg sock
        then (do print (perror (codes "socket")); pure kept)
        else restrict_and_bind info sock kept

  unfoldable pub try_addresses : List AddrInfo → Kept → M Kept
  try_addresses [] kept = pure kept
  try_addresses (info ∷ rest) kept =
      if ltb kept.0 2
      then (do kept' ← try_address info kept; try_addresses rest kept')
      else pure kept

  finish_setup : Bytes → Kept → M (ℤ × Sockets)
  finish_setup port (count, socks) =
      if count == 0
      then (do print (failed_to_bind port); pure (minus_one, socks))
      else pure (pos count, socks)

  -- `gai_error` is the value of the comparison of the call's result with 0, which is 1 here.
  unfoldable pub setup_resolved : Bytes → Sockets → Resolved → M (ℤ × Sockets)
  unfolding finish_setup
  setup_resolved port socks (gai_failed code) = do
    print (gai_strerror (pos 1))
    pure (minus_one, socks)
  setup_resolved port socks (resolved infos) = do
    kept ← try_addresses infos (0, socks)
    emit freeaddrinfo
    finish_setup port kept

  -- The sockets are returned with the result, as the C function changes them in place.
  unfoldable pub net_setup_udp_sockets : Sockets → ℕ → M (ℤ × Sockets)
  unfolding setup_resolved
  net_setup_udp_sockets socks port = do
    found ← perform (λ t. env.getaddrinfo t (port_str port)) (getaddrinfo (port_str port))
    setup_resolved (port_str port) socks found
