-- ===== src/System/Descriptors.antt =====
-- Which file descriptors are open after a trace, and which of them the program's structs name.
use wlr_remote.Base.{false, ◌≡◌, ℕ, ◌+◌, ◌-◌, [], ◌∷◌, if◌then◌else◌, ℤ, is_neg, is_fd, eq_ℤ}
use wlr_remote.System.Types.{Sockets, AddrInfo}
use wlr_remote.System.Env.{Env}
use wlr_remote.System.Event.{Trace, socket, epoll_create, close, mdns_open, mdns_close}

-- 1 where the two descriptors are the same.
abbrev pub mark : ℤ → ℤ → ℕ
mark a b = if eq_ℤ a b then 1 else 0

-- How often `fd` is open: calls that returned it, less the calls of `close` on it.
abbrev pub live : ℤ → Trace → ℕ
live fd [] = 0
live fd (socket f s p r ∷ t) = live fd t + (if is_neg r then 0 else mark r fd)
live fd (epoll_create r ∷ t) = live fd t + (if is_neg r then 0 else mark r fd)
live fd (mdns_open f r ∷ t) = live fd t + (if is_neg r then 0 else mark r fd)
live fd (mdns_close s ∷ t) = live fd t - mark s fd
live fd (close s ∷ t) = live fd t - mark s fd
live fd (_ ∷ t) = live fd t

-- How often `fd` is named in the struct.
abbrev pub holds : ℤ → Sockets → ℕ
holds fd socks = mark socks.v4 fd + mark socks.v6 fd

-- How many sockets the struct names.
abbrev pub slots : Sockets → ℕ
slots socks = (if is_fd socks.v4 then 1 else 0) + (if is_fd socks.v6 then 1 else 0)

abbrev pub no_sockets : Sockets
no_sockets = record { v4 = ℤ.negsuc 0; v6 = ℤ.negsuc 0 }

-- What the kernel promises of `socket`: the descriptor that it returns was not open.
pub record SocketLaws (env : Env) : Type 0 where
  pub socket_fresh :
      (t : Trace) (info : AddrInfo)
      → is_neg (env.socket t info) ≡ false
      → live (env.socket t info) t ≡ 0
