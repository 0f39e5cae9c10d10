-- ===== src/System/Traffic.antt =====
-- What goes out over UDP, and what tinydtls wants to go out.
use wlr_remote.Base.{ℤ, List, [], ◌∷◌, Bytes, if◌then◌else◌}
use wlr_remote.System.Types.{Session, Sockets, call_write, is_inet, is_inet6}
use wlr_remote.System.Event.{Trace, sendto, dtls_called}

-- The datagrams that were sent or tried, each with the socket and the peer, the newest first.
abbrev pub sends : Trace → List (ℤ × Session × Bytes)
sends [] = []
sends (sendto sock session buf sent ∷ t) = (sock, session, buf) ∷ sends t
sends (_ ∷ t) = sends t

-- What tinydtls called the handler of the writing side for, the newest first.
abbrev pub writes : Trace → List (Session × Bytes)
writes [] = []
writes (dtls_called (call_write session buf) ∷ t) = (session, buf) ∷ writes t
writes (_ ∷ t) = writes t

abbrev pub traffic : Trace → List (ℤ × Session × Bytes) × List (Session × Bytes)
traffic t = (sends t, writes t)

-- Each for a peer of one of the two families, with the socket of that family.
abbrev pub addressed : Sockets → List (Session × Bytes) → List (ℤ × Session × Bytes)
addressed socks [] = []
addressed socks ((session, buf) ∷ rest) =
    if is_inet session.addr.family
    then (socks.v4, session, buf) ∷ addressed socks rest
    else if is_inet6 session.addr.family
    then (socks.v6, session, buf) ∷ addressed socks rest
    else addressed socks rest
