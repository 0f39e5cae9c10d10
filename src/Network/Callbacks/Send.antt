-- ===== src/Network/Callbacks/Send.antt =====
-- src/network.c, `net_handle_send`: where a datagram for a peer goes, and what tinydtls is told.
use wlr_remote.Base.{
  if◌then◌else◌, Option, none, some, ℕ, ◌^◌, ◌≤◌, ◌<◌, ◌≡◌, refl, arith, Bool, true, false, List,
  [], ◌∷◌, Bytes, length, ℤ, pos, minus_one,
}
use wlr_remote.System.Types.{
  ClientState, Session, Family, unspec, inet, inet6, other_family, Sent, sent_bytes, send_failed,
  eagain, ewouldblock, enobufs, eintr, other_error,
}
use wlr_remote.System.Event.{Trace, sendto}
use wlr_remote.System.Env.{Env}
use wlr_remote.Network.Callbacks.{net_handle_send, send_on, send_result, send_by_family}

-- What the program tried to send: the socket, the peer and the datagram, the newest first.
abbrev pub outbox : Trace → List (ℤ × Session × Bytes)
outbox [] = []
outbox (sendto sock session buf r ∷ t) = (sock, session, buf) ∷ outbox t
outbox (_ ∷ t) = outbox t

-- An outcome that tinydtls is to take for a success: a later retransmission is expected.
abbrev pub counts_as_sent : Sent → Bool
counts_as_sent (sent_bytes n) = true
counts_as_sent (send_failed eagain) = true
counts_as_sent (send_failed ewouldblock) = true
counts_as_sent (send_failed enobufs) = true
counts_as_sent (send_failed eintr) = false
counts_as_sent (send_failed (other_error e)) = false

-- What `sendto` documents: no more bytes are sent than were given.
pub record SendLaws (env : Env) : Type 0 where
  pub sent_le :
      (t : Trace) (sock : ℤ) (session : Session) (buf : Bytes) (n : ℕ)
      → env.sendto t sock session buf ≡ sent_bytes n
      → n ≤ length buf

-- What tinydtls is to be told of an outcome: the bytes sent, or that the whole datagram was, or -1.
abbrev pub told : ℕ → Sent → ℤ
told len (sent_bytes n) = pos n
told len (send_failed e) = if counts_as_sent (send_failed e) then pos len else minus_one

module _ (env : Env) (laws : SendLaws env) (session : Session) (buf : Bytes) (t : Trace) where
  -- A datagram was tried on `sock`, and the outcome is reported.
  pub record IsSent (sock : ℤ) (answer : ℤ × Trace) : Type 0 where
    pub tried : outbox answer.1 ≡ (sock, session, buf) ∷ outbox t
    pub reported : answer.0 ≡ told (length buf) (env.sendto t sock session buf)

  send_result-outbox : (len : ℕ) (s : Sent) (u : Trace) → outbox (send_result len s u).1 ≡ outbox u
  unfolding send_result
  send_result-outbox len (sent_bytes n) u = refl
  send_result-outbox len (send_failed e) u = ground arith

  send_result-told :
      (s : Sent) (u : Trace)
      → length buf < 2 ^ 31
      → ((n : ℕ) → s ≡ sent_bytes n → n ≤ length buf)
      → (send_result (length buf) s u).0 ≡ told (length buf) s
  unfolding send_result
  send_result-told (sent_bytes n) u small le = ground (arith, le n refl)
  send_result-told (send_failed e) u small le = ground arith

  send_on-IsSent : (sock : ℤ) → length buf < 2 ^ 31 → IsSent sock (send_on env sock session buf t)
  unfolding send_on
  send_on-IsSent sock small =
      let s = env.sendto t sock session buf in
      let u = sendto sock session buf s ∷ t in
      record {
        tried = send_result-outbox (length buf) s u;
        reported = send_result-told s u small (laws.sent_le t sock session buf);
      }

-- The socket for a peer's address.
abbrev pub socket_for : ClientState → Family → Option ℤ
socket_for state unspec = none
socket_for state inet = some state.socks.v4
socket_for state inet6 = some state.socks.v6
socket_for state (other_family n) = none

module _ (env : Env) (laws : SendLaws env) (state : ClientState) (session : Session) (buf : Bytes)
    (t : Trace) where
  -- What becomes of a datagram, by the socket for its peer.
  abbrev pub IsDelivered : Option ℤ → ℤ × Trace → Type 0
  IsDelivered none answer = (answer.0 ≡ minus_one) × (outbox answer.1 ≡ outbox t)
  IsDelivered (some sock) answer = IsSent env laws session buf t sock answer

  send_by_family-IsDelivered :
      (f : Family)
      → length buf < 2 ^ 31
      → IsDelivered (socket_for state f) (send_by_family env f state session buf t)
  unfolding send_by_family
  send_by_family-IsDelivered unspec small = (refl, refl)
  send_by_family-IsDelivered inet small = send_on-IsSent env laws session buf t state.socks.v4 small
  send_by_family-IsDelivered inet6 small =
      send_on-IsSent env laws session buf t state.socks.v6 small
  send_by_family-IsDelivered (other_family n) small = (refl, refl)

  -- The kernel sending no more than it is given, a datagram of less than 2 ^ 31 bytes is tried
  -- once, on the socket of its peer's family, or not at all for any other family. The result is -1
  -- for such a family and for a lasting failure, the number of bytes sent on success, and the full
  -- length where a retransmission is to be expected.
  pub net_handle_send-IsDelivered :
      length buf < 2 ^ 31
      → IsDelivered (socket_for state session.addr.family) (net_handle_send env state session buf t)
  unfolding net_handle_send
  net_handle_send-IsDelivered small = send_by_family-IsDelivered session.addr.family small
