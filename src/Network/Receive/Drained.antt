-- ===== src/Network/Receive/Drained.antt =====
-- src/network.c, `net_handle_epoll`: the loop comes to an end, and 0 means an empty socket.
use wlr_remote.Base.{
  ℕ, zero, suc, ◌-◌, ◌<◌, ◌≡◌, refl, ap, arith, none, some, Bytes, [], ◌∷◌, length, Option-cases,
  inl, inr, ◌⊎◌, ℤ, pos, is_neg, true, false, Bool,
}
use wlr_remote.System.Types.{ClientState, Session, Received, datagram, recv_failed}
use wlr_remote.System.Event.{Trace, recvfrom}
use wlr_remote.System.Env.{Env}
use wlr_remote.Network.Callbacks.{would_block}
use wlr_remote.Network.Callbacks.Quiet.{received_mail, dtls_handle_message-IsQuiet}
use wlr_remote.Network.Receive.{handle_received, receive_round, net_handle_epoll}

-- No more than `total` datagrams ever arrive: behind those, `recvfrom` reports an error.
pub record ArrivalLaws (env : Env) (total : ℕ) : Type 0 where
  pub no_more :
      (t : Trace) (fd : ℤ) (s : Session) (b : Bytes)
      → env.recvfrom t fd ≡ datagram s b
      → length (received_mail t) < total

-- The last attempt to receive found the socket empty.
abbrev pub is_drained : Trace → Bool
is_drained [] = false
is_drained (recvfrom fd (recv_failed e) ∷ t) = would_block e
is_drained (recvfrom fd (datagram s b) ∷ t) = false
is_drained (_ ∷ t) = is_drained t

module _ (env : Env) (state : ClientState) where
  handle_received-mail :
      (fd : ℤ) (s : Session) (b : Bytes) (t : Trace)
      → received_mail (handle_received env state (datagram s b) (recvfrom fd (datagram s b) ∷ t)).1
        ≡ (s, b) ∷ received_mail t
  unfolding handle_received
  handle_received-mail fd s b t = ground (
    arith,
    (dtls_handle_message-IsQuiet env state s b (recvfrom fd (datagram s b) ∷ t)).received_same,
  )

  -- A round that goes on has received one datagram more.
  handle_received-more :
      (fd : ℤ) (r : Received) (t : Trace)
      → (handle_received env state r (recvfrom fd r ∷ t)).0 ≡ none
      → (s : Session) × (b : Bytes) × (r ≡ datagram s b)
        × (length (received_mail (handle_received env state r (recvfrom fd r ∷ t)).1)
            ≡ suc (length (received_mail t)))
  handle_received-more fd (recv_failed e) t h = unfold handle_received in (ground arith)
  handle_received-more fd (datagram s b) t h =
      (s, b, refl, ap length (handle_received-mail fd s b t))

  -- If only so many datagrams ever arrive, the loop returns after at most one round for each that is
  -- still to come, and one more.
  pub net_handle_epoll-total :
      (total fuel : ℕ) (fd : ℤ) (t : Trace)
      → ArrivalLaws env total
      → total - length (received_mail t) < fuel
      → (res : ℤ) × ((net_handle_epoll env fuel state fd t).0 ≡ some res)
  unfolding net_handle_epoll receive_round
  net_handle_epoll-total total zero fd t laws h = elim h [ ]
  net_handle_epoll-total total (suc fuel) fd t laws h =
      let r = env.recvfrom t fd in
      let (done, u) = handle_received env state r (recvfrom fd r ∷ t) in
      elim (Option-cases done) [
        | inl more ↦
            let (s, b, came, count) = handle_received-more fd r t more in
            let (res, e) =
              net_handle_epoll-total total fuel fd u laws
                (omega (arith, laws.no_more t fd s b came)) in
            (res, rw (more, net_handle_epoll) e)
        | inr (res, over) ↦ (res, rw (over, net_handle_epoll) refl)
      ]

  -- How a round ends that returns.
  abbrev pub IsEnd : ℤ → Trace → Type 0
  IsEnd res t = ((res ≡ pos 0) × (is_drained t ≡ true)) ⊎ (is_neg res ≡ true)

  handle_received-IsEnd :
      (fd : ℤ) (r : Received) (t : Trace) (res : ℤ)
      → (handle_received env state r (recvfrom fd r ∷ t)).0 ≡ some res
      → IsEnd res (handle_received env state r (recvfrom fd r ∷ t)).1
  unfolding handle_received
  handle_received-IsEnd fd (recv_failed e) t res h = ground arith
  handle_received-IsEnd fd (datagram s b) t res h = ground arith

  -- Where the loop returns, it returns 0 with the socket found empty, or a negative number.
  pub net_handle_epoll-IsEnd :
      (fuel : ℕ) (fd : ℤ) (t : Trace) (res : ℤ)
      → (net_handle_epoll env fuel state fd t).0 ≡ some res
      → IsEnd res (net_handle_epoll env fuel state fd t).1
  unfolding net_handle_epoll receive_round
  net_handle_epoll-IsEnd zero fd t res h = cc
  net_handle_epoll-IsEnd (suc fuel) fd t res h =
      let r = env.recvfrom t fd in
      let (done, u) = handle_received env state r (recvfrom fd r ∷ t) in
      elim (Option-cases done) [
        | inl more ↦
            rw (more, net_handle_epoll)
              (net_handle_epoll-IsEnd fuel fd u res (rw (more, net_handle_epoll) at h))
        | inr (res', over) ↦
            let both : some res' ≡ some res = rw (over, net_handle_epoll) at h in
            let same : res' ≡ res = cc in
            rw (over, net_handle_epoll) (rw same at (handle_received-IsEnd fd r t res' over))
      ]
