-- ===== src/Network/Receive/Delivery.antt =====
-- src/network.c, `net_handle_epoll`: what tinydtls gets is what came and fits, each datagram once
-- and in order; and whatever comes, the pointer's requests stay whole frames.
use wlr_remote.Base.{ℕ, ◌≡◌, arith, [], ◌∷◌, length, leb, if◌then◌else◌, ℤ}
use wlr_remote.System.Types.{ClientState, Received, datagram, recv_failed}
use wlr_remote.System.Event.{Trace, recvfrom}
use wlr_remote.System.Env.{Env}
use wlr_remote.Pointer.Frames.{between, phase}
use wlr_remote.Network.Callbacks.Quiet.{
  Mail, received_mail, handed_mail, dtls_handle_message-IsQuiet,
}
use wlr_remote.Network.Receive.{handle_received, net_handle_epoll}
use wlr_remote.Network.Receive.Keeps.{net_handle_epoll-keeps}

-- The datagrams of at most `max` bytes.
abbrev pub fitting : ℕ → Mail → Mail
fitting max [] = []
fitting max ((s, b) ∷ mail) =
    if leb (length b) max then (s, b) ∷ fitting max mail else fitting max mail

module _ (env : Env) where
  -- All that was received and fits tinydtls's buffer was handed on, and nothing else; and the
  -- requests to the compositor make up whole frames.
  pub record IsServed (t : Trace) : Type 0 where
    pub handed : handed_mail t ≡ fitting env.dtls_max_buf (received_mail t)
    pub framed : phase t ≡ between

  module _ (state : ClientState) where
    handle_received-IsServed :
        (fd : ℤ) (r : Received) (t : Trace)
        → IsServed t
        → IsServed (handle_received env state r (recvfrom fd r ∷ t)).1
    unfolding handle_received
    handle_received-IsServed fd (recv_failed e) t h = ground arith
    handle_received-IsServed fd (datagram s b) t h =
        ground (arith, dtls_handle_message-IsQuiet env state s b (recvfrom fd (datagram s b) ∷ t))

    -- If all that was received so far and fits tinydtls's buffer was handed on, each datagram once
    -- and in order, and the requests so far make up whole frames, then so it is after the loop,
    -- however many rounds it makes and however it ends.
    pub net_handle_epoll-IsServed :
        (fuel : ℕ) (fd : ℤ) (t : Trace)
        → IsServed t
        → IsServed (net_handle_epoll env fuel state fd t).1
    net_handle_epoll-IsServed = net_handle_epoll-keeps env state IsServed handle_received-IsServed
