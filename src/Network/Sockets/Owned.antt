-- ===== src/Network/Sockets/Owned.antt =====
-- `net_setup_udp_sockets` leaks no descriptor: what it opened and did not close, it returns.
use wlr_remote.Base.{
  ℕ, ◌+◌, ◌≤◌, ◌<◌, ◌≡◌, ◌⊎◌, inl, inr, refl, arith, List, [], ◌∷◌, Bytes, ltb, Bool-cases, ℤ, pos,
  minus_one,
}
use wlr_remote.System.Types.{Sockets, AddrInfo, Resolved, resolved, gai_failed}
use wlr_remote.System.Event.{Trace, log, gai_strerror, getaddrinfo}
use wlr_remote.System.Env.{Env}
use wlr_remote.System.Descriptors.{mark, live, holds, slots, no_sockets}
use wlr_remote.Network.Sockets.{
  Kept, port_str, keep_socket, bind_and_keep, restrict_and_bind, try_address, try_addresses,
  setup_resolved, net_setup_udp_sockets,
}

-- The count is the number of sockets kept, and no more than two are.
abbrev IsCounted : Kept → Type 0
IsCounted (count, socks) = count ≡ slots socks

module _ (n : ℕ) where
  -- A step that ends a round for the open socket `sock`: it is kept or closed.
  abbrev Settles : ℤ → Kept → Trace → Kept × Trace → Type 0
  Settles sock kept t (kept', t') =
      live (pos n) t' + mark sock (pos n) + holds (pos n) kept.1
      ≡ live (pos n) t + holds (pos n) kept'.1

  keep_socket-Settles :
      (info : AddrInfo) (sock : ℤ) (kept : Kept) (t : Trace)
      → mark sock (pos n) ≤ live (pos n) t
      → Settles sock kept t (keep_socket info sock kept t)
  unfolding keep_socket
  keep_socket-Settles info sock kept t h = ground arith

  module _ (env : Env) where
    bind_and_keep-Settles :
        (info : AddrInfo) (sock : ℤ) (kept : Kept) (t : Trace)
        → mark sock (pos n) ≤ live (pos n) t
        → Settles sock kept t (bind_and_keep env info sock kept t)
    unfolding bind_and_keep
    bind_and_keep-Settles info sock kept t h = ground arith

    restrict_and_bind-Settles :
        (info : AddrInfo) (sock : ℤ) (kept : Kept) (t : Trace)
        → mark sock (pos n) ≤ live (pos n) t
        → Settles sock kept t (restrict_and_bind env info sock kept t)
    unfolding restrict_and_bind
    restrict_and_bind-Settles info sock kept t h = ground arith

    -- A round neither leaks a descriptor nor closes one of another round.
    try_address-holds :
        (info : AddrInfo) (kept : Kept) (t : Trace)
        → let (kept', t') = try_address env info kept t in
          live (pos n) t' + holds (pos n) kept.1 ≡ live (pos n) t + holds (pos n) kept'.1
    unfolding try_address
    try_address-holds info kept t = ground arith

    try_addresses-holds :
        (infos : List AddrInfo) (kept : Kept) (t : Trace)
        → let (kept', t') = try_addresses env infos kept t in
          live (pos n) t' + holds (pos n) kept.1 ≡ live (pos n) t + holds (pos n) kept'.1
    unfolding try_addresses
    try_addresses-holds [] kept t = refl
    try_addresses-holds (info ∷ rest) kept t = elim (Bool-cases (ltb kept.0 2)) [
      | inl more ↦
          let (kept', t') = try_address env info kept t in
          rw more (omega (arith, try_address-holds info kept t, try_addresses-holds rest kept' t'))
      | inr full ↦ rw full refl
    ]

    setup_resolved-holds :
        (port : Bytes) (found : Resolved) (t : Trace)
        → let ((result, socks), t') = setup_resolved env port no_sockets found t in
          live (pos n) t' ≡ live (pos n) t + holds (pos n) socks
    unfolding setup_resolved
    setup_resolved-holds port (gai_failed code) t = ground arith
    setup_resolved-holds port (resolved infos) t =
        ground (arith, try_addresses-holds infos (0, no_sockets) t)

    -- Started on an empty struct, for every descriptor number: it is open as often as before, and
    -- once more for each place in the returned struct that names it. So nothing leaks, also where
    -- the call fails.
    pub net_setup_udp_sockets-holds :
        (port : ℕ) (t : Trace)
        → let ((result, socks), t') = net_setup_udp_sockets env no_sockets port t in
          live (pos n) t' ≡ live (pos n) t + holds (pos n) socks
    unfolding net_setup_udp_sockets
    net_setup_udp_sockets-holds port t =
        let name = port_str port in
        let found = env.getaddrinfo t name in
        setup_resolved-holds name found (getaddrinfo name found ∷ t)

module _ (env : Env) where
  try_address-IsCounted :
      (info : AddrInfo) (kept : Kept) (t : Trace)
      → IsCounted kept
      → IsCounted (try_address env info kept t).0
  unfolding try_address
  try_address-IsCounted info kept t h = ground arith

  try_addresses-IsCounted :
      (infos : List AddrInfo) (kept : Kept) (t : Trace)
      → IsCounted kept
      → IsCounted (try_addresses env infos kept t).0
  unfolding try_addresses
  try_addresses-IsCounted [] kept t h = h
  try_addresses-IsCounted (info ∷ rest) kept t h = elim (Bool-cases (ltb kept.0 2)) [
    | inl more ↦
        let (kept', t') = try_address env info kept t in
        rw more (try_addresses-IsCounted rest kept' t' (try_address-IsCounted info kept t h))
    | inr full ↦ rw full h
  ]

  setup_resolved-slots :
      (port : Bytes) (found : Resolved) (t : Trace)
      → let ((result, socks), t') = setup_resolved env port no_sockets found t in
        ((result ≡ minus_one) × (slots socks ≡ 0))
        ⊎ ((result ≡ pos (slots socks)) × (0 < slots socks))
  unfolding setup_resolved
  setup_resolved-slots port (gai_failed code) t = inl (refl, refl)
  setup_resolved-slots port (resolved infos) t =
      ground (arith, try_addresses-IsCounted infos (0, no_sockets) t refl)

  -- Started on an empty struct, the call returns the number of sockets in it, one or two, or -1
  -- with an empty struct.
  pub net_setup_udp_sockets-slots :
      (port : ℕ) (t : Trace)
      → let ((result, socks), t') = net_setup_udp_sockets env no_sockets port t in
        ((result ≡ minus_one) × (slots socks ≡ 0))
        ⊎ ((result ≡ pos (slots socks)) × (0 < slots socks))
  unfolding net_setup_udp_sockets
  net_setup_udp_sockets-slots port t =
      let name = port_str port in
      let found = env.getaddrinfo t name in
      setup_resolved-slots name found (getaddrinfo name found ∷ t)

  -- Where `getaddrinfo` fails, the struct is as it was, and the message shown is that of error 1,
  -- whatever the error is.
  net_setup_udp_sockets-gai_failed :
      (socks : Sockets) (port : ℕ) (code : ℤ) (t : Trace)
      → env.getaddrinfo t (port_str port) ≡ gai_failed code
      → net_setup_udp_sockets env socks port t ≡ (
        (minus_one, socks),
        log (gai_strerror (pos 1)) ∷ getaddrinfo (port_str port) (gai_failed code) ∷ t,
      )
  unfolding net_setup_udp_sockets
  net_setup_udp_sockets-gai_failed socks port code t h = rw h
