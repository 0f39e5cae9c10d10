-- ===== src/Network/Sockets/Ready.antt =====
-- `net_setup_udp_sockets`: the sockets that it returns are bound, each to an address of its family,
-- and the one for IPv6 takes no IPv4 traffic.
use wlr_remote.Base.{
  ℕ, ◌≤◌, ◌≡◌, inl, inr, arith, true, false, ◌&&◌, not, refl, All, List, [], ◌∷◌, Bytes, ltb,
  if◌then◌else◌, Bool-cases, ℤ, is_neg, is_fd, eq_ℤ, eq_ℤ_iff,
}
use wlr_remote.System.Types.{AddrInfo, Sockets, Resolved, resolved, gai_failed, Family, inet, inet6}
use wlr_remote.System.Event.{Trace, getaddrinfo, socket, set_v6only, bind, close}
use wlr_remote.System.Env.{Env}
use wlr_remote.System.Descriptors.{live, no_sockets, SocketLaws}
use wlr_remote.Network.Sockets.{
  Kept, port_str, bind_and_keep, restrict_and_bind, try_address, try_addresses, setup_resolved,
  net_setup_udp_sockets,
}

-- How far a descriptor has come.
pub data Stage : Type 0 where
  absent : Stage
  opened : Family → Stage
  v6_restricted : Stage
  ready_v4 ready_v6 ready_other : Stage

abbrev restrict : Stage → Stage
restrict (opened inet6) = v6_restricted
restrict s = s

-- By the family of the address that is bound.
abbrev bind_stage : Family → Stage → Stage
bind_stage inet (opened inet) = ready_v4
bind_stage inet6 v6_restricted = ready_v6
bind_stage f s = ready_other

-- What POSIX says of `getaddrinfo`: the address of an entry has the family of the entry.
pub record ResolvedLaws (env : Env) : Type 0 where
  pub same_family :
      (t : Trace) (service : Bytes) (infos : List AddrInfo)
      → env.getaddrinfo t service ≡ resolved infos
      → All (λ info. info.addr.family ≡ info.family) infos

-- The stage of `fd` after a trace.
abbrev pub stage : ℤ → Trace → Stage
stage fd [] = absent
stage fd (socket f s p r ∷ t) = if eq_ℤ r fd && not (is_neg r) then opened f else stage fd t
stage fd (set_v6only s r ∷ t) =
    if eq_ℤ s fd && not (is_neg r) then restrict (stage fd t) else stage fd t
stage fd (bind s addr r ∷ t) =
    if eq_ℤ s fd && not (is_neg r) then bind_stage addr.family (stage fd t) else stage fd t
stage fd (close s ∷ t) = if eq_ℤ s fd then absent else stage fd t
stage fd (_ ∷ t) = stage fd t

-- The stage of a socket in the struct, or `fallback` for one that is missing.
abbrev pub stage_or : Stage → ℤ → Trace → Stage
stage_or fallback fd t = if is_fd fd then stage fd t else fallback

-- Each socket in the struct is open and ready for its family.
pub record IsReady (socks : Sockets) (t : Trace) : Type 0 where
  pub v4_ready : stage_or ready_v4 socks.v4 t ≡ ready_v4
  pub v6_ready : stage_or ready_v6 socks.v6 t ≡ ready_v6

-- With that, that it is open at all.
record Inv (socks : Sockets) (t : Trace) : Type 0 where
  ready : IsReady socks t
  v4_live : is_fd socks.v4 ≡ true → 1 ≤ live socks.v4 t
  v6_live : is_fd socks.v6 ≡ true → 1 ≤ live socks.v6 t

-- `sock` is a socket of the round that goes on, and none of those kept.
record IsNew (sock : ℤ) (socks : Sockets) (t : Trace) : Type 0 where
  nonneg : is_neg sock ≡ false
  open_once : live sock t ≡ 1
  not_v4 : is_fd socks.v4 ≡ true → eq_ℤ sock socks.v4 ≡ false
  not_v6 : is_fd socks.v6 ≡ true → eq_ℤ sock socks.v6 ≡ false

-- What the round has done for `sock` before `bind`.
abbrev prepared : Family → Stage
prepared inet6 = v6_restricted
prepared f = opened f

module _ (env : Env) where
  bind_and_keep-Inv :
      (info : AddrInfo) (sock : ℤ) (kept : Kept) (t : Trace)
      → Inv kept.1 t
      → IsNew sock kept.1 t
      → stage sock t ≡ prepared info.family
      → info.addr.family ≡ info.family
      → let (kept', t') = bind_and_keep env info sock kept t in Inv kept'.1 t'
  unfolding bind_and_keep
  bind_and_keep-Inv info sock kept t inv new st same = ground arith

  restrict_and_bind-Inv :
      (info : AddrInfo) (sock : ℤ) (kept : Kept) (t : Trace)
      → Inv kept.1 t
      → IsNew sock kept.1 t
      → stage sock t ≡ opened info.family
      → info.addr.family ≡ info.family
      → let (kept', t') = restrict_and_bind env info sock kept t in Inv kept'.1 t'
  unfolding restrict_and_bind
  restrict_and_bind-Inv info sock kept t inv new st same = ground arith

module _ (env : Env) (laws : SocketLaws env) where
  fresh_ne :
      (info : AddrInfo) (fd : ℤ) (t : Trace)
      → is_neg (env.socket t info) ≡ false
      → 1 ≤ live fd t
      → eq_ℤ (env.socket t info) fd ≡ false
  fresh_ne info fd t h l = elim (Bool-cases (eq_ℤ (env.socket t info) fd)) [
    | inl e ↦
        let same = (eq_ℤ_iff (env.socket t info) fd).0 e in
        let closed : live fd t ≡ 0 = rw same at (laws.socket_fresh t info h) in absurd (omega arith)
    | inr e ↦ e
  ]

  module _ (info : AddrInfo) (socks : Sockets) (t : Trace) (inv : Inv socks t) where
    abbrev sock : ℤ
    sock = env.socket t info

    abbrev after_open : Trace
    after_open = socket info.family info.socktype info.protocol sock ∷ t

    opened-Inv : is_neg sock ≡ false → Inv socks after_open
    opened-Inv h = ground (arith, fresh_ne info socks.v4 t h, fresh_ne info socks.v6 t h)

    opened-IsNew : is_neg sock ≡ false → IsNew sock socks after_open
    opened-IsNew h = record {
      nonneg = h;
      open_once = ground (arith, laws.socket_fresh t info h);
      not_v4 = λ f. fresh_ne info socks.v4 t h (inv.v4_live f);
      not_v6 = λ f. fresh_ne info socks.v6 t h (inv.v6_live f);
    }

    opened-stage : is_neg sock ≡ false → stage sock after_open ≡ opened info.family
    opened-stage h = ground arith

  try_address-Inv :
      (info : AddrInfo) (kept : Kept) (t : Trace)
      → Inv kept.1 t
      → info.addr.family ≡ info.family
      → let (kept', t') = try_address env info kept t in Inv kept'.1 t'
  unfolding try_address
  try_address-Inv info kept t inv same = elim (Bool-cases (is_neg (env.socket t info))) [
    | inl failed ↦ rw failed (ground arith)
    | inr fine ↦ rw fine (
        restrict_and_bind-Inv env info (env.socket t info) kept
          (socket info.family info.socktype info.protocol (env.socket t info) ∷ t)
          (opened-Inv info kept.1 t inv fine) (opened-IsNew info kept.1 t inv fine)
          (opened-stage info kept.1 t inv fine) same)
  ]

  try_addresses-Inv :
      (infos : List AddrInfo) (kept : Kept) (t : Trace)
      → Inv kept.1 t
      → All (λ info. info.addr.family ≡ info.family) infos
      → let (kept', t') = try_addresses env infos kept t in Inv kept'.1 t'
  unfolding try_addresses
  try_addresses-Inv [] kept t h same = h
  try_addresses-Inv (info ∷ rest) kept t h (same, more_same) = elim (Bool-cases (ltb kept.0 2)) [
    | inl more ↦
        let (kept', t') = try_address env info kept t in
        rw more (try_addresses-Inv rest kept' t' (try_address-Inv info kept t h same) more_same)
    | inr full ↦ rw full h
  ]

  setup_resolved-IsReady :
      (port : Bytes) (found : Resolved) (t : Trace)
      → ((infos : List AddrInfo)
          → found ≡ resolved infos
          → All (λ info. info.addr.family ≡ info.family) infos)
      → let ((result, socks), t') = setup_resolved env port no_sockets found t in IsReady socks t'
  unfolding setup_resolved
  setup_resolved-IsReady port (gai_failed code) t same = ground arith
  setup_resolved-IsReady port (resolved infos) t same =
      let all = same infos refl in
      let empty : Inv no_sockets t = ground arith in
      ground (arith, try_addresses-Inv infos (0, no_sockets) t empty all)

  -- The kernel giving out only closed descriptors, `getaddrinfo` reporting addresses of the family
  -- it names, and the struct being empty before: a socket that is returned for IPv4 was opened for
  -- IPv4 and bound to an IPv4 address, and one for IPv6 was opened for IPv6 and bound to an IPv6
  -- address after IPV6_V6ONLY was set.
  pub net_setup_udp_sockets-IsReady :
      ResolvedLaws env
      → (port : ℕ) (t : Trace)
      → let ((result, socks), t') = net_setup_udp_sockets env no_sockets port t in IsReady socks t'
  unfolding net_setup_udp_sockets
  net_setup_udp_sockets-IsReady names port t =
      let name = port_str port in
      let found = env.getaddrinfo t name in
      setup_resolved-IsReady name found (getaddrinfo name found ∷ t) (names.same_family t name)
