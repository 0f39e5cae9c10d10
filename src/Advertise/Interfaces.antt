-- ===== src/Advertise/Interfaces.antt =====
-- src/advertise.c, `get_interfaces` and `create_mdns_sockets`.
pub mod First
use wlr_remote.Base.{
  ℕ, Bool, true, false, not, ◌&&◌, ◌||◌, Option, none, some, List, [], ◌∷◌, if◌then◌else◌, ⊤, ℤ,
  minus_one, is_fd,
}
use wlr_remote.Libc.ByteOrder.{htons}
use wlr_remote.Pointer.{codes}
use wlr_remote.System.Types.{IfAddr, SockAddr, Sockets, inet, inet6, is_inet, is_inet6}
use wlr_remote.System.Event.{getifaddrs, freeifaddrs, mdns_open, perror}
use wlr_remote.System.Env.{Env}
use wlr_remote.System.Monad.{M, pure, perform, emit, print, ◌>>=◌, ◌>>◌}
use wlr_remote.Advertise.Types.{InterfaceAddrs}

-- The bits BIT_IPV4_FOUND and BIT_IPV6_FOUND of `found`.
pub record Found : Type 0 where
  pub v4 : Bool
  pub v6 : Bool

abbrev pub none_found : Found
none_found = record { v4 = false; v6 = false }

-- An interface that is up and multicast, and neither the loopback nor point-to-point.
abbrev pub is_usable : IfAddr → Bool
is_usable ifa = ifa.up && ifa.multicast && not ifa.loopback && not ifa.point_to_point

module _ (env : Env) where
  -- The tests on an address of a usable interface.
  unfoldable pub take_address : SockAddr → InterfaceAddrs × Found → InterfaceAddrs × Found
  take_address sa (addrs, found) =
      if is_inet sa.family
      then (if not found.v4
          then (record addrs { v4 = sa }, record found { v4 = true })
          else (addrs, found))
      else if is_inet6 sa.family
      then (if not found.v6 && not (env.is_linklocal sa) && not (env.is_v4mapped sa)
          then (record addrs { v6 = sa }, record found { v6 = true })
          else (addrs, found))
      else (addrs, found)

  -- The body of the loop.
  unfoldable pub visit : IfAddr → InterfaceAddrs × Found → InterfaceAddrs × Found
  visit ifa state = elim ifa.addr [
    | none ↦ state
    | some sa ↦ if is_usable ifa then take_address sa state else state
  ]

  unfoldable pub visit_all : List IfAddr → InterfaceAddrs × Found → InterfaceAddrs × Found
  visit_all [] state = state
  visit_all (ifa ∷ rest) state =
      if state.1.v4 && state.1.v6 then state else visit_all rest (visit ifa state)

  interfaces_of : InterfaceAddrs → Option (List IfAddr) → M (InterfaceAddrs × Found)
  interfaces_of addrs none = do print (perror (codes "getifaddrs")); pure (addrs, none_found)
  interfaces_of addrs (some ifaddr) = do
    emit freeifaddrs
    pure (visit_all ifaddr (addrs, none_found))

  unfoldable pub get_interfaces : InterfaceAddrs → M (InterfaceAddrs × Found)
  unfolding interfaces_of
  get_interfaces addrs t =
      interfaces_of addrs (env.getifaddrs t) (getifaddrs (env.getifaddrs t) ∷ t)

  -- `htons (MDNS_PORT)`.
  abbrev pub mdns_port : ℕ
  mdns_port = htons env.host_order 5353

  unfoldable pub open_v4 : Bool → SockAddr → ℤ → M ℤ
  open_v4 wanted addr sock =
      if wanted then perform (λ t. env.mdns_open_ipv4 t addr) (mdns_open inet) else pure sock

  unfoldable pub open_v6 : Bool → SockAddr → ℤ → M ℤ
  open_v6 wanted addr sock =
      if wanted then perform (λ t. env.mdns_open_ipv6 t addr) (mdns_open inet6) else pure sock

  abbrev pub with_port : Bool → SockAddr → SockAddr
  with_port wanted addr = if wanted then record addr { port = mdns_port } else addr

  -- The two structs come back as the C function leaves them.
  unfoldable pub create_mdns_sockets :
      Sockets → InterfaceAddrs → Found → M (Bool × Sockets × InterfaceAddrs)
  create_mdns_sockets socks addrs found =
      let addrs' : InterfaceAddrs = record {
        v4 = with_port found.v4 addrs.v4;
        v6 = with_port found.v6 addrs.v6;
      } in
      do
        v4 ← open_v4 found.v4 addrs'.v4 socks.v4
        v6 ← open_v6 found.v6 addrs'.v6 socks.v6
        pure ((found.v4 && is_fd v4) || (found.v6 && is_fd v6), record { v4 = v4; v6 = v6 }, addrs')
