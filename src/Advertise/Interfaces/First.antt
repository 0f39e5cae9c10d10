-- ===== src/Advertise/Interfaces/First.antt =====
-- src/advertise.c, `get_interfaces`: the loop, with its early exit, finds the first usable address of
-- each family.
use wlr_remote.Base.{
  ◌≡◌, ◌∙◌, arith, Bool, true, false, not, ◌&&◌, Option, none, some, List, [], ◌∷◌, if◌then◌else◌,
  inl, inr, Bool-cases,
}
use wlr_remote.System.Types.{IfAddr, SockAddr, is_inet, is_inet6}
use wlr_remote.System.Event.{Trace}
use wlr_remote.System.Env.{Env}
use wlr_remote.Advertise.Types.{InterfaceAddrs}
use wlr_remote.Advertise.Interfaces.{
  Found, none_found, is_usable, take_address, visit, visit_all, get_interfaces,
}

-- The first address that passes a test, among those of the usable interfaces.
abbrev pub first : (SockAddr → Bool) → List IfAddr → Option SockAddr
first test [] = none
first test (ifa ∷ rest) = elim ifa.addr [
  | none ↦ first test rest
  | some sa ↦ if is_usable ifa && test sa then some sa else first test rest
]

abbrev pub is_found : Option SockAddr → Bool
is_found none = false
is_found (some sa) = true

abbrev pub found_or : Option SockAddr → SockAddr → SockAddr
found_or none sa = sa
found_or (some found) sa = found

module _ (env : Env) where
  -- An IPv6 address that others can reach: neither link-local nor an IPv4 address in disguise.
  abbrev pub is_reachable_v6 : SockAddr → Bool
  is_reachable_v6 sa = is_inet6 sa.family && not (env.is_linklocal sa) && not (env.is_v4mapped sa)

  abbrev pub is_v4 : SockAddr → Bool
  is_v4 sa = is_inet sa.family

  -- What the loop makes of a state, by the first addresses.
  abbrev merged : List IfAddr → InterfaceAddrs × Found → InterfaceAddrs × Found
  merged ifs (addrs, found) = (
    record {
      v4 = if found.v4 then addrs.v4 else found_or (first is_v4 ifs) addrs.v4;
      v6 = if found.v6 then addrs.v6 else found_or (first is_reachable_v6 ifs) addrs.v6;
    },
    record {
      v4 = if found.v4 then true else is_found (first is_v4 ifs);
      v6 = if found.v6 then true else is_found (first is_reachable_v6 ifs);
    },
  )

  merged-visit :
      (ifa : IfAddr) (rest : List IfAddr) (state : InterfaceAddrs × Found)
      → merged rest (visit env ifa state) ≡ merged (ifa ∷ rest) state
  unfolding visit take_address
  merged-visit ifa rest state = ground arith

  merged-full :
      (ifs : List IfAddr) (state : InterfaceAddrs × Found)
      → (state.1.v4 && state.1.v6) ≡ true
      → state ≡ merged ifs state
  merged-full ifs state h = ground arith

  visit_all-merged :
      (ifs : List IfAddr) (state : InterfaceAddrs × Found)
      → visit_all env ifs state ≡ merged ifs state
  unfolding visit_all
  visit_all-merged [] state = ground arith
  visit_all-merged (ifa ∷ rest) state = elim (Bool-cases (state.1.v4 && state.1.v6)) [
    | inl full ↦ rw (full, visit_all) (merged-full (ifa ∷ rest) state full)
    | inr more ↦
        rw (more, visit_all)
          (visit_all-merged rest (visit env ifa state) ∙ merged-visit ifa rest state)
  ]

  -- Where the interfaces can be listed, each of the two addresses is that of the first usable
  -- interface that has one of its family, the one for IPv6 within reach of others, and is left as
  -- it was if there is none; what is reported as found is exactly that.
  pub get_interfaces-first :
      (ifs : List IfAddr) (addrs : InterfaceAddrs) (t : Trace)
      → env.getifaddrs t ≡ some ifs
      → (get_interfaces env addrs t).0 ≡ (
        record {
          v4 = found_or (first is_v4 ifs) addrs.v4;
          v6 = found_or (first is_reachable_v6 ifs) addrs.v6;
        },
        record { v4 = is_found (first is_v4 ifs); v6 = is_found (first is_reachable_v6 ifs) },
      )
  unfolding get_interfaces
  get_interfaces-first ifs addrs t h = rw h (visit_all-merged ifs (addrs, none_found))
