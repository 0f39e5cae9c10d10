-- ===== src/Advertise/Service/Holder.antt =====
-- src/advertise.c, `advertise_create_service`: the descriptors and the blocks of memory that are
-- taken belong to the service that is returned, or have been given back.
use wlr_remote.Base.{ℕ, ◌+◌, ◌≡◌, refl, ap, ◌∙◌, arith, Bool-cases, ◌∷◌, ◌||◌, inl, inr, pos}
use wlr_remote.System.Types.{Sockets, is_null}
use wlr_remote.System.Event.{Trace, log, no_mdns_socket, no_interface}
use wlr_remote.System.Env.{Env}
use wlr_remote.System.Descriptors.{live, holds, no_sockets}
use wlr_remote.System.Ledger.{heap, epoll_sets, faults, ledger}
use wlr_remote.Advertise.Types.{Service, InterfaceAddrs, new_service}
use wlr_remote.Advertise.Interfaces.{Found, get_interfaces, create_mdns_sockets, open_v4, open_v6}
use wlr_remote.Advertise.Strings.{allocate}
use wlr_remote.Advertise.Service.{create_sockets, find_interfaces, advertise_create_service}
use wlr_remote.Advertise.Service.Blocks.{IsFresh, allocate-heap}
use wlr_remote.Advertise.Service.Held.{
  IsFresh-updated, Holds, Holds-same, IsHolder, none_held, points_null, err_free_service-IsHolder,
  create_strings-IsHolder,
}

module _ (n : ℕ) where
  module _ (env : Env) (t0 : Trace) where
    create_mdns_sockets-opened :
        (old : Sockets) (addrs : InterfaceAddrs) (found : Found) (t : Trace)
        → old ≡ no_sockets
        → let ((made, socks, addrs'), u) = create_mdns_sockets env old addrs found t in
          (live (pos n) u ≡ live (pos n) t + holds (pos n) socks)
          × (epoll_sets (pos n) u ≡ epoll_sets (pos n) t)
          × (heap n u ≡ heap n t)
          × (faults n u ≡ faults n t)
    unfolding create_mdns_sockets open_v4 open_v6
    create_mdns_sockets-opened old addrs found t e = rw e (ground arith)

    create_sockets-IsHolder :
        (s : Service) (found : Found) (t : Trace)
        → s.socks ≡ no_sockets
        → IsFresh s
        → Holds n t0 s t
        → IsHolder n t0 (create_sockets env s found t)
    unfolding create_sockets
    create_sockets-IsHolder s found t e fresh h =
        let (made, u) = create_mdns_sockets env s.socks s.addrs found t in
        let s' : Service = record s { socks = made.1; addrs = made.2 } in
        let fresh' = IsFresh-updated s made.1 made.2 fresh in
        let (opened, sets, same_heap, no_fault) =
          create_mdns_sockets-opened s.socks s.addrs found t e in
        let before : live (pos n) t ≡ live (pos n) t0 =
          omega (arith, h.opened, ap (λ x. holds (pos n) x) e, none_held n) in
        let at_u : Holds n t0 s' u = record {
          opened = omega (arith, opened, before);
          taken = same_heap ∙ h.taken;
          same_sets = sets ∙ h.same_sets;
          no_fault = no_fault ∙ h.no_fault;
        } in
        elim (Bool-cases made.0) [
          | inl done ↦ rw (done, create_sockets) (create_strings-IsHolder n env t0 s' u fresh' at_u)
          | inr failed ↦
              rw (failed, create_sockets)
                (err_free_service-IsHolder n env t0 s' (log no_mdns_socket ∷ u)
                  (Holds-same n t0 s' s' u (log no_mdns_socket ∷ u) refl refl at_u))
        ]

    get_interfaces-held :
        (addrs : InterfaceAddrs) (t : Trace) → ledger n (get_interfaces env addrs t).1 ≡ ledger n t
    unfolding get_interfaces
    get_interfaces-held addrs t = ground arith

    find_interfaces-IsHolder :
        (s : Service) (t : Trace)
        → s.socks ≡ no_sockets
        → IsFresh s
        → Holds n t0 s t
        → IsHolder n t0 (find_interfaces env s t)
    unfolding find_interfaces
    find_interfaces-IsHolder s t e fresh h =
        let (found, u) = get_interfaces env s.addrs t in
        let s' : Service = record s { addrs = found.0 } in
        let fresh' = IsFresh-updated s s.socks found.0 fresh in
        let at_u = Holds-same n t0 s s' t u refl (get_interfaces-held s.addrs t) h in
        elim (Bool-cases (found.1.v4 || found.1.v6)) [
          | inl some_found ↦
              rw (some_found, find_interfaces) (create_sockets-IsHolder s' found.1 u e fresh' at_u)
          | inr none_found ↦
              rw (none_found, find_interfaces)
                (err_free_service-IsHolder n env t0 s' (log no_interface ∷ u)
                  (Holds-same n t0 s' s' u (log no_interface ∷ u) refl refl at_u))
        ]

  -- For every number: the descriptor is open, and the block allocated, as often as before, and once
  -- more for each place in the service that names it, if one is made; a failure at any point leaves
  -- nothing behind, and nothing is closed or freed that is not there.
  pub advertise_create_service-IsHolder :
      (env : Env) (port : ℕ) (t : Trace) → IsHolder n t (advertise_create_service env port t)
  unfolding advertise_create_service
  advertise_create_service-IsHolder env port t =
      let (self, u) = allocate env env.sizeof_service t in
      let made = allocate-heap n env env.sizeof_service t in
      let fresh : IsFresh (new_service self port) = record {
        no_hostname = refl;
        no_instance = refl;
        no_qualified = refl;
        no_buffer = refl;
      } in
      let at_u : Holds n t (new_service self port) u = record {
        opened = unfold allocate in ground arith;
        taken = omega (arith, made);
        same_sets = unfold allocate in refl;
        no_fault = unfold allocate in refl;
      } in
      elim (Bool-cases (is_null self)) [
        | inl failed ↦
            rw (failed, advertise_create_service)
              (record {
                opened = unfold allocate in omega arith;
                taken = omega (arith, made, points_null n self failed);
                same_sets = unfold allocate in refl;
                no_fault = unfold allocate in refl;
              })
        | inr fine ↦
            rw (fine, advertise_create_service)
              (find_interfaces-IsHolder env t (new_service self port) u refl fresh at_u)
      ]
