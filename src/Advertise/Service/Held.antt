-- ===== src/Advertise/Service/Held.antt =====
-- src/advertise.c: what `advertise_create_service` holds while it makes a service, from the end of it
-- up to its strings: the descriptors and the blocks that the service names.
use wlr_remote.Base.{
  ℕ, ◌+◌, ◌-◌, ◌≡◌, refl, ap, sym, ◌∙◌, arith, true, Option, Bool-cases, ◌∷◌, inl, inr, pos,
}
use wlr_remote.System.Types.{Sockets, Pointer, null, static_memory, allocated, is_null}
use wlr_remote.System.Event.{Trace, log, no_mdns_strings}
use wlr_remote.System.Env.{Env}
use wlr_remote.System.Descriptors.{live, holds, no_sockets}
use wlr_remote.System.Ledger.{points, heap, epoll_sets, faults, ledger}
use wlr_remote.Advertise.Types.{advertise_buffer_capacity, Service, InterfaceAddrs}
use wlr_remote.Advertise.Strings.{
  allocate, create_qualified_hostname, create_service_instance, with_hostname,
  create_service_strings,
}
use wlr_remote.Advertise.Records.{create_mdns_records}
use wlr_remote.Advertise.Service.{
  close_mdns_socket, destroy_service, err_free_service, create_buffer, create_strings,
}
use wlr_remote.Advertise.Service.Blocks.{
  owns, owned, service_holds, IsFresh, destroy_service-heap, destroy_service-faults, allocate-heap,
  create_service_strings-IsBalanced,
}

pub IsFresh-updated :
    (s : Service) (socks : Sockets) (addrs : InterfaceAddrs)
    → IsFresh s
    → IsFresh (record s { socks = socks; addrs = addrs })
IsFresh-updated s socks addrs h = record {
  no_hostname = h.no_hostname;
  no_instance = h.no_instance;
  no_qualified = h.no_qualified;
  no_buffer = h.no_buffer;
}

module _ (n : ℕ) where
  -- Since `t0`, the descriptor and the block that have the number `n` were taken as often as the
  -- service names them; nothing was given back that was not there, and no epoll set was made.
  pub record Holds (t0 : Trace) (s : Service) (t : Trace) : Type 0 where
    pub opened : live (pos n) t ≡ live (pos n) t0 + holds (pos n) s.socks
    pub taken : heap n t ≡ heap n t0 + owns n s
    pub same_sets : epoll_sets (pos n) t ≡ epoll_sets (pos n) t0
    pub no_fault : faults n t ≡ faults n t0

  -- How often a service names the descriptor and the block.
  abbrev named : Service → ℕ × ℕ
  named s = (holds (pos n) s.socks, owns n s)

  pub Holds-same :
      (t0 : Trace) (s s' : Service) (t t' : Trace)
      → named s' ≡ named s
      → ledger n t' ≡ ledger n t
      → Holds t0 s t
      → Holds t0 s' t'
  Holds-same t0 s s' t t' same_names same h = record {
    opened = ap (λ x. x.0) same ∙ (h.opened ∙ ap (λ x. live (pos n) t0 + x.0) (sym same_names));
    taken = ap (λ x. x.1) same ∙ (h.taken ∙ ap (λ x. heap n t0 + x.1) (sym same_names));
    same_sets = ap (λ x. x.2) same ∙ h.same_sets;
    no_fault = ap (λ x. x.3) same ∙ h.no_fault;
  }

  -- The same of the service that a step returns, or none.
  pub record IsHolder (t0 : Trace) (c : Option Service × Trace) : Type 0 where
    pub opened : live (pos n) c.1 ≡ live (pos n) t0 + service_holds (pos n) c.0
    pub taken : heap n c.1 ≡ heap n t0 + owned n c.0
    pub same_sets : epoll_sets (pos n) c.1 ≡ epoll_sets (pos n) t0
    pub no_fault : faults n c.1 ≡ faults n t0

  destroy_service-closes :
      (s : Service) (t : Trace)
      → let u = (destroy_service s t).1 in
        (live (pos n) u ≡ live (pos n) t - holds (pos n) s.socks)
        × (epoll_sets (pos n) u ≡ epoll_sets (pos n) t)
  unfolding destroy_service close_mdns_socket
  destroy_service-closes s t = ground arith

  pub none_held : holds (pos n) no_sockets ≡ 0
  none_held = ground arith

  pub points_null : (q : Pointer) → is_null q ≡ true → points q n ≡ 0
  points_null null h = refl
  points_null static_memory h = refl
  points_null (allocated m) h = cc

  module _ (env : Env) (t0 : Trace) where
    pub err_free_service-IsHolder :
        (s : Service) (t : Trace) → Holds t0 s t → IsHolder t0 (err_free_service env s t)
    unfolding err_free_service
    err_free_service-IsHolder s t h =
        let (closed, sets) = destroy_service-closes s t in
        record {
          opened = omega (arith, closed, h.opened);
          taken = omega (arith, destroy_service-heap n s t, h.taken);
          same_sets = sets ∙ h.same_sets;
          no_fault = omega (arith, destroy_service-faults n s t, h.opened, h.taken, h.no_fault);
        }

    create_buffer-IsHolder :
        (s : Service) (t : Trace)
        → s.buffer ≡ null
        → Holds t0 s t
        → IsHolder t0 (create_buffer env s t)
    unfolding create_buffer
    create_buffer-IsHolder s t e h =
        let (buffer, u) = allocate env advertise_buffer_capacity t in
        let s' : Service = record s { buffer = buffer } in
        let at_u : Holds t0 s' u = record {
          opened = unfold allocate in h.opened;
          taken = omega (
            arith,
            allocate-heap n env advertise_buffer_capacity t,
            h.taken,
            ap (λ q. points q n) e,
          );
          same_sets = unfold allocate in h.same_sets;
          no_fault = unfold allocate in h.no_fault;
        } in
        elim (Bool-cases (is_null buffer)) [
          | inl failed ↦ rw (failed, create_buffer) (err_free_service-IsHolder s' u at_u)
          | inr fine ↦
              rw (fine, create_buffer)
                (record {
                  opened = at_u.opened;
                  taken = at_u.taken;
                  same_sets = at_u.same_sets;
                  no_fault = at_u.no_fault;
                })
        ]

    create_service_strings-held :
        (s : Service) (t : Trace)
        → let ((made, s'), u) = create_service_strings env s t in
          (live (pos n) u ≡ live (pos n) t)
          × (epoll_sets (pos n) u ≡ epoll_sets (pos n) t)
          × (faults n u ≡ faults n t)
          × (s'.socks ≡ s.socks)
    unfolding create_service_strings with_hostname create_service_instance allocate
        create_qualified_hostname
    create_service_strings-held s t = ground arith

    pub create_strings-IsHolder :
        (s : Service) (t : Trace) → IsFresh s → Holds t0 s t → IsHolder t0 (create_strings env s t)
    unfolding create_strings create_mdns_records
    create_strings-IsHolder s t fresh h =
        let (made, u) = create_service_strings env s t in
        let (balanced, same_buffer) = create_service_strings-IsBalanced n env s t fresh in
        let (same_live, sets, no_fault, socks) = create_service_strings-held s t in
        let at_u : Holds t0 made.1 u = record {
          opened = same_live ∙ (h.opened ∙ ap (λ x. live (pos n) t0 + holds (pos n) x) (sym socks));
          taken = omega (arith, balanced, h.taken);
          same_sets = sets ∙ h.same_sets;
          no_fault = no_fault ∙ h.no_fault;
        } in
        elim (Bool-cases made.0) [
          | inl done ↦
              rw (done, create_strings)
                (create_buffer-IsHolder (create_mdns_records made.1) u
                  (same_buffer ∙ fresh.no_buffer)
                  (Holds-same t0 made.1 (create_mdns_records made.1) u u refl refl at_u))
          | inr failed ↦
              rw (failed, create_strings)
                (err_free_service-IsHolder made.1 (log no_mdns_strings ∷ u)
                  (Holds-same t0 made.1 made.1 u (log no_mdns_strings ∷ u) refl refl at_u))
        ]
