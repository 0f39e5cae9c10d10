-- ===== src/Main/Ends/Cleanup.antt =====
-- src/main.c: the labels give back what they are for.
use wlr_remote.Base.{ℕ, ◌+◌, ◌-◌, ◌≡◌, arith, Bool, Option, none, some, pos}
use wlr_remote.System.Types.{ClientState}
use wlr_remote.System.Event.{Trace}
use wlr_remote.System.Descriptors.{live, holds}
use wlr_remote.System.Objects.{objects}
use wlr_remote.System.Ledger.{heap, epoll_sets, ledger, faults}
use wlr_remote.Advertise.Service.Blocks.{service_holds}
use wlr_remote.Advertise.Service.Blocks.{owns}
use wlr_remote.Advertise.Service.Blocks.{owned}
use wlr_remote.Advertise.Service.Blocks.{destroy_service-heap}
use wlr_remote.Advertise.Service.Blocks.{destroy_service-faults}
use wlr_remote.Advertise.Service.Blocks.{shortfall}
use wlr_remote.System.Descriptors.{mark}
use wlr_remote.System.Types.{Sockets}
use wlr_remote.Base.{is_fd, ◌∙◌}
use wlr_remote.System.Monad.{when, emit}
use wlr_remote.System.Event.{close}
use wlr_remote.System.Env.{Env}
use wlr_remote.Base.{ap}
use wlr_remote.Network.Callbacks.{free_context}
use wlr_remote.Network.Callbacks.Calm.{free_context-held}
use wlr_remote.Advertise.Types.{Service}
use wlr_remote.Advertise.Records.{build_additional}
use wlr_remote.Advertise.Service.{
  close_mdns_socket, destroy_service, advertise_announce, advertise_announce_goodbye,
}
use wlr_remote.Main.Cleanup.{
  stop_service, err_free_all, err_free_virtual_pointer, err_free_registry,
}

module _ (n : ℕ) where
  goodbye-held :
      (s : Service) (t : Trace)
      → let u = (advertise_announce_goodbye s t).1 in
        (objects u ≡ objects t) × (ledger n u ≡ ledger n t)
  unfolding advertise_announce_goodbye advertise_announce build_additional
  goodbye-held s t = ground arith

  destroy_service-closes :
      (s : Service) (t : Trace)
      → let u = (destroy_service s t).1 in
        (objects u ≡ objects t)
        × (live (pos n) u ≡ live (pos n) t - holds (pos n) s.socks)
        × (epoll_sets (pos n) u ≡ epoll_sets (pos n) t)
  unfolding destroy_service close_mdns_socket
  destroy_service-closes s t = ground arith

  destroy_service-live :
      (s : Service) (t : Trace)
      → let u = (destroy_service s t).1 in
        (objects u ≡ objects t)
        × (live (pos n) u ≡ live (pos n) t - holds (pos n) s.socks)
        × (heap n u ≡ heap n t - owns n s)
        × (epoll_sets (pos n) u ≡ epoll_sets (pos n) t)
        × (faults n u
            ≡ faults n t + (holds (pos n) s.socks - live (pos n) t) + (owns n s - heap n t))
  destroy_service-live s t =
      let (same, closed, sets) = destroy_service-closes s t in
      (same, closed, destroy_service-heap n s t, sets, destroy_service-faults n s t)

  -- By how much the service names more than there is.
  abbrev pub short : Option Service → Trace → ℕ
  short service t = (service_holds (pos n) service - live (pos n) t) + (owned n service - heap n t)

  stop_service-live :
      (service : Option Service) (t : Trace)
      → let u = (stop_service service t).1 in
        (objects u ≡ objects t)
        × (live (pos n) u ≡ live (pos n) t - service_holds (pos n) service)
        × (heap n u ≡ heap n t - owned n service)
        × (epoll_sets (pos n) u ≡ epoll_sets (pos n) t)
        × (faults n u ≡ faults n t + short service t)
  unfolding stop_service
  stop_service-live none t = ground arith
  stop_service-live (some s) t =
      let u = (advertise_announce_goodbye s t).1 in
      ground (arith, goodbye-held s t, destroy_service-live s u)

  -- With one of each object, none is left, and the descriptors that the service and the state name
  -- are closed, and the service's blocks are freed.
  pub err_free_all-live :
      (env : Env) (service : Option Service) (state : ClientState) (success : Bool) (t : Trace)
      → objects t ≡ (1, 1, 1, 1, 0)
      → let t' = (err_free_all env service state success t).1 in
        (objects t' ≡ (0, 0, 0, 0, 0))
        × (live (pos n) t'
            ≡ live (pos n) t - (service_holds (pos n) service + holds (pos n) state.socks))
        × (heap n t' ≡ heap n t - owned n service)
        × (epoll_sets (pos n) t' ≡ epoll_sets (pos n) t)
  unfolding err_free_all err_free_virtual_pointer err_free_registry
  err_free_all-live env service state success t h =
      let u = (stop_service service t).1 in
      ground (arith, stop_service-live service t, free_context-held n env state u)

  close_sockets-faults :
      (socks : Sockets) (t : Trace)
      → let u = (when (is_fd socks.v4) (emit (close socks.v4)) t).1 in
        faults n (when (is_fd socks.v6) (emit (close socks.v6)) u).1
        ≡ faults n t + (holds (pos n) socks - live (pos n) t)
  close_sockets-faults socks t =
      ground (arith, shortfall (mark socks.v4 (pos n)) (mark socks.v6 (pos n)) (live (pos n) t))

  -- What is closed is open, and what is freed is allocated, as far as the service and the state name
  -- no more than there is.
  pub err_free_all-faults :
      (env : Env) (service : Option Service) (state : ClientState) (success : Bool) (t : Trace)
      → faults n (err_free_all env service state success t).1
        ≡ faults n t
          + (service_holds (pos n) service + holds (pos n) state.socks - live (pos n) t)
          + (owned n service - heap n t)
  unfolding err_free_all err_free_virtual_pointer err_free_registry
  err_free_all-faults env service state success t =
      let u = (stop_service service t).1 in
      let (same, closed, freed, sets, fault) = stop_service-live service t in
      let held_after = free_context-held n env state u in
      let rest = close_sockets-faults state.socks (free_context env state u).1 in
      let both =
        shortfall (service_holds (pos n) service) (holds (pos n) state.socks) (live (pos n) t) in
      rest
      ∙ rw (ap (λ x. x.5) held_after, ap (λ x. x.2) held_after, fault, closed) (omega (arith, both))

pub err_free_virtual_pointer-objects :
    (state : ClientState) (success : Bool) (t : Trace)
    → objects t ≡ (0, 1, 1, 1, 0)
    → objects (err_free_virtual_pointer state success t).1 ≡ (0, 0, 0, 0, 0)
unfolding err_free_virtual_pointer err_free_registry
err_free_virtual_pointer-objects state success t h = ground arith

pub err_free_registry-objects :
    (success : Bool) (t : Trace)
    → objects t ≡ (0, 1, 1, 0, 0)
    → objects (err_free_registry success t).1 ≡ (0, 0, 0, 0, 0)
unfolding err_free_registry
err_free_registry-objects success t h = ground arith
