-- ===== src/Advertise/Service.antt =====
-- src/advertise.c: the life of the service: `advertise_create_service`, `advertise_setup_epoll`, the
-- two announcements and `advertise_destroy_service`.
pub mod Blocks
pub mod Heap
pub mod Held
pub mod Holder
pub mod Made
pub mod Own
pub mod Watched
use wlr_remote.Base.{
  ℕ, Bool, true, false, not, ◌&&◌, ◌||◌, Option, none, some, List, [], ◌∷◌, if◌then◌else◌, ⊤, ℤ,
  is_fd, is_neg,
}
use wlr_remote.Pointer.{codes}
use wlr_remote.System.Types.{Pointer, is_null, MdnsRecord, Sockets}
use wlr_remote.System.Event.{
  Event, free, mdns_close, mdns_announce, mdns_goodbye, perror, no_interface, no_mdns_socket,
  no_mdns_strings,
}
use wlr_remote.System.Env.{Env}
use wlr_remote.System.Monad.{M, pure, emit, print, skip, when, ◌>>=◌, ◌>>◌}
use wlr_remote.Network.Epoll.{add_socket}
use wlr_remote.Advertise.Types.{Service, InterfaceAddrs, new_service, advertise_buffer_capacity}
use wlr_remote.Advertise.Interfaces.{Found, get_interfaces, create_mdns_sockets}
use wlr_remote.Advertise.Strings.{allocate, create_service_strings}
use wlr_remote.Advertise.Records.{create_mdns_records, build_additional, recordtype_ptr}

unfoldable pub close_mdns_socket : ℤ → M ⊤
close_mdns_socket fd = when (is_fd fd) (emit (mdns_close fd))

-- The sockets are closed, and the five blocks freed.
unfoldable pub destroy_service : Service → M ⊤
destroy_service service = do
  close_mdns_socket service.socks.v4
  close_mdns_socket service.socks.v6
  emit (free service.hostname.str)
  emit (free service.service_instance.str)
  emit (free service.qualified_hostname.str)
  emit (free service.buffer)
  emit (free service.self)

-- `none` is a NULL pointer.
unfoldable pub advertise_destroy_service : Option Service → M ⊤
advertise_destroy_service none = skip
advertise_destroy_service (some service) = destroy_service service

-- `advertise_announce` with one of the two functions of lib/mdns.h.
unfoldable pub advertise_announce :
    (ℤ → Pointer → ℕ → MdnsRecord → List MdnsRecord → Event) → Service → M ⊤
advertise_announce callback service = do
  additional ← build_additional service recordtype_ptr
  when (is_fd service.socks.v4) (
      emit (
        callback service.socks.v4 service.buffer advertise_buffer_capacity service.record_ptr
          additional))
  when (is_fd service.socks.v6) (
      emit (
        callback service.socks.v6 service.buffer advertise_buffer_capacity service.record_ptr
          additional))

unfoldable pub advertise_announce_service : Service → M ⊤
advertise_announce_service = advertise_announce mdns_announce

unfoldable pub advertise_announce_goodbye : Service → M ⊤
advertise_announce_goodbye = advertise_announce mdns_goodbye

module _ (env : Env) where
  -- The label `err_free_service`.
  unfoldable pub err_free_service : Service → M (Option Service)
  err_free_service service = do destroy_service service; pure none

  -- From the buffer on.
  unfoldable pub create_buffer : Service → M (Option Service)
  create_buffer service = do
    buffer ← allocate env advertise_buffer_capacity
    if is_null buffer
        then err_free_service (record service { buffer = buffer })
        else pure (some (record service { buffer = buffer }))

  -- From the strings on.
  unfoldable pub create_strings : Service → M (Option Service)
  create_strings service = do
    made ← create_service_strings env service
    if made.0
        then create_buffer (create_mdns_records made.1)
        else (do print no_mdns_strings; err_free_service made.1)

  -- From the sockets on.
  unfoldable pub create_sockets : Service → Found → M (Option Service)
  create_sockets service found = do
    made ← create_mdns_sockets env service.socks service.addrs found
    let service' = record service { socks = made.1; addrs = made.2 }
    if made.0 then create_strings service' else (do print no_mdns_socket; err_free_service service')

  -- From the interfaces on.
  unfoldable pub find_interfaces : Service → M (Option Service)
  find_interfaces service = do
    found ← get_interfaces env service.addrs
    let service' = record service { addrs = found.0 }
    if found.1.v4 || found.1.v6
        then create_sockets service' found.1
        else (do print no_interface; err_free_service service')

  unfoldable pub advertise_create_service : ℕ → M (Option Service)
  advertise_create_service port = do
    self ← allocate env env.sizeof_service
    if is_null self then pure none else find_interfaces (new_service self port)

  -- `true` if all sockets that there are were added.
  unfoldable pub advertise_setup_epoll : Service → ℤ → M Bool
  advertise_setup_epoll service epoll_fd = do
    v4 ← add_socket env epoll_fd service.socks.v4
    if is_neg v4 then (do print (perror (codes "epoll_ctl")); pure false) else (do
      v6 ← add_socket env epoll_fd service.socks.v6
      if is_neg v6 then (do print (perror (codes "epoll_ctl")); pure false) else pure true)
