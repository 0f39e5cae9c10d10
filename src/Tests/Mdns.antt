-- ===== src/Tests/Mdns.antt =====
-- The mDNS service.
use wlr_remote.Base.{
  Bytes, ◌++◌, sym, arith, Bool, true, false, some, ◌==◌, ◌≡◌, ◌≤◌, refl, none, [], ◌∷◌, length,
  pos,
}
use wlr_remote.Pointer.{codes}
use wlr_remote.System.Types.{MdnsString, Query, question, allocated}
use wlr_remote.Advertise.Types.{Service, new_service, zero_addr, InterfaceAddrs, string_const}
use wlr_remote.Advertise.Interfaces.{get_interfaces}
use wlr_remote.Advertise.Interfaces.First.{
  first, is_found, found_or, is_reachable_v6, is_v4, get_interfaces-first,
}
use wlr_remote.Advertise.Records.{create_mdns_records, build_additional, recordtype_ptr}
use wlr_remote.Advertise.Records.Additional.{additional_capacity, build_additional-companions}
use wlr_remote.Advertise.Respond.{string_equals, strncmp_eq}
use wlr_remote.Advertise.Respond.Table.{answer_of}
use wlr_remote.Libc.Text.{strlen}
use wlr_remote.System.Event.{Trace}
use wlr_remote.Advertise.Strings.{
  create_service_strings, with_hostname, create_service_instance, create_qualified_hostname,
  allocate,
}
use wlr_remote.Advertise.Strings.Names.{HostnameLaws, IsNamed, create_service_strings-IsNamed}
use wlr_remote.Advertise.Service.{advertise_create_service}
use wlr_remote.System.Env.{Env}
use wlr_remote.Advertise.Service.{advertise_setup_epoll}
use wlr_remote.Advertise.Service.Held.{IsHolder}
use wlr_remote.Advertise.Service.Holder.{advertise_create_service-IsHolder}
use wlr_remote.Advertise.Service.Watched.{advertise_setup_epoll-watched}
use wlr_remote.Advertise.Respond.{advertise_respond_request}
use wlr_remote.Advertise.Respond.All.{all_sent, advertise_respond_request-all_sent}
use wlr_remote.Network.Epoll.{add_socket, epoll_ctl_add, watched, socket_list}
use wlr_remote.Tests.World.{peer, world, interfaces, any_v4}

abbrev no_addrs : InterfaceAddrs
no_addrs = record { v4 = zero_addr; v6 = zero_addr }

abbrev instance_name : MdnsString
instance_name = string_const (codes "desk._wlr-remote._udp.local.")

-- A service on one IPv4 address.
abbrev desk : Service
desk = record (new_service (allocated 1) 39076) {
  service_name = string_const (codes "_wlr-remote._udp.local.");
  hostname = string_const (codes "desk");
  service_instance = instance_name;
  qualified_hostname = string_const (codes "desk.local.");
  addrs = record { v4 = any_v4; v6 = zero_addr };
}

-- A question for all that there is about the instance.
abbrev about_instance : Query
about_instance = record {
  entry = question;
  from = peer;
  query_id = 0;
  rtype = 255;
  rclass = 32769;
  payload = instance_name.text;
  name_offset = 0;
}

get_interfaces-first_example : (get_interfaces world no_addrs []).0 ≡ (
  record {
    v4 = found_or (first (is_v4 world) interfaces) zero_addr;
    v6 = found_or (first (is_reachable_v6 world) interfaces) zero_addr;
  },
  record {
    v4 = is_found (first (is_v4 world) interfaces);
    v6 = is_found (first (is_reachable_v6 world) interfaces);
  },
)
get_interfaces-first_example = get_interfaces-first world interfaces no_addrs [] refl

build_additional-companions_example :
    (build_additional desk recordtype_ptr []
      ≡ (desk.record_srv ∷ desk.record_a ∷ desk.record_txt ∷ [], []))
    × (length (build_additional desk recordtype_ptr []).0 ≤ additional_capacity)
build_additional-companions_example = build_additional-companions desk recordtype_ptr []

-- The instance's question is answered with its SRV record and two more.
abbrev answered : Bool
answered = elim (answer_of world desk (pos 4) about_instance []) [
  | none ↦ false
  | some r ↦ length r.1 == 2
]

answered_runs : answered ≡ true
unfolding string_equals strncmp_eq create_mdns_records
answered_runs = refl

world-HostnameLaws : HostnameLaws world
unfolding strlen
world-HostnameLaws = record {
  hostname_fits =
      λ t h e. let same : codes "desk" ++ 0 ∷ [] ≡ h = cc in rw (sym same) (omega arith);
}

strings_made : (create_service_strings world desk []).0.0 ≡ true
unfolding create_service_strings with_hostname create_service_instance create_qualified_hostname
    allocate
strings_made = refl

create_service_strings-IsNamed_example :
    (u : Trace) × (h : Bytes) × (world.gethostname u ≡ some h)
    × IsNamed h (create_service_strings world desk []).0.1
create_service_strings-IsNamed_example =
    create_service_strings-IsNamed world world-HostnameLaws desk [] strings_made

advertise_create_service-IsHolder_example : IsHolder 3 [] (advertise_create_service world 39076 [])
advertise_create_service-IsHolder_example = advertise_create_service-IsHolder 3 world 39076 []

-- A peer has asked about the instance twice.
abbrev asking : Env
asking = record world { mdns_queries = λ t fd buffer size. about_instance ∷ about_instance ∷ [] }

advertise_respond_request-all_sent_example :
    (advertise_respond_request asking (create_mdns_records desk) (pos 4) []).1
    ≡ all_sent asking desk (pos 4) (about_instance ∷ about_instance ∷ []) []
advertise_respond_request-all_sent_example =
    advertise_respond_request-all_sent asking desk (pos 4) []

-- The service with both of its sockets.
abbrev desk_open : Service
desk_open = record desk { socks = record { v4 = pos 4; v6 = pos 5 } }

desk_added : (advertise_setup_epoll world desk_open (pos 3) []).0 ≡ true
unfolding advertise_setup_epoll add_socket epoll_ctl_add
desk_added = refl

desk_watched :
    watched (pos 3) (advertise_setup_epoll world desk_open (pos 3) []).1
    ≡ socket_list (pos 5) ++ (socket_list (pos 4) ++ [])
desk_watched = advertise_setup_epoll-watched world desk_open (pos 3) [] desk_added
