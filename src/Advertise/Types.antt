-- ===== src/Advertise/Types.antt =====
-- src/advertise.h: the state of the service, and the constants.
use wlr_remote.Base.{ℕ, Bytes, [], length, ◌+◌}
use wlr_remote.Pointer.{codes}
use wlr_remote.System.Types.{
  SockAddr, unspec, MdnsString, MdnsRecord, RecordData, Sockets, Pointer, null, static_memory,
}
use wlr_remote.System.Descriptors.{no_sockets}

-- SERVICE_NAME, QUALIFIED_SUFFIX and DNS_SD_SERVICE_INSTANCE, without their terminators.
abbrev pub service_name : Bytes
service_name = codes "_wlr-remote._udp.local."

abbrev pub qualified_suffix : Bytes
qualified_suffix = codes ".local."

abbrev pub dns_sd_service_instance : Bytes
dns_sd_service_instance = codes "_services._dns-sd._udp.local."

-- `sizeof` of a string literal counts its terminator.
abbrev pub sizeof_literal : Bytes → ℕ
sizeof_literal s = length s + 1

abbrev pub advertise_buffer_capacity : ℕ
advertise_buffer_capacity = 2048

pub record InterfaceAddrs : Type 0 where
  pub v4 : SockAddr
  pub v6 : SockAddr

-- `advertise_service_t`; `self` is the pointer to it.
pub record Service : Type 0 where
  pub self : Pointer
  pub service_name : MdnsString
  pub hostname : MdnsString
  pub service_instance : MdnsString
  pub qualified_hostname : MdnsString
  pub addrs : InterfaceAddrs
  pub socks : Sockets
  pub port : ℕ
  pub record_ptr : MdnsRecord
  pub record_srv : MdnsRecord
  pub record_a : MdnsRecord
  pub record_aaaa : MdnsRecord
  pub record_txt : MdnsRecord
  pub buffer : Pointer

-- Values of zeroed memory.
abbrev pub zero_addr : SockAddr
zero_addr = record { family = unspec; port = 0; host = [] }

abbrev pub zero_string : MdnsString
zero_string = record { str = null; text = []; length = 0 }

abbrev pub zero_record : MdnsRecord
zero_record = record {
  name = zero_string;
  type = 0;
  payload = RecordData.ptr zero_string;
  rclass = 0;
  ttl = 0;
}

-- The memory of a new service, once the port and the two sockets are set.
abbrev pub new_service : Pointer → ℕ → Service
new_service self port = record {
  self = self;
  service_name = zero_string;
  hostname = zero_string;
  service_instance = zero_string;
  qualified_hostname = zero_string;
  addrs = record { v4 = zero_addr; v6 = zero_addr };
  socks = no_sockets;
  port = port;
  record_ptr = zero_record;
  record_srv = zero_record;
  record_a = zero_record;
  record_aaaa = zero_record;
  record_txt = zero_record;
  buffer = null;
}

-- MDNS_STRING_CONST.
abbrev pub string_const : Bytes → MdnsString
string_const s = record { str = static_memory; text = s; length = length s }
