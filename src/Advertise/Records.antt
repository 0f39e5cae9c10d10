-- ===== src/Advertise/Records.antt =====
-- src/advertise.c, `create_mdns_records` and `build_additional`, with the constants of lib/mdns.h.
pub mod Additional
pub mod Own
use wlr_remote.Base.{ℕ, Bool, not, ◌&&◌, ◌||◌, List, [], ◌∷◌, ◌==◌, if◌then◌else◌}
use wlr_remote.System.Types.{MdnsRecord, RecordData, is_inet, is_inet6}
use wlr_remote.System.Event.{unexpected_type}
use wlr_remote.System.Monad.{M, pure, print, ◌>>◌}
use wlr_remote.Advertise.Types.{Service, string_const}

abbrev pub recordtype_a : ℕ
recordtype_a = 1

abbrev pub recordtype_ptr : ℕ
recordtype_ptr = 12

abbrev pub recordtype_txt : ℕ
recordtype_txt = 16

abbrev pub recordtype_aaaa : ℕ
recordtype_aaaa = 28

abbrev pub recordtype_srv : ℕ
recordtype_srv = 33

abbrev pub recordtype_any : ℕ
recordtype_any = 255

abbrev pub class_in : ℕ
class_in = 1

unfoldable pub create_mdns_records : Service → Service
create_mdns_records service = record service {
  record_ptr = record {
    name = service.service_name;
    type = recordtype_ptr;
    payload = RecordData.ptr service.service_instance;
    rclass = class_in;
    ttl = 4500;
  };
  record_srv = record {
    name = service.service_instance;
    type = recordtype_srv;
    payload = RecordData.srv 0 0 service.port service.qualified_hostname;
    rclass = class_in;
    ttl = 120;
  };
  record_a = record {
    name = service.qualified_hostname;
    type = recordtype_a;
    payload = RecordData.a service.addrs.v4;
    rclass = class_in;
    ttl = 120;
  };
  record_aaaa = record {
    name = service.qualified_hostname;
    type = recordtype_aaaa;
    payload = RecordData.aaaa service.addrs.v6;
    rclass = class_in;
    ttl = 120;
  };
  record_txt = record {
    name = service.service_instance;
    type = recordtype_txt;
    payload = RecordData.txt (string_const []);
    rclass = class_in;
    ttl = 120;
  };
}

-- The labels of the switch in `build_additional`: each falls through to the next.
unfoldable pub from_case_txt : Service → List MdnsRecord
from_case_txt service = service.record_txt ∷ []

unfoldable pub from_case_a : Service → ℕ → List MdnsRecord
from_case_a service type =
    if not (type == recordtype_aaaa) && is_inet6 service.addrs.v6.family
    then service.record_aaaa ∷ from_case_txt service
    else from_case_txt service

unfoldable pub from_case_srv : Service → ℕ → List MdnsRecord
from_case_srv service type =
    if is_inet service.addrs.v4.family
    then service.record_a ∷ from_case_a service type
    else from_case_a service type

-- The records written to the array; their number is what the C function returns.
unfoldable pub build_additional : Service → ℕ → M (List MdnsRecord)
build_additional service type =
    if type == recordtype_ptr
    then pure (service.record_srv ∷ from_case_srv service type)
    else if type == recordtype_srv || type == recordtype_aaaa
    then pure (from_case_srv service type)
    else if type == recordtype_a
    then pure (from_case_a service type)
    else if type == recordtype_txt
    then pure (from_case_txt service)
    else (do print unexpected_type; pure [])
