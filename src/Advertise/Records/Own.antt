-- ===== src/Advertise/Records/Own.antt =====
-- src/advertise.c: the records that a service has, and so may tell.
use wlr_remote.Base.{
  ℕ, ◌≡◌, refl, ◌==◌, not, arith, Bool, true, false, ◌&&◌, List, [], All, All-append,
}
use wlr_remote.System.Types.{MdnsString, MdnsRecord, RecordData, is_inet, is_inet6}
use wlr_remote.Advertise.Types.{Service, string_const, dns_sd_service_instance}
use wlr_remote.Advertise.Records.{
  create_mdns_records, recordtype_a, recordtype_aaaa, recordtype_txt,
}
use wlr_remote.Advertise.Records.Additional.{companions, only_if}
use wlr_remote.Advertise.Respond.{string_equals}

-- A record of the class IN: its name, its type, what it says, and for how many seconds.
abbrev pub entry : MdnsString → ℕ → RecordData → ℕ → MdnsRecord
entry name type says seconds = record {
  name = name;
  type = type;
  payload = says;
  rclass = 1;
  ttl = seconds;
}

-- The service with the records by which DNS-SD finds it: its type points (12) to its instance; the
-- instance is served (33) with priority and weight 0 at its port on its host, and has an empty
-- text (16); the host has the IPv4 (1) and the IPv6 (28) address.
abbrev pub described : Service → Service
described s = record s {
  record_ptr = entry s.service_name 12 (RecordData.ptr s.service_instance) 4500;
  record_srv = entry s.service_instance 33 (RecordData.srv 0 0 s.port s.qualified_hostname) 120;
  record_txt = entry s.service_instance 16 (RecordData.txt (string_const [])) 120;
  record_a = entry s.qualified_hostname 1 (RecordData.a s.addrs.v4) 120;
  record_aaaa = entry s.qualified_hostname 28 (RecordData.aaaa s.addrs.v6) 120;
}

-- The code makes just these.
pub create_mdns_records-described : (s : Service) → create_mdns_records s ≡ described s
unfolding create_mdns_records
create_mdns_records-described s = refl

module _ (s : Service) where
  -- A record of the service, an address only of a family that it has; or the record that answers the
  -- question for the types of services, under the name asked for.
  pub data IsOwn : MdnsRecord → Type 0 where
    own_ptr : IsOwn s.record_ptr
    own_srv : IsOwn s.record_srv
    own_a : is_inet s.addrs.v4.family ≡ true → IsOwn s.record_a
    own_aaaa : is_inet6 s.addrs.v6.family ≡ true → IsOwn s.record_aaaa
    own_txt : IsOwn s.record_txt
    own_types :
        (name : MdnsString)
        → string_equals name (string_const dns_sd_service_instance) ≡ true
        → IsOwn (record {
          name = name;
          type = 12;
          payload = RecordData.ptr s.service_name;
          rclass = 0;
          ttl = 0;
        })

  abbrev pub AllOwn : List MdnsRecord → Type 0
  AllOwn = All IsOwn

  only_if-own : (b : Bool) (r : MdnsRecord) → (b ≡ true → IsOwn r) → AllOwn (only_if b r)
  only_if-own true r h = (h refl, tt)
  only_if-own false r h = tt

  pub companions-own : (type : ℕ) → AllOwn (companions s type)
  companions-own type =
      let v4 = is_inet s.addrs.v4.family in
      let v6 = is_inet6 s.addrs.v6.family in
      All-append IsOwn _ _ (only_if-own _ s.record_srv (λ e. own_srv)) (
        All-append IsOwn _ _
          (only_if-own (not (type == recordtype_a) && not (type == recordtype_txt) && v4) s.record_a
            (λ e. own_a (ground arith)))
          (All-append IsOwn _ _
            (only_if-own (not (type == recordtype_aaaa) && not (type == recordtype_txt) && v6)
              s.record_aaaa (λ e. own_aaaa (ground arith)))
            (own_txt, tt)))
