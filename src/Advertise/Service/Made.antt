-- ===== src/Advertise/Service/Made.antt =====
-- src/advertise.c, `advertise_create_service`: the service that is made, if one is.
use wlr_remote.Base.{
  ℕ, ◌≡◌, refl, ap, ◌∙◌, arith, true, ◌||◌, Option, none, some, Bool-cases, inl, inr, Bytes,
}
use wlr_remote.System.Types.{MdnsString, is_null}
use wlr_remote.System.Event.{Trace}
use wlr_remote.System.Env.{Env}
use wlr_remote.Advertise.Types.{
  Service, new_service, service_name, string_const, advertise_buffer_capacity,
}
use wlr_remote.Advertise.Interfaces.{Found, get_interfaces, create_mdns_sockets}
use wlr_remote.Advertise.Strings.{
  allocate, create_qualified_hostname, create_service_instance, with_hostname,
  create_service_strings,
}
use wlr_remote.Advertise.Strings.Names.{HostnameLaws, IsNamed, create_service_strings-IsNamed}
use wlr_remote.Advertise.Records.{create_mdns_records}
use wlr_remote.Advertise.Records.Own.{described}
use wlr_remote.Advertise.Service.{
  err_free_service, create_buffer, create_strings, create_sockets, find_interfaces,
  advertise_create_service,
}

-- What a service is called.
abbrev names : Service → MdnsString × MdnsString × MdnsString
names s = (s.hostname, s.service_instance, s.qualified_hostname)

IsNamed-same : (h : Bytes) (s s' : Service) → names s' ≡ names s → IsNamed h s → IsNamed h s'
IsNamed-same h s s' same named = record {
  hostname_length = ap (λ x. x.0.length) same ∙ named.hostname_length;
  instance_text = ap (λ x. x.1.text) same ∙ named.instance_text;
  instance_length = ap (λ x. x.1.length) same ∙ named.instance_length;
  qualified_text = ap (λ x. x.2.text) same ∙ named.qualified_text;
  qualified_length = ap (λ x. x.2.length) same ∙ named.qualified_length;
}

module _ (env : Env) (port : ℕ) where
  -- The service is on the port, it is named after the host, and its records are those of DNS-SD for its
  -- names, its port and its addresses.
  pub record IsMade (s : Service) : Type 0 where
    pub on_port : s.port ≡ port
    pub typed : s.service_name ≡ string_const service_name
    pub named : (u : Trace) × (h : Bytes) × (env.gethostname u ≡ some h) × IsNamed h s
    pub recorded : described s ≡ s

  -- The same of the service that a step returns, or none.
  abbrev pub MadeBy : Option Service → Type 0
  MadeBy none = Unit
  MadeBy (some s) = IsMade s

  create_buffer-MadeBy : (s : Service) (t : Trace) → IsMade s → MadeBy (create_buffer env s t).0
  unfolding create_buffer err_free_service create_mdns_records
  create_buffer-MadeBy s t h =
      let buffer = (allocate env advertise_buffer_capacity t).0 in
      let with_buffer : Service → Service = λ x. record x { buffer = buffer } in
      elim (Bool-cases (is_null buffer)) [
        | inl failed ↦ rw (failed, create_buffer) tt
        | inr fine ↦
            rw (fine, create_buffer)
              (record {
                on_port = h.on_port;
                typed = h.typed;
                named =
                    (h.named.0, h.named.1, h.named.2, IsNamed-same h.named.1 s _ refl h.named.3);
                recorded = ap with_buffer h.recorded;
              })
      ]

  create_service_strings-kept :
      (s : Service) (t : Trace)
      → let ((made, s'), u) = create_service_strings env s t in
        (s'.port ≡ s.port) × (made ≡ true → s'.service_name ≡ string_const service_name)
  unfolding create_service_strings with_hostname create_service_instance create_qualified_hostname
  create_service_strings-kept s t = ground arith

  module _ (laws : HostnameLaws env) where
    create_strings-MadeBy :
        (s : Service) (t : Trace) → s.port ≡ port → MadeBy (create_strings env s t).0
    unfolding create_strings err_free_service create_mdns_records
    create_strings-MadeBy s t e =
        let (made, u) = create_service_strings env s t in
        let (same_port, typed) = create_service_strings-kept s t in
        elim (Bool-cases made.0) [
          | inl done ↦
              let (v, h, came, called) = create_service_strings-IsNamed env laws s t done in
              rw (done, create_strings)
                (create_buffer-MadeBy (create_mdns_records made.1) u (record {
                  on_port = same_port ∙ e;
                  typed = typed done;
                  named =
                      (v, h, came, IsNamed-same h made.1 (create_mdns_records made.1) refl called);
                  recorded = refl;
                }))
          | inr failed ↦ rw (failed, create_strings) tt
        ]

    create_sockets-MadeBy :
        (s : Service) (found : Found) (t : Trace)
        → s.port ≡ port
        → MadeBy (create_sockets env s found t).0
    unfolding create_sockets err_free_service
    create_sockets-MadeBy s found t e =
        let (made, u) = create_mdns_sockets env s.socks s.addrs found t in
        let s' : Service = record s { socks = made.1; addrs = made.2 } in
        elim (Bool-cases made.0) [
          | inl done ↦ rw (done, create_sockets) (create_strings-MadeBy s' u e)
          | inr failed ↦ rw (failed, create_sockets) tt
        ]

    find_interfaces-MadeBy :
        (s : Service) (t : Trace) → s.port ≡ port → MadeBy (find_interfaces env s t).0
    unfolding find_interfaces err_free_service
    find_interfaces-MadeBy s t e =
        let (found, u) = get_interfaces env s.addrs t in
        let s' : Service = record s { addrs = found.0 } in
        elim (Bool-cases (found.1.v4 || found.1.v6)) [
          | inl some_found ↦ rw (some_found, find_interfaces) (create_sockets-MadeBy s' found.1 u e)
          | inr none_found ↦ rw (none_found, find_interfaces) tt
        ]

    -- `gethostname` keeping its promise: a service that is returned is on the port that was asked for,
    -- is named after the host, and has the records of DNS-SD for these names, this port and its
    -- addresses.
    pub advertise_create_service-MadeBy :
        (t : Trace) → MadeBy (advertise_create_service env port t).0
    unfolding advertise_create_service
    advertise_create_service-MadeBy t =
        let (self, u) = allocate env env.sizeof_service t in
        elim (Bool-cases (is_null self)) [
          | inl failed ↦ rw (failed, advertise_create_service) tt
          | inr fine ↦
              rw (fine, advertise_create_service)
                (find_interfaces-MadeBy (new_service self port) u refl)
        ]
