-- ===== src/Advertise/Strings/Names.antt =====
-- src/advertise.c, `create_service_strings`: the names are whole, and their lengths are right.
use wlr_remote.Base.{
  ℕ, ◌+◌, ◌-◌, ◌≡◌, ◌≤◌, refl, ap, sym, ◌∙◌, arith, true, Option, none, some, Bool-cases, inl, inr,
  Bytes, [], ◌∷◌, ◌++◌, length, length-append,
}
use wlr_remote.Libc.Text.{strlen, snprintf, c_string}
use wlr_remote.Libc.Prints.{length-c_string, snprintf-fits}
use wlr_remote.System.Types.{Pointer, is_null}
use wlr_remote.System.Event.{Trace, gethostname}
use wlr_remote.System.Env.{Env}
use wlr_remote.Advertise.Types.{
  Service, service_name, qualified_suffix, sizeof_literal, string_const,
}
use wlr_remote.Advertise.Strings.{
  allocate, hostname_size, string_in, create_qualified_hostname, create_service_instance,
  with_hostname, create_service_strings,
}

-- What `gethostname` promises, given room for HOST_NAME_MAX bytes and a terminator.
pub record HostnameLaws (env : Env) : Type 0 where
  pub hostname_fits :
      (t : Trace) (h : Bytes) → env.gethostname t ≡ some h → strlen h ≤ env.host_name_max

-- The host's name with what stands behind it.
abbrev pub instance_name : Bytes → Bytes
instance_name h = c_string h ++ (b'.' ∷ service_name)

abbrev pub host_name : Bytes → Bytes
host_name h = c_string h ++ qualified_suffix

-- The two names that a service has on a host with the name `h`, each whole with its terminator, and
-- with its length.
pub record IsNamed (h : Bytes) (s : Service) : Type 0 where
  pub hostname_length : s.hostname.length ≡ length (c_string h)
  pub instance_text : s.service_instance.text ≡ instance_name h ++ 0 ∷ []
  pub instance_length : s.service_instance.length ≡ length (instance_name h)
  pub qualified_text : s.qualified_hostname.text ≡ host_name h ++ 0 ∷ []
  pub qualified_length : s.qualified_hostname.length ≡ length (host_name h)

module _ (env : Env) (h : Bytes) (fits : strlen h ≤ env.host_name_max) where
  host_name-length : length (host_name h) ≡ strlen h + 7
  host_name-length =
      length-append (c_string h) qualified_suffix ∙ ap (λ (x : ℕ). x + 7) (length-c_string h)

  instance_name-length : length (instance_name h) ≡ strlen h + 24
  instance_name-length =
      length-append (c_string h) (b'.' ∷ service_name) ∙ ap (λ (x : ℕ). x + 24) (length-c_string h)

  create_qualified_hostname-names :
      (s : Service) (t : Trace)
      → let ((made, s'), t') = create_qualified_hostname env h s t in
        made ≡ true
        → s.hostname.length ≡ length (c_string h)
        → s.service_instance.text ≡ instance_name h ++ 0 ∷ []
        → s.service_instance.length ≡ length (instance_name h)
        → IsNamed h s'
  unfolding create_qualified_hostname
  create_qualified_hostname-names s t made a b c = ground (
    arith,
    host_name-length,
    snprintf-fits (env.host_name_max + sizeof_literal qualified_suffix) (host_name h),
  )

  create_service_instance-names :
      (s : Service) (t : Trace)
      → let ((made, s'), t') = create_service_instance env h s t in
        made ≡ true → s.hostname.length ≡ length (c_string h) → IsNamed h s'
  unfolding create_service_instance
  create_service_instance-names s t made a =
      let size = env.host_name_max + 1 + sizeof_literal service_name in
      let (buffer, u) = allocate env size t in
      let text = snprintf size (instance_name h) in
      let len = strlen h + 1 + sizeof_literal service_name - 1 in
      let s' : Service = record s { service_instance = string_in buffer text len } in
      elim (Bool-cases (is_null buffer)) [
        | inl none_left ↦ absurd (unfold create_service_instance in (ground arith))
        | inr got ↦
            rw (got, create_service_instance)
              (create_qualified_hostname-names s' u (rw (got, create_service_instance) at made) a
                (snprintf-fits size (instance_name h) (omega (arith, instance_name-length)))
                (omega (arith, instance_name-length)))
      ]

module _ (env : Env) (laws : HostnameLaws env) where
  with_hostname-names :
      (buffer : Pointer) (s : Service) (name : Option Bytes) (t u : Trace)
      → env.gethostname u ≡ name
      → let ((made, s'), t') = with_hostname env buffer s name t in
        made ≡ true → (h : Bytes) × (name ≡ some h) × IsNamed h s'
  unfolding with_hostname
  with_hostname-names buffer s none t u e made = cc
  with_hostname-names buffer s (some h) t u e made =
      let s' : Service = record s {
        hostname = string_in buffer h (strlen h);
        service_name = string_const service_name;
      } in
      (
        h,
        refl,
        create_service_instance-names env h (laws.hostname_fits u h e) s' t made
            (sym (length-c_string h)),
      )

  -- `gethostname` keeping its promise: if the strings are made, the service's names are the host's
  -- name, up to its terminator, followed by the suffix of each, none of them cut short by its buffer,
  -- and each is stated with its true length.
  pub create_service_strings-IsNamed :
      (s : Service) (t : Trace)
      → (create_service_strings env s t).0.0 ≡ true
      → (u : Trace) × (h : Bytes) × (env.gethostname u ≡ some h)
        × IsNamed h (create_service_strings env s t).0.1
  unfolding create_service_strings
  create_service_strings-IsNamed s t made =
      let (buffer, u) = allocate env (hostname_size env) t in
      elim (Bool-cases (is_null buffer)) [
        | inl none_left ↦ absurd (unfold create_service_strings in (ground arith))
        | inr got ↦
            let (h, came, named) =
              with_hostname-names buffer s (env.gethostname u) (gethostname ∷ u) u refl
                (rw (got, create_service_strings) at made) in
            (u, h, came, rw (got, create_service_strings) named)
      ]
