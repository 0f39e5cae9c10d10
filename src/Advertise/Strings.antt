-- ===== src/Advertise/Strings.antt =====
-- src/advertise.c, `create_service_strings`: the names under which the service is known.
pub mod Names
use wlr_remote.Base.{
  ℕ, ◌+◌, ◌-◌, Bool, true, false, Option, none, some, Bytes, ◌∷◌, ◌++◌, if◌then◌else◌,
}
use wlr_remote.Libc.Text.{strlen, snprintf, c_string}
use wlr_remote.Pointer.{codes}
use wlr_remote.System.Types.{Pointer, null, allocated, is_null, MdnsString}
use wlr_remote.System.Event.{malloc, free, gethostname, perror}
use wlr_remote.System.Env.{Env}
use wlr_remote.System.Monad.{M, pure, perform, emit, print, ◌>>=◌, ◌>>◌}
use wlr_remote.Advertise.Types.{
  Service, service_name, qualified_suffix, sizeof_literal, string_const,
}

-- The pointer that `malloc` returns.
abbrev pub pointer_of : Option ℕ → Pointer
pointer_of none = null
pointer_of (some p) = allocated p

-- A string in a buffer, with the length that is stated for it.
abbrev pub string_in : Pointer → Bytes → ℕ → MdnsString
string_in p bytes len = record { str = p; text = bytes; length = len }

module _ (env : Env) where
  unfoldable pub allocate : ℕ → M Pointer
  allocate size = perform (λ t. pointer_of (env.malloc t size)) (malloc size)

  -- The size of the hostname's buffer.
  abbrev pub hostname_size : ℕ
  hostname_size = env.host_name_max + 1

  -- `<hostname>.local.`
  unfoldable pub create_qualified_hostname : Bytes → Service → M (Bool × Service)
  create_qualified_hostname hostname service = do
    let size = env.host_name_max + sizeof_literal qualified_suffix
    buffer ← allocate size
    if is_null buffer
        then pure (false, service)
        else (let text = snprintf size (c_string hostname ++ qualified_suffix) in
            let len = strlen hostname + sizeof_literal qualified_suffix - 1 in
            pure (true, record service { qualified_hostname = string_in buffer text len }))

  -- `<hostname>._wlr-remote._udp.local.`, and what follows.
  unfoldable pub create_service_instance : Bytes → Service → M (Bool × Service)
  create_service_instance hostname service = do
    let size = env.host_name_max + 1 + sizeof_literal service_name
    buffer ← allocate size
    if is_null buffer
        then pure (false, service)
        else (let text = snprintf size (c_string hostname ++ (b'.' ∷ service_name)) in
            let len = strlen hostname + 1 + sizeof_literal service_name - 1 in
            create_qualified_hostname hostname
              (record service { service_instance = string_in buffer text len }))

  -- On what `gethostname` wrote to its buffer, or its failure.
  unfoldable pub with_hostname : Pointer → Service → Option Bytes → M (Bool × Service)
  with_hostname buffer service none = do
    print (perror (codes "gethostname"))
    emit (free buffer)
    pure (false, service)
  with_hostname buffer service (some hostname) = create_service_instance hostname (record service {
    hostname = string_in buffer hostname (strlen hostname);
    service_name = string_const service_name;
  })

  unfoldable pub create_service_strings : Service → M (Bool × Service)
  create_service_strings service = do
    buffer ← allocate hostname_size
    if is_null buffer then pure (false, service) else (do
      hostname ← (λ t. (env.gethostname t, gethostname ∷ t))
      with_hostname buffer service hostname)
