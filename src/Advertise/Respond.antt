-- ===== src/Advertise/Respond.antt =====
-- src/advertise.c, `string_equals`, `service_callback` and `advertise_respond_request`.
pub mod All
pub mod Own
pub mod Relevance
pub mod Table
use wlr_remote.Base.{
  ℕ, zero, suc, ◌/◌, ◌%◌, ◌^◌, Bool, true, false, not, ◌&&◌, ◌||◌, Option, none, some, Bytes, List,
  [], ◌∷◌, length, get_or, ◌==◌, if◌then◌else◌, ⊤, ℤ, pos,
}
use wlr_remote.System.Types.{
  MdnsString, MdnsRecord, RecordData, Query, EntryType, question, answer, authority, additional,
  is_inet, is_inet6, static_memory,
}
use wlr_remote.System.Event.{mdns_answer_unicast, mdns_answer_multicast}
use wlr_remote.System.Env.{Env}
use wlr_remote.System.Monad.{M, pure, emit, skip, ◌>>=◌, ◌>>◌}
use wlr_remote.Advertise.Types.{
  advertise_buffer_capacity, Service, string_const, dns_sd_service_instance,
}
use wlr_remote.Advertise.Records.{
  build_additional, recordtype_a, recordtype_ptr, recordtype_aaaa, recordtype_srv, recordtype_any,
}

-- Whether `strncmp (a, b, n)` is 0: at most `n` bytes are compared, and none behind a terminator, for
-- which the end of a list stands too.
unfoldable pub strncmp_eq : ℕ → Bytes → Bytes → Bool
strncmp_eq zero a b = true
strncmp_eq (suc n) [] b = get_or b 0 0 == 0
strncmp_eq (suc n) (x ∷ a) [] = x == 0
strncmp_eq (suc n) (x ∷ a) (y ∷ b) = x == y && (x == 0 || strncmp_eq n a b)

unfoldable pub string_equals : MdnsString → MdnsString → Bool
string_equals name target =
    name.length == target.length && strncmp_eq name.length name.text target.text

-- `rclass & MDNS_UNICAST_RESPONSE`.
abbrev pub wants_unicast : ℕ → Bool
wants_unicast rclass = rclass / 2 ^ 15 % 2 == 1

abbrev pub is_type_or_any : ℕ → ℕ → Bool
is_type_or_any type rtype = rtype == type || rtype == recordtype_any

-- The answer to a question about the list of service types.
abbrev pub types_answer : Service → MdnsString → MdnsRecord
types_answer service name = record {
  name = name;
  type = recordtype_ptr;
  payload = RecordData.ptr service.service_name;
  rclass = 0;
  ttl = 0;
}

-- An answer with the records that go with it.
abbrev pub Reply : Type 0
Reply = MdnsRecord × List MdnsRecord

-- `answer = r` and `build_additional (additional, service, type)`, with `send = true`.
abbrev pub reply_with : Service → MdnsRecord → ℕ → M (Option Reply)
reply_with service r type = do extra ← build_additional service type; pure (some (r, extra))

-- The last of the four cases: the hostname's addresses.
unfoldable pub choose_address : Service → ℕ → M (Option Reply)
choose_address service rtype =
    if is_type_or_any recordtype_a rtype && is_inet service.addrs.v4.family
    then reply_with service service.record_a recordtype_a
    else if is_type_or_any recordtype_aaaa rtype && is_inet6 service.addrs.v6.family
    then reply_with service service.record_aaaa recordtype_aaaa
    else pure none

-- The chain of tests on the name; `none` leaves `send` false.
unfoldable pub choose_answer : Service → MdnsString → ℕ → M (Option Reply)
choose_answer service name rtype =
    if string_equals name (string_const dns_sd_service_instance)
    then (if is_type_or_any recordtype_ptr rtype
        then pure (some (types_answer service name, []))
        else pure none)
    else if string_equals name service.service_name
    then (if is_type_or_any recordtype_ptr rtype
        then reply_with service service.record_ptr recordtype_ptr
        else pure none)
    else if string_equals name service.service_instance
    then (if is_type_or_any recordtype_srv rtype
        then reply_with service service.record_srv recordtype_srv
        else pure none)
    else if string_equals name service.qualified_hostname
    then choose_address service rtype
    else pure none

-- `sizeof (send_buffer)`.
abbrev pub send_buffer_size : ℕ
send_buffer_size = 1024

unfoldable pub send_reply : ℤ → Query → MdnsString → Option Reply → M ⊤
send_reply sock q name none = skip
send_reply sock q name (some (r, extra)) =
    if wants_unicast q.rclass
    then emit (mdns_answer_unicast sock q.from send_buffer_size q.query_id q.rtype name r extra)
    else emit (mdns_answer_multicast sock send_buffer_size r extra)

module _ (env : Env) where
  -- `mdns_string_extract` into the static buffer.
  abbrev pub name_of : Query → MdnsString
  name_of q =
      let text = env.mdns_string_extract q.payload q.name_offset in
      record { str = static_memory; text = text; length = length text }

  -- The answer to a question.
  unfoldable pub answer_question : Service → ℤ → Query → M ℤ
  answer_question service sock q = do
    reply ← choose_answer service (name_of q) q.rtype
    send_reply sock q (name_of q) reply
    pure (pos 0)

  -- The first test, on the kind of the entry.
  unfoldable pub on_entry : EntryType → Service → ℤ → Query → M ℤ
  on_entry question service sock q = answer_question service sock q
  on_entry answer service sock q = pure (pos 0)
  on_entry authority service sock q = pure (pos 0)
  on_entry additional service sock q = pure (pos 0)

  unfoldable pub service_callback : Service → ℤ → Query → M ℤ
  service_callback service sock q = on_entry q.entry service sock q

  -- The calls that `mdns_socket_listen` makes; it goes on while the callback returns 0.
  unfoldable pub serve_queries : Service → ℤ → List Query → M ⊤
  serve_queries service sock [] = skip
  serve_queries service sock (q ∷ rest) = do
    service_callback service sock q
    serve_queries service sock rest

  unfoldable pub advertise_respond_request : Service → ℤ → M ⊤
  advertise_respond_request service sock t =
      serve_queries service sock (env.mdns_queries t sock service.buffer advertise_buffer_capacity)
        t
