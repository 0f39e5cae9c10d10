-- ===== src/Advertise/Respond/Table.antt =====
-- src/advertise.c, `service_callback`: exactly which question gets which answer.
use wlr_remote.Base.{
  leb, ◌%◌, ℕ, ◌≡◌, refl, arith, Bool, true, false, Option, none, some, List, [], ◌∷◌, ◌++◌,
  if◌then◌else◌, ℤ, pos,
}
use wlr_remote.System.Types.{
  MdnsString, MdnsRecord, RecordData, Query, EntryType, question, answer, authority, additional,
  is_inet, is_inet6,
}
use wlr_remote.System.Event.{Trace, mdns_answer_unicast, mdns_answer_multicast}
use wlr_remote.System.Env.{Env}
use wlr_remote.Advertise.Types.{Service, string_const, dns_sd_service_instance}
use wlr_remote.Advertise.Records.{
  create_mdns_records, build_additional, from_case_srv, from_case_a, from_case_txt,
}
use wlr_remote.Advertise.Records.Additional.{companions}
use wlr_remote.Advertise.Records.Own.{described}
use wlr_remote.Advertise.Respond.{
  send_buffer_size, string_equals, wants_unicast, is_type_or_any, Reply, choose_address,
  choose_answer, send_reply, name_of, answer_question, on_entry, service_callback,
}

-- A name, and the records that the service has under it.
abbrev pub Row : Type 0
Row = MdnsString × List Reply

-- A record of the service, with those that accompany it.
abbrev pub with_companions : Service → MdnsRecord → Reply
with_companions s r = (r, companions s r.type)

-- What the service answers with: for the list of service types its own type, for its type its
-- instance, for the instance the port and the host, and for the host its addresses, of the families
-- that it has. Its text record is in no row, although it has one under the name of the instance.
abbrev types_record : Service → MdnsString → MdnsRecord
types_record s name = record {
  name = name;
  type = 12;
  payload = RecordData.ptr s.service_name;
  rclass = 0;
  ttl = 0;
}

abbrev pub table : Service → MdnsString → List Row
table s name =
    (string_const dns_sd_service_instance, (types_record s name, []) ∷ [])
    ∷ (s.service_name, with_companions s s.record_ptr ∷ [])
    ∷ (s.service_instance, with_companions s s.record_srv ∷ [])
    ∷ (
      s.qualified_hostname,
      (if is_inet s.addrs.v4.family then with_companions s s.record_a ∷ [] else [])
          ++ (if is_inet6 s.addrs.v6.family then with_companions s s.record_aaaa ∷ [] else []),
    )
    ∷ []

-- The first record of a type, or of any.
abbrev pub of_type : ℕ → List Reply → Option Reply
of_type rtype [] = none
of_type rtype (r ∷ rest) = if is_type_or_any r.0.type rtype then some r else of_type rtype rest

-- The same in the first row that has the name.
abbrev pub look_up : MdnsString → ℕ → List Row → Option Reply
look_up name rtype [] = none
look_up name rtype ((n, replies) ∷ rest) =
    if string_equals name n then of_type rtype replies else look_up name rtype rest

abbrev pub is_question : EntryType → Bool
is_question question = true
is_question answer = false
is_question authority = false
is_question additional = false

-- The bit of a question's class by which its sender asks to be answered alone: the topmost of 16.
abbrev pub asks_alone : Query → Bool
asks_alone q = leb 32768 (q.rclass % 65536)

-- What is sent for a reply, to the sender alone if that was asked for, or to all.
abbrev pub sent : ℤ → Query → MdnsString → Option Reply → Trace → Trace
sent sock q name none t = t
sent sock q name (some (r, extra)) t =
    if asks_alone q
    then mdns_answer_unicast sock q.from send_buffer_size q.query_id q.rtype name r extra ∷ t
    else mdns_answer_multicast sock send_buffer_size r extra ∷ t

module _ (s : Service) where
  choose_answer-look_up :
      (name : MdnsString) (rtype : ℕ) (t : Trace)
      → choose_answer (create_mdns_records s) name rtype t
        ≡ (look_up name rtype (table (described s) name), t)
  unfolding choose_answer choose_address create_mdns_records build_additional from_case_srv
      from_case_a from_case_txt
  choose_answer-look_up name rtype t = ground arith

  wants_unicast-asks_alone : (q : Query) → wants_unicast q.rclass ≡ asks_alone q
  wants_unicast-asks_alone q = ground arith

  send_reply-sent :
      (sock : ℤ) (q : Query) (name : MdnsString) (reply : Option Reply) (t : Trace)
      → (send_reply sock q name reply t).1 ≡ sent sock q name reply t
  unfolding send_reply
  send_reply-sent sock q name none t = refl
  send_reply-sent sock q name (some r) t = ground (arith, wants_unicast-asks_alone q)

module _ (env : Env) (s : Service) (sock : ℤ) (q : Query) (t : Trace) where
  -- What is looked up for a question.
  abbrev pub answer_of : Option Reply
  answer_of = look_up (name_of env q) q.rtype (table (described s) (name_of env q))

  answer_question-sent :
      answer_question env (create_mdns_records s) sock q t
      ≡ (pos 0, sent sock q (name_of env q) answer_of t)
  unfolding answer_question
  answer_question-sent =
      rw (choose_answer-look_up s (name_of env q) q.rtype t)
        (rw (send_reply-sent s sock q (name_of env q) answer_of t) refl)

  on_entry-sent :
      (e : EntryType)
      → on_entry env e (create_mdns_records s) sock q t
        ≡ (pos 0, if is_question e then sent sock q (name_of env q) answer_of t else t)
  unfolding on_entry
  on_entry-sent question = answer_question-sent
  on_entry-sent answer = refl
  on_entry-sent authority = refl
  on_entry-sent additional = refl

  -- With the records that `create_mdns_records` makes, a call returns 0, and sends for a question
  -- the first record of the type asked for, or of any, that the table has in the row of the name
  -- asked for, with its companions, to the address that the question came from if the topmost bit of
  -- its class is set, and to all if not. Where there is none, and for any other entry, it sends
  -- nothing.
  pub service_callback-table :
      service_callback env (create_mdns_records s) sock q t
      ≡ (pos 0, if is_question q.entry then sent sock q (name_of env q) answer_of t else t)
  unfolding service_callback
  service_callback-table = on_entry-sent q.entry
