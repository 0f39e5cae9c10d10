-- ===== src/Advertise/Respond/Relevance.antt =====
-- src/advertise.c, `service_callback`: every answer is about the question.
use wlr_remote.Base.{
  ℕ, zero, suc, ◌≤◌, ◌≡◌, refl, arith, ◌⊎◌, inl, inr, true, Option, none, some, Bytes, [], ◌∷◌,
  length, if◌then◌else◌, ℤ,
}
use wlr_remote.System.Types.{MdnsString, Query, EntryType, question, answer, authority, additional}
use wlr_remote.System.Event.{Trace, mdns_answer_unicast, mdns_answer_multicast}
use wlr_remote.System.Env.{Env}
use wlr_remote.Advertise.Types.{Service}
use wlr_remote.Advertise.Records.{
  create_mdns_records, build_additional, from_case_srv, from_case_a, from_case_txt, recordtype_txt,
}
use wlr_remote.Advertise.Records.Additional.{additional_capacity}
use wlr_remote.Advertise.Respond.{
  send_buffer_size, strncmp_eq, string_equals, wants_unicast, is_type_or_any, Reply, choose_address,
  choose_answer, send_reply, name_of, answer_question, on_entry, service_callback,
}

strncmp_eq_self : (n : ℕ) (a : Bytes) → strncmp_eq n a a ≡ true
unfolding strncmp_eq
strncmp_eq_self zero a = refl
strncmp_eq_self (suc n) [] = refl
strncmp_eq_self (suc n) (x ∷ a) = ground (arith, strncmp_eq_self n a)

string_equals_self : (s : MdnsString) → string_equals s s ≡ true
unfolding string_equals
string_equals_self s = ground (arith, strncmp_eq_self s.length s.text)

-- A reply bears the name asked for, is of the type asked for or any was asked for, and its further
-- records fit the array.
pub record IsRelevant (name : MdnsString) (rtype : ℕ) (reply : Reply) : Type 0 where
  pub same_name : string_equals name reply.0.name ≡ true
  pub same_type : is_type_or_any reply.0.type rtype ≡ true
  pub fits : length reply.1 ≤ additional_capacity

module _ (s : Service) (name : MdnsString) (rtype : ℕ) (t : Trace) where
  -- Choosing a reply is silent, and the reply is relevant.
  abbrev IsChoice : Option Reply × Trace → Type 0
  IsChoice (none, t') = t' ≡ t
  IsChoice (some reply, t') = (t' ≡ t) × IsRelevant name rtype reply

  choose_address-IsChoice :
      string_equals name s.qualified_hostname ≡ true
      → IsChoice (choose_address (create_mdns_records s) rtype t)
  unfolding choose_address create_mdns_records build_additional from_case_srv from_case_a
      from_case_txt
  choose_address-IsChoice h = ground arith

  choose_answer-IsChoice : IsChoice (choose_answer (create_mdns_records s) name rtype t)
  unfolding choose_answer
  choose_answer-IsChoice =
      unfold create_mdns_records build_additional from_case_srv from_case_a from_case_txt in
      ground (arith, string_equals_self name, choose_address-IsChoice)

module _ (env : Env) (s : Service) (sock : ℤ) (q : Query) (t : Trace) where
  -- One answer was sent in reply to the question `q`, to its sender alone if that was wanted.
  pub record IsAnswered (t' : Trace) : Type 0 where
    pub reply : Reply
    pub asked : q.entry ≡ question
    pub relevant : IsRelevant (name_of env q) q.rtype reply
    pub sent : t' ≡ (
        if wants_unicast q.rclass
        then mdns_answer_unicast sock q.from send_buffer_size q.query_id q.rtype
            (name_of env q)
            reply.0
            reply.1
          ∷ t
        else mdns_answer_multicast sock send_buffer_size reply.0 reply.1 ∷ t)

  send_reply-IsAnswered :
      (reply : Reply) (t' : Trace)
      → q.entry ≡ question
      → t' ≡ t
      → IsRelevant (name_of env q) q.rtype reply
      → IsAnswered (send_reply sock q (name_of env q) (some reply) t').1
  unfolding send_reply
  send_reply-IsAnswered reply t' asked same relevant = record {
    reply = reply;
    asked = asked;
    relevant = relevant;
    sent = ground arith;
  }

  send_reply-cases :
      (c : Option Reply × Trace)
      → q.entry ≡ question
      → IsChoice s (name_of env q) q.rtype t c
      → let t' = (send_reply sock q (name_of env q) c.0 c.1).1 in (t' ≡ t) ⊎ IsAnswered t'
  unfolding send_reply
  send_reply-cases (none, t') asked h = inl h
  send_reply-cases (some reply, t') asked h = inr (send_reply-IsAnswered reply t' asked h.0 h.1)

  on_entry-IsAnswered :
      (e : EntryType)
      → q.entry ≡ e
      → let t' = (on_entry env e (create_mdns_records s) sock q t).1 in (t' ≡ t) ⊎ IsAnswered t'
  unfolding on_entry answer_question
  on_entry-IsAnswered question asked =
      send_reply-cases (choose_answer (create_mdns_records s) (name_of env q) q.rtype t) asked
        (choose_answer-IsChoice s (name_of env q) q.rtype t)
  on_entry-IsAnswered answer asked = inl refl
  on_entry-IsAnswered authority asked = inl refl
  on_entry-IsAnswered additional asked = inl refl

  -- A call of the callback sends nothing, or one answer to a question: it bears the name asked for,
  -- is of the type asked for (or any was), its further records fit their array, and it goes to the
  -- sender alone if that was wanted. The service's records are those that `create_mdns_records`
  -- makes.
  pub service_callback-IsAnswered :
      let t' = (service_callback env (create_mdns_records s) sock q t).1 in (t' ≡ t) ⊎ IsAnswered t'
  unfolding service_callback
  service_callback-IsAnswered = on_entry-IsAnswered q.entry refl

-- No question for a TXT record is answered, although the service has one.
pub choose_answer-txt :
    (s : Service) (name : MdnsString) (t : Trace)
    → choose_answer s name recordtype_txt t ≡ (none, t)
unfolding choose_answer choose_address
choose_answer-txt s name t = ground arith
