-- ===== src/Advertise/Respond/Own.antt =====
-- src/advertise.c, `advertise_respond_request`: an answer tells the service's own records alone.
use wlr_remote.Base.{
  ℕ, ◌≡◌, refl, ap, sym, subst, ◌∙◌, arith, Bool, true, false, Option, none, some, List, [], ◌∷◌,
  ◌++◌, All, All-append, Bool-cases, inl, inr, ℤ, if◌then◌else◌,
}
use wlr_remote.System.Types.{MdnsString, Query, is_inet, is_inet6}
use wlr_remote.System.Event.{Trace}
use wlr_remote.System.Env.{Env}
use wlr_remote.System.Notices.{told}
use wlr_remote.Advertise.Types.{Service, advertise_buffer_capacity}
use wlr_remote.Advertise.Records.Own.{
  described, create_mdns_records-described, IsOwn, own_ptr, own_srv, own_a, own_aaaa, own_types,
  AllOwn, companions-own,
}
use wlr_remote.Advertise.Respond.{
  string_equals, is_type_or_any, Reply, name_of, advertise_respond_request,
}
use wlr_remote.Advertise.Respond.Table.{
  asks_alone, with_companions, Row, table, of_type, look_up, is_question, sent, answer_of,
}
use wlr_remote.Advertise.Respond.All.{all_sent, advertise_respond_request-all_sent}

module _ (s : Service) where
  abbrev OwnReply : Reply → Type 0
  OwnReply (r, extra) = IsOwn s r × AllOwn s extra

  abbrev OwnAnswer : Option Reply → Type 0
  OwnAnswer none = Unit
  OwnAnswer (some reply) = OwnReply reply

  of_type-own :
      (rtype : ℕ) (replies : List Reply) → All OwnReply replies → OwnAnswer (of_type rtype replies)
  of_type-own rtype [] h = tt
  of_type-own rtype (r ∷ rest) (h, hs) = elim (Bool-cases (is_type_or_any r.0.type rtype)) [
    | inl found ↦ rw (found, of_type) h
    | inr other ↦ rw (other, of_type) (of_type-own rtype rest hs)
  ]

  -- A row under the name asked for has own replies.
  abbrev OwnRow : MdnsString → Row → Type 0
  OwnRow name (n, replies) = string_equals name n ≡ true → All OwnReply replies

  look_up-own :
      (name : MdnsString) (rtype : ℕ) (rows : List Row)
      → All (OwnRow name) rows
      → OwnAnswer (look_up name rtype rows)
  look_up-own name rtype [] h = tt
  look_up-own name rtype ((n, replies) ∷ rest) (h, hs) = elim (Bool-cases (string_equals name n)) [
    | inl same ↦ rw (same, look_up) (of_type-own rtype replies (h same))
    | inr other ↦ rw (other, look_up) (look_up-own name rtype rest hs)
  ]

  under :
      (b : Bool) (reply : Reply)
      → (b ≡ true → OwnReply reply)
      → All OwnReply (if b then reply ∷ [] else [])
  under true reply h = (h refl, tt)
  under false reply h = tt

  table-own : (name : MdnsString) → All (OwnRow name) (table s name)
  table-own name =
      let hosts = λ (e : string_equals name s.qualified_hostname ≡ true).
        All-append OwnReply _ _
          (under (is_inet s.addrs.v4.family) (with_companions s s.record_a)
            (λ v4. (own_a v4, companions-own s s.record_a.type)))
          (under (is_inet6 s.addrs.v6.family) (with_companions s s.record_aaaa)
            (λ v6. (own_aaaa v6, companions-own s s.record_aaaa.type))) in
      (
        (λ e. ((own_types name e, tt), tt)),
        (
          (λ e. ((own_ptr, companions-own s s.record_ptr.type), tt)),
          ((λ e. ((own_srv, companions-own s s.record_srv.type), tt)), (hosts, tt)),
        ),
      )

  sent-own :
      (sock : ℤ) (q : Query) (name : MdnsString) (reply : Option Reply) (t : Trace)
      → OwnAnswer reply
      → AllOwn s (told t)
      → AllOwn s (told (sent sock q name reply t))
  sent-own sock q name none t h k = k
  sent-own sock q name (some (r, extra)) t (h, hs) k =
      let all : AllOwn s (r ∷ extra ++ told t) = (h, All-append (IsOwn s) extra (told t) hs k) in
      elim (Bool-cases (asks_alone q)) [
        | inl alone ↦ rw (alone, sent) all
        | inr everyone ↦ rw (everyone, sent) all
      ]

  all_sent-own :
      (env : Env) (sock : ℤ) (qs : List Query) (t : Trace)
      → described s ≡ s
      → AllOwn s (told t)
      → AllOwn s (told (all_sent env s sock qs t))
  all_sent-own env sock [] t made k = k
  all_sent-own env sock (q ∷ rest) t made k =
      let name = name_of env q in
      let u = if is_question q.entry then sent sock q name (answer_of env s sock q t) t else t in
      let own : OwnAnswer (answer_of env s sock q t) =
        subst (λ x. OwnAnswer (look_up name q.rtype (table x name))) (sym made)
          (look_up-own name q.rtype (table s name) (table-own name)) in
      let at_u : AllOwn s (told u) =
        ground (arith, sent-own sock q name (answer_of env s sock q t) t own k) in
      all_sent-own env sock rest u made at_u

  -- If the service has the records of DNS-SD, a request is answered with its
  -- own records alone.
  pub advertise_respond_request-own :
      (env : Env) (sock : ℤ) (t : Trace)
      → described s ≡ s
      → AllOwn s (told t)
      → AllOwn s (told (advertise_respond_request env s sock t).1)
  advertise_respond_request-own env sock t made k =
      let same : (advertise_respond_request env s sock t).1
          ≡ all_sent env s sock (env.mdns_queries t sock s.buffer advertise_buffer_capacity) t =
        ap (λ x. (advertise_respond_request env x sock t).1)
          (sym made ∙ sym (create_mdns_records-described s))
        ∙ advertise_respond_request-all_sent env s sock t in
      rw same (
        all_sent-own env sock (env.mdns_queries t sock s.buffer advertise_buffer_capacity) t made k)
