-- ===== src/Advertise/Respond/All.antt =====
-- src/advertise.c, `advertise_respond_request`: all that is sent in answer to what waits on a socket.
use wlr_remote.Base.{◌≡◌, refl, ap, ◌∙◌, List, [], ◌∷◌, if◌then◌else◌, ℤ}
use wlr_remote.System.Types.{Query}
use wlr_remote.System.Event.{Trace}
use wlr_remote.System.Env.{Env}
use wlr_remote.Advertise.Types.{Service, advertise_buffer_capacity}
use wlr_remote.Advertise.Records.{create_mdns_records}
use wlr_remote.Advertise.Respond.{
  name_of, service_callback, serve_queries, advertise_respond_request,
}
use wlr_remote.Advertise.Respond.Table.{is_question, answer_of, sent, service_callback-table}

module _ (env : Env) (s : Service) (sock : ℤ) where
  -- What is sent for the entries in a row: for each question, what the table has for it.
  abbrev pub all_sent : List Query → Trace → Trace
  all_sent [] t = t
  all_sent (q ∷ rest) t =
      all_sent rest (
        if is_question q.entry then sent sock q (name_of env q) (answer_of env s sock q t) t else t)

  serve_queries-all_sent :
      (qs : List Query) (t : Trace)
      → (serve_queries env (create_mdns_records s) sock qs t).1 ≡ all_sent qs t
  unfolding serve_queries
  serve_queries-all_sent [] t = refl
  serve_queries-all_sent (q ∷ rest) t =
      let t' = (service_callback env (create_mdns_records s) sock q t).1 in
      serve_queries-all_sent rest t'
      ∙ ap (λ x. all_sent rest x.1) (service_callback-table env s sock q t)

  -- With the records that `create_mdns_records` makes, a request is answered entry by entry, in
  -- order. For a question the first record of the type asked for, or of any, in the table's row for
  -- the name asked for is sent with its companions: to the address that the question came from if the
  -- topmost bit of its class is set, and to all if not. The table has, for the list of service types,
  -- the type of the service; for the type, its instance; for the instance, the port and the host; for
  -- the host, its addresses of the families it has. For anything else, questions for the text of the
  -- instance included, and for entries that are not questions, nothing is sent.
  pub advertise_respond_request-all_sent :
      (t : Trace)
      → (advertise_respond_request env (create_mdns_records s) sock t).1
        ≡ all_sent (env.mdns_queries t sock s.buffer advertise_buffer_capacity) t
  unfolding advertise_respond_request create_mdns_records
  advertise_respond_request-all_sent t =
      serve_queries-all_sent (env.mdns_queries t sock s.buffer advertise_buffer_capacity) t
