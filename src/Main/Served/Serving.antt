-- ===== src/Main/Served/Serving.antt =====
-- src/virtual_pointer.c and src/advertise.c, as the event loop calls them: they leave the receiving
-- side, the objects and the descriptors alone.
use wlr_remote.Base.{ap, ℕ, ◌≡◌, refl, ◌∙◌, arith, [], ◌∷◌, Option, none, some, List, ℤ}
use wlr_remote.System.Types.{
  ClientState, Global, RegistryEvent, global_added, global_removed, Query, MdnsString, EntryType,
  question, answer, authority, additional,
}
use wlr_remote.System.Event.{Trace}
use wlr_remote.System.Env.{Env}
use wlr_remote.System.Notices.{Notice, told}
use wlr_remote.System.Objects.{contexts_made}
use wlr_remote.System.Signals.{Handler}
use wlr_remote.System.Controls.{Control}
use wlr_remote.Main.Served.Silent.{View, view}
use wlr_remote.System.Types.{MdnsRecord}
use wlr_remote.Main.Served.Silent.{silent, still}
use wlr_remote.Pointer.{registry_handle_global, registry_handle_global_remove, vp_registry_listener}
use wlr_remote.Advertise.Types.{Service, advertise_buffer_capacity}
use wlr_remote.Advertise.Records.{build_additional}
use wlr_remote.Advertise.Respond.{
  Reply, send_reply, choose_answer, choose_address, name_of, on_entry, answer_question,
  service_callback, serve_queries, advertise_respond_request,
}
use wlr_remote.Main.Loop.{announce_globals, deliver_globals}

-- The same as `still`, with what `silent` has besides.
abbrev hushed :
    ℕ
    → Trace
    → ((View × (ℕ × ℕ × ℕ × ℕ × ℕ) × ℕ × List Notice)
        × ℕ
        × ℕ
        × ℕ
        × ℕ
        × List Control
        × List (ℕ × Handler))
      × List MdnsRecord
      × ℕ
hushed n t = (still n t, told t, contexts_made t)

module _ (env : Env) (n : ℕ) where
  registry_handle_global-hushed :
      (state : ClientState) (g : Global) (t : Trace)
      → hushed n (registry_handle_global env state g.name g.interface g.version t).1 ≡ hushed n t
  unfolding registry_handle_global
  registry_handle_global-hushed state g t = ground arith

  vp_registry_listener-hushed :
      (state : ClientState) (event : RegistryEvent) (t : Trace)
      → hushed n (vp_registry_listener env state event t).1 ≡ hushed n t
  unfolding vp_registry_listener registry_handle_global_remove
  vp_registry_listener-hushed state (global_added g) t = registry_handle_global-hushed state g t
  vp_registry_listener-hushed state (global_removed name) t = refl

  announce_globals-hushed :
      (events : List RegistryEvent) (state : ClientState) (t : Trace)
      → hushed n (announce_globals env events state t).1 ≡ hushed n t
  unfolding announce_globals
  announce_globals-hushed [] state t = refl
  announce_globals-hushed (event ∷ rest) state t =
      let (state', t') = vp_registry_listener env state event t in
      announce_globals-hushed rest state' t' ∙ vp_registry_listener-hushed state event t

  deliver_globals-hushed :
      (state : ClientState) (t : Trace) → hushed n (deliver_globals env state t).1 ≡ hushed n t
  unfolding deliver_globals
  deliver_globals-hushed state t = announce_globals-hushed (env.wl_globals t) state t

  pub deliver_globals-still :
      (state : ClientState) (t : Trace) → still n (deliver_globals env state t).1 ≡ still n t
  deliver_globals-still state t = ap (λ v. v.0) (deliver_globals-hushed state t)

  sent-still :
      (sock : ℤ) (q : Query) (name : MdnsString) (reply : Option Reply) (t : Trace)
      → still n (send_reply sock q name reply t).1 ≡ still n t
  unfolding send_reply
  sent-still sock q name none t = refl
  sent-still sock q name (some r) t = ground arith

  choose_answer-still :
      (s : Service) (name : MdnsString) (rtype : ℕ) (t : Trace)
      → still n (choose_answer s name rtype t).1 ≡ still n t
  unfolding choose_answer choose_address build_additional
  choose_answer-still s name rtype t = ground arith

  on_entry-still :
      (e : EntryType) (s : Service) (sock : ℤ) (q : Query) (t : Trace)
      → still n (on_entry env e s sock q t).1 ≡ still n t
  unfolding on_entry answer_question
  on_entry-still question s sock q t =
      let (reply, u) = choose_answer s (name_of env q) q.rtype t in
      sent-still sock q (name_of env q) reply u ∙ choose_answer-still s (name_of env q) q.rtype t
  on_entry-still answer s sock q t = refl
  on_entry-still authority s sock q t = refl
  on_entry-still additional s sock q t = refl

  serve_queries-still :
      (s : Service) (sock : ℤ) (qs : List Query) (t : Trace)
      → still n (serve_queries env s sock qs t).1 ≡ still n t
  unfolding serve_queries service_callback
  serve_queries-still s sock [] t = refl
  serve_queries-still s sock (q ∷ rest) t =
      let t' = (service_callback env s sock q t).1 in
      serve_queries-still s sock rest t' ∙ on_entry-still q.entry s sock q t

  pub advertise_respond_request-still :
      (s : Service) (sock : ℤ) (t : Trace)
      → still n (advertise_respond_request env s sock t).1 ≡ still n t
  unfolding advertise_respond_request
  advertise_respond_request-still s sock t =
      serve_queries-still s sock (env.mdns_queries t sock s.buffer advertise_buffer_capacity) t

module _ (env : Env) where
  pub deliver_globals-silent :
      (state : ClientState) (t : Trace) → silent (deliver_globals env state t).1 ≡ silent t
  deliver_globals-silent state t =
      ap (λ v. (v.0.0.0, v.0.0.1, v.0.0.2, v.0.0.3, v.1, v.2, v.0.6))
        (deliver_globals-hushed env 0 state t)

  pub advertise_respond_request-view :
      (s : Service) (sock : ℤ) (t : Trace)
      → view (advertise_respond_request env s sock t).1 ≡ view t
  advertise_respond_request-view s sock t =
      ap (λ v. v.0.0) (advertise_respond_request-still env 0 s sock t)
