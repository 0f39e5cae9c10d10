-- ===== src/Advertise/Service/Own.antt =====
-- src/advertise.c, the two announcements: they tell the service's own records alone.
use wlr_remote.Base.{
  ℕ, Bool, ◌≡◌, refl, List, ◌∷◌, ◌++◌, All-append, Bool-cases, inl, inr, ℤ, is_fd,
}
use wlr_remote.System.Types.{MdnsRecord, Pointer}
use wlr_remote.System.Event.{Trace, Event, mdns_announce, mdns_goodbye}
use wlr_remote.System.Notices.{told}
use wlr_remote.System.Monad.{when, emit}
use wlr_remote.Advertise.Types.{Service, advertise_buffer_capacity}
use wlr_remote.Advertise.Records.{recordtype_ptr}
use wlr_remote.Advertise.Records.Additional.{companions, build_additional-companions}
use wlr_remote.Advertise.Records.Own.{IsOwn, own_ptr, AllOwn, companions-own}
use wlr_remote.Advertise.Service.{
  advertise_announce, advertise_announce_service, advertise_announce_goodbye,
}

module _ (s : Service) where
  advertise_announce-own :
      (callback : ℤ → Pointer → ℕ → MdnsRecord → List MdnsRecord → Event) (t : Trace)
      → ((fd : ℤ) (r : MdnsRecord) (extra : List MdnsRecord) (u : Trace)
          → told (callback fd s.buffer advertise_buffer_capacity r extra ∷ u) ≡ r ∷ extra ++ told u)
      → AllOwn s (told t)
      → AllOwn s (told (advertise_announce callback s t).1)
  unfolding advertise_announce
  advertise_announce-own callback t tells k =
      let extra = companions s recordtype_ptr in
      let all = companions-own s recordtype_ptr in
      let more : (fd : ℤ) (u : Trace)
          → AllOwn s (told u)
          → AllOwn s
              (told (callback fd s.buffer advertise_buffer_capacity s.record_ptr extra ∷ u)) =
        λ fd u h.
          rw (tells fd s.record_ptr extra u) (own_ptr, All-append (IsOwn s) extra (told u) all h) in
      let once : (b : Bool) (fd : ℤ) (u : Trace)
          → AllOwn s (told u)
          → AllOwn s (
              told
                (when b (emit (callback fd s.buffer advertise_buffer_capacity s.record_ptr extra))
                  u).1) =
        λ b fd u h. elim (Bool-cases b) [ inl yes' ↦ rw yes' (more fd u h) | inr no' ↦ rw no' h ] in
      rw (build_additional-companions s recordtype_ptr t).0
        (once (is_fd s.socks.v6) s.socks.v6 _ (once (is_fd s.socks.v4) s.socks.v4 t k))

  pub advertise_announce_service-own :
      (t : Trace) → AllOwn s (told t) → AllOwn s (told (advertise_announce_service s t).1)
  unfolding advertise_announce_service
  advertise_announce_service-own t = advertise_announce-own mdns_announce t (λ fd r extra u. refl)

  pub advertise_announce_goodbye-own :
      (t : Trace) → AllOwn s (told t) → AllOwn s (told (advertise_announce_goodbye s t).1)
  unfolding advertise_announce_goodbye
  advertise_announce_goodbye-own t = advertise_announce-own mdns_goodbye t (λ fd r extra u. refl)
