-- ===== src/Advertise/Service/Heap.antt =====
-- src/advertise.c: the memory of the service, over its creation and its destruction.
use wlr_remote.Base.{ℕ, ◌+◌, ◌≡◌, arith, Option, none, some}
use wlr_remote.System.Event.{Trace}
use wlr_remote.System.Env.{Env}
use wlr_remote.System.Ledger.{heap}
use wlr_remote.Advertise.Types.{Service}
use wlr_remote.Advertise.Service.{advertise_create_service, advertise_destroy_service}
use wlr_remote.Advertise.Service.Blocks.{owned, destroy_service-heap}
use wlr_remote.Advertise.Service.Holder.{advertise_create_service-IsHolder}

module _ (p : ℕ) (env : Env) where
  -- For every block: it is allocated as often as before, and once more for each pointer of the
  -- service that is returned to it. So a failure at any point leaves nothing behind, and frees
  -- nothing twice.
  pub advertise_create_service-heap :
      (port : ℕ) (t : Trace)
      → let (made, t') = advertise_create_service env port t in heap p t' ≡ heap p t + owned p made
  advertise_create_service-heap port t = (advertise_create_service-IsHolder p env port t).taken

  destroy-owned :
      (c : Option Service × Trace) (t : Trace)
      → heap p c.1 ≡ heap p t + owned p c.0
      → heap p (advertise_destroy_service c.0 c.1).1 ≡ heap p t
  unfolding advertise_destroy_service
  destroy-owned (none, t') t h = omega arith
  destroy-owned (some s, t') t h = omega (arith, destroy_service-heap p s t')

  -- Destroying what was made, if anything, undoes its creation.
  pub advertise_destroy_service-create :
      (port : ℕ) (t : Trace)
      → let (made, t') = advertise_create_service env port t in
        heap p (advertise_destroy_service made t').1 ≡ heap p t
  advertise_destroy_service-create port t =
      destroy-owned (advertise_create_service env port t) t (advertise_create_service-heap port t)
