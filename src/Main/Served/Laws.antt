-- ===== src/Main/Served/Laws.antt =====
-- src/main.c: what the event loop asks of a statement that it is to keep.
use wlr_remote.Base.{◌≡◌, ℕ, Option, some, ℤ}
use wlr_remote.System.Types.{ClientState}
use wlr_remote.System.Event.{Trace}
use wlr_remote.System.Env.{Env}
use wlr_remote.System.Notices.{told}
use wlr_remote.Network.Receive.{net_handle_epoll}
use wlr_remote.Advertise.Types.{Service}
use wlr_remote.Advertise.Respond.{advertise_respond_request}
use wlr_remote.Main.Loop.{deliver_globals}
use wlr_remote.Main.Served.Silent.{view}
use wlr_remote.Main.Served.Invariant.{Invariant}
use wlr_remote.Main.Served.Serving.{advertise_respond_request-view}

-- What a statement on the traces has to be kept by, for the loop to keep it: by whatever the statement
-- is not about, by `net_handle_epoll`, and by the answers of the service, if there is one. What the
-- datagrams need of the state is kept by the globals that the compositor announces.
pub record LoopLaws (env : Env) (service : Option Service) : Type 1 where
  pub Fit : ClientState → Type 0
  pub Holds : Trace → Type 0
  pub by_globals :
      (state : ClientState) (t : Trace) → Fit state → Fit (deliver_globals env state t).0
  pub by_quiet : (t t' : Trace) → view t' ≡ view t → told t' ≡ told t → Holds t → Holds t'
  pub by_datagrams :
      (state : ClientState) (fuel : ℕ) (fd : ℤ) (t : Trace)
      → Fit state
      → Holds t
      → Holds (net_handle_epoll env fuel state fd t).1
  pub by_answers :
      (s : Service) (fd : ℤ) (t : Trace)
      → service ≡ some s
      → Holds t
      → Holds (advertise_respond_request env s fd t).1

-- A statement about the receiving side alone is kept by the answers.
abbrev pub loop_laws :
    (env : Env) → Invariant env → (service : Option Service) → LoopLaws env service
loop_laws env inv service = record {
  Fit = inv.Fit;
  Holds = inv.Holds;
  by_globals = inv.by_globals;
  by_quiet = λ t t' e same h. inv.by_view t t' e h;
  by_datagrams = inv.by_epoll;
  by_answers = λ s fd t e h. inv.by_view t _ (advertise_respond_request-view env s fd t) h;
}
