-- ===== src/Main/Served/Invariant.antt =====
-- What a statement on the traces of the program has to be kept by, for it to hold of whole runs.
use wlr_remote.Base.{ℕ, ◌≡◌, ap, sym, ◌∙◌, ℤ}
use wlr_remote.System.Types.{ClientState}
use wlr_remote.System.Event.{Trace}
use wlr_remote.System.Env.{Env}
use wlr_remote.Base.{true}
use wlr_remote.Network.Receive.Calm.{net_handle_epoll-held}
use wlr_remote.System.Terminal.{echo_on}
use wlr_remote.Network.Callbacks.{run_callbacks}
use wlr_remote.Network.Callbacks.Quiet.{run_callbacks-IsQuiet}
use wlr_remote.Network.Callbacks.Calm.{run_callbacks-held}
use wlr_remote.Network.Callbacks.Played.{run_callbacks-IsPlayed, IsPlayed, PlaintextLaws, played}
use wlr_remote.Network.Receive.{net_handle_epoll}
use wlr_remote.Network.Receive.Delivery.{fitting, IsServed, net_handle_epoll-IsServed}
use wlr_remote.Network.Receive.Played.{net_handle_epoll-IsPlayed}
use wlr_remote.Main.Loop.{deliver_globals}
use wlr_remote.Main.Served.Silent.{view, silent}

-- A statement about the view alone that `net_handle_epoll` keeps, and any calls that tinydtls makes, in a state that fits; the globals
-- that the compositor announces leave it so.
pub record Invariant (env : Env) : Type 1 where
  pub Fit : ClientState → Type 0
  pub Holds : Trace → Type 0
  pub by_globals :
      (state : ClientState) (t : Trace) → Fit state → Fit (deliver_globals env state t).0
  pub by_view : (t t' : Trace) → view t' ≡ view t → Holds t → Holds t'
  pub by_epoll :
      (state : ClientState) (fuel : ℕ) (fd : ℤ) (t : Trace)
      → Fit state
      → Holds t
      → Holds (net_handle_epoll env fuel state fd t).1
  pub by_callbacks :
      (state : ClientState) (rounds : ℕ) (t : Trace)
      → Fit state
      → Holds t
      → Holds (run_callbacks env rounds state t).1

pub IsServed-view : (env : Env) (t t' : Trace) → view t' ≡ view t → IsServed env t → IsServed env t'
IsServed-view env t t' e h = record {
  handed = ap (λ v. v.1) e ∙ (h.handed ∙ ap (λ v. fitting env.dtls_max_buf v.0) (sym e));
  framed = ap (λ v. v.2) e ∙ h.framed;
}

pub IsPlayed-view : (env : Env) (t t' : Trace) → view t' ≡ view t → IsPlayed env t → IsPlayed env t'
IsPlayed-view env t t' e h = ap (λ v. v.3) e ∙ (h ∙ ap (λ v. played env v.4) (sym e))

abbrev pub served : (env : Env) → Invariant env
served env = record {
  Fit = λ state. Unit;
  by_globals = λ state t fit. tt;
  Holds = IsServed env;
  by_view = IsServed-view env;
  by_epoll = λ state fuel fd t fit h. net_handle_epoll-IsServed env state fuel fd t h;
  by_callbacks = λ state rounds t fit h.
      let quiet = run_callbacks-IsQuiet env state rounds t in
      record {
        handed =
            quiet.handed_same
            ∙ (h.handed ∙ ap (fitting env.dtls_max_buf) (sym quiet.received_same));
        framed = quiet.framed h.framed;
      };
}

abbrev pub faithful : (env : Env) → PlaintextLaws env → Invariant env
faithful env laws = record {
  Fit = λ state. Unit;
  by_globals = λ state t fit. tt;
  Holds = IsPlayed env;
  by_view = IsPlayed-view env;
  by_epoll = λ state fuel fd t fit h. net_handle_epoll-IsPlayed env laws state fuel fd t h;
  by_callbacks = λ state rounds t fit h. run_callbacks-IsPlayed env state rounds t laws h;
}

-- The echo of the terminal is on.
abbrev pub visible : (env : Env) → Invariant env
visible env = record {
  Fit = λ state. Unit;
  by_globals = λ state t fit. tt;
  Holds = λ t. echo_on t ≡ true;
  by_view = λ t t' e h. ap (λ v. v.5) e ∙ h;
  by_epoll =
      λ state fuel fd t fit h. ap (λ x. x.7) (net_handle_epoll-held 0 env state fuel fd t) ∙ h;
  by_callbacks =
      λ state rounds t fit h. ap (λ x. x.7) (run_callbacks-held 0 env state rounds t) ∙ h;
}

module _ {env : Env} (inv : Invariant env) where
  pub by_silent : (t t' : Trace) → silent t' ≡ silent t → inv.Holds t → inv.Holds t'
  by_silent t t' same h = inv.by_view t t' (ap (λ v. v.0) same) h
