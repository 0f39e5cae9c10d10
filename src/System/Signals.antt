-- ===== src/System/Signals.antt =====
-- The program's handlers of signals.
use wlr_remote.Base.{ℕ, Bool, false, Option, none, some, List, [], ◌∷◌, ◌==◌, if◌then◌else◌}
use wlr_remote.System.Event.{Trace, sigaction}
use wlr_remote.System.Env.{Env}

-- A handler, as a function of the signal and of what it finds in `quit`.
abbrev pub Handler : Type 0
Handler = ℕ → Bool → Bool

-- The handlers that were installed, each for a signal, the newest first.
abbrev pub handlers : Trace → List (ℕ × Handler)
handlers [] = []
handlers (sigaction signum handler ∷ t) = (signum, handler) ∷ handlers t
handlers (_ ∷ t) = handlers t

abbrev pub handler_of : ℕ → List (ℕ × Handler) → Option Handler
handler_of signum [] = none
handler_of signum ((s, handler) ∷ rest) =
    if s == signum then some handler else handler_of signum rest

-- What a handler makes of `quit`; a signal that has none does nothing to it.
abbrev pub handled_by : ℕ → Option Handler → Bool → Bool
handled_by signum none quit = quit
handled_by signum (some handler) quit = handler signum quit

-- `quit` after the handlers were called for signals.
abbrev pub quit_after : List (ℕ × Handler) → List ℕ → Bool
quit_after installed [] = false
quit_after installed (signum ∷ earlier) =
    handled_by signum (handler_of signum installed) (quit_after installed earlier)

-- `quit`, which the program reads between its calls.
abbrev pub quit_is_set : Env → Trace → Bool
quit_is_set env t = quit_after (handlers t) (env.signals t)
