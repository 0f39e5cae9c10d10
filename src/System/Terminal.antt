-- ===== src/System/Terminal.antt =====
-- The terminal after a trace.
use wlr_remote.Base.{Bool, true, [], ◌∷◌}
use wlr_remote.System.Event.{Trace, tcsetattr}

-- Whether the terminal was last set to show what is typed.
abbrev pub echo_on : Trace → Bool
echo_on [] = true
echo_on (tcsetattr term r ∷ t) = term.echo
echo_on (_ ∷ t) = echo_on t
