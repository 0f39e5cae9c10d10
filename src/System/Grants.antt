-- ===== src/System/Grants.antt =====
-- What tinydtls was given as credentials.
use wlr_remote.Base.{List, [], ◌∷◌, Option, none, some, Bytes}
use wlr_remote.System.Types.{Callback}
use wlr_remote.System.Event.{Trace, dtls_called, dtls_credential}

-- The call that tinydtls is waiting for, if the newest event is one.
abbrev pub asked : Trace → Option Callback
asked [] = none
asked (dtls_called callback ∷ t) = some callback
asked (_ ∷ t) = none

-- The bytes that were written for tinydtls, each with the call that asked for them, the newest first.
abbrev pub grants : Trace → List (Option Callback × Bytes)
grants [] = []
grants (dtls_credential written ∷ t) = (asked t, written) ∷ grants t
grants (_ ∷ t) = grants t
