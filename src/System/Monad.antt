-- ===== src/System/Monad.antt =====
-- Actions: functions of the trace that answer and extend it. `emit` is an effect with no answer.
use wlr_remote.Base.{ℕ, ⊤, Bool, ◌∷◌, if◌then◌else◌}
use wlr_remote.System.Event.{Event, log, Log, Trace}

abbrev pub M : Type 0 → Type 0
M A = Trace → A × Trace

module _ {A : Type 0} where
  abbrev pub pure : A → M A
  pure a t = (a, t)

  -- An effect whose answer depends on the trace, and the event that records both.
  abbrev pub perform : (Trace → A) → (A → Event) → M A
  perform answer event t = (answer t, event (answer t) ∷ t)

infixl 5 ◌>>=◌ ◌>>◌
abbrev pub ◌>>=◌ : {A B : Type 0} → M A → (A → M B) → M B
◌>>=◌ m f t = f (m t).0 (m t).1

abbrev pub ◌>>◌ : {A B : Type 0} → M A → M B → M B
◌>>◌ m k t = k (m t).1

abbrev pub emit : Event → M ⊤
emit e t = (tt, e ∷ t)

abbrev pub print : Log → M ⊤
print message = emit (log message)

abbrev pub skip : M ⊤
skip = pure tt

-- `if (b) { … }`
abbrev pub when : Bool → M ⊤ → M ⊤
when b m = if b then m else skip

-- A call that returns, or ends the process with a status.
pub data Run (A : Type 0) : Type 0 where
  returned : A → Run A
  exited : ℕ → Run A
