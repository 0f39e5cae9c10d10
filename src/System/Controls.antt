-- ===== src/System/Controls.antt =====
-- What the program does to its epoll sets.
use wlr_remote.Base.{ℕ, ◌+◌, ℤ, List, [], ◌∷◌}
use wlr_remote.System.Event.{Trace, epoll_create, epoll_add, epoll_wait}

-- A set was created, or a descriptor was added to one, each with what the kernel returned; or a set
-- was waited on.
pub data Control : Type 0 where
  set_made : ℤ → Control
  fd_added : ℤ → ℤ → ℤ → Control
  waited : ℤ → Control

-- The newest first.
abbrev pub controls : Trace → List Control
controls [] = []
controls (epoll_create r ∷ t) = set_made r ∷ controls t
controls (epoll_add e fd r ∷ t) = fd_added e fd r ∷ controls t
controls (epoll_wait ep max w ∷ t) = waited ep ∷ controls t
controls (_ ∷ t) = controls t

-- How many of these are waits.
abbrev pub waits_in : List Control → ℕ
waits_in [] = 0
waits_in (set_made r ∷ rest) = waits_in rest
waits_in (fd_added e fd r ∷ rest) = waits_in rest
waits_in (waited e ∷ rest) = waits_in rest + 1
