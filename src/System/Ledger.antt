-- ===== src/System/Ledger.antt =====
-- What the program owes its surroundings after a trace: memory and descriptors.
use wlr_remote.Base.{ℕ, ◌+◌, ◌-◌, [], ◌∷◌, ◌==◌, if◌then◌else◌, ℤ, pos, is_neg}
use wlr_remote.System.Types.{Pointer, null, static_memory, allocated}
use wlr_remote.System.Event.{Trace, malloc, free, epoll_create, close, mdns_close}
use wlr_remote.System.Descriptors.{live, mark}

-- 1 where a pointer is to the block `p`.
abbrev pub points : Pointer → ℕ → ℕ
points null p = 0
points static_memory p = 0
points (allocated q) p = if q == p then 1 else 0

-- How often the block `p` is allocated after a trace: calls of `malloc` that returned it, less calls
-- of `free` on it.
abbrev pub heap : ℕ → Trace → ℕ
heap p [] = 0
heap p (malloc size q ∷ t) = heap p t + points q p
heap p (free q ∷ t) = heap p t - points q p
heap p (_ ∷ t) = heap p t

-- How often an epoll set was made with the descriptor `fd`.
abbrev pub epoll_sets : ℤ → Trace → ℕ
epoll_sets fd [] = 0
epoll_sets fd (epoll_create r ∷ t) = epoll_sets fd t + (if is_neg r then 0 else mark r fd)
epoll_sets fd (_ ∷ t) = epoll_sets fd t

-- How often the descriptor `pos n` was closed that was not open, or the block `n` freed that was not
-- allocated.
abbrev pub faults : ℕ → Trace → ℕ
faults n [] = 0
faults n (free q ∷ t) = faults n t + (points q n - heap n t)
faults n (close fd ∷ t) = faults n t + (mark fd (pos n) - live (pos n) t)
faults n (mdns_close fd ∷ t) = faults n t + (mark fd (pos n) - live (pos n) t)
faults n (_ ∷ t) = faults n t

-- The descriptor and the block that have the number `n`.
abbrev pub ledger : ℕ → Trace → ℕ × ℕ × ℕ × ℕ
ledger n t = (live (pos n) t, heap n t, epoll_sets (pos n) t, faults n t)
