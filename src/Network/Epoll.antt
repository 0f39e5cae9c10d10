-- ===== src/Network/Epoll.antt =====
-- src/network.c, `net_setup_epoll`: the descriptors whose input the main loop waits for.
pub mod Faults
use wlr_remote.Base.{
  ◌⊎◌, inr, refl, ℕ, ◌+◌, ◌-◌, ◌≤◌, ◌≡◌, arith, false, not, ◌&&◌, List, [], ◌∷◌, ◌++◌,
  if◌then◌else◌, ℤ, pos, minus_one, is_neg, is_fd, eq_ℤ,
}
use wlr_remote.Pointer.{codes}
use wlr_remote.System.Types.{ClientState, Sockets}
use wlr_remote.System.Event.{Trace, epoll_create, epoll_add, close, perror}
use wlr_remote.System.Env.{Env}
use wlr_remote.System.Controls.{Control, set_made, fd_added, waited, controls}
use wlr_remote.System.Monad.{M, pure, perform, emit, print, when, ◌>>=◌, ◌>>◌}
use wlr_remote.System.Descriptors.{mark, live, holds}

-- `epoll_ctl (epoll_fd, EPOLL_CTL_ADD, fd, &ev)` with EPOLLIN and `ev.data.fd = fd`.
unfoldable pub epoll_ctl_add : Env → ℤ → ℤ → M ℤ
epoll_ctl_add env epoll_fd fd = perform (λ t. env.epoll_ctl t epoll_fd fd) (epoll_add epoll_fd fd)

-- The same where there is a descriptor.
unfoldable pub add_socket : Env → ℤ → ℤ → M ℤ
add_socket env epoll_fd fd = if is_fd fd then epoll_ctl_add env epoll_fd fd else pure (pos 0)

-- The label `err_close_fds`.
unfoldable pub err_close_fds : Sockets → ℤ → M ℤ
err_close_fds socks epoll_fd = do
  print (perror (codes "epoll_ctl"))
  when (is_fd socks.v4) (emit (close socks.v4))
  when (is_fd socks.v6) (emit (close socks.v6))
  emit (close epoll_fd)
  pure minus_one

module _ (env : Env) where
  unfoldable pub add_sockets : Sockets → ℤ → M ℤ
  add_sockets socks epoll_fd = do
    added_v4 ← add_socket env epoll_fd socks.v4
    if is_neg added_v4 then err_close_fds socks epoll_fd else (do
      added_v6 ← add_socket env epoll_fd socks.v6
      if is_neg added_v6 then err_close_fds socks epoll_fd else pure epoll_fd)

  unfoldable pub net_setup_epoll : ClientState → ℤ → M ℤ
  net_setup_epoll state wl_fd = do
    epoll_fd ← perform (λ t. env.epoll_create t) epoll_create
    if is_neg epoll_fd then (do print (perror (codes "epoll_create1")); pure minus_one) else (do
      added ← epoll_ctl_add env epoll_fd wl_fd
      if is_neg added then err_close_fds state.socks epoll_fd else add_sockets state.socks epoll_fd)

-- The descriptors that an epoll set watches after what was done to the sets, the newest first.
abbrev pub watched_by : ℤ → List Control → List ℤ
watched_by ep [] = []
watched_by ep (set_made r ∷ rest) = if eq_ℤ r ep then [] else watched_by ep rest
watched_by ep (fd_added e fd r ∷ rest) =
    if eq_ℤ e ep && not (is_neg r) then fd ∷ watched_by ep rest else watched_by ep rest
watched_by ep (waited e ∷ rest) = watched_by ep rest

-- For each wait what the set watched that was waited on.
abbrev pub attended_by : List Control → List (List ℤ)
attended_by [] = []
attended_by (set_made r ∷ rest) = attended_by rest
attended_by (fd_added e fd r ∷ rest) = attended_by rest
attended_by (waited e ∷ rest) = watched_by e rest ∷ attended_by rest

abbrev pub watched : ℤ → Trace → List ℤ
watched ep t = watched_by ep (controls t)

abbrev pub socket_list : ℤ → List ℤ
socket_list fd = if is_fd fd then fd ∷ [] else []

module _ (env : Env) (n : ℕ) where
  -- What a step does to the number of times that `pos n` is open, by its result.
  abbrev Outcome : Sockets → ℤ → Trace → ℤ × Trace → Type 0
  Outcome socks epoll_fd t (r, t') =
      ((r ≡ epoll_fd) × (live (pos n) t' ≡ live (pos n) t))
      ⊎ ((r ≡ minus_one)
          × (live (pos n) t' ≡ live (pos n) t - (holds (pos n) socks + mark epoll_fd (pos n))))

  add_socket-live :
      (epoll_fd fd : ℤ) (t : Trace) → live (pos n) (add_socket env epoll_fd fd t).1 ≡ live (pos n) t
  unfolding add_socket epoll_ctl_add
  add_socket-live epoll_fd fd t = ground arith

  err_close_fds-Outcome :
      (socks : Sockets) (epoll_fd : ℤ) (t : Trace)
      → Outcome socks epoll_fd t (err_close_fds socks epoll_fd t)
  unfolding err_close_fds
  err_close_fds-Outcome socks epoll_fd t = inr (refl, ground arith)

  add_sockets-Outcome :
      (socks : Sockets) (epoll_fd : ℤ) (t : Trace)
      → Outcome socks epoll_fd t (add_sockets env socks epoll_fd t)
  unfolding add_sockets
  add_sockets-Outcome socks epoll_fd t =
      let (r4, t4) = add_socket env epoll_fd socks.v4 t in
      let (r6, t6) = add_socket env epoll_fd socks.v6 t4 in
      ground (
        arith,
        add_socket-live epoll_fd socks.v4 t,
        add_socket-live epoll_fd socks.v6 t4,
        err_close_fds-Outcome socks epoll_fd t4,
        err_close_fds-Outcome socks epoll_fd t6,
      )

module _ (env : Env) (state : ClientState) (wl_fd : ℤ) (t : Trace) where
  -- If a descriptor is returned, its set watches the compositor's connection and each socket that
  -- there is, and nothing else.
  pub net_setup_epoll-watched :
      is_neg (net_setup_epoll env state wl_fd t).0 ≡ false
      → watched (net_setup_epoll env state wl_fd t).0 (net_setup_epoll env state wl_fd t).1
        ≡ socket_list state.socks.v6 ++ (socket_list state.socks.v4 ++ wl_fd ∷ [])
  unfolding net_setup_epoll epoll_ctl_add add_sockets add_socket err_close_fds
  net_setup_epoll-watched h = ground arith

  -- The sockets being open, for every descriptor number: on success the epoll set alone is open in
  -- addition; if an addition fails, the sockets and the set are closed; and if the set is not
  -- created, nothing is closed.
  pub net_setup_epoll-live :
      (n : ℕ)
      → holds (pos n) state.socks ≤ live (pos n) t
      → let (r, t') = net_setup_epoll env state wl_fd t in
        live (pos n) t' ≡ (
          if is_neg (env.epoll_create t)
          then live (pos n) t
          else if is_neg r
          then live (pos n) t - holds (pos n) state.socks
          else live (pos n) t + mark r (pos n))
  unfolding net_setup_epoll epoll_ctl_add
  net_setup_epoll-live n h =
      let epoll_fd = env.epoll_create t in
      let t1 = epoll_create epoll_fd ∷ t in
      let added = env.epoll_ctl t1 epoll_fd wl_fd in
      let t2 = epoll_add epoll_fd wl_fd added ∷ t1 in
      ground (
        arith,
        err_close_fds-Outcome env n state.socks epoll_fd t2,
        add_sockets-Outcome env n state.socks epoll_fd t2,
      )
