-- ===== src/TestClient/Callbacks/Calm.antt =====
-- src/test-client.c, the handlers: they open and close nothing, send no packet of their own, and
-- `is_connected` says whether tinydtls reported the connection.
use wlr_remote.Base.{
  ℕ, zero, suc, ◌≡◌, refl, ◌∙◌, arith, Bool, true, false, ◌&&◌, ◌||◌, Option-cases, inl, inr, List,
  [], ◌∷◌, Bytes, ◌==◌, ℤ, pos,
}
use wlr_remote.System.Types.{
  psk_hint, psk_identity, psk_key, Callback, call_write, call_read, call_event, call_get_psk_info,
  selected,
}
use wlr_remote.System.Event.{Trace, select, dtls_write, dtls_called, dtls_returned}
use wlr_remote.System.Env.{Env}
use wlr_remote.System.Descriptors.{live}
use wlr_remote.System.Objects.{contexts, lists}
use wlr_remote.TestClient.Types.{Vars, ClientEnv}
use wlr_remote.TestClient.Callbacks.{
  net_handle_send, net_handle_receive, net_handle_event, net_get_psk_info, dtls_callbacks,
  run_callbacks, dtls_proceeds,
}

-- The plaintexts that the program gave to `dtls_write`, the newest first.
abbrev pub writes : Trace → List Bytes
writes [] = []
writes (dtls_write s d ∷ t) = d ∷ writes t
writes (_ ∷ t) = writes t

-- Whether tinydtls has reported that the handshake is complete.
abbrev pub was_connected : Env → Trace → Bool
was_connected env [] = false
was_connected env (dtls_called (call_event s level code) ∷ t) =
    level == 0 && code == env.event_connected || was_connected env t
was_connected env (_ ∷ t) = was_connected env t

-- What the handlers leave alone, for the descriptor `pos n`.
abbrev pub resources : ℕ → Trace → ℕ × ℕ × List Bytes × ℕ
resources n t = (live (pos n) t, contexts t, writes t, lists t)

-- How often `select` reported a descriptor.
abbrev pub selections : Trace → ℕ
selections [] = 0
selections (select (selected b) ∷ t) = suc (selections t)
selections (_ ∷ t) = selections t

-- The same with that count.
abbrev pub calm : ℕ → Trace → ℕ × ℕ × List Bytes × ℕ × ℕ
calm n t = (live (pos n) t, contexts t, writes t, lists t, selections t)

module _ (env : ClientEnv) where
  abbrev pub IsCurrent : Vars × Trace → Type 0
  IsCurrent (vars, t) = vars.is_connected ≡ was_connected env.base t

  dtls_callbacks-calm :
      (n : ℕ) (fd : ℤ) (vars : Vars) (c : Callback) (t : Trace)
      → calm n (dtls_callbacks env fd vars c t).1 ≡ calm n t
  unfolding dtls_callbacks net_handle_send net_handle_receive net_handle_event net_get_psk_info
  dtls_callbacks-calm n fd vars (call_write s buf) t = refl
  dtls_callbacks-calm n fd vars (call_read s d) t = refl
  dtls_callbacks-calm n fd vars (call_event s level code) t = ground arith
  dtls_callbacks-calm n fd vars (call_get_psk_info s psk_hint id len) t = refl
  dtls_callbacks-calm n fd vars (call_get_psk_info s psk_identity id len) t = ground arith
  dtls_callbacks-calm n fd vars (call_get_psk_info s psk_key id len) t = ground arith

  dtls_callbacks-IsCurrent :
      (fd : ℤ) (vars : Vars) (c : Callback) (t : Trace)
      → IsCurrent (vars, t)
      → let ((r, vars'), t') = dtls_callbacks env fd vars c (dtls_called c ∷ t) in
        IsCurrent (vars', t')
  unfolding dtls_callbacks net_handle_send net_handle_receive net_handle_event net_get_psk_info
  dtls_callbacks-IsCurrent fd vars (call_write s buf) t h = h
  dtls_callbacks-IsCurrent fd vars (call_read s d) t h = h
  dtls_callbacks-IsCurrent fd vars (call_event s level code) t h = ground arith
  dtls_callbacks-IsCurrent fd vars (call_get_psk_info s psk_hint id len) t h = h
  dtls_callbacks-IsCurrent fd vars (call_get_psk_info s psk_identity id len) t h = ground arith
  dtls_callbacks-IsCurrent fd vars (call_get_psk_info s psk_key id len) t h = ground arith

  run_callbacks-calm :
      (n rounds : ℕ) (fd : ℤ) (vars : Vars) (t : Trace)
      → calm n (run_callbacks env rounds fd vars t).1 ≡ calm n t
  unfolding run_callbacks
  run_callbacks-calm n zero fd vars t = refl
  run_callbacks-calm n (suc rounds) fd vars t = elim (Option-cases (env.base.dtls_next t)) [
    | inl over ↦ rw (over, run_callbacks) refl
    | inr (c, next) ↦
        let ((r, vars'), u) = dtls_callbacks env fd vars c (dtls_called c ∷ t) in
        rw (next, run_callbacks)
          (run_callbacks-calm n rounds fd vars' (dtls_returned r ∷ u)
            ∙ dtls_callbacks-calm n fd vars c (dtls_called c ∷ t))
  ]

  run_callbacks-IsCurrent :
      (rounds : ℕ) (fd : ℤ) (vars : Vars) (t : Trace)
      → IsCurrent (vars, t)
      → IsCurrent (run_callbacks env rounds fd vars t)
  unfolding run_callbacks
  run_callbacks-IsCurrent zero fd vars t h = h
  run_callbacks-IsCurrent (suc rounds) fd vars t h = elim (Option-cases (env.base.dtls_next t)) [
    | inl over ↦ rw (over, run_callbacks) h
    | inr (c, next) ↦
        let ((r, vars'), u) = dtls_callbacks env fd vars c (dtls_called c ∷ t) in
        rw (next, run_callbacks)
          (run_callbacks-IsCurrent rounds fd vars' (dtls_returned r ∷ u)
            (dtls_callbacks-IsCurrent fd vars c t h))
  ]

  pub dtls_proceeds-calm :
      (n : ℕ) (fd : ℤ) (vars : Vars) (t : Trace) → calm n (dtls_proceeds env fd vars t).1 ≡ calm n t
  unfolding dtls_proceeds
  dtls_proceeds-calm n fd vars t = run_callbacks-calm n (env.base.dtls_rounds t) fd vars t

  pub dtls_proceeds-IsCurrent :
      (fd : ℤ) (vars : Vars) (t : Trace)
      → IsCurrent (vars, t)
      → let ((r, vars'), t') = dtls_proceeds env fd vars t in IsCurrent (vars', t')
  unfolding dtls_proceeds
  dtls_proceeds-IsCurrent fd vars t h = run_callbacks-IsCurrent (env.base.dtls_rounds t) fd vars t h

  -- Once connected, always connected.
  dtls_callbacks-connected :
      (fd : ℤ) (vars : Vars) (c : Callback) (t : Trace)
      → vars.is_connected ≡ true
      → (dtls_callbacks env fd vars c t).0.1.is_connected ≡ true
  unfolding dtls_callbacks net_handle_send net_handle_receive net_handle_event net_get_psk_info
  dtls_callbacks-connected fd vars (call_write s buf) t h = h
  dtls_callbacks-connected fd vars (call_read s d) t h = h
  dtls_callbacks-connected fd vars (call_event s level code) t h = ground arith
  dtls_callbacks-connected fd vars (call_get_psk_info s type id len) t h = h

  run_callbacks-connected :
      (rounds : ℕ) (fd : ℤ) (vars : Vars) (t : Trace)
      → vars.is_connected ≡ true
      → (run_callbacks env rounds fd vars t).0.is_connected ≡ true
  unfolding run_callbacks
  run_callbacks-connected zero fd vars t h = h
  run_callbacks-connected (suc rounds) fd vars t h = elim (Option-cases (env.base.dtls_next t)) [
    | inl over ↦ rw (over, run_callbacks) h
    | inr (c, next) ↦
        let t' = dtls_called c ∷ t in
        let ((r, vars'), u) = dtls_callbacks env fd vars c t' in
        rw (next, run_callbacks)
          (run_callbacks-connected rounds fd vars' (dtls_returned r ∷ u)
            (dtls_callbacks-connected fd vars c t' h))
  ]

  pub dtls_proceeds-connected :
      (fd : ℤ) (vars : Vars) (t : Trace)
      → vars.is_connected ≡ true
      → (dtls_proceeds env fd vars t).0.1.is_connected ≡ true
  unfolding dtls_proceeds
  dtls_proceeds-connected fd vars t h = run_callbacks-connected (env.base.dtls_rounds t) fd vars t h
