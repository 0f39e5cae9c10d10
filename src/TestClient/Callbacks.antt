-- ===== src/TestClient/Callbacks.antt =====
-- src/test-client.c: the four handlers that it gives to tinydtls.
pub mod Agreement
pub mod Calm
use wlr_remote.Base.{
  ℕ, zero, suc, Bool, true, false, ◌&&◌, Option, none, some, Bytes, [], length, ltb, ◌==◌,
  if◌then◌else◌, take, ◌∷◌, ⊤, ℤ, pos, minus_one, to_int,
}
use wlr_remote.System.Types.{
  Session, Sent, sent_bytes, send_failed, Credential, psk_hint, psk_identity, psk_key,
  internal_error, Callback, call_write, call_read, call_event, call_get_psk_info,
}
use wlr_remote.System.Event.{
  sendto, dtls_called, dtls_returned, dtls_credential, received_event, small_key_buffer,
}
use wlr_remote.System.Monad.{M, pure, perform, emit, print, ◌>>=◌, ◌>>◌}
use wlr_remote.TestClient.Types.{Vars, ClientEnv, client_psk_id}

-- The `ssize_t` that `sendto` returns, as an `int`.
abbrev pub sent_result : Sent → ℤ
sent_result (sent_bytes n) = to_int n
sent_result (send_failed e) = minus_one

module _ (env : ClientEnv) where
  unfoldable pub net_handle_send : ℤ → Session → Bytes → M ℤ
  net_handle_send fd session buf = do
    sent ← perform (λ t. env.base.sendto t fd session buf) (sendto fd session buf)
    pure (sent_result sent)

  unfoldable pub net_handle_receive : Session → Bytes → M ℤ
  net_handle_receive session bytes = pure (pos 0)

  unfoldable pub net_handle_event : Vars → ℕ → ℕ → M (ℤ × Vars)
  net_handle_event vars level code =
      if level == 0 && code == env.base.event_connected
      then pure (pos 0, record vars { is_connected = true })
      else (do print (received_event level code); pure (pos 0, vars))

  -- The result, and the bytes written to tinydtls's buffer.
  unfoldable pub net_get_psk_info : Vars → Credential → ℕ → M (ℤ × Bytes)
  net_get_psk_info vars psk_identity result_length =
      if ltb result_length (length client_psk_id)
      then pure (env.base.alert_fatal internal_error, [])
      else pure (to_int (length client_psk_id), client_psk_id)
  net_get_psk_info vars psk_key result_length =
      if ltb result_length vars.psk_key_len
      then (do
        print (small_key_buffer result_length vars.psk_key_len)
        pure (env.base.alert_fatal internal_error, []))
      else pure (to_int vars.psk_key_len, take vars.psk_key_len vars.psk_key)
  net_get_psk_info vars psk_hint result_length = pure (env.base.alert_fatal internal_error, [])

  -- A call through the table `dtls_callbacks`.
  unfoldable pub dtls_callbacks : ℤ → Vars → Callback → M (ℤ × Vars)
  dtls_callbacks fd vars (call_write session buf) = do
    r ← net_handle_send fd session buf
    pure (r, vars)
  dtls_callbacks fd vars (call_read session buf) = do
    r ← net_handle_receive session buf
    pure (r, vars)
  dtls_callbacks fd vars (call_event session level code) = net_handle_event vars level code
  dtls_callbacks fd vars (call_get_psk_info session type id result_length) = do
    answer ← net_get_psk_info vars type result_length
    emit (dtls_credential answer.1)
    pure (answer.0, vars)

  -- The calls that tinydtls makes before one of its functions returns.
  unfoldable pub run_callbacks : ℕ → ℤ → Vars → M Vars
  run_callbacks zero fd vars t = (vars, t)
  run_callbacks (suc rounds) fd vars t = elim (env.base.dtls_next t) [
    | none ↦ (vars, t)
    | some callback ↦
        let ((result, vars'), u) = dtls_callbacks fd vars callback (dtls_called callback ∷ t) in
        run_callbacks rounds fd vars' (dtls_returned result ∷ u)
  ]

  -- A function of tinydtls at work, and its result.
  unfoldable pub dtls_proceeds : ℤ → Vars → M (ℤ × Vars)
  dtls_proceeds fd vars t =
      let (vars', u) = run_callbacks (env.base.dtls_rounds t) fd vars t in
      ((env.base.dtls_result u, vars'), u)
