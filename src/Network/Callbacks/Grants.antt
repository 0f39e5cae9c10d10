-- ===== src/Network/Callbacks/Grants.antt =====
-- src/network.c, the handlers: whatever calls tinydtls makes, what it is given as a credential.
use wlr_remote.Base.{
  ℕ, zero, suc, ◌≤◌, ◌≡◌, ◌⊎◌, inl, inr, refl, arith, ◌&&◌, Option, some, [], ◌∷◌, Bytes, ◌==◌,
  length, take, ltb, bytes_eq, bytes_eq_iff, All, Bool-cases, Option-cases, ap,
}
use wlr_remote.System.Types.{
  ClientState, Session, Credential, psk_hint, psk_identity, psk_key, Callback, call_write,
  call_read, call_event, call_get_psk_info,
}
use wlr_remote.System.Event.{Trace, dtls_input, dtls_called, dtls_returned}
use wlr_remote.System.Env.{Env}
use wlr_remote.System.Grants.{grants}
use wlr_remote.Network.Callbacks.{
  psk_id, net_get_psk_info, net_dtls_callbacks, run_callbacks, dtls_handle_message,
}
use wlr_remote.Network.Callbacks.Calm.{
  net_handle_receive-calm, net_handle_send-calm, net_handle_event-calm,
}

module _ (key : Bytes) (len : ℕ) where
  -- Nothing was written; or the call asked for the key, named the program's identity and had room
  -- enough, and the key was written.
  abbrev pub IsGrant : Option Callback × Bytes → Type 0
  IsGrant (callback, written) =
      (written ≡ [])
      ⊎ ((session : Session) × (room : ℕ) × (callback
            ≡ some (call_get_psk_info session psk_key psk_id room))
          × (written ≡ take len key)
          × (len ≤ room))

  abbrev pub AllGranted : Trace → Type 0
  AllGranted t = All IsGrant (grants t)

-- The state has the key.
abbrev pub Keyed : Bytes → ℕ → ClientState → Type 0
Keyed key len state = (state.psk_key ≡ key) × (state.psk_key_len ≡ len)

module _ (env : Env) (state : ClientState) {key : Bytes} {len : ℕ} (has : Keyed key len state) where
  net_get_psk_info-IsGrant :
      (session : Session) (type : Credential) (id : Bytes) (room : ℕ)
      → IsGrant key len (
        some (call_get_psk_info session type id room),
        (net_get_psk_info env state type id room).1,
      )
  unfolding net_get_psk_info
  net_get_psk_info-IsGrant session psk_hint id room = inl refl
  net_get_psk_info-IsGrant session psk_identity id room = inl refl
  net_get_psk_info-IsGrant session psk_key id room =
      elim (Bool-cases (length id == length psk_id && bytes_eq id psk_id)) [
        | inr other ↦ rw (other, net_get_psk_info) (inl refl)
        | inl ours ↦ elim (Bool-cases (ltb room state.psk_key_len)) [
          | inl short ↦ rw (ours, short, net_get_psk_info) (inl refl)
          | inr fits ↦
              let (same_key, same_len) = has in
              let same : id ≡ psk_id = ground (arith, bytes_eq_iff id psk_id) in
              let asked_for = ap (λ x. some (call_get_psk_info session psk_key x room)) same in
              rw (ours, fits, net_get_psk_info) (inr (session, room, asked_for, cc, ground arith))
        ]
      ]

  net_dtls_callbacks-AllGranted :
      (c : Callback) (t : Trace)
      → AllGranted key len t
      → AllGranted key len (net_dtls_callbacks env state c (dtls_called c ∷ t)).1
  unfolding net_dtls_callbacks
  net_dtls_callbacks-AllGranted (call_write session buf) t h =
      rw
        (ap (λ x. x.1)
          (net_handle_send-calm 0 env state session buf (dtls_called (call_write session buf) ∷ t)))
        h
  net_dtls_callbacks-AllGranted (call_read session buf) t h =
      rw
        (ap (λ x. x.1)
          (net_handle_receive-calm 0 env state buf (dtls_called (call_read session buf) ∷ t)))
        h
  net_dtls_callbacks-AllGranted (call_event session level code) t h =
      rw
        (ap (λ x. x.1)
          (net_handle_event-calm 0 env state session level code
            (dtls_called (call_event session level code) ∷ t)))
        h
  net_dtls_callbacks-AllGranted (call_get_psk_info session type id room) t h =
      (net_get_psk_info-IsGrant session type id room, h)

  pub run_callbacks-AllGranted :
      (rounds : ℕ) (t : Trace)
      → AllGranted key len t
      → AllGranted key len (run_callbacks env rounds state t).1
  unfolding run_callbacks
  run_callbacks-AllGranted zero t h = h
  run_callbacks-AllGranted (suc rounds) t h = elim (Option-cases (env.dtls_next t)) [
    | inl over ↦ rw (over, run_callbacks) h
    | inr (c, next) ↦
        let (result, u) = net_dtls_callbacks env state c (dtls_called c ∷ t) in
        rw (next, run_callbacks)
          (run_callbacks-AllGranted rounds (dtls_returned result ∷ u)
            (net_dtls_callbacks-AllGranted c t h))
  ]

  pub dtls_handle_message-AllGranted :
      (session : Session) (buf : Bytes) (t : Trace)
      → AllGranted key len t
      → AllGranted key len (dtls_handle_message env state session buf t).1
  unfolding dtls_handle_message
  dtls_handle_message-AllGranted session buf t h =
      run_callbacks-AllGranted (env.dtls_rounds (dtls_input session buf ∷ t))
        (dtls_input session buf ∷ t) h
