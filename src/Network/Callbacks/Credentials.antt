-- ===== src/Network/Callbacks/Credentials.antt =====
-- src/network.c, `net_get_psk_info`: who is given the key.
use wlr_remote.Base.{
  ◌↔◌, ◌⊎◌, ap, length-take_le, ℕ, ◌^◌, ◌≤◌, ◌<◌, ◌≡◌, ◌≢◌, refl, arith, true, false, [], Bytes,
  length, take, bytes_eq_iff, pos, is_neg,
}
use wlr_remote.System.Types.{
  ClientState, Credential, psk_hint, psk_identity, psk_key, Alert, internal_error,
  illegal_parameter,
}
use wlr_remote.System.Env.{Env}
use wlr_remote.Network.Callbacks.{net_get_psk_info, psk_id}

-- What `main` makes of a password: its length is that of the key, and fits an `int`.
pub record HasKey (state : ClientState) : Type 0 where
  pub in_buffer : state.psk_key_len ≤ length state.psk_key
  pub fits_int : state.psk_key_len < 2 ^ 31

-- What tinydtls documents of an alert as a result: it is negative.
pub record AlertLaws (env : Env) : Type 0 where
  pub alert_negative : (a : Alert) → is_neg (env.alert_fatal a) ≡ true

module _ (env : Env) (state : ClientState) (id : Bytes) (result_length : ℕ) where
  -- The key having the length that the state says, something is written only for a request of the
  -- key by the program's own identity, and then it is the key, whole and inside the caller's
  -- buffer.
  net_get_psk_info-written :
      (type : Credential)
      → HasKey state
      → (net_get_psk_info env state type id result_length).1 ≢ []
      → (type ≡ psk_key)
        × (id ≡ psk_id)
        × ((net_get_psk_info env state type id result_length).1
            ≡ take state.psk_key_len state.psk_key)
        × (length (net_get_psk_info env state type id result_length).1 ≤ result_length)
  unfolding net_get_psk_info
  net_get_psk_info-written psk_hint key ne = absurd (ne refl)
  net_get_psk_info-written psk_identity key ne = absurd (ne refl)
  net_get_psk_info-written psk_key key ne =
      ground (arith, bytes_eq_iff id psk_id, length-take_le state.psk_key_len state.psk_key)

  -- The answer to a request of the key is not negative exactly when the identity is the program's and
  -- the buffer is large enough; it is the key's length, or negative. The key has the length that the
  -- state says, and tinydtls's alerts are negative.
  pub net_get_psk_info_iff :
      HasKey state
      → AlertLaws env
      → let (result, written) = net_get_psk_info env state psk_key id result_length in
        ((is_neg result ≡ false) ↔ ((id ≡ psk_id) × (state.psk_key_len ≤ result_length)))
        × ((result ≡ pos state.psk_key_len) ⊎ (is_neg result ≡ true))
  unfolding net_get_psk_info
  net_get_psk_info_iff key alerts = ground (
    arith,
    bytes_eq_iff id psk_id,
    ap (length {A = ℕ}) {x = id} {y = psk_id},
    alerts.alert_negative internal_error,
    alerts.alert_negative illegal_parameter,
  )
