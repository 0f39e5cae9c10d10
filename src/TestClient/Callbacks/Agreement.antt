-- ===== src/TestClient/Callbacks/Agreement.antt =====
-- src/test-client.c and src/network.c, `net_get_psk_info`: the two sides of the handshake.
use wlr_remote.Base.{
  ℕ, ◌≡◌, ◌≤◌, ◌<◌, ◌^◌, refl, ap, arith, some, false, Bytes, [], ◌∷◌, ◌++◌, length, take, All,
  bytes_eq_iff, pos, to_int,
}
use wlr_remote.Libc.Text.{fgets}
use wlr_remote.Libc.Lines.{IsText, fgets-short, strcspn-line, set-end}
use wlr_remote.System.Types.{psk_identity, psk_key}
use wlr_remote.System.Event.{Trace}
use wlr_remote.System.Env.{Env}
use wlr_remote.System.Monad.{returned}
use wlr_remote.Setup.{setup_password}
use wlr_remote.Setup.Password.{setup_password-line}
use wlr_remote.Network.Callbacks as Server
use wlr_remote.Main.Program.{initial_state}
use wlr_remote.TestClient.Types.{Vars, ClientEnv, client_psk_id, client_buffer_size}
use wlr_remote.TestClient.Callbacks.{net_get_psk_info}
use wlr_remote.TestClient.Program.{read_vars}

take-append : (p s : Bytes) → take (length p) (p ++ s) ≡ p
take-append [] s = refl
take-append (b ∷ p) s = ap (◌∷◌ b) (take-append p s)

-- A line of text that the client reads whole.
read_vars-line :
    (p : Bytes)
    → All IsText p
    → read_vars (p ++ b'\n' ∷ 0 ∷ [])
      ≡ record { psk_key = p ++ 0 ∷ 0 ∷ []; psk_key_len = length p; is_connected = false }
read_vars-line p text = rw (strcspn-line p b'\n' (0 ∷ []) text refl, set-end p b'\n' (0 ∷ [])) refl

-- A password: a line of text that fits the buffers.
pub record IsPassword (env : Env) (cenv : ClientEnv) (p : Bytes) : Type 0 where
  pub same_max : cenv.base.psk_max_key_len ≡ env.psk_max_key_len
  pub max_int : env.psk_max_key_len < 2 ^ 31
  pub text : All IsText p
  pub nonempty : 0 < length p
  pub fits : length p ≤ env.psk_max_key_len

module _ (env : Env) (cenv : ClientEnv) (p rest crest : Bytes)
    (is_password : IsPassword env cenv p) where
  server_key :
      (t : Trace) (key : Bytes) (len : ℕ)
      → ((u : Trace) → env.stdin u ≡ p ++ b'\n' ∷ rest)
      → (setup_password env t).0 ≡ returned (key, len)
      → (key ≡ p ++ 0 ∷ 0 ∷ []) × (len ≡ length p)
  server_key t key len input made =
      let line = setup_password-line env p rest t is_password.text input in
      ground (arith, line, is_password.nonempty, is_password.fits)

  client_vars :
      (buffer : Bytes)
      → fgets (client_buffer_size cenv) (p ++ b'\n' ∷ crest) ≡ some buffer
      → read_vars buffer
        ≡ record { psk_key = p ++ 0 ∷ 0 ∷ []; psk_key_len = length p; is_connected = false }
  client_vars buffer made =
      let short =
        fgets-short (client_buffer_size cenv) p crest is_password.text
          (omega (arith, is_password.same_max, is_password.fits)) in
      let same : buffer ≡ p ++ b'\n' ∷ 0 ∷ [] = cc in rw same (read_vars-line p is_password.text)

  int_length : to_int (length p) ≡ pos (length p)
  int_length = ground (arith, is_password.fits, is_password.max_int)

  server_answer :
      (key : Bytes) (len room : ℕ)
      → (key ≡ p ++ 0 ∷ 0 ∷ []) × (len ≡ length p)
      → length p ≤ room
      → Server.net_get_psk_info env (initial_state key len) psk_key Server.psk_id room
        ≡ (pos (length p), p)
  unfolding Server.net_get_psk_info
  server_answer key len room e fits =
      rw (e.0, e.1)
        (ground
          (arith, bytes_eq_iff Server.psk_id Server.psk_id, take-append p (0 ∷ 0 ∷ []), int_length))

  client_answer :
      (vars : Vars) (room : ℕ) (u : Trace)
      → vars ≡ record { psk_key = p ++ 0 ∷ 0 ∷ []; psk_key_len = length p; is_connected = false }
      → length p ≤ room
      → (net_get_psk_info cenv vars psk_key room u).0 ≡ (pos (length p), p)
  unfolding net_get_psk_info
  client_answer vars room u e fits = rw e (ground (arith, take-append p (0 ∷ 0 ∷ []), int_length))

  client_identity :
      (vars : Vars) (room : ℕ) (u : Trace)
      → length client_psk_id ≤ room
      → (net_get_psk_info cenv vars psk_identity room u).0 ≡ (pos 10, client_psk_id)
  unfolding net_get_psk_info
  client_identity vars room u fits = ground arith

  -- Both sides being given the same line as the password, and as large a maximum: for the identity
  -- that the client names, given room for it, the server hands out the key, given room for it, and it
  -- is the client's key, the line itself.
  pub net_get_psk_info-agree :
      (t u : Trace) (key buffer : Bytes) (len room_id room_key room : ℕ)
      → ((v : Trace) → env.stdin v ≡ p ++ b'\n' ∷ rest)
      → (setup_password env t).0 ≡ returned (key, len)
      → fgets (client_buffer_size cenv) (p ++ b'\n' ∷ crest) ≡ some buffer
      → length client_psk_id ≤ room_id
      → length p ≤ room_key
      → length p ≤ room
      → let vars = read_vars buffer in
        let (named, id) = (net_get_psk_info cenv vars psk_identity room_id u).0 in
        (named ≡ pos (length id))
        × (Server.net_get_psk_info env (initial_state key len) psk_key id room
            ≡ (pos (length p), p))
        × ((net_get_psk_info cenv vars psk_key room_key u).0 ≡ (pos (length p), p))
  net_get_psk_info-agree t u key buffer len room_id room_key room input made read fits_id fits_key
        fits =
      let vars = read_vars buffer in
      rw (client_identity vars room_id u fits_id) (
        refl,
        server_answer key len room (server_key t key len input made) fits,
        client_answer vars room_key u (client_vars buffer read) fits_key,
      )
