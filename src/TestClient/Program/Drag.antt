-- ===== src/TestClient/Program/Drag.antt =====
-- src/test-client.c, `main`: what its packets ask of a server.
use wlr_remote.Base.{
  ℕ, zero, suc, ◌≡◌, refl, ap, ◌∙◌, arith, ◌⊎◌, inl, inr, some, List, [], ◌∷◌, replicate, pos, eq_ℤ,
  eq_ℤ_iff, false,
}
use wlr_remote.Libc.ByteOrder.{Endian, little, big, htonl, htons}
use wlr_remote.Packet.{store_packet, packet_to_network}
use wlr_remote.System.Env.{Env, FixedLaws}
use wlr_remote.Pointer.Commands.{Request, move, frame}
use wlr_remote.Network.Callbacks.Played.{meaning, played}
use wlr_remote.TestClient.Types.{ClientEnv, iterations}
use wlr_remote.TestClient.Callbacks.Calm.{writes}
use wlr_remote.TestClient.Program.{client_packet, client_bytes, main}
use wlr_remote.TestClient.Program.Ends.{main-IsOver}

-- `n` motions by (10, 10), each in a frame of its own.
abbrev pub strokes : Env → ℕ → List Request
strokes env zero = []
strokes env (suc n) =
    frame ∷ move (env.fixed_from_int (pos 10)) (env.fixed_from_int (pos 10)) ∷ strokes env n

client_bytes-wire :
    (e : Endian)
    → store_packet e (packet_to_network e client_packet)
      ≡ 0 ∷ 0 ∷ 0 ∷ 10 ∷ 0 ∷ 0 ∷ 0 ∷ 10 ∷ 0 ∷ 0 ∷ 0 ∷ 0 ∷ []
unfolding store_packet packet_to_network htonl htons
client_bytes-wire little = refl
client_bytes-wire big = refl

module _ (env : Env) (fixed : FixedLaws env) (cenv : ClientEnv) where
  fixed_ten_ne_zero : eq_ℤ (env.fixed_from_int (pos 10)) (pos 0) ≡ false
  fixed_ten_ne_zero =
      let ten = env.fixed_from_int (pos 10) in
      ground (arith, eq_ℤ_iff ten (pos 0), fixed.fixed_ne_zero (pos 10) (omega arith))

  meaning-client_bytes : meaning env (client_bytes cenv) ≡ strokes env 1
  meaning-client_bytes =
      rw (client_bytes-wire cenv.base.host_order) (ground (arith, fixed_ten_ne_zero))

  pub played-replicate : (n : ℕ) → played env (replicate n (client_bytes cenv)) ≡ strokes env n
  played-replicate zero = refl
  played-replicate (suc n) = ground (arith, meaning-client_bytes, played-replicate n)

  -- If a run of the client returns and its plaintexts reach a server, whatever the byte order of
  -- either, then the server's pointer is asked for nothing, or for fifty motions by (10, 10), each
  -- in a frame of its own, and for these only where the client ends with success. The server's
  -- conversion to fixed point maps 0 and no other distance in range to 0.
  pub played-main :
      (fuel status : ℕ)
      → (main cenv fuel []).0 ≡ some status
      → let sent = writes (main cenv fuel []).1 in
        (played env sent ≡ []) ⊎ ((played env sent ≡ strokes env iterations) × (status ≡ 0))
  played-main fuel status e = elim (main-IsOver cenv 0 fuel status e).sent [
    | inl none_sent ↦ inl (ap (played env) none_sent)
    | inr (all_sent, success) ↦
        inr (ap (played env) all_sent ∙ played-replicate iterations, success)
  ]
