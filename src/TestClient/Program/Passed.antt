-- ===== src/TestClient/Program/Passed.antt =====
-- src/test-client.c and src/main.c: a run of the client, and a run of the server that hears it.
use mathlib.Core.List.{Memᴰ}
use wlr_remote.Base.{
  ℕ, ◌≡◌, ◌<◌, ap, sym, ◌∙◌, arith, inl, inr, some, List, [], Bytes, length, All, All-replicate,
  All-none,
}
use wlr_remote.System.Env.{Env, FixedLaws}
use wlr_remote.Pointer.Commands.{requests}
use wlr_remote.Network.Callbacks.Played.{played, plaintexts, PlaintextLaws}
use wlr_remote.Main.Program as Server
use wlr_remote.Main.Served.Whole.{main-IsPlayed}
use wlr_remote.TestClient.Types.{ClientEnv, iterations}
use wlr_remote.TestClient.Callbacks.Calm.{writes}
use wlr_remote.TestClient.Program.{client_bytes, main}
use wlr_remote.TestClient.Program.Ends.{main-IsOver}
use wlr_remote.TestClient.Program.Drag.{strokes, played-replicate}

module _ (env : Env) (fixed : FixedLaws env) (laws : PlaintextLaws env) (cenv : ClientEnv) where
  -- The server's tinydtls passing on bytes, and its conversion to fixed point mapping 0 and no other
  -- distance in range to 0: if a run of the client returns, and what tinydtls passes on in a run of
  -- the server are packets that this client wrote, with any of them lost, repeated or out of order,
  -- then the pointer is asked for one motion by (10, 10) for each that is passed on, each in a frame
  -- of its own, and for nothing else; and if there is one, the client ends with success.
  pub main-strokes :
      (argv : List Bytes) (fuel client_fuel status : ℕ)
      → (main cenv client_fuel []).0 ≡ some status
      → let passed = plaintexts (Server.main env fuel argv []).1 in
        All (λ d. Memᴰ d (writes (main cenv client_fuel []).1)) passed
        → (requests (Server.main env fuel argv []).1 ≡ strokes env (length passed))
          × (0 < length passed → status ≡ 0)
  main-strokes argv fuel client_fuel status e heard =
      let passed = plaintexts (Server.main env fuel argv []).1 in
      let done = main-IsPlayed env fuel argv laws in
      elim (main-IsOver cenv 0 client_fuel status e).sent [
        | inl none_sent ↦
            let same : passed ≡ [] = All-none passed (rw none_sent at heard) in
            (
              done ∙ (ap (played env) same ∙ ap (λ ds. strokes env (length ds)) (sym same)),
              (λ h. absurd (ground (arith, same, h))),
            )
        | inr (all_sent, success) ↦
            let same = All-replicate iterations (client_bytes cenv) passed (rw all_sent at heard) in
            (
              done ∙ (ap (played env) same ∙ played-replicate env fixed cenv (length passed)),
              (λ h. success),
            )
      ]
