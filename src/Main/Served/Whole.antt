-- ===== src/Main/Served/Whole.antt =====
-- src/main.c: the whole program.
use wlr_remote.Base.{ℕ, List, [], Bytes, refl}
use wlr_remote.System.Env.{Env}
use wlr_remote.Base.{true, ◌≡◌}
use wlr_remote.System.Terminal.{echo_on}
use wlr_remote.Network.Callbacks.Played.{IsPlayed, PlaintextLaws}
use wlr_remote.Network.Receive.Delivery.{IsServed}
use wlr_remote.Main.Program.{main}
use wlr_remote.Main.Served.Invariant.{served, faithful, visible}
use wlr_remote.Main.Served.Parts.{main-Holds}

module _ (env : Env) (fuel : ℕ) where
  -- Whatever the arguments, the input, the kernel, the compositor and the peers are: in a run of the
  -- program, cut off after any number of rounds or complete, exactly the datagrams received that fit
  -- tinydtls's buffer were handed to it, each once and in order, and the requests to the pointer make
  -- up whole frames.
  pub main-IsServed : (argv : List Bytes) → IsServed env (main env fuel argv []).1
  main-IsServed argv =
      main-Holds env (served env) fuel argv (λ state. tt) (record { handed = refl; framed = refl })

  -- tinydtls passing on bytes: in a run of the program, cut off after any number of rounds or
  -- complete, the requests to the pointer are exactly those of the packets that the plaintexts which
  -- tinydtls passed on stand for, in their order. A packet that is accepted stands for its button,
  -- its motion, each if there is one, and a frame; any other plaintext stands for nothing.
  pub main-IsPlayed :
      (argv : List Bytes) → PlaintextLaws env → IsPlayed env (main env fuel argv []).1
  main-IsPlayed argv laws = main-Holds env (faithful env laws) fuel argv (λ state. tt) refl

  -- Whatever happens: after a run of the program, cut off after any number of rounds or complete, by
  -- whichever of its exits, also where the password is refused, the last request that was made to the
  -- terminal is to turn the echo on.
  pub main-echo_on : (argv : List Bytes) → echo_on (main env fuel argv []).1 ≡ true
  main-echo_on argv = main-Holds env (visible env) fuel argv (λ state. tt) refl
