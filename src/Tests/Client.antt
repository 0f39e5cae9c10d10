-- ===== src/Tests/Client.antt =====
-- A run of the test client against a server that lets it in.
use wlr_remote.Base.{
  ltb, if◌then◌else◌, none, true, ℕ, ◌≡◌, refl, arith, some, [], ◌∷◌, ◌++◌, length, pos,
}
use wlr_remote.Libc.Text.{fgets, line_of}
use wlr_remote.Pointer.{codes}
use wlr_remote.System.Types.{
  AddrInfo, inet, found, timeout, selected, call_event, psk_identity, psk_key,
}
use wlr_remote.Network.Callbacks as Server
use wlr_remote.Main.Program.{initial_state}
use wlr_remote.TestClient.Types.{ClientEnv}
use wlr_remote.TestClient.Callbacks.{
  net_get_psk_info, net_handle_event, dtls_callbacks, run_callbacks, dtls_proceeds,
}
use wlr_remote.TestClient.Callbacks.Agreement.{IsPassword, net_get_psk_info-agree}
use wlr_remote.TestClient.Program.{
  read_vars, cleanup, send_packet, send_packets, handshake, after_select, take_datagram,
  after_handshake, connect_server, create_context, open_client, after_lookup, after_password, main,
}
use wlr_remote.TestClient.Callbacks.Calm.{selections}
use wlr_remote.TestClient.Program.Ends.{main-IsOver}
use wlr_remote.TestClient.Program.Over.{IsOver}
use wlr_remote.TestClient.Program.Total.{SilenceLaws, main-total}
use wlr_remote.Tests.World.{world, any_v4, peer}
use wlr_remote.Tests.Input.{password_runs}

abbrev loopback_server : AddrInfo
loopback_server = record { family = inet; socktype = 2; protocol = 17; addr = any_v4 }

-- tinydtls reports the connection at once, and again whenever it is called.
abbrev pub welcoming : ClientEnv
welcoming = record {
  base = record world { dtls_next = λ t. some (call_event peer 0 478) };
  lookup = λ t. found loopback_server 16;
  select = λ t. timeout;
}

-- tinydtls reports the connection once it was given the one datagram that `select` reports.
abbrev hesitant : ClientEnv
hesitant = record welcoming {
  base = record world {
    dtls_next = λ t. if ltb 0 (selections t) then some (call_event peer 0 478) else none;
  };
  select = λ t. if ltb 0 (selections t) then timeout else selected true;
}

hesitant-SilenceLaws : SilenceLaws hesitant 1
hesitant-SilenceLaws = record { silent = λ t b e. ground arith }

main-total_example : (status : ℕ) × ((main hesitant 2 []).0 ≡ some status)
main-total_example = main-total hesitant 1 2 hesitant-SilenceLaws (omega arith)

-- The handshake takes a round, and the connection is made in it.
hesitant_runs : (main hesitant 2 []).0 ≡ some 0
unfolding main fgets after_password after_lookup open_client create_context connect_server
    dtls_proceeds after_handshake handshake after_select take_datagram run_callbacks dtls_callbacks
    net_handle_event cleanup send_packets send_packet
hesitant_runs = refl

pub client_runs : (main welcoming 1 []).0 ≡ some 0
unfolding main fgets after_password after_lookup open_client create_context connect_server
    dtls_proceeds after_handshake handshake run_callbacks dtls_callbacks net_handle_event cleanup
    send_packets send_packet
client_runs = refl

main-IsOver_example : IsOver welcoming 3 0 (main welcoming 1 []).1
main-IsOver_example = main-IsOver welcoming 3 1 0 client_runs

-- The world's password is typed on both sides.
hunter-IsPassword : IsPassword world welcoming (codes "hunter2")
hunter-IsPassword = record {
  same_max = refl;
  max_int = omega arith;
  text = omega arith;
  nonempty = omega arith;
  fits = omega arith;
}

client_reads : fgets 18 (codes "hunter2" ++ b'\n' ∷ []) ≡ some (codes "hunter2\n" ++ 0 ∷ [])
unfolding fgets line_of
client_reads = refl

net_get_psk_info-agree_example :
    let vars = read_vars (codes "hunter2\n" ++ 0 ∷ []) in
    let (named, id) = (net_get_psk_info welcoming vars psk_identity 16 []).0 in
    (named ≡ pos (length id))
    × (Server.net_get_psk_info world (initial_state (codes "hunter2" ++ 0 ∷ 0 ∷ []) 7) psk_key id 16
        ≡ (pos 7, codes "hunter2"))
    × ((net_get_psk_info welcoming vars psk_key 16 []).0 ≡ (pos 7, codes "hunter2"))
net_get_psk_info-agree_example =
    net_get_psk_info-agree world welcoming (codes "hunter2") [] [] hunter-IsPassword [] []
      (codes "hunter2" ++ 0 ∷ 0 ∷ []) (codes "hunter2\n" ++ 0 ∷ []) 7 16 16 16 (λ v. refl)
      password_runs client_reads (omega arith) (omega arith) (omega arith)
