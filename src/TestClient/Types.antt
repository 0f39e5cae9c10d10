-- ===== src/TestClient/Types.antt =====
-- src/test-client.c: its constants, its static variables and its surroundings.
use wlr_remote.Base.{ℕ, ◌+◌, Bool, Bytes}
use wlr_remote.Pointer.{codes}
use wlr_remote.System.Types.{Lookup, Selected}
use wlr_remote.System.Event.{Trace}
use wlr_remote.System.Env.{Env}

-- SERVER_PORT_STR, SERVER_IP, DELAY, ITERATIONS and PSK_ID.
abbrev pub server_port_str : Bytes
server_port_str = codes "39076"

abbrev pub server_ip : Bytes
server_ip = codes "127.0.0.1"

abbrev pub delay : ℕ
delay = 10000

abbrev pub iterations : ℕ
iterations = 50

abbrev pub client_psk_id : Bytes
client_psk_id = codes "wlr-remote"

-- The static variables `psk_key`, `psk_key_len` and `is_connected`.
pub record Vars : Type 0 where
  pub psk_key : Bytes
  pub psk_key_len : ℕ
  pub is_connected : Bool

-- The client's surroundings: those of a program, and its two other calls of the kernel.
pub record ClientEnv : Type 0 where
  pub base : Env
  pub lookup : Trace → Lookup
  pub select : Trace → Selected

-- PSK_BUFFER_SIZE.
abbrev pub client_buffer_size : ClientEnv → ℕ
client_buffer_size env = env.base.psk_max_key_len + 2
