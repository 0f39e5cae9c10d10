-- ===== src/Network/Sockets/Port.antt =====
-- src/network.c, `port_str`, and src/setup.c, `setup_parse_port`: the port that is asked for.
use wlr_remote.Base.{
  ℕ, ◌+◌, ◌≡◌, ◌≤◌, ◌<◌, ◌^◌, arith, Bytes, List, [], ◌∷◌, ◌++◌, length, length-append, pos,
}
use wlr_remote.Libc.Text.{decimal, strtol}
use wlr_remote.Libc.Decimal.{strtol-decimal, length-decimal}
use wlr_remote.Libc.Prints.{snprintf-fits}
use wlr_remote.System.Event.{Trace}
use wlr_remote.Setup.{setup_parse_port}
use wlr_remote.Setup.Port.{setup_parse_port_bounds}
use wlr_remote.Network.Sockets.{port_str, port_str_size}

port_str-decimal : (port : ℕ) → port < 2 ^ 16 → port_str port ≡ decimal port ++ 0 ∷ []
unfolding port_str
port_str-decimal port h =
    snprintf-fits port_str_size (decimal port) (omega (arith, length-decimal port h))

-- Whatever the arguments are, the port that they give is printed into its buffer of six bytes with
-- its terminator and with no digit lost: read back as a number, the text is the port.
pub port_str-setup_parse_port :
    (argv : List Bytes) (t : Trace)
    → let port = (setup_parse_port argv t).0 in
      (length (port_str port) ≤ port_str_size) × (strtol (port_str port) ≡ pos port)
port_str-setup_parse_port argv t =
    let port = (setup_parse_port argv t).0 in
    let bound : port < 2 ^ 16 = omega (arith, setup_parse_port_bounds argv t) in
    let count : length (decimal port ++ 0 ∷ []) ≡ length (decimal port) + 1 =
      length-append (decimal port) (0 ∷ []) in
    rw (port_str-decimal port bound)
      (omega (arith, count, length-decimal port bound), strtol-decimal port [] (omega arith))
