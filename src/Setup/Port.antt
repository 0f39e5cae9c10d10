-- ===== src/Setup/Port.antt =====
-- src/setup.c, `setup_parse_port`.
use wlr_remote.Base.{
  ℕ, ◌^◌, ◌≤◌, ◌<◌, ◌≡◌, arith, List, [], ◌∷◌, ◌++◌, Bytes, ◌&&◌, ltb, leb, if◌then◌else◌,
}
use wlr_remote.Libc.Text.{decimal}
use wlr_remote.Libc.Decimal.{strtol-decimal}
use wlr_remote.System.Event.{Trace, log, invalid_port}
use wlr_remote.Setup.{setup_parse_port, default_port, uint16_max}

-- Whatever the arguments are, the port is a non-zero 16-bit number.
pub setup_parse_port_bounds :
    (argv : List Bytes) (t : Trace)
    → (0 < (setup_parse_port argv t).0) × ((setup_parse_port argv t).0 ≤ uint16_max)
unfolding setup_parse_port
setup_parse_port_bounds argv t = ground arith

-- A decimal number below 2 ^ 63 as the first argument is the port if it is from 1 to 65535, and
-- otherwise the default port is used, with a warning that shows the argument.
pub setup_parse_port-decimal :
    (program : Bytes) (n : ℕ) (others : List Bytes) (t : Trace)
    → n < 2 ^ 63
    → setup_parse_port (program ∷ (decimal n ++ 0 ∷ []) ∷ others) t ≡ (
        if ltb 0 n && leb n uint16_max
        then (n, t)
        else (default_port, log (invalid_port (decimal n ++ 0 ∷ [])) ∷ t))
unfolding setup_parse_port
setup_parse_port-decimal program n others t h = ground (arith, strtol-decimal n [] h)
