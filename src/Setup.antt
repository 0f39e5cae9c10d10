-- ===== src/Setup.antt =====
-- src/setup.c: signals, the port argument and the password.
pub mod Port
pub mod Password
use wlr_remote.Base.{
  ℕ, ◌+◌, ◌-◌, Bool, true, false, ◌&&◌, List, [], ◌∷◌, Bytes, Option, none, some, length, get_or,
  set, leb, ◌==◌, if◌then◌else◌, ⊤, ℤ, pos, pos_part, ltb_ℤ, leb_ℤ, is_neg,
}
use wlr_remote.Libc.Text.{strcspn, strtol}
use wlr_remote.Libc.Text
use wlr_remote.System.Event.{
  tcgetattr, tcsetattr, fgets, sigaction, invalid_port, create_password, echo_not_disabled, newline,
  password_unread, password_too_long, password_empty,
}
use wlr_remote.System.Env.{Env}
use wlr_remote.System.Types.{Termios}
use wlr_remote.System.Monad.{
  M, Run, returned, exited, pure, perform, emit, print, when, ◌>>=◌, ◌>>◌,
}

-- SIGINT and SIGTERM.
abbrev pub sigint : ℕ
sigint = 2

abbrev pub sigterm : ℕ
sigterm = 15

-- The handler of both: the new value of `quit`.
unfoldable pub handle_signal : ℕ → Bool → Bool
handle_signal signum quit = true

unfoldable pub setup_signals : M ⊤
setup_signals = do emit (sigaction sigint handle_signal); emit (sigaction sigterm handle_signal)

abbrev pub default_port : ℕ
default_port = 39076

abbrev pub uint16_max : ℕ
uint16_max = 65535

abbrev pub exit_failure : ℕ
exit_failure = 1

-- `argc` is the length of `argv`.
unfoldable pub setup_parse_port : List Bytes → M ℕ
setup_parse_port argv =
    if leb (length argv) 1
    then pure default_port
    else (let arg = get_or argv 1 [] in
        let input = strtol arg in
        if ltb_ℤ (pos 0) input && leb_ℤ input (pos uint16_max)
        then pure (pos_part input)
        else (do print (invalid_port arg); pure default_port))

module _ (env : Env) where
  abbrev pub psk_buffer_size : ℕ
  psk_buffer_size = env.psk_max_key_len + 2

  -- `tcgetattr`, with what `term` holds then, and what is returned; the program does not look at that.
  get_term : M (Termios × ℤ)
  get_term = perform (λ t. env.tcgetattr t) tcgetattr

  set_term : Termios → M ℤ
  set_term term = perform (λ t. env.tcsetattr t term) (tcsetattr term)

  read_password : M (Option Bytes)
  read_password t = (Text.fgets psk_buffer_size (env.stdin t), fgets ∷ t)

  -- What is done with the buffer: the key, which starts the buffer, and its length.
  check_password : Option Bytes → M (Run (Bytes × ℕ))
  check_password none = do print password_unread; pure (exited exit_failure)
  check_password (some psk_key) =
      let len = strcspn b'\n' psk_key in
      if len == psk_buffer_size - 1
      then (do print password_too_long; pure (exited exit_failure))
      else if len == 0
      then (do print password_empty; pure (exited exit_failure))
      else pure (returned (set psk_key len 0, len))

  unfoldable pub setup_password : M (Run (Bytes × ℕ))
  unfolding get_term set_term read_password check_password
  setup_password = do
    got ← get_term
    print create_password
    off ← set_term (record got.0 { echo = false })
    when (is_neg off) (print echo_not_disabled)
    res ← read_password
    set_term (record got.0 { echo = true })
    print newline
    check_password res
