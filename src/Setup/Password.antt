-- ===== src/Setup/Password.antt =====
-- src/setup.c, `setup_password`.
use wlr_remote.Base.{
  ℕ, ◌+◌, ◌-◌, ◌≤◌, ◌<◌, ◌≡◌, ◌≢◌, refl, ◌∙◌, arith, [], ◌∷◌, ◌++◌, Bytes, some, true, ◌&&◌, ltb,
  leb, length-append, length-set, if◌then◌else◌, length, get_or, set, take, All, Bool-cases,
  Option-cases, take-set_self, get_or-set_self, inl, inr,
}
use wlr_remote.Libc.Text.{strcspn, fgets}
use wlr_remote.Libc.Lines.{
  IsText, fgets-short, fgets-long, fgets_bounds, strcspn-line, strcspn-IsText, strcspn-terminated,
  set-end,
}
use wlr_remote.System.Event.{Trace}
use wlr_remote.System.Env.{Env}
use wlr_remote.System.Monad.{Run, returned, exited}
use wlr_remote.System.Terminal.{echo_on}
use wlr_remote.Setup.{psk_buffer_size, check_password, setup_password, exit_failure}

module _ (env : Env) where
  -- The outcome for a line of text, by its length.
  abbrev pub line_outcome : Bytes → Run (Bytes × ℕ)
  line_outcome p =
      if ltb 0 (length p) && leb (length p) env.psk_max_key_len
      then returned (p ++ 0 ∷ 0 ∷ [], length p)
      else exited exit_failure

  check_password-short :
      (p : Bytes) (t : Trace)
      → All IsText p
      → length p ≤ env.psk_max_key_len
      → (check_password env (some (p ++ b'\n' ∷ 0 ∷ [])) t).0 ≡ line_outcome p
  unfolding check_password
  check_password-short p t h hi =
      ground (arith, strcspn-line p b'\n' (0 ∷ []) h refl, set-end p b'\n' (0 ∷ []))

  check_password-full :
      (line : Bytes) (t : Trace)
      → All IsText line
      → length line ≡ psk_buffer_size env - 1
      → (check_password env (some (line ++ 0 ∷ [])) t).0 ≡ exited exit_failure
  unfolding check_password
  check_password-full line t h l = ground (arith, strcspn-line line 0 [] h refl)

  check_password-line :
      (p rest : Bytes) (t : Trace)
      → All IsText p
      → (check_password env (fgets (psk_buffer_size env) (p ++ b'\n' ∷ rest)) t).0 ≡ line_outcome p
  check_password-line p rest t h = elim (Bool-cases (leb (length p) env.psk_max_key_len)) [
    | inl fits ↦
        rw (fgets-short (psk_buffer_size env) p rest h (ground arith))
          (check_password-short p t h (ground arith))
    | inr long ↦
        let (line, read, text, len) =
          fgets-long (psk_buffer_size env) p (b'\n' ∷ rest) h (ground arith) (ground arith) in
        rw read (check_password-full line t text len ∙ ground arith)
  ]

  -- Where the input starts with a line of text, at whatever time it is read, the line is the key if
  -- it has at least one byte and at most the maximum, and the buffer holds it with a terminator;
  -- otherwise the process ends.
  pub setup_password-line :
      (p rest : Bytes) (t : Trace)
      → All IsText p
      → ((u : Trace) → env.stdin u ≡ p ++ b'\n' ∷ rest)
      → (setup_password env t).0 ≡ line_outcome p
  unfolding setup_password
  setup_password-line p rest t h input = rw (input _) (check_password-line p rest _ h)

  -- However the password is read, and also where the process ends, the last request to the terminal
  -- is to turn the echo on.
  pub setup_password-echo_on : (t : Trace) → echo_on (setup_password env t).1 ≡ true
  unfolding setup_password
  setup_password-echo_on t = ground arith

  -- What a password and the buffer that holds it satisfy.
  pub record IsKey (key : Bytes) (len : ℕ) : Type 0 where
    pub nonempty : 0 < len
    pub within : len ≤ env.psk_max_key_len
    pub buffer_fits : length key ≤ psk_buffer_size env
    pub terminated : get_or key len 1 ≡ 0
    pub text : All IsText (take len key)

  check_password-returned :
      (buffer key : Bytes) (len : ℕ) (t : Trace)
      → (check_password env (some buffer) t).0 ≡ returned (key, len)
      → (len ≡ strcspn b'\n' buffer)
        × (len ≢ env.psk_max_key_len + 1)
        × (0 < len)
        × (key ≡ set buffer len 0)
  unfolding check_password
  check_password-returned buffer key len t e = ground arith

  check_password-IsKey :
      (line key : Bytes) (len : ℕ) (t : Trace)
      → length line ≤ psk_buffer_size env - 1
      → (check_password env (some (line ++ 0 ∷ [])) t).0 ≡ returned (key, len)
      → IsKey key len
  check_password-IsKey line key len t l e =
      let buffer = line ++ 0 ∷ [] in
      let (found, short, lo, made) = check_password-returned buffer key len t e in
      let stops : len ≤ length line = rw found (strcspn-terminated line) in
      let size : length buffer ≡ length line + 1 = length-append line (0 ∷ []) in
      record {
        nonempty = lo;
        within = omega arith;
        buffer_fits = rw (made, length-set buffer len 0) (omega arith);
        terminated = rw made (get_or-set_self len buffer 0 1 (omega arith));
        text = rw (made, take-set_self len buffer 0, found) (strcspn-IsText buffer);
      }

  check_password-fgets :
      (input key : Bytes) (len : ℕ) (t : Trace)
      → (check_password env (fgets (psk_buffer_size env) input) t).0 ≡ returned (key, len)
      → IsKey key len
  check_password-fgets input key len t e = elim (Option-cases (fgets (psk_buffer_size env) input)) [
    | inl at_end ↦ absurd (unfold check_password in (cc (e, at_end)))
    | inr (buffer, filled) ↦
        let (line, shape, l) = fgets_bounds (psk_buffer_size env) input buffer filled in
        check_password-IsKey line key len t l (rw (filled, shape) at e)
  ]

  -- Whatever the input is, a password that is returned is not empty, not longer than the maximum,
  -- ends in its terminator inside the buffer, and holds no newline and no terminator.
  pub setup_password-IsKey :
      (t : Trace) (key : Bytes) (len : ℕ)
      → (setup_password env t).0 ≡ returned (key, len)
      → IsKey key len
  unfolding setup_password
  setup_password-IsKey t key len e = check_password-fgets _ key len _ e
