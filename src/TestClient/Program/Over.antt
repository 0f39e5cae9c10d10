-- ===== src/TestClient/Program/Over.antt =====
-- src/test-client.c, `main`: the end of the handshake and the label `cleanup`.
use wlr_remote.Base.{
  ap, ◌∙◌, ◌∷◌, ℕ, ◌≡◌, sym, arith, ◌⊎◌, inl, inr, true, Option, none, some, [], replicate,
  if◌then◌else◌, ℤ, pos,
}
use wlr_remote.System.Types.{Session}
use wlr_remote.System.Event.{Trace, dtls_free_context}
use wlr_remote.System.Objects.{contexts, lists}
use wlr_remote.System.Descriptors.{live}
use wlr_remote.Setup.{exit_failure}
use wlr_remote.Main.Cleanup.{exit_success}
use wlr_remote.TestClient.Types.{Vars, ClientEnv, iterations}
use wlr_remote.TestClient.Callbacks.Calm.{
  writes, was_connected, dtls_proceeds-calm, dtls_proceeds-IsCurrent, dtls_proceeds-connected,
}
use wlr_remote.TestClient.Program.{client_bytes, cleanup, send_packets, after_handshake}
use wlr_remote.TestClient.Program.Open.{IsOpen, send_packets-IsOpen, send_packets-connected}

module _ (env : ClientEnv) (n : ℕ) where
  -- The descriptor `pos n` is closed, the context and the lists of addresses are freed; the status
  -- says whether tinydtls reported the connection; and either no packet was written, or all were
  -- and the status is that of success.
  pub record IsOver (status : ℕ) (t : Trace) : Type 0 where
    pub closed : live (pos n) t ≡ 0
    pub freed : contexts t ≡ 0
    pub lists_freed : lists t ≡ 0
    pub reported : status ≡ (if was_connected env.base t then exit_success else exit_failure)
    pub sent :
        (writes t ≡ [])
        ⊎ ((writes t ≡ replicate iterations (client_bytes env)) × (status ≡ exit_success))

  -- The same of a run, where it returns.
  abbrev pub EndsWell : Option ℕ × Trace → Type 0
  EndsWell (none, t) = Unit
  EndsWell (some status, t) = IsOver status t

  pub cleanup-none :
      (fd : ℤ) (vars : Vars) (t : Trace)
      → IsOpen env n fd 0 vars t
      → let (status, t') = cleanup env fd vars t in IsOver status t'
  unfolding cleanup
  cleanup-none fd vars t h =
      let u = dtls_free_context ∷ t in
      let same = dtls_proceeds-calm env n fd vars u in
      record {
        closed = omega (arith, ap (λ v. v.0) same, h.socket_open);
        freed = ap (λ v. v.1) same ∙ omega (arith, h.context_open);
        lists_freed = ap (λ v. v.3) same ∙ h.lists_freed;
        reported = ground (arith, dtls_proceeds-IsCurrent env fd vars u h.current);
        sent = inl (ap (λ v. v.2) same ∙ h.written);
      }

  cleanup-all :
      (fd : ℤ) (vars : Vars) (t : Trace)
      → IsOpen env n fd iterations vars t
      → vars.is_connected ≡ true
      → let (status, t') = cleanup env fd vars t in IsOver status t'
  unfolding cleanup
  cleanup-all fd vars t h connected =
      let u = dtls_free_context ∷ t in
      let same = dtls_proceeds-calm env n fd vars u in
      record {
        closed = omega (arith, ap (λ v. v.0) same, h.socket_open);
        freed = ap (λ v. v.1) same ∙ omega (arith, h.context_open);
        lists_freed = ap (λ v. v.3) same ∙ h.lists_freed;
        reported = ground (arith, dtls_proceeds-IsCurrent env fd vars u h.current);
        sent = inr (
          ap (λ v. v.2) same ∙ h.written,
          ground (arith, dtls_proceeds-connected env fd vars u connected),
        );
      }

  pub after_handshake-EndsWell :
      (fd : ℤ) (session : Session) (vars : Vars) (t : Trace)
      → IsOpen env n fd 0 vars t
      → EndsWell (after_handshake env fd session (some vars) t)
  unfolding after_handshake
  after_handshake-EndsWell fd session vars t h =
      let (vars', u) = send_packets env iterations 0 fd session vars t in
      ground (
        arith,
        cleanup-all fd vars' u (send_packets-IsOpen env n fd iterations 0 0 session vars t h),
        send_packets-connected env n fd iterations 0 session vars t,
        cleanup-none fd vars t h,
      )

  pub EndsWell-IsOver :
      (c : Option ℕ × Trace) (status : ℕ) → EndsWell c → c.0 ≡ some status → IsOver status c.1
  EndsWell-IsOver (none, t) status h e = cc
  EndsWell-IsOver (some result, t) status h e = let same : result ≡ status = cc in rw (sym same) h
