-- ===== src/TestClient/Program/Ends.antt =====
-- src/test-client.c, `main`: what is left behind, and what the exit status says.
use wlr_remote.Base.{
  ℕ, ◌≡◌, refl, ap, sym, ◌∙◌, arith, inl, inr, true, false, Option, none, some, Bool-cases,
  Option-cases, [], ◌∷◌, Bytes, set, ℤ, pos, is_neg,
}
use wlr_remote.System.Types.{AddrInfo, Session, Lookup, found, lookup_failed}
use wlr_remote.System.Event.{
  Trace, log, socket, freeaddrinfo, dtls_init, dtls_new_context, dtls_set_handler, dtls_connect,
  lookup, fgets, enter_password, connect_failed, handshaking,
}
use wlr_remote.Libc.Text as Text
use wlr_remote.Libc.Text.{strcspn}
use wlr_remote.System.Objects.{contexts, lists}
use wlr_remote.System.Descriptors.{live, mark}
use wlr_remote.Setup.{exit_failure}
use wlr_remote.TestClient.Types.{Vars, ClientEnv, client_buffer_size, server_ip, server_port_str}
use wlr_remote.TestClient.Callbacks.{dtls_proceeds}
use wlr_remote.TestClient.Callbacks.Calm.{writes, was_connected, resources}
use wlr_remote.TestClient.Program.{
  again, handshake, after_handshake, connect_server, create_context, open_client, after_lookup,
  after_password, main,
}
use wlr_remote.TestClient.Program.Open.{IsOpen, IsOpen-same, dtls_proceeds-IsOpen, handshake-IsOpen}
use wlr_remote.TestClient.Program.Over.{
  IsOver, EndsWell, cleanup-none, after_handshake-EndsWell, EndsWell-IsOver,
}

-- The trace behind the call of `getaddrinfo`.
abbrev answered : Lookup → Trace → Trace
answered answer t = lookup server_ip server_port_str answer ∷ t

module _ (env : ClientEnv) (n : ℕ) where
  -- Nothing is open, and nothing was connected or written.
  record IsNew (t : Trace) : Type 0 where
    none_open : live (pos n) t ≡ 0
    no_context : contexts t ≡ 0
    no_lists : lists t ≡ 0
    unconnected : was_connected env.base t ≡ false
    unwritten : writes t ≡ []

  IsNew-same :
      (t t' : Trace)
      → resources n t' ≡ resources n t
      → was_connected env.base t' ≡ was_connected env.base t
      → IsNew t
      → IsNew t'
  IsNew-same t t' same still h = record {
    none_open = ap (λ v. v.0) same ∙ h.none_open;
    no_context = ap (λ v. v.1) same ∙ h.no_context;
    no_lists = ap (λ v. v.3) same ∙ h.no_lists;
    unconnected = still ∙ h.unconnected;
    unwritten = ap (λ v. v.2) same ∙ h.unwritten;
  }

  IsOver-failure : (t : Trace) → IsNew t → IsOver env n exit_failure t
  IsOver-failure t h = record {
    closed = h.none_open;
    freed = h.no_context;
    lists_freed = h.no_lists;
    reported = ground (arith, h.unconnected);
    sent = inl h.unwritten;
  }

  module _ (fuel : ℕ) where
    connect_server-EndsWell :
        (fd : ℤ) (session : Session) (vars : Vars) (t : Trace)
        → IsOpen env n fd 0 vars t
        → EndsWell env n (connect_server env fuel fd session vars t)
    unfolding connect_server
    connect_server-EndsWell fd session vars t h =
        let t' = dtls_connect session ∷ t in
        let ((r, vars'), u) = dtls_proceeds env fd vars t' in
        let at_u =
          dtls_proceeds-IsOpen env n fd 0 vars t' (IsOpen-same env n fd 0 vars t t' refl refl h) in
        let (done, v) = handshake env fuel fd (again vars') (log handshaking ∷ u) in
        let begun = IsOpen-same env n fd 0 vars' u (log handshaking ∷ u) refl refl at_u in
        let failing = IsOpen-same env n fd 0 vars' u (log connect_failed ∷ u) refl refl at_u in
        elim (Bool-cases (is_neg r)) [
          | inl bad ↦
              rw (bad, connect_server)
                (cleanup-none env n fd vars' (log connect_failed ∷ u) failing)
          | inr good ↦ elim (Option-cases done) [
            | inl more ↦ rw (good, connect_server, more) (unfold after_handshake in tt)
            | inr (vars'', over) ↦
                rw (good, connect_server, over)
                  (after_handshake-EndsWell env n fd session vars'' v (
                    handshake-IsOpen env n fd 0 fuel (again vars') (log handshaking ∷ u) vars''
                      begun over))
          ]
        ]

    create_context-EndsWell :
        (fd : ℤ) (session : Session) (vars : Vars) (t : Trace)
        → live (pos n) t ≡ mark fd (pos n)
        → contexts t ≡ 0
        → lists t ≡ 0
        → writes t ≡ []
        → was_connected env.base t ≡ false
        → vars.is_connected ≡ false
        → EndsWell env n (create_context env fuel fd session vars t)
    unfolding create_context
    create_context-EndsWell fd session vars t live_one no_context no_lists unwritten unconnected
          fresh =
        let made = env.base.dtls_new_context (dtls_init ∷ t) in
        let u = dtls_new_context made ∷ dtls_init ∷ t in
        elim (Bool-cases made) [
          | inl yes' ↦
              rw (yes', create_context)
                (connect_server-EndsWell fd session vars
                  (dtls_set_handler ∷ dtls_new_context true ∷ dtls_init ∷ t)
                  (record {
                    socket_open = live_one;
                    context_open = omega arith;
                    current = fresh ∙ sym unconnected;
                    written = unwritten;
                    lists_freed = no_lists;
                  }))
          | inr no' ↦
              rw (no', create_context)
                (IsOver-failure _ (record {
                  none_open = omega arith;
                  no_context = omega arith;
                  no_lists = no_lists;
                  unconnected = unconnected;
                  unwritten = unwritten;
                }))
        ]

    open_client-EndsWell :
        (head : AddrInfo) (addrlen : ℕ) (vars : Vars) (t : Trace)
        → IsNew t
        → vars.is_connected ≡ false
        → EndsWell env n (open_client env fuel head addrlen vars (answered (found head addrlen) t))
    unfolding open_client
    open_client-EndsWell head addrlen vars t h fresh =
        let t' = answered (found head addrlen) t in
        let fd = env.base.socket t' head in
        let u = socket head.family head.socktype head.protocol fd ∷ t' in
        elim (Bool-cases (is_neg fd)) [
          | inl bad ↦
              rw (bad, open_client) (IsOver-failure _ (IsNew-same t _ (ground arith) refl h))
          | inr good ↦
              rw (good, open_client)
                (create_context-EndsWell fd (record { addr = head.addr; size = addrlen }) vars
                  (freeaddrinfo ∷ u) (ground (arith, h.none_open)) h.no_context
                  (omega (arith, h.no_lists)) h.unwritten h.unconnected fresh)
        ]

    after_lookup-EndsWell :
        (vars : Vars) (r : Lookup) (t : Trace)
        → IsNew t
        → vars.is_connected ≡ false
        → EndsWell env n (after_lookup env fuel vars r (answered r t))
    unfolding after_lookup
    after_lookup-EndsWell vars (lookup_failed code) t h fresh =
        IsOver-failure _ (IsNew-same t _ refl refl h)
    after_lookup-EndsWell vars (found head addrlen) t h fresh =
        open_client-EndsWell head addrlen vars t h fresh

    after_password-EndsWell :
        (key : Option Bytes) (t : Trace) → IsNew t → EndsWell env n (after_password env fuel key t)
    unfolding after_password
    after_password-EndsWell none t h = IsOver-failure t h
    after_password-EndsWell (some key) t h =
        let answer = env.lookup t in
        let len = strcspn b'\n' key in
        let vars : Vars = record {
          psk_key = set key len 0;
          psk_key_len = len;
          is_connected = false;
        } in
        after_lookup-EndsWell vars answer t h refl

    -- In a run of the client that returns, every descriptor that it opened is closed, the context
    -- and the list of addresses are freed; the status is that of success exactly if tinydtls
    -- reported the connection; and either no packet was written, or all fifty were and the status
    -- is that of success.
    pub main-IsOver :
        (status : ℕ) → (main env fuel []).0 ≡ some status → IsOver env n status (main env fuel []).1
    unfolding main
    main-IsOver status e =
        let t = fgets ∷ log enter_password ∷ [] in
        let key = Text.fgets (client_buffer_size env) (env.base.stdin (log enter_password ∷ [])) in
        let begin : IsNew t = record {
          none_open = refl;
          no_context = refl;
          no_lists = refl;
          unconnected = refl;
          unwritten = refl;
        } in
        EndsWell-IsOver env n (after_password env fuel key t) status
          (after_password-EndsWell key t begin) e
