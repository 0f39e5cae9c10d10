-- ===== src/TestClient/Program/Open.antt =====
-- src/test-client.c, `main`: what holds while the client has its socket and its context.
use wlr_remote.Base.{
  ℕ, zero, suc, ◌+◌, ◌≡◌, refl, ap, sym, ◌∙◌, arith, true, false, some, Bool-cases, inl, inr, ◌∷◌,
  take, replicate, ℤ, pos,
}
use wlr_remote.System.Types.{
  Session, Received, datagram, recv_failed, Selected, selected, timeout, select_failed,
}
use wlr_remote.System.Event.{Trace, select, recvfrom, dtls_write, dtls_input}
use wlr_remote.System.Objects.{contexts, lists}
use wlr_remote.System.Descriptors.{live, mark}
use wlr_remote.TestClient.Types.{Vars, ClientEnv}
use wlr_remote.TestClient.Callbacks.{dtls_proceeds}
use wlr_remote.TestClient.Callbacks.Calm.{
  writes, was_connected, resources, dtls_proceeds-calm, dtls_proceeds-IsCurrent,
  dtls_proceeds-connected,
}
use wlr_remote.TestClient.Program.{
  Turn, again, leave, client_bytes, send_packet, send_packets, take_datagram, after_select,
  handshake,
}

abbrev pub vars_of : Turn → Vars
vars_of (again vars) = vars
vars_of (leave vars) = vars

module _ (env : ClientEnv) (n : ℕ) (fd : ℤ) where
  -- The socket is open once, there is one context, `is_connected` is up to date, `k` packets were
  -- written, and no list of addresses is left.
  pub record IsOpen (k : ℕ) (vars : Vars) (t : Trace) : Type 0 where
    pub socket_open : live (pos n) t ≡ mark fd (pos n)
    pub context_open : contexts t ≡ 1
    pub current : vars.is_connected ≡ was_connected env.base t
    pub written : writes t ≡ replicate k (client_bytes env)
    pub lists_freed : lists t ≡ 0

  pub IsOpen-same :
      (k : ℕ) (vars : Vars) (t t' : Trace)
      → resources n t' ≡ resources n t
      → was_connected env.base t' ≡ was_connected env.base t
      → IsOpen k vars t
      → IsOpen k vars t'
  IsOpen-same k vars t t' same still h = record {
    socket_open = ap (λ v. v.0) same ∙ h.socket_open;
    context_open = ap (λ v. v.1) same ∙ h.context_open;
    current = h.current ∙ sym still;
    written = ap (λ v. v.2) same ∙ h.written;
    lists_freed = ap (λ v. v.3) same ∙ h.lists_freed;
  }

  pub dtls_proceeds-IsOpen :
      (k : ℕ) (vars : Vars) (t : Trace)
      → IsOpen k vars t
      → let ((r, vars'), t') = dtls_proceeds env fd vars t in IsOpen k vars' t'
  dtls_proceeds-IsOpen k vars t h =
      let same = dtls_proceeds-calm env n fd vars t in
      record {
        socket_open = ap (λ v. v.0) same ∙ h.socket_open;
        context_open = ap (λ v. v.1) same ∙ h.context_open;
        current = dtls_proceeds-IsCurrent env fd vars t h.current;
        written = ap (λ v. v.2) same ∙ h.written;
        lists_freed = ap (λ v. v.3) same ∙ h.lists_freed;
      }

  send_packet-IsOpen :
      (k i : ℕ) (session : Session) (vars : Vars) (t : Trace)
      → IsOpen k vars t
      → let (vars', t') = send_packet env fd session i vars t in IsOpen (suc k) vars' t'
  unfolding send_packet
  send_packet-IsOpen k i session vars t h =
      let u = dtls_write session (client_bytes env) ∷ t in
      let begun : IsOpen (suc k) vars u = record {
        socket_open = h.socket_open;
        context_open = h.context_open;
        current = h.current;
        written = ap (◌∷◌ (client_bytes env)) h.written;
        lists_freed = h.lists_freed;
      } in
      IsOpen-same (suc k) _ _ _ refl refl (dtls_proceeds-IsOpen (suc k) vars u begun)

  pub send_packets-IsOpen :
      (left k i : ℕ) (session : Session) (vars : Vars) (t : Trace)
      → IsOpen k vars t
      → let (vars', t') = send_packets env left i fd session vars t in IsOpen (left + k) vars' t'
  unfolding send_packets
  send_packets-IsOpen zero k i session vars t h = let same : 0 + k ≡ k = omega arith in rw same h
  send_packets-IsOpen (suc left) k i session vars t h =
      let (vars', u) = send_packet env fd session i vars t in
      let shift : suc left + k ≡ left + suc k = omega arith in
      rw shift (
        send_packets-IsOpen left (suc k) (i + 1) session vars' u
          (send_packet-IsOpen k i session vars t h))

  pub send_packets-connected :
      (left i : ℕ) (session : Session) (vars : Vars) (t : Trace)
      → vars.is_connected ≡ true
      → (send_packets env left i fd session vars t).0.is_connected ≡ true
  unfolding send_packets send_packet
  send_packets-connected zero i session vars t h = h
  send_packets-connected (suc left) i session vars t h =
      let (vars', u) = send_packet env fd session i vars t in
      send_packets-connected left (i + 1) session vars' u (dtls_proceeds-connected env fd vars _ h)

  take_datagram-IsOpen :
      (k : ℕ) (vars : Vars) (r : Received) (t : Trace)
      → IsOpen k vars t
      → let (vars', t') = take_datagram env fd vars r t in IsOpen k vars' t'
  unfolding take_datagram
  take_datagram-IsOpen k vars (recv_failed e) t h = h
  take_datagram-IsOpen k vars (datagram s b) t h =
      let buf = take env.base.dtls_max_buf b in
      let begun = IsOpen-same k vars t (dtls_input s buf ∷ t) refl refl h in
      ground (arith, dtls_proceeds-IsOpen k vars (dtls_input s buf ∷ t) begun)

  after_select-IsOpen :
      (k : ℕ) (vars : Vars) (s : Selected) (t : Trace)
      → IsOpen k vars t
      → let (turn, t') = after_select env fd vars s (select s ∷ t) in IsOpen k (vars_of turn) t'
  unfolding after_select
  after_select-IsOpen k vars select_failed t h = IsOpen-same k vars t _ refl refl h
  after_select-IsOpen k vars timeout t h = IsOpen-same k vars t _ refl refl h
  after_select-IsOpen k vars (selected false) t h = IsOpen-same k vars t _ refl refl h
  after_select-IsOpen k vars (selected true) t h =
      let u = select (selected true) ∷ t in
      let r = env.base.recvfrom u fd in
      take_datagram-IsOpen k vars r (recvfrom fd r ∷ u) (IsOpen-same k vars t _ refl refl h)

  -- Where the handshake ends, nothing was opened, closed or written.
  pub handshake-IsOpen :
      (k rounds : ℕ) (turn : Turn) (t : Trace) (vars : Vars)
      → IsOpen k (vars_of turn) t
      → (handshake env rounds fd turn t).0 ≡ some vars
      → IsOpen k vars (handshake env rounds fd turn t).1
  unfolding handshake
  handshake-IsOpen k rounds (leave vars') t vars h e =
      let same : vars' ≡ vars = cc in rw (sym same) h
  handshake-IsOpen k zero (again vars') t vars h e = cc
  handshake-IsOpen k (suc rounds) (again vars') t vars h e =
      let s = env.select t in
      let (turn, u) = after_select env fd vars' s (select s ∷ t) in
      elim (Bool-cases vars'.is_connected) [
        | inl yes' ↦
            let done : some vars' ≡ some vars = rw (yes', handshake) at e in
            let same : vars' ≡ vars = cc in rw (yes', handshake) (rw (sym same) h)
        | inr no' ↦
            rw (no', handshake)
              (handshake-IsOpen k rounds turn u vars (after_select-IsOpen k vars' s t h)
                (rw (no', handshake) at e))
      ]
