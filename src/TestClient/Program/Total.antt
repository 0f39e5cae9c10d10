-- ===== src/TestClient/Program/Total.antt =====
-- src/test-client.c, `main`: the handshake comes to an end, and so does the client.
use wlr_remote.Base.{
  ℕ, zero, suc, ◌-◌, ◌≡◌, ◌<◌, refl, ap, ◌∙◌, arith, ◌⊎◌, Bool, true, false, Option, none, some,
  Bool-cases, inl, inr, [], ◌∷◌, Bytes, take, ℤ, is_neg,
}
use wlr_remote.System.Types.{
  Session, Received, datagram, recv_failed, Selected, selected, timeout, select_failed, Lookup,
  found, lookup_failed,
}
use wlr_remote.System.Event.{
  Trace, log, select, recvfrom, dtls_input, dtls_connect, dtls_init, dtls_new_context,
  dtls_set_handler, handshaking, connect_failed, socket, freeaddrinfo,
}
use wlr_remote.Setup.{exit_failure}
use wlr_remote.TestClient.Types.{Vars, ClientEnv}
use wlr_remote.TestClient.Callbacks.{dtls_proceeds}
use wlr_remote.TestClient.Callbacks.Calm.{selections, dtls_proceeds-calm}
use wlr_remote.TestClient.Program.{
  Turn, again, leave, take_datagram, after_select, handshake, after_handshake, connect_server,
  create_context, open_client, cleanup, after_lookup, after_password, main,
}

-- Sooner or later the server is silent: no more than `total` times `select` reports a descriptor.
pub record SilenceLaws (env : ClientEnv) (total : ℕ) : Type 0 where
  pub silent : (t : Trace) (b : Bool) → env.select t ≡ selected b → selections t < total

Turn-cases : (turn : Turn) → ((v : Vars) × (turn ≡ again v)) ⊎ ((v : Vars) × (turn ≡ leave v))
Turn-cases (again v) = inl (v, refl)
Turn-cases (leave v) = inr (v, refl)

module _ (env : ClientEnv) (fd : ℤ) where
  selections-dtls_proceeds :
      (vars : Vars) (t : Trace) → selections (dtls_proceeds env fd vars t).1 ≡ selections t
  selections-dtls_proceeds vars t = ap (λ v. v.4) (dtls_proceeds-calm env 0 fd vars t)

  selections-take_datagram :
      (vars : Vars) (r : Received) (t : Trace)
      → selections (take_datagram env fd vars r t).1 ≡ selections t
  unfolding take_datagram
  selections-take_datagram vars (recv_failed e) t = refl
  selections-take_datagram vars (datagram s b) t =
      let u = dtls_input s (take env.base.dtls_max_buf b) ∷ t in
      ground (arith, selections-dtls_proceeds vars u)

  -- A round that goes on has counted one selection more.
  after_select-again :
      (vars next : Vars) (s : Selected) (t : Trace)
      → (after_select env fd vars s (select s ∷ t)).0 ≡ again next
      → (b : Bool) × (s ≡ selected b)
        × (selections (after_select env fd vars s (select s ∷ t)).1 ≡ suc (selections t))
  unfolding after_select
  after_select-again vars next select_failed t e = cc
  after_select-again vars next timeout t e = cc
  after_select-again vars next (selected false) t e = (false, refl, refl)
  after_select-again vars next (selected true) t e =
      let u = select (selected true) ∷ t in
      let r = env.base.recvfrom u fd in
      (true, refl, selections-take_datagram vars r (recvfrom fd r ∷ u))

  handshake-leave :
      (rounds : ℕ) (vars : Vars) (t : Trace)
      → (handshake env rounds fd (leave vars) t).0 ≡ some vars
  unfolding handshake
  handshake-leave rounds vars t = refl

  handshake-again :
      (rounds : ℕ) (vars : Vars) (t : Trace)
      → vars.is_connected ≡ false
      → let (turn, u) = after_select env fd vars (env.select t) (select (env.select t) ∷ t) in
        handshake env (suc rounds) fd (again vars) t ≡ handshake env rounds fd turn u
  unfolding handshake
  handshake-again rounds vars t no' = ground arith

  -- With enough fuel the handshake returns, connected or not.
  handshake-total :
      (total rounds : ℕ) (vars : Vars) (t : Trace)
      → SilenceLaws env total
      → total - selections t < rounds
      → (done : Vars) × ((handshake env rounds fd (again vars) t).0 ≡ some done)
  unfolding handshake
  handshake-total total zero vars t laws h = elim h [ ]
  handshake-total total (suc rounds) vars t laws h =
      let s = env.select t in
      let (turn, u) = after_select env fd vars s (select s ∷ t) in
      elim (Bool-cases vars.is_connected) [
        | inl yes' ↦ (vars, ground arith)
        | inr no' ↦
            let step = ap (λ c. c.0) (handshake-again rounds vars t no') in
            let resume = λ (x : Turn). (handshake env rounds fd x u).0 in
            elim (Turn-cases turn) [
              | inl (v, more) ↦
                  let (b, came, count) = after_select-again vars v s t more in
                  let (done, e) =
                    handshake-total total rounds v u laws
                      (omega (arith, laws.silent t b came, count)) in
                  (done, step ∙ (ap resume more ∙ e))
              | inr (v, over) ↦ (v, step ∙ (ap resume over ∙ handshake-leave rounds v u))
            ]
      ]

module _ (env : ClientEnv) (total fuel : ℕ) (laws : SilenceLaws env total)
    (enough : total < fuel) where
  -- A run that returns a status.
  abbrev IsDone : Option ℕ × Trace → Type 0
  IsDone (result, t) = (status : ℕ) × (result ≡ some status)

  after_handshake-IsDone :
      (fd : ℤ) (session : Session) (done : Option Vars) (vars : Vars) (t : Trace)
      → done ≡ some vars
      → IsDone (after_handshake env fd session done t)
  unfolding after_handshake
  after_handshake-IsDone fd session none vars t e = cc
  after_handshake-IsDone fd session (some vars') vars t e = (_, refl)

  connect_server-IsDone :
      (fd : ℤ) (session : Session) (vars : Vars) (t : Trace)
      → IsDone (connect_server env fuel fd session vars t)
  unfolding connect_server
  connect_server-IsDone fd session vars t =
      let ((r, vars'), u) = dtls_proceeds env fd vars (dtls_connect session ∷ t) in
      let (done, v) = handshake env fuel fd (again vars') (log handshaking ∷ u) in
      let (vars'', e) =
        handshake-total env fd total fuel vars' (log handshaking ∷ u) laws (omega arith) in
      let (status, ended) = after_handshake-IsDone fd session done vars'' v e in
      elim (Bool-cases (is_neg r)) [
        | inl bad ↦
            ((cleanup env fd vars' (log connect_failed ∷ u)).0, rw (bad, connect_server) refl)
        | inr good ↦ (status, rw (good, connect_server) ended)
      ]

  create_context-IsDone :
      (fd : ℤ) (session : Session) (vars : Vars) (t : Trace)
      → IsDone (create_context env fuel fd session vars t)
  unfolding create_context
  create_context-IsDone fd session vars t =
      let u = dtls_new_context true ∷ dtls_init ∷ t in
      let (status, e) = connect_server-IsDone fd session vars (dtls_set_handler ∷ u) in
      elim (Bool-cases (env.base.dtls_new_context (dtls_init ∷ t))) [
        | inl made ↦ (status, rw (made, create_context) e)
        | inr none_made ↦ (exit_failure, rw (none_made, create_context) refl)
      ]

  after_lookup-IsDone :
      (vars : Vars) (r : Lookup) (t : Trace) → IsDone (after_lookup env fuel vars r t)
  unfolding after_lookup open_client
  after_lookup-IsDone vars (lookup_failed code) t = (exit_failure, refl)
  after_lookup-IsDone vars (found head addrlen) t =
      let fd = env.base.socket t head in
      let u = freeaddrinfo ∷ socket head.family head.socktype head.protocol fd ∷ t in
      let (status, e) =
        create_context-IsDone fd (record { addr = head.addr; size = addrlen }) vars u in
      elim (Bool-cases (is_neg fd)) [
        | inl bad ↦ (exit_failure, rw (bad, open_client) refl)
        | inr good ↦ (status, rw (good, open_client) e)
      ]

  after_password-IsDone : (key : Option Bytes) (t : Trace) → IsDone (after_password env fuel key t)
  unfolding after_password
  after_password-IsDone none t = (exit_failure, refl)
  after_password-IsDone (some key) t = after_lookup-IsDone _ (env.lookup t) _

  -- If no more than `total` times `select` reports a descriptor, then the client returns a status,
  -- with any greater bound on the rounds of its handshake.
  pub main-total : (status : ℕ) × ((main env fuel []).0 ≡ some status)
  unfolding main
  main-total = after_password-IsDone _ _
