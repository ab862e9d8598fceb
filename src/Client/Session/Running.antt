-- ===== src/Client/Session/Running.antt =====
-- How `Run` goes on and stops.
use team_x.Base.{
  Option, refl, ℕ, ◌+◌, ◌≡◌, ap, ◌∙◌, true, false, none, some, List, [], ◌∷◌, ◌++◌, append_assoc,
  append-nil, arith, if◌then◌else◌, length, All, ltb,
}
use team_x.Client.Agent.{Agent}
use team_x.Client.Cache.{Hashing}
use team_x.Client.Backoff.{backoff}
use team_x.Proto.Messages.{HandshakeResponse, Rpc, reply, status}
use team_x.Client.Session.{
  rpc, broken, Network, answered, with_device_id, ConnError, closed, connect, Round, End, fatal,
  going, RunState, waited, delay_of, round, run, then_run, is_fatal,
}

-- The delays before the next attempts, from attempt `n` on; the first attempt of all waits for none.
unfoldable pub delays_from : ℕ → ℕ → ℕ → List Round → List ℕ
delays_from initial max n [] = []
delays_from initial max n (r ∷ rs) =
    if ltb 0 n
    then backoff initial max n r.jitter ∷ delays_from initial max (n + 1) rs
    else delays_from initial max (n + 1) rs

-- `Register` fails: in the transport, or with a status that is not fatal. `grpc.NewClient` makes no
-- connection, so this is where a server that cannot be reached shows.
abbrev pub Fails : Option (Rpc HandshakeResponse) → Type 0
Fails none = Unit
Fails (some (status code)) = is_fatal (rpc code) ≡ false
Fails (some (reply resp)) = ⊥

-- The server cannot be reached, and nobody stops the client.
abbrev pub IsDown : Round → Type 0
IsDown r =
    (r.net.dial_fails ≡ false) × Fails r.net.answer × (r.done ≡ false) × (r.done_waiting ≡ false)

-- The first attempt that finds no identifier generates one.
abbrev pub identified : List Round → Agent → Agent
identified [] a = a
identified (r ∷ rs) a = identified rs (with_device_id r.net.generated a)

module _ (h : Hashing) where
  run-goes_on :
      (r : Round) (rs : List Round) (s t : RunState)
      → round h r s ≡ (none, t)
      → run h (r ∷ rs) s ≡ run h rs t
  unfolding run
  run-goes_on r rs s t e = ap (λ p. then_run p (run h rs)) e

  run-stops :
      (r : Round) (rs : List Round) (s t : RunState) (e : End)
      → round h r s ≡ (some e, t)
      → run h (r ∷ rs) s ≡ (e, t)
  unfolding run
  run-stops r rs s t e stop = ap (λ p. then_run p (run h rs)) stop

  answered-Fails :
      (net : Network) (o : Option (Rpc HandshakeResponse)) (a : Agent)
      → Fails o
      → (e : ConnError) × (is_fatal e ≡ false) × (answered h net o a ≡ closed (some e) a)
  answered-Fails net none a f = (broken, unfold is_fatal in refl, refl)
  answered-Fails net (some (status code)) a f = (rpc code, f, refl)
  answered-Fails net (some (reply resp)) a f = absurd f

  connect-reached :
      (net : Network) (a : Agent)
      → net.dial_fails ≡ false
      → connect h net a ≡ answered h net net.answer (with_device_id net.generated a)
  unfolding connect
  connect-reached net a reached = ground arith

  connect-IsDown :
      (r : Round) (a : Agent)
      → IsDown r
      → (e : ConnError) × (is_fatal e ≡ false)
        × (connect h r.net a ≡ closed (some e) (with_device_id r.net.generated a))
  connect-IsDown r a d =
      let (e, mild, ends) =
        answered-Fails r.net r.net.answer (with_device_id r.net.generated a) d.1 in
      (e, mild, connect-reached r.net a d.0 ∙ ends)

  abbrev after_round : Round → RunState → RunState
  after_round r s = record (waited s r) {
    attempt = s.attempt + 1;
    agent = with_device_id r.net.generated s.agent;
  }

  round-IsDown :
      (r : Round) (s : RunState)
      → s.agent.shutdown_requested ≡ false
      → IsDown r
      → round h r s ≡ (none, after_round r s)
  unfolding round waited
  round-IsDown r s on d =
      let (e, mild, ends) = connect-IsDown r s.agent d in ground (arith, mild, ends, d.2, d.3)

  abbrev pub state_after : List Round → RunState → RunState
  state_after rs s = record {
    attempt = s.attempt + length rs;
    delays =
        s.delays
        ++ delays_from s.agent.cfg.reconnect_initial s.agent.cfg.reconnect_max s.attempt rs;
    agent = identified rs s.agent;
  }

  state_after-cons :
      (r : Round) (rs : List Round) (s : RunState)
      → state_after rs (after_round r s) ≡ state_after (r ∷ rs) s
  unfolding waited delay_of delays_from with_device_id
  state_after-cons r rs s = ground (
    arith,
    append_assoc s.delays (delay_of s r ∷ [])
        (delays_from s.agent.cfg.reconnect_initial s.agent.cfg.reconnect_max (s.attempt + 1) rs),
  )

  -- While every Register fails, in the transport or with a status other than PermissionDenied, the
  -- client goes on for every number of rounds, and waits before each attempt but the first of all for
  -- the backoff of the attempts that failed before it. Of the client itself only the device identifier
  -- changes, which is the first that was generated where it had none.
  pub run-IsDown :
      (rs : List Round) (s : RunState)
      → s.agent.shutdown_requested ≡ false
      → All IsDown rs
      → run h rs s ≡ (going, state_after rs s)
  unfolding run
  run-IsDown [] s on d = unfold delays_from in ground (arith, append-nil s.delays)
  run-IsDown (r ∷ rs) s on d =
      run-goes_on r rs s (after_round r s) (round-IsDown r s on d.0)
      ∙ run-IsDown rs (after_round r s) still d.1
      ∙ ap (λ t. (going, t)) (state_after-cons r rs s)
    where
      still : (after_round r s).agent.shutdown_requested ≡ false
      still = unfold with_device_id in on

  -- Where `connect` ends with a fatal error (the registration is rejected, or the server closes the
  -- channel with PermissionDenied), `Run` returns it at once: whatever rounds would follow, there is
  -- no further attempt and no further delay.
  pub run-fatal :
      (r : Round) (rs : List Round) (s : RunState) (e : ConnError) (a : Agent)
      → s.agent.shutdown_requested ≡ false
      → r.done ≡ false
      → r.done_waiting ≡ false
      → connect h r.net s.agent ≡ closed (some e) a
      → is_fatal e ≡ true
      → run h (r ∷ rs) s ≡ (fatal e, record (waited s r) { agent = a })
  unfolding round
  run-fatal r rs s e a on d w c f =
      run-stops r rs s (record (waited s r) { agent = a }) (fatal e) stop
    where
      stop : round h r s ≡ (some (fatal e), record (waited s r) { agent = a })
      stop = ground (arith, c, f)
