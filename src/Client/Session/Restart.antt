-- ===== src/Client/Session/Restart.antt =====
-- Sessions that end by a command of the server.
use team_x.Base.{
  sym, if◌then◌else◌, ◌++◌, pos, negsuc, ◌≤◌, ◌≡◌, refl, ap, ◌∙◌, Bool, true, false, none, some,
  List, [], ◌∷◌, arith, Text, length, ltb,
}
use team_x.Proto.Types.{CommandType, restart, shutdown}
use team_x.Proto.Messages.{HandshakeResponse, Command, reply}
use team_x.Client.Agent.{Agent, send, heartbeat_tick}
use team_x.Client.Cache.{Hashing, report_tick, mark_sent}
use team_x.Client.Executor.{
  Handled, returned as handled, panicked, after_collection, collected, handle_collect_now,
  handle_run_script, Host, send_command_result, cancel_session, handle_restart, handle_shutdown,
  run_handler, recovered, dispatch_command,
}
use team_x.Client.Session.{
  Turn, Ending, then_loop, waiting, eof, interrupted, acknowledged, unknown, beat, failing,
  report_due, beat_if, report_if, goes_on, returns, broken, Network, closed, left, Event, commanded,
  happens, returned, exits, recv_loop, after_loop, open_session, ended, registered, with_device_id,
  connect,
}

-- The server can be reached and takes the client in; after other events comes a command.
abbrev pub commanding :
    Text → HandshakeResponse → List Bool → List Event → Command → Host → List Event → Network
commanding id resp faults before cmd host es = record {
  dial_fails = false;
  generated = id;
  answer = some (reply resp);
  channel_error = none;
  faults = faults;
  events = before ++ commanded cmd host ∷ es;
}

module _ (h : Hashing) where
  recv_loop-cancelled :
      (es : List Event) (a : Agent)
      → a.exited ≡ false
      → a.cancelled ≡ true
      → recv_loop h es a ≡ returned (some broken) a
  unfolding recv_loop
  recv_loop-cancelled [] a e c = ground arith
  recv_loop-cancelled (ev ∷ es) a e c = ground arith

  recv_loop-exited : (es : List Event) (a : Agent) → a.exited ≡ true → recv_loop h es a ≡ exits a
  unfolding recv_loop
  recv_loop-exited [] a e = ground arith
  recv_loop-exited (ev ∷ es) a e = ground arith

  module _ (host : Host) (cmd : Command) (a : Agent) where
    restarted : Agent
    restarted = dispatch_command h host (record cmd { type = restart }) a

    restarted_lem :
        a.has_cancel ≡ true
        → (restarted.exited ≡ a.exited)
          × (restarted.cancelled ≡ true)
          × (restarted.restart_requested ≡ true)
          × (restarted.shutdown_requested ≡ a.shutdown_requested)
    unfolding restarted dispatch_command run_handler recovered handle_restart cancel_session
        send_command_result send
    restarted_lem open_ = ground arith

    shut : Agent
    shut = dispatch_command h host (record cmd { type = shutdown }) a

    shut_lem : (shut.exited ≡ true) × (shut.shutdown_requested ≡ true)
    unfolding shut dispatch_command run_handler recovered handle_shutdown cancel_session
        send_command_result send
    shut_lem = (refl, refl)

  -- No event takes the session's `cancel` away.
  abbrev agent_of : Handled → Agent
  agent_of (handled a) = a
  agent_of (panicked why a) = a

  run_handler-has_cancel :
      (host : Host) (cmd : Command) (ty : CommandType) (a : Agent)
      → (agent_of (run_handler h host cmd ty a)).has_cancel ≡ a.has_cancel
  unfolding run_handler handle_collect_now after_collection collected handle_run_script
      handle_restart handle_shutdown cancel_session send_command_result send mark_sent
  run_handler-has_cancel host cmd (negsuc n) a = refl
  run_handler-has_cancel host cmd (pos n) a = ground arith

  recovered-has_cancel :
      (host : Host) (cmd : Command) (o : Handled)
      → (recovered h host cmd o).has_cancel ≡ (agent_of o).has_cancel
  unfolding recovered send_command_result send
  recovered-has_cancel host cmd (handled a) = refl
  recovered-has_cancel host cmd (panicked why a) = refl

  dispatch_command-has_cancel :
      (host : Host) (cmd : Command) (a : Agent)
      → (dispatch_command h host cmd a).has_cancel ≡ a.has_cancel
  unfolding dispatch_command
  dispatch_command-has_cancel host cmd a =
      recovered-has_cancel host cmd _
      ∙ run_handler-has_cancel host cmd cmd.type _
      ∙ (unfold send_command_result send in refl)

  happens-has_cancel : (e : Event) (a : Agent) → (happens h e a).1.has_cancel ≡ a.has_cancel
  unfolding happens beat_if report_if heartbeat_tick report_tick send mark_sent
  happens-has_cancel eof a = refl
  happens-has_cancel interrupted a = refl
  happens-has_cancel acknowledged a = refl
  happens-has_cancel unknown a = refl
  happens-has_cancel beat a = ground arith
  happens-has_cancel (failing e) a = refl
  happens-has_cancel (commanded cmd host) a = dispatch_command-has_cancel host cmd a
  happens-has_cancel (report_due id info) a = ground arith

  -- One round of the loop after which the session still lasts.
  lasts :
      (x c : Bool) (t : Turn) (a next b : Agent) (rest : Ending)
      → (if x then exits a else if c then returned (some broken) a else then_loop (t, next) rest)
        ≡ waiting b
      → (x ≡ false) × (c ≡ false) × (t ≡ goes_on) × (rest ≡ waiting b)
  lasts true c t a next b rest h = absurd (ground arith)
  lasts false true t a next b rest h = absurd (ground arith)
  lasts false false goes_on a next b rest h = (refl, refl, refl, h)
  lasts false false (returns e) a next b rest h = absurd (ground arith)

  goes :
      (x c : Bool) (t : Turn) (a next : Agent) (rest : Ending)
      → x ≡ false
      → c ≡ false
      → t ≡ goes_on
      → (if x then exits a else if c then returned (some broken) a else then_loop (t, next) rest)
        ≡ rest
  goes x c t a next rest live on go = rw (live, on, go) refl

  stays :
      (x c : Bool) (a b : Agent)
      → (if x then exits a else if c then returned (some broken) a else waiting a) ≡ waiting b
      → (x ≡ false) × (c ≡ false) × (a ≡ b)
  stays true c a b h = absurd (ground arith)
  stays false true a b h = absurd (ground arith)
  stays false false a b h = (refl, refl, cc)

  -- A session that lasts through `before` meets what comes after it.
  recv_loop-append :
      (before es : List Event) (a b : Agent)
      → recv_loop h before a ≡ waiting b
      → (recv_loop h (before ++ es) a ≡ recv_loop h es b)
        × (b.exited ≡ false)
        × (b.cancelled ≡ false)
        × (b.has_cancel ≡ a.has_cancel)
  unfolding recv_loop
  recv_loop-append [] es a b w =
      let (live, on, same) = stays a.exited a.cancelled a b w in
      (
        ap (recv_loop h es) same,
        sym (ap (λ z. z.exited) same) ∙ live,
        sym (ap (λ z. z.cancelled) same) ∙ on,
        sym (ap (λ z. z.has_cancel) same),
      )
  recv_loop-append (e ∷ before) es a b w =
      let (live, on, go, more) =
        lasts a.exited a.cancelled (happens h e a).0 a (happens h e a).1 b
          (recv_loop h before (happens h e a).1) w in
      let later = recv_loop-append before es (happens h e a).1 b more in
      (
        goes a.exited a.cancelled (happens h e a).0 a (happens h e a).1
              (recv_loop h (before ++ es) (happens h e a).1) live on go
            ∙ later.0,
        later.1,
        later.2,
        later.3 ∙ happens-has_cancel e a,
      )

  recv_loop-commanded :
      (cmd : Command) (host : Host) (es : List Event) (a : Agent)
      → a.exited ≡ false
      → a.cancelled ≡ false
      → recv_loop h (commanded cmd host ∷ es) a ≡ recv_loop h es (dispatch_command h host cmd a)
  unfolding recv_loop happens
  recv_loop-commanded cmd host es a e c = ground arith

  abbrev pub in_session : Text → HandshakeResponse → List Bool → Agent → Agent
  in_session id resp faults a = open_session resp.session_id faults (with_device_id id a)

  module _ (id : Text) (resp : HandshakeResponse) (faults : List Bool) (before : List Event)
      (cmd : Command) (host : Host) (es : List Event) (a b : Agent) where
    connect-commanding :
        resp.ok ≡ true
        → 8 ≤ length resp.session_id
        → 16 ≤ length (with_device_id id a).device_id
        → recv_loop h before (in_session id resp faults a) ≡ waiting b
        → connect h (commanding id resp faults before cmd host es) a
          ≡ ended h (recv_loop h es (dispatch_command h host cmd b))
    unfolding connect registered
    connect-commanding ok sid dev lasting =
        let later =
          recv_loop-append before (commanded cmd host ∷ es) (in_session id resp faults a) b
            lasting in
        rw (ok, long_sid, long_dev)
          (ap (ended h) (later.0 ∙ recv_loop-commanded cmd host es b later.1 later.2))
      where
        long_sid : ltb (length resp.session_id) 8 ≡ false
        long_sid = ground arith

        long_dev : ltb (length (with_device_id id a).device_id) 16 ≡ false
        long_dev = ground arith

  module _ (id : Text) (resp : HandshakeResponse) (faults : List Bool) (before : List Event)
      (cmd : Command) (host : Host) (es : List Event) (a b : Agent) where
    -- Where a session that lasts through any events `before` meets a restart, `connect` returns no error,
    -- whatever the stream does and whatever would follow, and the request is cleared. Where it meets a
    -- shutdown, the process ends in the session.
    pub connect-restart :
        resp.ok ≡ true
        → 8 ≤ length resp.session_id
        → 16 ≤ length (with_device_id id a).device_id
        → recv_loop h before (in_session id resp faults a) ≡ waiting b
        → ((d : Agent) × (connect h
                (commanding id resp faults before (record cmd { type = restart }) host es)
                a
              ≡ closed none d)
            × (d.restart_requested ≡ false)
            × (d.shutdown_requested ≡ b.shutdown_requested))
          × ((d : Agent) × (connect h
                  (commanding id resp faults before (record cmd { type = shutdown }) host es)
                  a
                ≡ left d)
              × (d.shutdown_requested ≡ true))
    unfolding restarted shut
    connect-restart ok sid dev lasting =
        let r : Agent = restarted host cmd b in
        let t : Agent = shut host cmd b in
        let later = recv_loop-append before [] (in_session id resp faults a) b lasting in
        let went = restarted_lem host cmd b (later.3 ∙ (unfold open_session in refl)) in
        let gone = shut_lem host cmd b in
        (
          (
            record r {
              cancelled = true;
              beating = false;
              reporting = false;
              restart_requested = false;
            },
            connect-commanding id resp faults before (record cmd { type = restart }) host es a b ok
                  sid dev lasting
                ∙ ap (ended h) (recv_loop-cancelled es r (went.0 ∙ later.1) went.1)
                ∙ hides r went.2,
            refl,
            went.3,
          ),
          (
            t,
            connect-commanding id resp faults before (record cmd { type = shutdown }) host es a b ok
                  sid dev lasting
                ∙ ap (ended h) (recv_loop-exited es t gone.0),
            gone.1,
          ),
        )
      where
        hides :
            (r : Agent)
            → r.restart_requested ≡ true
            → after_loop (some broken) r
              ≡ closed none (record r {
                cancelled = true;
                beating = false;
                reporting = false;
                restart_requested = false;
              })
        hides r e = unfold after_loop in ground arith
