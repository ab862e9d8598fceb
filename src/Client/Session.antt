-- ===== src/Client/Session.antt =====
-- `connect`, `recvLoop` and `Run` of internal/client/client.go. What the network and the two tickers
-- do is a list of events; a list that is used up leaves the client waiting.
pub mod Running
pub mod Restart
use team_x.Base.{
  ℕ, zero, suc, ◌+◌, Bool, true, false, not, ◌&&◌, ◌||◌, Option, none, some, List, [], ◌∷◌, ◌++◌,
  Text, text_eq, if◌then◌else◌, length, leb, ltb,
}
use team_x.Proto.Messages.{
  HardwareInfo, HandshakeRequest, HandshakeResponse, Command, Code, permission_denied, Rpc, reply,
  status,
}
use team_x.Client.Agent.{Agent, heartbeat_tick}
use team_x.Client.Cache.{Hashing, report_tick}
use team_x.Client.Executor.{Host, dispatch_command}
use team_x.Client.Backoff.{backoff}

-- `*fatalError`, a status, or any other error, such as that of a cancelled context.
pub data ConnError : Type 0 where
  rejected : Text → ConnError
  rpc : Code → ConnError
  broken : ConnError

unfoldable pub is_fatal : ConnError → Bool
is_fatal (rejected why) = true
is_fatal (rpc permission_denied) = true
is_fatal (rpc other) = false
is_fatal broken = false

-- What happens to an open session. `interrupted` is the caller's context, cancelled.
pub data Event : Type 0 where
  eof interrupted acknowledged unknown beat : Event
  failing : ConnError → Event
  commanded : Command → Host → Event
  report_due : Text → HardwareInfo → Event

-- The receive loop goes on, or returns with an error or none.
pub data Turn : Type 0 where
  goes_on : Turn
  returns : Option ConnError → Turn

module _ (h : Hashing) where
  unfoldable pub beat_if : Agent → Agent
  beat_if a =
      if a.beating then record (heartbeat_tick a).1 { beating = (heartbeat_tick a).0 } else a

  unfoldable pub report_if : Text → HardwareInfo → Agent → Agent
  report_if id info a =
      if a.reporting
      then record (report_tick h id info a).1 { reporting = (report_tick h id info a).0 }
      else a

  unfoldable pub happens : Event → Agent → Turn × Agent
  happens eof a = (returns none, a)
  happens interrupted a = (returns (some broken), a)
  happens acknowledged a = (goes_on, a)
  happens unknown a = (goes_on, a)
  happens beat a = (goes_on, beat_if a)
  happens (failing e) a = (returns (some e), a)
  happens (commanded cmd host) a = (goes_on, dispatch_command h host cmd a)
  happens (report_due id info) a = (goes_on, report_if id info a)

-- How a session is left: by a return, by `os.Exit`, or not yet.
pub data Ending : Type 0 where
  returned : Option ConnError → Agent → Ending
  exits : Agent → Ending
  waiting : Agent → Ending

abbrev pub then_loop : Turn × Agent → Ending → Ending
then_loop (returns e, a) rest = returned e a
then_loop (goes_on, a) rest = rest

module _ (h : Hashing) where
  -- The context is looked at before each receive; a process that has exited does nothing more.
  unfoldable pub recv_loop : List Event → Agent → Ending
  recv_loop [] a =
      if a.exited then exits a else if a.cancelled then returned (some broken) a else waiting a
  recv_loop (e ∷ es) a =
      let rest = recv_loop es (happens h e a).1 in
      if a.exited
      then exits a
      else if a.cancelled
      then returned (some broken) a
      else then_loop (happens h e a) rest

-- What one `connect` meets. `generated` is what `GenerateDeviceID` would return; `answer` is that of
-- `Register`, or a failure of the transport; `faults` says which sends on the new stream fail.
pub record Network : Type 0 where
  pub dial_fails : Bool
  pub generated : Text
  pub answer : Option (Rpc HandshakeResponse)
  pub channel_error : Option ConnError
  pub faults : List Bool
  pub events : List Event

-- `connect` also panics, where it logs the start of an identifier that is shorter.
pub data Connected : Type 0 where
  closed : Option ConnError → Agent → Connected
  left : Agent → Connected
  blocks : Agent → Connected
  crashed : Connected

unfoldable pub handshake : Agent → HandshakeRequest
handshake a = record {
  hostname = a.info.hostname;
  os = a.info.os;
  os_version = a.info.os_version;
  kernel_version = a.info.kernel_version;
  client_version = a.cfg.client_version;
  mac_addrs = a.info.mac_addrs;
  ip_addrs = a.info.ip_addrs;
  device_id = a.device_id;
}

unfoldable pub with_device_id : Text → Agent → Agent
with_device_id id a = record a { device_id = if text_eq a.device_id [] then id else a.device_id }

-- The session's context and loops, on a new stream.
unfoldable pub open_session : Text → List Bool → Agent → Agent
open_session sid faults a = record a {
  session_id = sid;
  has_cancel = true;
  cancelled = false;
  beating = true;
  reporting = true;
  sent = [];
  send_faults = faults;
}

-- The end of `connect`: the context is cancelled, and a restart that was asked for hides the error.
unfoldable pub after_loop : Option ConnError → Agent → Connected
after_loop e a =
    closed (if a.restart_requested then none else e)
      (record a { cancelled = true; beating = false; reporting = false; restart_requested = false })

abbrev pub named : Text → Agent → Agent
named sid a = record a { session_id = sid }

module _ (h : Hashing) where
  abbrev ended : Ending → Connected
  ended (returned e a) = after_loop e a
  ended (exits a) = left a
  ended (waiting a) = blocks a

  unfoldable pub registered : Network → HandshakeResponse → Agent → Connected
  registered net resp a =
      if not resp.ok
      then closed (some (rejected resp.message)) a
      else if ltb (length resp.session_id) 8 || ltb (length a.device_id) 16
      then crashed
      else elim net.channel_error [
        | some e ↦ closed (some e) (named resp.session_id a)
        | none ↦ ended (recv_loop h net.events (open_session resp.session_id net.faults a))
      ]

  abbrev pub answered : Network → Option (Rpc HandshakeResponse) → Agent → Connected
  answered net none a = closed (some broken) a
  answered net (some (status code)) a = closed (some (rpc code)) a
  answered net (some (reply resp)) a = registered net resp a

  unfoldable pub connect : Network → Agent → Connected
  connect net a =
      if net.dial_fails
      then closed (some broken) a
      else answered net net.answer (with_device_id net.generated a)

-- One round of `Run`: whether the context is done when it is looked at and while the delay lasts,
-- the random number of the delay, and what `connect` meets.
pub record Round : Type 0 where
  pub done : Bool
  pub done_waiting : Bool
  pub jitter : ℕ
  pub net : Network

-- How `Run` ends; `going` is that the rounds are used up, `in_session` that a session lasts.
pub data End : Type 0 where
  shut_down context_done gone panicked going in_session : End
  fatal : ConnError → End

-- `delays` are the delays before reconnecting that were waited for, oldest first.
pub record RunState : Type 0 where
  pub attempt : ℕ
  pub delays : List ℕ
  pub agent : Agent

unfoldable pub delay_of : RunState → Round → ℕ
delay_of s r = backoff s.agent.cfg.reconnect_initial s.agent.cfg.reconnect_max s.attempt r.jitter

-- The delay before a round, where there is one.
unfoldable pub waited : RunState → Round → RunState
waited s r = if ltb 0 s.attempt then record s { delays = s.delays ++ delay_of s r ∷ [] } else s

-- The round stops `Run`, or leaves the state for the next one.
abbrev pub after_connect : Connected → RunState → Option End × RunState
after_connect crashed s = (some panicked, s)
after_connect (left a) s = (some gone, record s { agent = a })
after_connect (blocks a) s = (some in_session, record s { agent = a })
after_connect (closed none a) s = (none, record s { attempt = 0; agent = a })
after_connect (closed (some e) a) s =
    if is_fatal e
    then (some (fatal e), record s { agent = a })
    else (none, record s { attempt = s.attempt + 1; agent = a })

abbrev pub then_run : Option End × RunState → (RunState → End × RunState) → End × RunState
then_run (some e, s) rest = (e, s)
then_run (none, s) rest = rest s

module _ (h : Hashing) where
  unfoldable pub round : Round → RunState → Option End × RunState
  round r s =
      if s.agent.shutdown_requested
      then (some shut_down, s)
      else if r.done
      then (some context_done, s)
      else if ltb 0 s.attempt && r.done_waiting
      then (some context_done, waited s r)
      else after_connect (connect h r.net s.agent) (waited s r)

  unfoldable pub run : List Round → RunState → End × RunState
  run [] s = (going, s)
  run (r ∷ rs) s = then_run (round r s) (run rs)
