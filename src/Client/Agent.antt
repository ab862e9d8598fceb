-- ===== src/Client/Agent.antt =====
-- The state of `Client` (internal/client/client.go) and of the stream of its current session. A
-- send takes the next entry of `send_faults`, which says whether the stream fails; past its end no
-- send fails.
use team_x.Base.{ℕ, ◌+◌, ◌%◌, ◌^◌, Bool, true, false, List, [], ◌∷◌, ◌++◌, Text, if◌then◌else◌}
use team_x.Proto.Messages.{ClientMessage, ClientPayload, heartbeat}

-- Durations are nanoseconds.
pub record Config : Type 0 where
  pub server_addr : Text
  pub heartbeat_interval : ℕ
  pub report_interval : ℕ
  pub reconnect_initial : ℕ
  pub reconnect_max : ℕ
  pub client_version : Text

pub record SysInfo : Type 0 where
  pub hostname : Text
  pub os : Text
  pub os_version : Text
  pub kernel_version : Text
  pub ip_addrs : List Text
  pub mac_addrs : List Text

-- `has_cancel` is `cancelSession != nil`; `cancelled` is whether the session's context is
-- cancelled; `exited` is whether `os.Exit` was called;
-- `beating` and `reporting` are whether the two loops beside the receive loop still run.
pub record Agent : Type 0 where
  pub cfg : Config
  pub info : SysInfo
  pub device_id : Text
  pub session_id : Text
  pub seq : ℕ
  pub last_hash : Text
  pub has_cancel : Bool
  pub cancelled : Bool
  pub restart_requested : Bool
  pub shutdown_requested : Bool
  pub exited : Bool
  pub beating : Bool
  pub reporting : Bool
  pub sent : List ClientMessage
  pub send_faults : List Bool

unfoldable pub new_client : Config → SysInfo → Agent
new_client cfg info = record {
  cfg = cfg;
  info = info;
  device_id = [];
  session_id = [];
  seq = 0;
  last_hash = [];
  has_cancel = false;
  cancelled = false;
  restart_requested = false;
  shutdown_requested = false;
  exited = false;
  beating = false;
  reporting = false;
  sent = [];
  send_faults = [];
}

-- `nextSeq`, a uint64.
unfoldable pub next_seq : ℕ → ℕ
next_seq seq = (seq + 1) % 2 ^ 64

abbrev pub first_fault : List Bool → Bool
first_fault [] = false
first_fault (f ∷ fs) = f

abbrev pub later_faults : List Bool → List Bool
later_faults [] = []
later_faults (f ∷ fs) = fs

-- A message with the next number; it is sent unless the stream fails.
unfoldable pub send : ClientPayload → Agent → Agent
send p a = record a {
  seq = next_seq a.seq;
  sent =
      if first_fault a.send_faults
      then a.sent
      else a.sent ++ record { seq = next_seq a.seq; payload = p } ∷ [];
  send_faults = later_faults a.send_faults;
}

-- One tick of `heartbeatLoop`; after a failed send the loop ends.
unfoldable pub heartbeat_tick : Agent → Bool × Agent
heartbeat_tick a = (if first_fault a.send_faults then false else true, send heartbeat a)
