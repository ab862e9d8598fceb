-- ===== src/Server/Connection.antt =====
-- internal/server/connection.go: the registry of sessions. The map of pointers is a list of
-- connections, one for each session identifier; each method runs under the registry's lock. Times
-- are nanoseconds. `disconnect_closed` is whether `DisconnectCh` is closed, which both places that
-- close it test first.
use team_x.Base.{
  ℕ, ◌-◌, Bool, true, false, not, ◌&&◌, Option, none, some, List, [], ◌∷◌, ◌++◌, Text, text_eq,
  if◌then◌else◌, ltb, leb, length, update_where, find, any, where_, map, ℤ, pos, negsuc,
}
use team_x.Proto.Messages.{Command}

-- A stream is a name for the `Channel` call that holds it.
abbrev pub Stream : Type 0
Stream = ℕ

pub record ClientConn : Type 0 where
  pub session_id : Text
  pub device_id : Text
  pub hostname : Text
  pub os : Text
  pub os_version : Text
  pub client_version : Text
  pub mac_addrs : List Text
  pub ip_addrs : List Text
  pub stream : Option Stream
  pub disconnect_closed : Bool
  pub cmd_queue : List Command
  pub last_heartbeat : ℕ
  pub online : Bool
  pub connected_at : ℕ

pub record ConnectionManager : Type 0 where
  pub sessions : List ClientConn
  pub max_conns : ℤ

abbrev pub cmd_queue_capacity : ℕ
cmd_queue_capacity = 32

abbrev pub new_connection_manager : ConnectionManager
new_connection_manager = record { sessions = []; max_conns = pos 0 }

unfoldable pub set_max_conns : ℤ → ConnectionManager → ConnectionManager
set_max_conns n cm = record cm { max_conns = n }

abbrev pub is_session : Text → ClientConn → Bool
is_session sid c = text_eq c.session_id sid

-- The channels of a new connection are made here.
abbrev pub fresh_channels : ClientConn → ClientConn
fresh_channels conn = record conn { disconnect_closed = false; cmd_queue = [] }

unfoldable pub add : ClientConn → ConnectionManager → ConnectionManager
add conn cm = record cm {
  sessions =
      if any (is_session conn.session_id) cm.sessions
      then update_where (is_session conn.session_id) (λ old. fresh_channels conn) cm.sessions
      else cm.sessions ++ fresh_channels conn ∷ [];
}

unfoldable pub remove : Text → ConnectionManager → ConnectionManager
remove sid cm = record cm { sessions = where_ (λ c. not (is_session sid c)) cm.sessions }

unfoldable pub get : Text → ConnectionManager → Option ClientConn
get sid cm = find (is_session sid) cm.sessions

unfoldable pub count : ConnectionManager → ℕ
count cm = length cm.sessions

abbrev reaches : ℤ → ℕ → Bool
reaches (pos n) len = ltb 0 n && leb n len
reaches (negsuc n) len = false

unfoldable pub is_full : ConnectionManager → Bool
is_full cm = reaches cm.max_conns (length cm.sessions)

-- What each method below does to one connection.
abbrev pub on_session : Text → (ClientConn → ClientConn) → ConnectionManager → ConnectionManager
on_session sid f cm = record cm { sessions = update_where (is_session sid) f cm.sessions }

-- A session that is offline is left alone.
abbrev pub kick_conn : ClientConn → ClientConn
kick_conn c = if c.online then record c { disconnect_closed = true } else c

unfoldable pub kick : Text → ConnectionManager → ConnectionManager
kick sid = on_session sid kick_conn

unfoldable pub record_heartbeat : Text → ℕ → ConnectionManager → ConnectionManager
record_heartbeat sid now = on_session sid (λ c. record c { last_heartbeat = now; online = true })

unfoldable pub mark_offline : Text → ConnectionManager → ConnectionManager
mark_offline sid = on_session sid (λ c. record c { online = false })

unfoldable pub set_stream : Text → Stream → ℕ → ConnectionManager → ConnectionManager
set_stream sid st now =
    on_session sid (λ c. record c { stream = some st; last_heartbeat = now; online = true })

unfoldable pub get_stream : Text → ConnectionManager → Option Stream
get_stream sid cm = elim (find (is_session sid) cm.sessions) [
  | none ↦ none
  | some c ↦ if c.online then c.stream else none
]

unfoldable pub clear_stream : Text → ConnectionManager → ConnectionManager
clear_stream sid = on_session sid (λ c. record c { stream = none; online = false })

-- One tick of `HeartbeatChecker`: a session whose heartbeat is older than the timeout goes offline.
abbrev pub is_stale : ℕ → ℕ → ClientConn → Bool
is_stale now timeout c = c.online && ltb timeout (now - c.last_heartbeat)

unfoldable pub check_heartbeats : ℕ → ℕ → ConnectionManager → ConnectionManager
check_heartbeats now timeout cm = record cm {
  sessions = update_where (is_stale now timeout) (λ c. record c { online = false }) cm.sessions;
}

-- The sessions for which the tick calls `onOffline`.
unfoldable pub newly_offline : ℕ → ℕ → ConnectionManager → List Text
newly_offline now timeout cm = map (λ c. c.session_id) (where_ (is_stale now timeout) cm.sessions)

-- `kickDeviceSessions` of server.go
abbrev pub is_online_of : Text → ClientConn → Bool
is_online_of dev c = text_eq c.device_id dev && c.online

unfoldable pub kick_device_sessions : Text → ConnectionManager → ConnectionManager
kick_device_sessions dev cm = record cm {
  sessions =
      update_where (is_online_of dev) (λ c. record c { disconnect_closed = true }) cm.sessions;
}

-- The non-blocking send on `CmdQueue`: refused when the queue is full.
abbrev pub has_room : ClientConn → Bool
has_room c = ltb (length c.cmd_queue) cmd_queue_capacity

unfoldable pub enqueue : Text → Command → ConnectionManager → ConnectionManager
enqueue sid cmd =
    on_session sid (λ c. if has_room c then record c { cmd_queue = c.cmd_queue ++ cmd ∷ [] } else c)

-- The receive on `CmdQueue`.
abbrev pub tail_queue : List Command → List Command
tail_queue [] = []
tail_queue (cmd ∷ q) = q

unfoldable pub dequeue : Text → ConnectionManager → ConnectionManager
dequeue sid = on_session sid (λ c. record c { cmd_queue = tail_queue c.cmd_queue })
