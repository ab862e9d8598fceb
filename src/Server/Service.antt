-- ===== src/Server/Service.antt =====
-- internal/server/server.go: the state of the service, and its RPCs of terminals and administration.
-- The environment's part of a call comes as arguments: the new session identifier (a UUID), the
-- clock as nanoseconds and as the RFC 3339 text that is stored. What is only logged is left out.
use team_x.Base.{
  ℕ, ◌-◌, ◌*◌, Bool, true, false, not, ◌||◌, Option, none, some, List, [], ◌∷◌, map, Text, codes,
  if◌then◌else◌, ltb, leb, ℤ, pos, negsuc,
}
use team_x.Proto.Messages.{
  HandshakeRequest, HandshakeResponse, HardwareInfo, resource_exhausted, not_found, internal,
  unauthenticated, unimplemented, Rpc, reply, status,
}
use team_x.Store.Engine.{Engine}
use team_x.Store.Sql.{Db, no_rows, failed, no_payload, Result, ok, err, Sql}
use team_x.Store.Terminals.{
  Terminal, Machine, upsert_terminal, is_device_blocked, get_terminal, get_terminal_by_device,
  list_terminals, mark_blocked, unblock_terminal,
}
use team_x.Store.Hardware.{HardwareSnapshot, get_latest_hardware, list_hardware_reports}
use team_x.Server.Connection.{
  ClientConn, ConnectionManager, add, get, is_full, kick, kick_device_sessions,
}

pub record Server : Type 0 where
  pub cm : ConnectionManager
  pub db : Db

-- A call of the store.
abbrev pub on_db : {A : Type 0} → Sql A → Server → Result A × Server
on_db call s = ((call s.db).0, record s { db = (call s.db).1 })

-- A call of the store whose error is only logged.
abbrev pub run_db : {A : Type 0} → Sql A → Server → Server
run_db call s = record s { db = (call s.db).1 }

abbrev pub new_conn : Text → ℕ → HandshakeRequest → ClientConn
new_conn sid now req = record {
  session_id = sid;
  device_id = req.device_id;
  hostname = req.hostname;
  os = req.os;
  os_version = req.os_version;
  client_version = req.client_version;
  mac_addrs = req.mac_addrs;
  ip_addrs = req.ip_addrs;
  stream = none;
  disconnect_closed = false;
  cmd_queue = [];
  last_heartbeat = 0;
  online = false;
  connected_at = now;
}

abbrev pub machine_of : HandshakeRequest → Machine
machine_of req = record {
  device_id = req.device_id;
  hostname = req.hostname;
  os = req.os;
  os_version = req.os_version;
  kernel_version = req.kernel_version;
  client_version = req.client_version;
  mac_addrs = req.mac_addrs;
  ip_addrs = req.ip_addrs;
}

abbrev pub welcome : Text → Text → HandshakeResponse
welcome sid stamp = record {
  ok = true;
  session_id = sid;
  server_time = stamp;
  message = codes "welcome to TeamX";
}

abbrev pub blocked_response : HandshakeResponse
blocked_response = record {
  ok = false;
  session_id = [];
  server_time = [];
  message = codes "device is blocked";
}

-- The new session is entered in the registry and, if the store can, in the store.
unfoldable pub admit : HandshakeRequest → Text → ℕ → Text → Server → Rpc HandshakeResponse × Server
admit req sid now stamp s = (
  reply (welcome sid stamp),
  run_db (upsert_terminal sid (machine_of req) stamp)
      (record s { cm = add (new_conn sid now req) s.cm }),
)

-- A failing check of the blocklist is only logged, and admits the client.
unfoldable pub unless_blocked :
    HandshakeRequest → Text → ℕ → Text → Result Bool × Server → Rpc HandshakeResponse × Server
unless_blocked req sid now stamp (ok true, s) = (reply blocked_response, s)
unless_blocked req sid now stamp (ok false, s) = admit req sid now stamp s
unless_blocked req sid now stamp (err e, s) = admit req sid now stamp s

unfoldable pub register :
    HandshakeRequest → Text → ℕ → Text → Server → Rpc HandshakeResponse × Server
register req sid now stamp s =
    if is_full s.cm
    then (status resource_exhausted, s)
    else unless_blocked req sid now stamp (on_db (is_device_blocked req.device_id) s)

-- ---- administration

pub record Answer : Type 0 where
  pub ok : Bool
  pub message : Text

-- The lock is taken twice: the session is looked up in the state `seen`, and kicked in the state `s`
-- that other calls have made of it by then.
unfoldable pub disconnect_terminal : Text → Server → Server → Rpc Answer × Server
disconnect_terminal sid seen s =
    let refused : Rpc Answer × Server =
      (reply (record { ok = false; message = codes "session not found or offline" }), s) in
    let kicked : Rpc Answer × Server =
      (reply (record { ok = true; message = codes "kicked" }), record s { cm = kick sid s.cm }) in
    elim (get sid seen.cm) [
      | none ↦ refused
      | some conn ↦ if not conn.online then refused else kicked
    ]

abbrev pub after_write :
    Result (Unit {0}) × Server → (Server → Rpc Answer × Server) → Rpc Answer × Server
after_write (ok t, s) f = f s
after_write (err e, s) f = (status internal, s)

unfoldable pub block_terminal : Text → Server → Rpc Answer × Server
block_terminal dev s = after_write (on_db (mark_blocked dev) s) λ t. (
  reply (record { ok = true; message = codes "blocked" }),
  record t { cm = kick_device_sessions dev t.cm },
)

unfoldable pub unblock_terminal_rpc : Text → Server → Rpc Answer × Server
unblock_terminal_rpc dev s =
    after_write (on_db (unblock_terminal dev) s)
      λ t. (reply (record { ok = true; message = codes "unblocked" }), t)

-- ---- queries

pub record TerminalSummary : Type 0 where
  pub session_id : Text
  pub device_id : Text
  pub hostname : Text
  pub os : Text
  pub os_version : Text
  pub client_version : Text
  pub online : Bool
  pub blocked : Bool
  pub last_heartbeat : Text
  pub last_seen_at : Text

unfoldable pub summary : Terminal → TerminalSummary
summary t = record {
  session_id = t.session_id;
  device_id = t.device_id;
  hostname = t.hostname;
  os = t.os;
  os_version = t.os_version;
  client_version = t.client_version;
  online = t.online;
  blocked = t.blocked;
  last_heartbeat = t.last_heartbeat;
  last_seen_at = t.last_seen_at;
}

-- Page size and page are int32; out of range they become 50 and 1.
unfoldable pub page_size_of : ℤ → ℕ
page_size_of (pos n) = if leb n 0 || ltb 500 n then 50 else n
page_size_of (negsuc n) = 50

unfoldable pub page_of : ℤ → ℕ
page_of (pos n) = if ltb n 1 then 1 else n
page_of (negsuc n) = 1

unfoldable pub page_offset : ℤ → ℤ → ℕ
page_offset page page_size = (page_of page - 1) * page_size_of page_size

unfoldable pub history_limit : ℤ → ℕ
history_limit (pos n) = if leb n 0 || ltb 500 n then 100 else n
history_limit (negsuc n) = 100

pub record ListResponse : Type 0 where
  pub terminals : List TerminalSummary
  pub total_count : ℕ

pub record TerminalResponse : Type 0 where
  pub summary : TerminalSummary
  pub latest_hardware : Option HardwareInfo

abbrev list_reply : Result (List Terminal × ℕ) → Rpc ListResponse
list_reply (ok (ts, total)) = reply (record { terminals = map summary ts; total_count = total })
list_reply (err e) = status internal

abbrev or_nil : Result (Option HardwareInfo) → Option HardwareInfo
or_nil (ok hw) = hw
or_nil (err e) = none

abbrev history_reply : Result (List HardwareSnapshot) → Rpc (List HardwareSnapshot)
history_reply (ok snaps) = reply snaps
history_reply (err e) = status internal

module _ (engine : Engine) where
  unfoldable pub list_terminals_rpc : Option Bool → ℤ → ℤ → Server → Rpc ListResponse × Server
  list_terminals_rpc online page page_size s =
      let (found, t) =
        on_db
          (list_terminals engine online (pos (page_offset page page_size))
            (pos (page_size_of page_size)))
          s in
      (list_reply found, t)

  terminal_reply : Result Terminal × Server → Rpc TerminalResponse × Server
  terminal_reply (err no_rows, s) = (status not_found, s)
  terminal_reply (err failed, s) = (status internal, s)
  terminal_reply (err no_payload, s) = (status internal, s)
  terminal_reply (ok t, s) =
      let (hw, u) = on_db (get_latest_hardware engine t.device_id) s in
      (reply (record { summary = summary t; latest_hardware = or_nil hw }), u)

  -- The device is asked for where one is given.
  unfoldable pub get_terminal_rpc : Text → Text → Server → Rpc TerminalResponse × Server
  unfolding terminal_reply
  get_terminal_rpc sid [] s = terminal_reply (on_db (get_terminal sid) s)
  get_terminal_rpc sid (c ∷ dev) s =
      terminal_reply (on_db (get_terminal_by_device engine (c ∷ dev)) s)

  unfoldable pub get_terminal_history :
      Text → Text → Text → ℤ → Server → Rpc (List HardwareSnapshot) × Server
  get_terminal_history dev since until limit s =
      let (found, t) =
        on_db (list_hardware_reports engine dev since until (pos (history_limit limit))) s in
      (history_reply found, t)

unfoldable pub transfer_file : Server → Rpc (Unit {0}) × Server
transfer_file s = (status unimplemented, s)

-- `extractSessionID`: the metadata of the call, if there is any, and its `session-id` values.
unfoldable pub extract_session_id : Option (List Text) → Rpc Text
extract_session_id none = status unauthenticated
extract_session_id (some []) = status unauthenticated
extract_session_id (some (sid ∷ rest)) = reply sid
