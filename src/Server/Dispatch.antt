-- ===== src/Server/Dispatch.antt =====
-- internal/server/command.go and the channel of server.go: commands from `SendCommand` through the
-- queue and the consumer to their results, heartbeats and reports.
use team_x.Base.{
  ℕ, ◌*◌, ◌%◌, ◌^◌, Bool, true, false, not, ◌||◌, Option, none, some, List, [], ◌∷◌, ◌++◌, Text,
  codes, if◌then◌else◌, ltb, leb, ℤ, pos, negsuc, text_eq, head?, to_int64, leb_zero, ◌==◌,
}
use team_x.Clock.{format_unix_time}
use team_x.Proto.Types.{CommandType}
use team_x.Proto.Messages.{
  Command, CommandResult, ReportRequest, hardware, other, ClientPayload, heartbeat, report_request,
  command_result, unset, ClientMessage, Code, not_found, internal, invalid_argument,
  permission_denied, Rpc, reply, status,
}
use team_x.Store.Engine.{Engine}
use team_x.Store.Json.Map.{Entries}
use team_x.Store.Sql.{Result, ok, err}
use team_x.Store.Terminals.{Terminal, get_terminal_by_device, update_heartbeat, mark_offline}
use team_x.Store.Commands.{
  Outcome, CommandLogEntry, save_command_log, update_command_result, update_command_status,
  mark_command_timeout, get_command_log, sent, failed_status,
}
use team_x.Store.Hardware.{save_hardware_report}
use team_x.Server.Connection.{
  ClientConn, Stream, get, has_room, enqueue, dequeue, record_heartbeat, set_stream, clear_stream,
}
use team_x.Server.Service.{Server, on_db, run_db, extract_session_id}

pub record SendRequest : Type 0 where
  pub device_id : Text
  pub type : CommandType
  pub params : Entries
  pub timeout_sec : ℤ

pub record SendResponse : Type 0 where
  pub ok : Bool
  pub command_id : Text
  pub message : Text

abbrev pub refused : Text → SendResponse
refused why = record { ok = false; command_id = []; message = why }

-- `if timeoutSec <= 0` the default of 30 seconds.
unfoldable pub timeout_seconds : ℤ → ℤ
timeout_seconds t = if leb_zero t then pos 30 else t

abbrev pub outgoing : Text → ℤ → SendRequest → Command
outgoing id unix req = record {
  command_id = id;
  type = req.type;
  params = req.params;
  timeout_sec = timeout_seconds req.timeout_sec;
  created_at_unix = unix;
}

-- The bytes of the dash in the message below.
abbrev pub em_dash : Text
em_dash = 0xE2 ∷ 0x80 ∷ 0x94 ∷ []

-- The command is logged; it is queued, or marked Failed where the queue is full.
unfoldable pub queue_command :
    SendRequest → Text → ℤ → ClientConn → Result (Unit {0}) × Server → Rpc SendResponse × Server
queue_command req id unix conn (err e, s) = (status internal, s)
queue_command req id unix conn (ok t, s) =
    if has_room conn
    then (
      reply (record { ok = true; command_id = id; message = codes "queued" }),
      record s { cm = enqueue conn.session_id (outgoing id unix req) s.cm },
    )
    else (
      reply (record {
        ok = false;
        command_id = id;
        message = codes "command queue full " ++ em_dash ++ codes " retry later";
      }),
      run_db (update_command_status id failed_status) s,
    )

abbrev offline : Server → Rpc SendResponse × Server
offline s = (reply (refused (codes "terminal is offline")), s)

-- `id`, `unix` and `stamp` are the new command identifier and the clock.
unfoldable pub send_online :
    SendRequest → Text → ℤ → Text → Terminal → Server → Rpc SendResponse × Server
send_online req id unix stamp t s = elim (get t.session_id s.cm) [
  | none ↦ offline s
  | some conn ↦
      if not conn.online
      then offline s
      else queue_command req id unix conn
          (on_db (save_command_log id t.session_id req.device_id req.type req.params stamp) s)
]

unfoldable pub send_found :
    SendRequest → Text → ℤ → Text → Result Terminal × Server → Rpc SendResponse × Server
send_found req id unix stamp (err e, s) = (reply (refused (codes "device not found")), s)
send_found req id unix stamp (ok t, s) = send_online req id unix stamp t s

abbrev pub is_unspecified : CommandType → Bool
is_unspecified (pos n) = n == 0
is_unspecified (negsuc n) = false

-- `GetCommandLog`
unfoldable pub log_request_limit : ℤ → ℕ
log_request_limit (pos n) = if leb n 0 || ltb 200 n then 50 else n
log_request_limit (negsuc n) = 50

abbrev log_reply : Result (List CommandLogEntry) → Rpc (List CommandLogEntry)
log_reply (ok entries) = reply entries
log_reply (err e) = status internal

module _ (engine : Engine) where
  unfoldable pub send_command : SendRequest → Text → ℤ → Text → Server → Rpc SendResponse × Server
  unfolding send_found
  send_command req id unix stamp s =
      if text_eq req.device_id [] || is_unspecified req.type
      then (status invalid_argument, s)
      else send_found req id unix stamp (on_db (get_terminal_by_device engine req.device_id) s)

  unfoldable pub get_command_log_rpc :
      Text → Text → ℤ → Server → Rpc (List CommandLogEntry) × Server
  get_command_log_rpc dev sid limit s =
      let (found, t) = on_db (get_command_log engine dev sid (pos (log_request_limit limit))) s in
      (log_reply found, t)

-- ---- the consumer of one session

-- The next command of the session's queue, taken out of it.
unfoldable pub take_command : Text → Server → Option (Command × Server)
take_command sid s = elim (get sid s.cm) [
  | none ↦ none
  | some conn ↦ elim (head? conn.cmd_queue) [
    | none ↦ none
    | some cmd ↦ some (cmd, record s { cm = dequeue sid s.cm })
  ]
]

-- After `stream.Send`: Sent, or Failed where the send failed. An error of the store is only logged.
unfoldable pub mark_sent : Text → Bool → Server → Server
mark_sent id true s = run_db (update_command_status id sent) s
mark_sent id false s = run_db (update_command_status id failed_status) s

-- `time.Duration(sec) * time.Second` in int64 nanoseconds; what is not positive becomes 30 seconds.
unfoldable pub watch_delay : ℤ → ℕ
watch_delay (negsuc n) = 30 * 10 ^ 9
watch_delay (pos n) = elim (to_int64 (n * 10 ^ 9 % 2 ^ 64)) [
  | pos d ↦ if leb d 0 then 30 * 10 ^ 9 else d
  | negsuc d ↦ 30 * 10 ^ 9
]

-- One round of the consumer with no other step between: what it sends, and for how long it watches.
unfoldable pub consume : Text → Bool → Server → Option (Command × ℕ × Server)
consume sid sends s = elim (take_command sid s) [
  | none ↦ none
  | some (cmd, t) ↦ some (cmd, watch_delay cmd.timeout_sec, mark_sent cmd.command_id sends t)
]

-- `watchCommandTimeout`, when its time is up.
unfoldable pub watch_fires : Text → Text → Server → Server
watch_fires id stamp = run_db (mark_command_timeout id stamp)

-- ---- the receive loop

abbrev pub outcome_of : CommandResult → Outcome
outcome_of r = record {
  status = r.status;
  exit_code = r.exit_code;
  stdout = r.stdout;
  stderr = r.stderr;
  error_message = r.error_message;
  started_at = format_unix_time r.started_at_unix;
  finished_at = format_unix_time r.finished_at_unix;
}

unfoldable pub handle_command_result : CommandResult → Server → Server
handle_command_result r = run_db (update_command_result r.command_id (outcome_of r))

-- The acknowledgement is sent whether or not the store took the heartbeat.
unfoldable pub handle_heartbeat : Text → ℕ → Text → Server → Server
handle_heartbeat sid now stamp s =
    run_db (update_heartbeat sid stamp) (record s { cm = record_heartbeat sid now s.cm })

unfoldable pub handle_report : Text → Text → Text → ReportRequest → Server → Server
handle_report sid dev stamp report = elim report.type [
  | hardware info ↦ run_db (save_hardware_report sid dev stamp report)
  | other ↦ λ s. s
]

-- What the select of the receive loop takes: the closed `DisconnectCh`, or a received result.
pub data Input : Type 0 where
  disconnected eof : Input
  broken : Code → Input
  message : ClientMessage → Input

-- The loop goes on, or the channel returns with no error or with a status.
pub data Verdict : Type 0 where
  goes_on closes : Verdict
  fails : Code → Verdict

unfoldable pub handle_payload : Text → Text → ℕ → Text → ClientPayload → Server → Server
handle_payload sid dev now stamp heartbeat s = handle_heartbeat sid now stamp s
handle_payload sid dev now stamp (report_request r) s = handle_report sid dev stamp r s
handle_payload sid dev now stamp (command_result r) s = handle_command_result r s
handle_payload sid dev now stamp unset s = s

unfoldable pub receive : Text → Text → ℕ → Text → Input → Server → Verdict × Server
receive sid dev now stamp disconnected s = (fails permission_denied, s)
receive sid dev now stamp eof s = (closes, s)
receive sid dev now stamp (broken code) s = (fails code, s)
receive sid dev now stamp (message m) s = (goes_on, handle_payload sid dev now stamp m.payload s)

-- The start of `Channel`: the session and its device, once the stream is bound.
abbrev opened : Option ClientConn → Text → Stream → ℕ → Server → Rpc (Text × Text) × Server
opened none sid st now s = (status not_found, s)
opened (some conn) sid st now s =
    (reply (sid, conn.device_id), record s { cm = set_stream sid st now s.cm })

unfoldable pub open_channel : Option (List Text) → Stream → ℕ → Server → Rpc (Text × Text) × Server
open_channel md st now s = elim (extract_session_id md) [
  | status code ↦ (status code, s)
  | reply sid ↦ opened (get sid s.cm) sid st now s
]

-- The deferred calls of `Channel`.
unfoldable pub close_channel : Text → Server → Server
close_channel sid s = run_db (mark_offline sid) (record s { cm = clear_stream sid s.cm })
