-- ===== src/Server/Sending.antt =====
-- `SendCommand` of internal/server/command.go, for a device whose latest session is online.
use team_x.Base.{
  ◌≡◌, refl, ap, sym, subst, ◌∙◌, true, false, ◌||◌, some, [], ◌∷◌, ◌++◌, append-nil, Text, codes,
  text_eq, text_eq_refl, if◌then◌else◌, any, Bool-cases, inl, inr, ℤ, pos, find-append, find-passes,
  text_eq_iff,
}
use team_x.Proto.Messages.{Rpc, reply}
use team_x.Store.Engine.{Engine}
use team_x.Store.Sql.{TerminalRow, CommandRow, Tables, ok, query, exec}
use team_x.Store.Terminals.{scan_row, scan_terminal, latest_of, get_terminal_by_device}
use team_x.Store.Commands.{
  Outcome, pending, failed_status, has_command, new_command, save_command_log,
  update_command_status,
}
use team_x.Store.Commands.Status.{command_row, on_row, row-update_command_result}
use team_x.Server.Connection.{ClientConn, ConnectionManager, get, has_room, enqueue, is_session}
use team_x.Server.Service.{Server, on_db, run_db}
use team_x.Server.Dispatch.{
  SendRequest, SendResponse, outgoing, em_dash, queue_command, send_online, send_found,
  is_unspecified, send_command,
}
use team_x.Server.Lifecycle.{row_status, status_of}
use team_x.Server.Queue.{queue_of, get-enqueue, accepts}

-- A server whose engine does not fail.
abbrev pub running : ConnectionManager → Tables → Server
running cm t = record { cm = cm; db = record { tables = t; faults = [] } }

abbrev pub queued : Text → SendResponse
queued id = record { ok = true; command_id = id; message = codes "queued" }

abbrev pub queue_full : Text → SendResponse
queue_full id = record {
  ok = false;
  command_id = id;
  message = codes "command queue full " ++ em_dash ++ codes " retry later";
}

-- The lemma on status updates is stated with one on results.
abbrev no_outcome : Outcome
no_outcome = record {
  status = [];
  exit_code = pos 0;
  stdout = [];
  stderr = [];
  error_message = [];
  started_at = [];
  finished_at = [];
}

module _ (engine : Engine) (req : SendRequest) (id : Text) (unix : ℤ) (stamp : Text)
    (cm : ConnectionManager) (t : Tables) (r : TerminalRow) (conn : ClientConn)
    (latest : latest_of engine req.device_id t.terminals ≡ some r)
    (found : get r.session_id cm ≡ some conn) (online : conn.online ≡ true)
    (free : any (has_command id) t.commands ≡ false) where
  entry : CommandRow
  entry = new_command id r.session_id req.type req.params stamp

  logged : Tables
  logged = record t { commands = t.commands ++ entry ∷ [] }

  looked_up :
      on_db (get_terminal_by_device engine req.device_id) (running cm t)
      ≡ (ok (scan_row r), running cm t)
  unfolding get_terminal_by_device query scan_terminal
  looked_up = rw latest refl

  saved :
      on_db
        (save_command_log id r.session_id req.device_id req.type req.params stamp)
        (running cm t)
      ≡ (ok tt, running cm logged)
  unfolding save_command_log exec logged entry
  saved = rw free refl

  sends :
      send_online req id unix stamp (scan_row r) (running cm t)
      ≡ queue_command req id unix conn (ok tt, running cm logged)
  unfolding send_online scan_row get queue_command
  sends = rw (found, online) (ap (queue_command req id unix conn) saved)

  -- Where the queue has no room, the row is marked Failed.
  given_up : Server
  given_up = run_db (update_command_status id failed_status) (running cm logged)

  outcome : queue_command req id unix conn (ok tt, running cm logged) ≡ (
      if has_room conn
      then (reply (queued id), running (enqueue conn.session_id (outgoing id unix req) cm) logged)
      else (reply (queue_full id), given_up))
  unfolding queue_command given_up
  outcome = refl

  row-logged : command_row id (running cm logged).db ≡ some entry
  unfolding logged entry new_command
  row-logged = find-append (has_command id) t.commands (entry ∷ []) free ∙ rw (text_eq_refl id) refl

  row-given_up : command_row id given_up.db ≡ some (record entry { status = failed_status })
  unfolding given_up
  row-given_up =
      (row-update_command_result id id no_outcome failed_status (running cm logged).db refl).1
      ∙ rw (text_eq_refl id) (ap (on_row (λ e. record e { status = failed_status })) row-logged)

  cm-given_up : given_up.cm ≡ cm
  unfolding given_up
  cm-given_up = refl

  same : conn.session_id ≡ r.session_id
  unfolding get
  same =
      (text_eq_iff conn.session_id r.session_id).0
        (find-passes (is_session r.session_id) cm.sessions conn found)

  queue-enqueue :
      queue_of (get r.session_id (enqueue conn.session_id (outgoing id unix req) cm))
      ≡ conn.cmd_queue ++ (if has_room conn then outgoing id unix req ∷ [] else [])
  queue-enqueue =
      ap (λ sid. queue_of (get r.session_id (enqueue sid (outgoing id unix req) cm))) same
      ∙ get-enqueue r.session_id (outgoing id unix req) cm
      ∙ ap (λ o. queue_of o ++ accepts (outgoing id unix req) o) found

  -- The answer, the command's row, and the queue of the session.
  abbrev pub Sent : Rpc SendResponse × Server → Type 0
  Sent after =
      (after.0 ≡ reply (if has_room conn then queued id else queue_full id))
      × (status_of id after.1 ≡ some (if has_room conn then pending else failed_status))
      × (queue_of (get r.session_id after.1.cm)
          ≡ conn.cmd_queue ++ (if has_room conn then outgoing id unix req ∷ [] else []))

  outcome-Sent : Sent (queue_command req id unix conn (ok tt, running cm logged))
  outcome-Sent = elim (Bool-cases (has_room conn)) [
    | inl room ↦
        rw (outcome, room)
          (
            refl,
            ap row_status row-logged ∙ (unfold entry new_command in refl),
            queue-enqueue ∙ rw room refl,
          )
    | inr full ↦
        rw (outcome, full)
          (
            refl,
            ap row_status row-given_up,
            ap (λ c. queue_of (get r.session_id c)) cm-given_up
                ∙ ap queue_of found
                ∙ sym (append-nil conn.cmd_queue),
          )
  ]

  -- On an engine that does not fail, for a device whose latest session is online and a new command
  -- identifier: with room in the session's queue, the command is answered as queued, logged as Pending
  -- and the last in the queue, with its timeout defaulted; with none, it is answered as refused,
  -- logged as Failed, and the queue is as it was.
  pub send_command-Sent :
      (text_eq req.device_id [] || is_unspecified req.type) ≡ false
      → Sent (send_command engine req id unix stamp (running cm t))
  unfolding send_command
  send_command-Sent well_formed = subst Sent (sym step) (outcome-Sent)
    where
      step :
          send_command engine req id unix stamp (running cm t)
          ≡ queue_command req id unix conn (ok tt, running cm logged)
      step =
          rw well_formed
            (ap (send_found req id unix stamp) looked_up ∙ (unfold send_found in sends))
