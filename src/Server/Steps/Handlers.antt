-- ===== src/Server/Steps/Handlers.antt =====
-- What the handlers keep of the registry of sessions, and so every step.
use team_x.Base.{
  ℕ, ◌≡◌, refl, Bool, true, false, ◌||◌, inl, inr, Option, none, some, List, [], ◌∷◌, arith, Text,
  text_eq, ℤ, codes, Bool-cases, Option-cases, head?,
}
use team_x.Proto.Messages.{
  reply, HandshakeRequest, ReportRequest, ClientPayload, heartbeat, report_request, command_result,
  unset,
}
use team_x.Store.Engine.{Engine}
use team_x.Store.Sql.{Result, ok, err}
use team_x.Store.Terminals.{
  Terminal, is_device_blocked, get_terminal_by_device, mark_offline, mark_blocked, unblock_terminal,
}
use team_x.Store.Commands.{save_command_log}
use team_x.Server.Connection.{
  ClientConn, ConnectionManager, Stream, get, is_full, kick_device_sessions, has_room,
}
use team_x.Server.Service.{
  Server, after_write, on_db, run_db, register, unless_blocked, admit, new_conn, extract_session_id,
  disconnect_terminal, block_terminal, unblock_terminal_rpc,
}
use team_x.Server.Dispatch.{
  SendRequest, send_found, is_unspecified, outgoing, disconnected, eof, broken, message,
  send_command, send_online, queue_command, Input, open_channel, receive, handle_payload,
  handle_heartbeat, handle_report, handle_command_result, close_channel, take_command, mark_sent,
  watch_fires,
}
use team_x.Server.Steps.{
  Step, registers, opens, receives, closes, takes, marks, fires, ticks, sends, disconnects, blocks,
  unblocks, Reach, here, next, tick, mark_all_offline, after_take,
}
use team_x.Server.Steps.Registry.{
  Grows, Grows-refl, Grows-trans, kick-Grows, record_heartbeat-Grows, set_stream-Grows,
  clear_stream-Grows, check_heartbeats-Grows, kick_device_sessions-Grows, enqueue-Grows,
  dequeue-Grows, add-Grows,
}

Grows-at : {a b : ConnectionManager} → b ≡ a → Grows a b
Grows-at {a} e = rw e (Grows-refl a)

register-Grows :
    (req : HandshakeRequest) (sid : Text) (now : ℕ) (stamp : Text) (s : Server)
    → get sid s.cm ≡ none
    → Grows s.cm (register req sid now stamp s).1.cm
unfolding register
register-Grows req sid now stamp s fresh = elim (Bool-cases (is_full s.cm)) [
  | inl full ↦ rw full (Grows-refl s.cm)
  | inr room ↦ rw room (checked (on_db (is_device_blocked req.device_id) s) fresh)
]
  where
    checked :
        (r : Result Bool × Server)
        → get sid r.1.cm ≡ none
        → Grows r.1.cm (unless_blocked req sid now stamp r).1.cm
    checked (ok true, t) h = unfold unless_blocked in Grows-refl t.cm
    checked (ok false, t) h = unfold unless_blocked admit in add-Grows (new_conn sid now req) t.cm h
    checked (err e, t) h = unfold unless_blocked admit in add-Grows (new_conn sid now req) t.cm h

open_channel-Grows :
    (md : Option (List Text)) (st : Stream) (now : ℕ) (s : Server)
    → Grows s.cm (open_channel md st now s).1.cm
unfolding open_channel extract_session_id
open_channel-Grows none st now s = Grows-refl s.cm
open_channel-Grows (some []) st now s = Grows-refl s.cm
open_channel-Grows (some (sid ∷ rest)) st now s = elim (Option-cases (get sid s.cm)) [
  | inl missing ↦ rw missing (Grows-refl s.cm)
  | inr (conn, found) ↦ rw found (set_stream-Grows sid st now s.cm)
]

handle_report-Grows :
    (sid dev stamp : Text) (r : ReportRequest) (s : Server)
    → (handle_report sid dev stamp r s).cm ≡ s.cm
unfolding handle_report
handle_report-Grows sid dev stamp r s = ground arith

receive-Grows :
    (sid dev : Text) (now : ℕ) (stamp : Text) (input : Input) (s : Server)
    → Grows s.cm (receive sid dev now stamp input s).1.cm
unfolding receive
receive-Grows sid dev now stamp disconnected s = Grows-refl s.cm
receive-Grows sid dev now stamp eof s = Grows-refl s.cm
receive-Grows sid dev now stamp (broken code) s = Grows-refl s.cm
receive-Grows sid dev now stamp (message m) s = payload m.payload
  where
    payload : (p : ClientPayload) → Grows s.cm (handle_payload sid dev now stamp p s).cm
    payload heartbeat =
        unfold handle_payload handle_heartbeat in record_heartbeat-Grows sid now s.cm
    payload (report_request r) =
        unfold handle_payload in Grows-at (handle_report-Grows sid dev stamp r s)
    payload (command_result r) = unfold handle_payload handle_command_result in Grows-refl s.cm
    payload unset = unfold handle_payload in Grows-refl s.cm

take_command-Grows : (sid : Text) (s : Server) → Grows s.cm (after_take s (take_command sid s)).cm
unfolding take_command
take_command-Grows sid s = elim (Option-cases (get sid s.cm)) [
  | inl missing ↦ rw (missing, after_take, take_command) (Grows-refl s.cm)
  | inr (conn, found) ↦ elim (Option-cases (head? conn.cmd_queue)) [
    | inl empty ↦ rw (found, after_take, take_command, empty) (Grows-refl s.cm)
    | inr (cmd, first) ↦ rw (found, after_take, take_command, first) (dequeue-Grows sid s.cm)
  ]
]

cm-mark_all_offline : (sids : List Text) (s : Server) → (mark_all_offline sids s).cm ≡ s.cm
unfolding mark_all_offline
cm-mark_all_offline [] s = refl
cm-mark_all_offline (sid ∷ sids) s = cm-mark_all_offline sids (run_db (mark_offline sid) s)

tick-Grows : (now timeout : ℕ) (s : Server) → Grows s.cm (tick now timeout s).cm
unfolding tick
tick-Grows now timeout s = rw cm-mark_all_offline (check_heartbeats-Grows now timeout s.cm)

queue_command-Grows :
    (req : SendRequest) (id : Text) (unix : ℤ) (conn : ClientConn) (r : Result (Unit {0}) × Server)
    → Grows r.1.cm (queue_command req id unix conn r).1.cm
unfolding queue_command
queue_command-Grows req id unix conn (err e, s) = Grows-refl s.cm
queue_command-Grows req id unix conn (ok t, s) = elim (Bool-cases (has_room conn)) [
  | inl room ↦ rw room (enqueue-Grows conn.session_id (outgoing id unix req) s.cm)
  | inr full ↦ rw full (Grows-refl s.cm)
]

send_online-Grows :
    (req : SendRequest) (id : Text) (unix : ℤ) (stamp : Text) (t : Terminal) (s : Server)
    → Grows s.cm (send_online req id unix stamp t s).1.cm
unfolding send_online
send_online-Grows req id unix stamp t s = elim (Option-cases (get t.session_id s.cm)) [
  | inl missing ↦ rw (missing, send_online) (Grows-refl s.cm)
  | inr (conn, found) ↦ elim (Bool-cases conn.online) [
    | inl on ↦
        rw (found, send_online)
          (simp on (
            queue_command-Grows req id unix conn
              (on_db (save_command_log id t.session_id req.device_id req.type req.params stamp) s)))
    | inr off ↦ rw (found, send_online) (simp off (Grows-refl s.cm))
  ]
]

send_command-Grows :
    (engine : Engine) (req : SendRequest) (id : Text) (unix : ℤ) (stamp : Text) (s : Server)
    → Grows s.cm (send_command engine req id unix stamp s).1.cm
unfolding send_command
send_command-Grows engine req id unix stamp s =
    elim (Bool-cases (text_eq req.device_id [] || is_unspecified req.type)) [
      | inl bad ↦ rw bad (Grows-refl s.cm)
      | inr good ↦ rw good (found (on_db (get_terminal_by_device engine req.device_id) s))
    ]
  where
    found : (r : Result Terminal × Server) → Grows r.1.cm (send_found req id unix stamp r).1.cm
    found (err e, t) = Grows-refl t.cm
    found (ok t, u) = send_online-Grows req id unix stamp t u

disconnect_terminal-Grows :
    (sid : Text) (seen s : Server) → Grows s.cm (disconnect_terminal sid seen s).1.cm
unfolding disconnect_terminal
disconnect_terminal-Grows sid seen s = elim (Option-cases (get sid seen.cm)) [
  | inl missing ↦ rw (missing, disconnect_terminal) (Grows-refl s.cm)
  | inr (conn, found) ↦ elim (Bool-cases conn.online) [
    | inl on ↦ rw (found, disconnect_terminal, on) (kick-Grows sid s.cm)
    | inr off ↦ rw (found, disconnect_terminal, off) (Grows-refl s.cm)
  ]
]

block_terminal-Grows : (dev : Text) (s : Server) → Grows s.cm (block_terminal dev s).1.cm
unfolding block_terminal
block_terminal-Grows dev s = written (on_db (mark_blocked dev) s)
  where
    written :
        (r : Result (Unit {0}) × Server)
        → Grows r.1.cm
            (after_write r (λ t. (
              reply (record { ok = true; message = codes "blocked" }),
              record t { cm = kick_device_sessions dev t.cm },
            ))).1.cm
    written (ok t, u) = kick_device_sessions-Grows dev u.cm
    written (err e, u) = Grows-refl u.cm

unblock_terminal_rpc-Grows :
    (dev : Text) (s : Server) → Grows s.cm (unblock_terminal_rpc dev s).1.cm
unfolding unblock_terminal_rpc
unblock_terminal_rpc-Grows dev s = Grows-at (written (on_db (unblock_terminal dev) s))
  where
    written :
        (r : Result (Unit {0}) × Server)
        → (after_write r (λ t. (reply (record { ok = true; message = codes "unblocked" }), t))).1.cm
          ≡ r.1.cm
    written (ok t, u) = refl
    written (err e, u) = refl

pub Step-Grows : {engine : Engine} {s t : Server} → Step engine s t → Grows s.cm t.cm
Step-Grows (registers s req sid now stamp fresh) = register-Grows req sid now stamp s fresh
Step-Grows (opens s md st now) = open_channel-Grows md st now s
Step-Grows (receives s sid dev now stamp input) = receive-Grows sid dev now stamp input s
Step-Grows (closes s sid) = unfold close_channel in clear_stream-Grows sid s.cm
Step-Grows (takes s sid) = take_command-Grows sid s
Step-Grows (marks s id true) = unfold mark_sent in Grows-refl s.cm
Step-Grows (marks s id false) = unfold mark_sent in Grows-refl s.cm
Step-Grows (fires s id stamp) = unfold watch_fires in Grows-refl s.cm
Step-Grows (ticks s now timeout) = tick-Grows now timeout s
Step-Grows {engine} (sends s req id unix stamp) = send_command-Grows engine req id unix stamp s
Step-Grows (disconnects s seen sid) = disconnect_terminal-Grows sid seen s
Step-Grows (blocks s dev) = block_terminal-Grows dev s
Step-Grows (unblocks s dev) = unblock_terminal_rpc-Grows dev s

pub Reach-Grows : {engine : Engine} {s t : Server} → Reach engine s t → Grows s.cm t.cm
Reach-Grows {s = s} here = Grows-refl s.cm
Reach-Grows (next r step) = Grows-trans (Reach-Grows r) (Step-Grows step)
