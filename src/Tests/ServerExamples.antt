-- ===== src/Tests/ServerExamples.antt =====
-- The theorems on the server, at the sample servers.
use team_x.Base.{
  ◌*◌, ◌^◌, ◌≤◌, ◌<◌, ◌≡◌, refl, true, false, ◌⊎◌, some, none, [], ◌∷◌, ◌++◌, arith, Text, codes,
  if◌then◌else◌, text_eq, any, find, length, pos,
}
use team_x.Proto.Messages.{reply, status, resource_exhausted}
use team_x.Store.Sql.{IsUp, ok}
use team_x.Store.Terminals.Sessions.{registered}
use team_x.Store.Terminals.{get_terminal, has_session, has_device, device_blocked}
use team_x.Store.Commands.{is_open, sent, timed_out}
use team_x.Store.Commands.Status.{command_row}
use team_x.Server.Connection.{get, is_full, record_heartbeat, cmd_queue_capacity}
use team_x.Server.Service.{register, blocked_response, welcome, disconnect_terminal, block_terminal}
use team_x.Server.Dispatch.{handle_command_result, mark_sent, watch_fires, watch_delay}
use team_x.Server.Registration.{register-up, register-block_terminal}
use team_x.Server.Queue.{offer, pull, run, queue_of, run_fifo, run-bounded}
use team_x.Server.Lifecycle.{status_of, status-in_order, status-late_mark, watch_delay_lem}
use team_x.Server.Heartbeats.{aged, goes_offline, set_offline, tick_lem}
use team_x.Server.Steps.{here, tick}
use team_x.Server.Steps.Registry.{is_kicked}
use team_x.Server.Steps.Capacity.{register-full_forever}
use team_x.Server.Steps.Kicks.{
  kicked_answer, not_kicked_answer, is_up, disconnect_terminal-is_kicked, block_terminal-is_kicked,
  block_terminal-spares_offline,
}
use team_x.Tests.SortEngine.{sort_engine}
use team_x.Tests.Samples.{
  hello, stamp, command_one, conn_one, cm_one, server_one, server_full, server_offline, ping,
  result_one,
}

abbrev s2 : Text
s2 = codes "s2"

abbrev dev1 : Text
dev1 = codes "dev1"

has_room_left : is_full server_one.cm ≡ false
unfolding is_full
has_room_left = refl

is_new : get s2 server_one.cm ≡ none
unfolding get text_eq
is_new = refl

register-up_example :
    let after = register hello s2 200 stamp server_one in
    ((device_blocked hello.device_id server_one.db.terminals ≡ true)
      × (after.0
          ≡ reply (record {
            ok = false;
            session_id = [];
            server_time = [];
            message = codes "device is blocked";
          }))
      × (after.1.cm ≡ server_one.cm)
      × (after.1.db.tables ≡ server_one.db.tables))
    ⊎ ((device_blocked hello.device_id server_one.db.terminals ≡ false)
        × (after.0
            ≡ reply (record {
              ok = true;
              session_id = s2;
              server_time = stamp;
              message = codes "welcome to TeamX";
            }))
        × (get s2 after.1.cm
            ≡ some (record {
              session_id = s2;
              device_id = hello.device_id;
              hostname = hello.hostname;
              os = hello.os;
              os_version = hello.os_version;
              client_version = hello.client_version;
              mac_addrs = hello.mac_addrs;
              ip_addrs = hello.ip_addrs;
              stream = none;
              disconnect_closed = false;
              cmd_queue = [];
              last_heartbeat = 0;
              online = false;
              connected_at = 200;
            }))
        × ((get_terminal s2 after.1.db).0
            ≡ ok (
                registered s2
                  (record {
                    device_id = hello.device_id;
                    hostname = hello.hostname;
                    os = hello.os;
                    os_version = hello.os_version;
                    kernel_version = hello.kernel_version;
                    client_version = hello.client_version;
                    mac_addrs = hello.mac_addrs;
                    ip_addrs = hello.ip_addrs;
                  })
                  stamp
                  (find (has_session s2) server_one.db.terminals))))
register-up_example = register-up hello s2 200 stamp server_one refl has_room_left is_new

register-block_terminal_example :
    ((block_terminal hello.device_id server_one).0
      ≡ reply (record { ok = true; message = codes "blocked" }))
    × ((register hello s2 200 stamp (block_terminal hello.device_id server_one).1).0 ≡ (
        if any (has_device hello.device_id) server_one.db.terminals
        then reply blocked_response
        else reply (welcome s2 stamp)))
register-block_terminal_example =
    register-block_terminal hello s2 200 stamp server_one refl has_room_left

run_fifo_example :
    queue_of (get (codes "s1") cm_one)
      ++ (run (codes "s1") (offer ping ∷ pull ∷ []) cm_one).accepted
    ≡ (run (codes "s1") (offer ping ∷ pull ∷ []) cm_one).delivered
      ++ queue_of (get (codes "s1") (run (codes "s1") (offer ping ∷ pull ∷ []) cm_one).cm)
run_fifo_example = run_fifo (codes "s1") (offer ping ∷ pull ∷ []) cm_one

run-bounded_example :
    length (queue_of (get (codes "s1") (run (codes "s1") (offer ping ∷ []) cm_one).cm))
    ≤ cmd_queue_capacity
run-bounded_example = run-bounded (codes "s1") (offer ping ∷ []) cm_one within
  where
    within : length (queue_of (get (codes "s1") cm_one)) ≤ cmd_queue_capacity
    within = unfold get text_eq in omega arith

has_row : command_row result_one.command_id server_one.db ≡ some command_one
unfolding text_eq
has_row = refl

is_final : is_open result_one.status ≡ false
unfolding is_open text_eq
is_final = refl

status-in_order_example :
    status_of result_one.command_id (
      watch_fires result_one.command_id stamp
        (handle_command_result result_one (mark_sent result_one.command_id true server_one)))
    ≡ some result_one.status
status-in_order_example =
    status-in_order result_one stamp server_one command_one refl has_row is_final

status-late_mark_example :
    (status_of result_one.command_id
        (mark_sent result_one.command_id true (handle_command_result result_one server_one))
      ≡ some sent)
    × (status_of result_one.command_id (
          watch_fires result_one.command_id stamp
            (mark_sent result_one.command_id true (handle_command_result result_one server_one)))
        ≡ some timed_out)
status-late_mark_example = status-late_mark result_one stamp server_one command_one refl has_row

watch_delay_lem_example :
    (0 < 45 → 45 ≤ 9223372036 → watch_delay (pos 45) ≡ 45 * 1000000000)
    × (0 < watch_delay (pos 45))
    × (watch_delay (pos 45) < 2 ^ 63)
watch_delay_lem_example = watch_delay_lem 45

tick_lem_example :
    (get (codes "s1") (tick 500 300 server_one).cm ≡ aged 500 300 (get (codes "s1") server_one.cm))
    × (IsUp server_one.db
        → find (has_session (codes "s1")) (tick 500 300 server_one).db.terminals
          ≡ set_offline
              (goes_offline (codes "s1") 500 300 server_one.cm.sessions)
              (find (has_session (codes "s1")) server_one.db.terminals))
tick_lem_example = tick_lem (codes "s1") 500 300 server_one

register-full_forever_example :
    register hello s2 200 stamp server_full ≡ (status resource_exhausted, server_full)
register-full_forever_example =
    register-full_forever sort_engine server_full server_full hello s2 200 stamp full here
  where
    full : is_full server_full.cm ≡ true
    full = unfold is_full in refl

disconnect_terminal-is_kicked_example :
    (((disconnect_terminal (codes "s1") server_one server_one).0 ≡ kicked_answer)
      × (is_up (get (codes "s1") server_one.cm) ≡ true)
      × (is_kicked (codes "s1") (disconnect_terminal (codes "s1") server_one server_one).1.cm
          ≡ true))
    ⊎ (((disconnect_terminal (codes "s1") server_one server_one).0 ≡ kicked_answer)
        × (is_up (get (codes "s1") server_one.cm) ≡ false)
        × (get (codes "s1") (disconnect_terminal (codes "s1") server_one server_one).1.cm
            ≡ get (codes "s1") server_one.cm))
    ⊎ ((is_up (get (codes "s1") server_one.cm) ≡ false)
        × (disconnect_terminal (codes "s1") server_one server_one
            ≡ (not_kicked_answer, server_one)))
disconnect_terminal-is_kicked_example =
    disconnect_terminal-is_kicked sort_engine (codes "s1") server_one server_one
      (disconnect_terminal (codes "s1") server_one server_one).1 here

block_terminal-is_kicked_example :
    is_kicked (codes "s1") (block_terminal dev1 server_one).1.cm ≡ true
block_terminal-is_kicked_example =
    block_terminal-is_kicked sort_engine dev1 (codes "s1") server_one
      (block_terminal dev1 server_one).1 conn_one refl found refl refl here
  where
    found : get (codes "s1") server_one.cm ≡ some conn_one
    found = unfold get text_eq in refl

block_terminal-spares_offline_example :
    get (codes "s1") (record_heartbeat (codes "s1") 600 (block_terminal dev1 server_offline).1.cm)
    ≡ some (record conn_one { last_heartbeat = 600; online = true })
block_terminal-spares_offline_example =
    block_terminal-spares_offline dev1 (codes "s1") 600 server_offline
      (record conn_one { online = false }) refl found refl
  where
    found : get (codes "s1") server_offline.cm ≡ some (record conn_one { online = false })
    found = unfold get text_eq in refl
