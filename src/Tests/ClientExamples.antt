-- ===== src/Tests/ClientExamples.antt =====
-- The theorems on the client, and on both sides, at the samples.
use team_x.Base.{
  ◌+◌, ◌*◌, ◌≤◌, ◌≡◌, refl, true, false, not, some, none, [], ◌∷◌, ◌++◌, arith, Text, codes,
  text_eq, if◌then◌else◌, length, find, ltb,
}
use team_x.Proto.Types.{restart, shutdown}
use team_x.Proto.Messages.{CommandResult}
use team_x.Store.Commands.{is_open}
use team_x.Store.Commands.Status.{command_row}
use team_x.Store.Sql.{query}
use team_x.Store.Terminals.{device_blocked, is_device_blocked}
use team_x.Server.Connection.{get, is_full}
use team_x.Server.Service.{Server, register, unless_blocked}
use team_x.Server.Lifecycle.{status_of}
use team_x.Client.Agent.{Agent, first_fault}
use team_x.Client.Cache.{hash_hardware, is_changed, report_tick, report_tick_lem, zeros}
use team_x.Client.Executor.{dispatch_command, executing_result}
use team_x.Client.Executor.Results.{results, results-dispatch_command}
use team_x.Client.Backoff.{smaller, base_delay, backoff, backoff_lem}
use team_x.Client.Session.{
  acknowledged, waiting, recv_loop, happens, open_session, rejected, closed, left, connect,
  registered, with_device_id, handshake, fatal, going, waited, run,
}
use team_x.Client.Session.Running.{state_after, run-IsDown}
use team_x.Client.Session.Restart.{commanding, in_session, connect-restart}
use team_x.Client.Identity.{
  generate_device_id, generate_device_id_lem, primary_mac, address_or, is_usable, is_physical,
  primary_mac_lem,
}
use team_x.EndToEnd.Commands.{deliver, status-dispatch_command}
use team_x.EndToEnd.Blocking.{run-register}
use team_x.Tests.Samples.{stamp, row_one, command_one, tables_one, cm_one, server_one}
use team_x.Tests.ClientSamples.{
  hashing, bare_hardware, host, agent, uptime, taken_in, unreachable, blocking, round_of, fresh_run,
  physical, system, at_noon,
}

report_tick_lem_example :
    (is_changed hashing bare_hardware (report_tick hashing (codes "r1") bare_hardware agent).1 ≡ (
      if first_fault agent.send_faults
      then is_changed hashing bare_hardware agent
      else not
          (text_eq (hash_hardware hashing bare_hardware) (hash_hardware hashing bare_hardware))))
    × (first_fault agent.send_faults ≡ false
        → is_changed hashing bare_hardware (report_tick hashing (codes "r1") bare_hardware agent).1
          ≡ false)
report_tick_lem_example = report_tick_lem hashing (codes "r1") bare_hardware bare_hardware agent due
  where
    due : is_changed hashing bare_hardware agent ≡ true
    due = unfold is_changed text_eq in refl

results-dispatch_command_example :
    (r : CommandResult) × (results (dispatch_command hashing host uptime agent).sent
      ≡ results agent.sent ++ executing_result uptime.command_id host.begun ∷ r ∷ [])
    × (r.command_id ≡ uptime.command_id)
    × (is_open r.status ≡ false)
results-dispatch_command_example = results-dispatch_command hashing host uptime agent refl

backoff_lem_example :
    (3 * base_delay 1000 60000 4 ≤ 4 * backoff 1000 60000 4 7 + 3)
    × (4 * backoff 1000 60000 4 7 ≤ 5 * base_delay 1000 60000 4)
    × (4 * backoff 1000 60000 4 7 ≤ 5 * 60000)
    × (base_delay 1000 60000 0 ≡ smaller 1000 60000)
    × (base_delay 1000 60000 5 ≡ (
        if ltb 4 63 then smaller (2 * base_delay 1000 60000 4) 60000 else base_delay 1000 60000 4))
backoff_lem_example = backoff_lem 1000 60000 4 7 (omega arith)

run-IsDown_example :
    run hashing (round_of unreachable ∷ round_of unreachable ∷ []) fresh_run
    ≡ (going, state_after hashing (round_of unreachable ∷ round_of unreachable ∷ []) fresh_run)
run-IsDown_example =
    run-IsDown hashing (round_of unreachable ∷ round_of unreachable ∷ []) fresh_run refl
      ((refl, tt, refl, refl), ((refl, tt, refl, refl), tt))

turned_away :
    connect hashing blocking agent ≡ closed (some (rejected (codes "device is blocked"))) agent
unfolding connect registered with_device_id text_eq
turned_away = refl

connect-restart_example :
    ((d : Agent) × (connect hashing
          (commanding zeros taken_in []
            (acknowledged ∷ [])
            (record uptime { type = restart })
            host
            [])
          agent
        ≡ closed none d)
      × (d.restart_requested ≡ false)
      × (d.shutdown_requested ≡ (in_session hashing zeros taken_in [] agent).shutdown_requested))
    × ((d : Agent) × (connect hashing
            (commanding zeros taken_in []
              (acknowledged ∷ [])
              (record uptime { type = shutdown })
              host
              [])
            agent
          ≡ left d)
        × (d.shutdown_requested ≡ true))
connect-restart_example =
    connect-restart hashing zeros taken_in [] (acknowledged ∷ []) uptime host [] agent
      (in_session hashing zeros taken_in [] agent) refl (omega arith) long lasting
  where
    long : 16 ≤ length (with_device_id zeros agent).device_id
    long = unfold with_device_id text_eq in omega arith

    lasting :
        recv_loop hashing (acknowledged ∷ []) (in_session hashing zeros taken_in [] agent)
        ≡ waiting (in_session hashing zeros taken_in [] agent)
    lasting = unfold recv_loop happens open_session with_device_id in refl

generate_device_id_lem_example :
    (length (generate_device_id hashing system).0 ≡ 64)
    × ((generate_device_id hashing system).1.cached
        ≡ (if system.can_write then some (generate_device_id hashing system).0 else system.cached))
    × (generate_device_id hashing
          (record system { cached = some (generate_device_id hashing system).0 })
        ≡ (
          (generate_device_id hashing system).0,
          record system { cached = some (generate_device_id hashing system).0 },
        ))
generate_device_id_lem_example =
    generate_device_id_lem hashing system
      (record system { cached = some (generate_device_id hashing system).0 }) refl

primary_mac_lem_example :
    primary_mac (some (physical ∷ []))
    ≡ address_or (address_or [] (find is_usable (physical ∷ []))) (find is_physical (physical ∷ []))
primary_mac_lem_example = primary_mac_lem (physical ∷ [])

has_command_row : command_row uptime.command_id server_one.db ≡ some command_one
unfolding text_eq
has_command_row = refl

status-dispatch_command_example :
    (st : Text) × (status_of uptime.command_id (
        deliver
          (codes "s1")
          (codes "dev1")
          at_noon
          (dispatch_command hashing host uptime agent).sent
          server_one)
      ≡ some st)
    × (is_open st ≡ false)
status-dispatch_command_example =
    status-dispatch_command hashing host uptime agent (codes "s1") (codes "dev1") at_noon server_one
      command_one refl refl has_command_row

-- A server that has blocked the device of the sample client.
abbrev server_blocking : Server
server_blocking = record {
  cm = cm_one;
  db = record {
    tables = record tables_one {
      terminals = record row_one { device_id = zeros; blocked = true } ∷ [];
    };
    faults = [];
  };
}

is_blocked_there :
    device_blocked
      (with_device_id blocking.generated fresh_run.agent).device_id
      server_blocking.db.terminals
    ≡ true
unfolding device_blocked with_device_id text_eq
is_blocked_there = refl

has_space : is_full server_blocking.cm ≡ false
unfolding is_full
has_space = refl

unused : get (codes "s2") server_blocking.cm ≡ none
unfolding get text_eq
unused = refl

answer_there :
    blocking.answer
    ≡ some
        (register
          (handshake (with_device_id blocking.generated fresh_run.agent))
          (codes "s2")
          200
          stamp
          server_blocking).0
unfolding register unless_blocked is_device_blocked device_blocked query is_full with_device_id
    handshake text_eq
answer_there = refl

run-register_example : run hashing (round_of blocking ∷ []) fresh_run ≡ (
  fatal (rejected (codes "device is blocked")),
  record (waited fresh_run (round_of blocking)) {
    agent = with_device_id blocking.generated fresh_run.agent;
  },
)
run-register_example =
    run-register hashing (round_of blocking) [] fresh_run (codes "s2") 200 stamp server_blocking
      refl has_space unused is_blocked_there refl answer_there refl refl refl
