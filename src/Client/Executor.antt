-- ===== src/Client/Executor.antt =====
-- internal/client/executor.go: one command that the server sent, with the results that go back.
-- What the host does is an argument: the collected hardware, the run of a script, a panic of
-- either, the clock.
pub mod Results
use team_x.Base.{
  ℕ, ◌*◌, ◌%◌, ◌^◌, Bool, true, false, not, ◌&&◌, Option, none, some, List, [], ◌∷◌, ◌++◌, Text,
  codes, text_eq, if◌then◌else◌, ◌==◌, leb, ℤ, pos, negsuc, to_int64, to_int32, is_zero,
}
use team_x.Proto.Types.{CommandType, collect_now, run_script, restart, shutdown}
use team_x.Proto.Messages.{HardwareInfo, Command, CommandResult, report_request, command_result}
use team_x.Store.Json.Map.{Entries}
use team_x.Client.Agent.{Agent, first_fault, send}
use team_x.Client.Cache.{Hashing, is_changed, mark_sent, as_report}

-- How `proc.Output()` ended: no error, an `*exec.ExitError`, or another error.
pub data ExecError : Type 0 where
  no_error : ExecError
  exited_with : ℤ → Text → ExecError
  broken : Text → ExecError

-- `deadline` is whether the context's deadline had passed.
pub record ScriptRun : Type 0 where
  pub stdout : Text
  pub error : ExecError
  pub deadline : Bool

-- `begun` is the reading of the clock that the first result reports, `started` and `finished` are
-- those that the last one reports. A panic is one of `CollectHardware` or of the script's execution. `exec` is given the shell, its flag, the script
-- and the timeout in nanoseconds.
pub record Host : Type 0 where
  pub windows : Bool
  pub hardware : Option HardwareInfo
  pub report_id : Text
  pub exec : Text → Text → Text → ℕ → ScriptRun
  pub panic : Option Text
  pub send_error : Text
  pub type_text : CommandType → Text
  pub begun : ℤ
  pub started : ℤ
  pub finished : ℤ

abbrev pub failed : Text
failed = codes "Failed"

abbrev pub completed : Text
completed = codes "Completed"

-- A result of status Failed with exit code -1 and a message.
abbrev pub failure : Text → Text → ℤ → ℤ → CommandResult
failure id why from to = record {
  command_id = id;
  status = failed;
  exit_code = negsuc 0;
  stdout = [];
  stderr = [];
  started_at_unix = from;
  finished_at_unix = to;
  error_message = why;
}

abbrev pub success : Text → Text → ℤ → ℤ → CommandResult
success id out from to = record {
  command_id = id;
  status = completed;
  exit_code = pos 0;
  stdout = out;
  stderr = [];
  started_at_unix = from;
  finished_at_unix = to;
  error_message = [];
}

abbrev pub executing_result : Text → ℤ → CommandResult
executing_result id from = record {
  command_id = id;
  status = codes "Executing";
  exit_code = pos 0;
  stdout = [];
  stderr = [];
  started_at_unix = from;
  finished_at_unix = pos 0;
  error_message = [];
}

-- A failed send is only logged.
unfoldable pub send_command_result : CommandResult → Agent → Agent
send_command_result r a = send (command_result r) a

-- What a handler comes to, unless it panics.
pub data Handled : Type 0 where
  returned : Agent → Handled
  panicked : Text → Agent → Handled

abbrev pub param : Text → Entries → Text
param k [] = []
param k ((j, v) ∷ m) = if text_eq j k then v else param k m

-- `time.Duration(sec) * time.Second`, or 30 seconds where that is not positive.
unfoldable pub script_timeout : ℤ → ℕ
script_timeout (negsuc n) = 30 * 10 ^ 9
script_timeout (pos n) = elim (to_int64 (n * 10 ^ 9 % 2 ^ 64)) [
  | pos d ↦ if leb d 0 then 30 * 10 ^ 9 else d
  | negsuc d ↦ 30 * 10 ^ 9
]

-- `int32(exitErr.ExitCode())`, -1 for another error.
abbrev pub exit_code_of : ExecError → ℤ
exit_code_of no_error = pos 0
exit_code_of (exited_with code err) = to_int32 code
exit_code_of (broken why) = negsuc 0

abbrev pub is_no_error : ExecError → Bool
is_no_error no_error = true
is_no_error (exited_with code err) = false
is_no_error (broken why) = false

-- The standard error is kept only with an exit code that is not 0.
abbrev pub stderr_of : ExecError → Text
stderr_of no_error = []
stderr_of (exited_with code err) = if is_zero (to_int32 code) then [] else err
stderr_of (broken why) = why

unfoldable pub script_result : Text → ScriptRun → ℤ → ℤ → CommandResult
script_result id run from to =
    if run.deadline && not (is_no_error run.error)
    then failure id (codes "command timed out") from to
    else record {
      command_id = id;
      status = if is_zero (exit_code_of run.error) then completed else failed;
      exit_code = exit_code_of run.error;
      stdout = run.stdout;
      stderr = stderr_of run.error;
      started_at_unix = from;
      finished_at_unix = to;
      error_message = [];
    }

unfoldable pub run_exec : Host → Text → Command → ScriptRun
run_exec host script cmd =
    host.exec (if host.windows then codes "cmd" else codes "sh")
      (if host.windows then codes "/c" else codes "-c") script (script_timeout cmd.timeout_sec)

-- A panic happens where the script would run.
unfoldable pub handle_run_script : Host → Command → Agent → Handled
handle_run_script host cmd a =
    if text_eq (param (codes "cmd") cmd.params) []
    then returned (
        send_command_result
          (failure cmd.command_id (codes "missing required param: cmd") host.started host.finished)
          a)
    else elim host.panic [
      | some why ↦ panicked why a
      | none ↦ returned (
          send_command_result
            (script_result cmd.command_id (run_exec host (param (codes "cmd") cmd.params) cmd)
              host.started host.finished)
            a)
    ]

unfoldable pub cancel_session : Agent → Agent
cancel_session a = record a { cancelled = if a.has_cancel then true else a.cancelled }

unfoldable pub handle_restart : Host → Command → Agent → Handled
handle_restart host cmd a =
    let b =
      send_command_result (success cmd.command_id (codes "restarting") host.started host.started)
        a in
    returned (cancel_session (record b { restart_requested = true }))

unfoldable pub handle_shutdown : Host → Command → Agent → Handled
handle_shutdown host cmd a =
    let b =
      send_command_result (success cmd.command_id (codes "shutting down") host.started host.started)
        a in
    let c = cancel_session (record b { shutdown_requested = true }) in
    returned (record c { exited = true })

module _ (h : Hashing) where
  report_failed : Host → Command → Agent → Agent
  report_failed host cmd a =
      send_command_result
        (failure cmd.command_id (codes "send report failed: " ++ host.send_error) host.started
          host.finished)
        a

  triggered : Host → Command → Agent → Agent
  triggered host cmd a =
      send_command_result
        (success cmd.command_id (codes "hardware report triggered") host.started host.finished) a

  -- The report is sent where the cache asks for it.
  unfoldable pub collected : Host → Command → HardwareInfo → Agent → Agent
  unfolding report_failed triggered
  collected host cmd info a =
      let b = send (report_request (as_report host.report_id info)) a in
      if is_changed h info a
      then if first_fault a.send_faults
        then report_failed host cmd b
        else triggered host cmd (mark_sent h info b)
      else triggered host cmd a

  -- By whether the collection panicked, and what it returned.
  unfoldable pub after_collection :
      Host → Command → Agent → Option Text → Option HardwareInfo → Handled
  after_collection host cmd a (some why) info = panicked why a
  after_collection host cmd a none none = returned (
      send_command_result
        (failure cmd.command_id (codes "hardware collection returned nil") host.started
          host.finished)
        a)
  after_collection host cmd a none (some info) = returned (collected host cmd info a)

  unfoldable pub handle_collect_now : Host → Command → Agent → Handled
  handle_collect_now host cmd a = after_collection host cmd a host.panic host.hardware

  unsupported : Host → Command → Agent → Handled
  unsupported host cmd a = returned (
      send_command_result
        (failure cmd.command_id (codes "unsupported command type: " ++ host.type_text cmd.type)
          host.started host.finished)
        a)

  unfoldable pub run_handler : Host → Command → CommandType → Agent → Handled
  unfolding unsupported
  run_handler host cmd (negsuc n) a = unsupported host cmd a
  run_handler host cmd (pos n) a =
      if n == 1
      then handle_collect_now host cmd a
      else if n == 2
      then handle_run_script host cmd a
      else if n == 6
      then handle_restart host cmd a
      else if n == 7
      then handle_shutdown host cmd a
      else unsupported host cmd a

  -- The deferred `recover`.
  unfoldable pub recovered : Host → Command → Handled → Agent
  recovered host cmd (returned a) = a
  recovered host cmd (panicked why a) =
      send_command_result
        (failure cmd.command_id (codes "handler panic: " ++ why) host.started host.finished) a

  unfoldable pub dispatch_command : Host → Command → Agent → Agent
  dispatch_command host cmd a = recovered host cmd (
      run_handler host cmd cmd.type
        (send_command_result (executing_result cmd.command_id host.begun) a))
