-- ===== src/Server/Lifecycle.antt =====
-- One command from its sending to its end: `commandConsumer`, `handleCommandResult` and
-- `watchCommandTimeout` write its row, each at a moment of its own.
use team_x.Base.{
  ℕ, ◌*◌, ◌^◌, ◌≤◌, ◌<◌, ◌≡◌, refl, ap, ◌∙◌, true, false, Option, none, some, [], arith, Text,
  text_eq, text_eq_refl, if◌then◌else◌, pos, to_int64,
}
use team_x.Proto.Messages.{CommandResult}
use team_x.Store.Sql.{CommandRow, Tables, Db, IsUp, exec}
use team_x.Store.Commands.{
  is_open, sent, timed_out, with_outcome, time_out, update_command_result, update_command_status,
}
use team_x.Store.Commands.Status.{
  command_row, on_row, row-mark_command_timeout, row-update_command_result,
}
use team_x.Server.Service.{Server}
use team_x.Server.Dispatch.{outcome_of, handle_command_result, mark_sent, watch_fires, watch_delay}

-- The status of a command that has a row.
abbrev pub row_status : Option CommandRow → Option Text
row_status none = none
row_status (some r) = some r.status

abbrev pub status_of : Text → Server → Option Text
status_of id s = row_status (command_row id s.db)

IsUp-exec : (write : Tables → Option Tables) (db : Db) → IsUp db → IsUp (exec write db).1
unfolding exec
IsUp-exec write db up = ground arith

abbrev as_sent : CommandRow → CommandRow
as_sent r = record r { status = sent }

abbrev expire : Text → CommandRow → CommandRow
expire stamp r = if is_open r.status then time_out stamp r else r

-- The three writes, on the row of their command.
row-result :
    (r : CommandResult) (s : Server)
    → IsUp s.db
    → command_row r.command_id (handle_command_result r s).db
      ≡ on_row (with_outcome (outcome_of r)) (command_row r.command_id s.db)
unfolding handle_command_result with_outcome
row-result r s up =
    (row-update_command_result r.command_id r.command_id (outcome_of r) [] s.db up).0
    ∙ rw (text_eq_refl r.command_id) refl

row-sent :
    (id : Text) (s : Server)
    → IsUp s.db
    → command_row id (mark_sent id true s).db ≡ on_row as_sent (command_row id s.db)
unfolding mark_sent
row-sent id s up =
    (row-update_command_result id id (outcome_of nothing) sent s.db up).1
    ∙ rw (text_eq_refl id) refl
  where
    nothing : CommandResult
    nothing = record {
      command_id = [];
      status = [];
      exit_code = pos 0;
      stdout = [];
      stderr = [];
      started_at_unix = pos 0;
      finished_at_unix = pos 0;
      error_message = [];
    }

row-fires :
    (id stamp : Text) (s : Server)
    → IsUp s.db
    → command_row id (watch_fires id stamp s).db ≡ on_row (expire stamp) (command_row id s.db)
unfolding watch_fires is_open time_out
row-fires id stamp s up = row-mark_command_timeout id id stamp s.db up ∙ rw (text_eq_refl id) refl

pub IsUp-result : (r : CommandResult) (s : Server) → IsUp s.db → IsUp (handle_command_result r s).db
unfolding handle_command_result update_command_result
IsUp-result r s up = IsUp-exec _ s.db up

IsUp-sent : (id : Text) (s : Server) → IsUp s.db → IsUp (mark_sent id true s).db
unfolding mark_sent update_command_status
IsUp-sent id s up = IsUp-exec _ s.db up

-- A command that is marked Sent before its result arrives ends with the status of its result, and
-- its timeout changes nothing, if that status is a final one.
pub status-in_order :
    (r : CommandResult) (stamp : Text) (s : Server) (row : CommandRow)
    → IsUp s.db
    → command_row r.command_id s.db ≡ some row
    → is_open r.status ≡ false
    → status_of r.command_id
        (watch_fires r.command_id stamp (handle_command_result r (mark_sent r.command_id true s)))
      ≡ some r.status
status-in_order r stamp s row up e final =
    let marked = mark_sent r.command_id true s in
    let up' : IsUp marked.db = IsUp-sent r.command_id s up in
    let up'' : IsUp (handle_command_result r marked).db = IsUp-result r marked up' in
    ap row_status (
      row-fires r.command_id stamp (handle_command_result r marked) up''
      ∙ ap (on_row (expire stamp)) (
          row-result r marked up'
          ∙ ap (on_row (with_outcome (outcome_of r)))
              (row-sent r.command_id s up ∙ ap (on_row as_sent) e)))
    ∙ (unfold with_outcome in rw final refl)

-- A command whose result arrives between its sending and its mark as Sent goes back to Sent, and
-- ends as timed out whatever its result was.
pub status-late_mark :
    (r : CommandResult) (stamp : Text) (s : Server) (row : CommandRow)
    → IsUp s.db
    → command_row r.command_id s.db ≡ some row
    → (status_of r.command_id (mark_sent r.command_id true (handle_command_result r s)) ≡ some sent)
      × (status_of r.command_id (
            watch_fires r.command_id stamp
              (mark_sent r.command_id true (handle_command_result r s)))
          ≡ some timed_out)
status-late_mark r stamp s row up e =
    let got = handle_command_result r s in
    let up' : IsUp got.db = IsUp-result r s up in
    let up'' : IsUp (mark_sent r.command_id true got).db = IsUp-sent r.command_id got up' in
    let marked =
      row-sent r.command_id got up'
      ∙ ap (on_row as_sent) (row-result r s up ∙ ap (on_row (with_outcome (outcome_of r))) e) in
    (
      ap row_status marked,
      ap row_status (
            row-fires r.command_id stamp (mark_sent r.command_id true got) up''
            ∙ ap (on_row (expire stamp)) marked)
          ∙ (unfold is_open time_out text_eq in refl),
    )

-- A timeout of 1 to 9223372036 seconds is watched for exactly; none is never watched for; and every
-- watch is of a positive time below 2^63 nanoseconds, also where the product wraps.
pub watch_delay_lem :
    (n : ℕ)
    → (0 < n → n ≤ 9223372036 → watch_delay (pos n) ≡ n * 1000000000)
      × (0 < watch_delay (pos n))
      × (watch_delay (pos n) < 2 ^ 63)
unfolding watch_delay to_int64
watch_delay_lem n = (ground arith, ground arith, ground arith)
