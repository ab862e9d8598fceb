-- ===== src/Store/Commands.antt =====
-- internal/server/store/command.go: the `command_logs` table. `now` is the clock's text at the call.
pub mod Status
use team_x.Base.{
  ℕ, ◌≡◌, refl, Bool, true, false, ◌&&◌, ◌||◌, Option, none, some, List, [], ◌∷◌, ◌++◌, map, Text,
  codes, text_eq, if◌then◌else◌, ◌<◌, ltb, leb, length, take, where_, update_where, find, any, ℤ,
  pos, negsuc,
}
use team_x.Proto.Types.{CommandType, command_type_name, command_type_value}
use team_x.Store.Engine.{Engine}
use team_x.Store.Json.Map.{Entries, Reading, marshal_json_map, unmarshal_json_map}
use team_x.Store.Sql.{
  TerminalRow, CommandRow, Tables, Db, Result, ok, err, Sql, ◌>>=◌, query, exec, pure,
}
use team_x.Store.Terminals.{has_session, null_str}

abbrev pub pending : Text
pending = codes "Pending"

abbrev pub sent : Text
sent = codes "Sent"

abbrev pub executing : Text
executing = codes "Executing"

abbrev pub completed : Text
completed = codes "Completed"

abbrev pub failed_status : Text
failed_status = codes "Failed"

abbrev pub timed_out : Text
timed_out = codes "Timeout"

abbrev pub has_command : Text → CommandRow → Bool
has_command id r = text_eq r.command_id id

-- `status IN ('Pending', 'Sent', 'Executing')`
unfoldable pub is_open : Text → Bool
is_open s = text_eq s pending || text_eq s sent || text_eq s executing

unfoldable pub new_command : Text → Text → CommandType → Entries → Text → CommandRow
new_command id sid ty params now = record {
  command_id = id;
  session_id = sid;
  type_name = command_type_name ty;
  params = marshal_json_map params;
  status = pending;
  exit_code = none;
  stdout = [];
  stderr = [];
  error_message = [];
  created_at = now;
  started_at = none;
  finished_at = none;
}

-- The `device_id` that the function is given is not stored.
unfoldable pub save_command_log : Text → Text → Text → CommandType → Entries → Text → Sql (Unit {0})
save_command_log id sid dev ty params now = exec λ t.
    if any (has_command id) t.commands
    then none
    else some (record t { commands = t.commands ++ new_command id sid ty params now ∷ [] })

-- The fields of `proto.CommandResult` but the id, its times formatted.
pub record Outcome : Type 0 where
  pub status : Text
  pub exit_code : ℤ
  pub stdout : Text
  pub stderr : Text
  pub error_message : Text
  pub started_at : Text
  pub finished_at : Text

-- The empty text is stored as NULL.
abbrev pub or_null : Text → Option Text
or_null [] = none
or_null (c ∷ s) = some (c ∷ s)

unfoldable pub with_outcome : Outcome → CommandRow → CommandRow
with_outcome o r = record r {
  status = o.status;
  exit_code = some o.exit_code;
  stdout = o.stdout;
  stderr = o.stderr;
  error_message = o.error_message;
  started_at = or_null o.started_at;
  finished_at = or_null o.finished_at;
}

unfoldable pub update_command_result : Text → Outcome → Sql (Unit {0})
update_command_result id o =
    exec
      λ t. some (record t { commands = update_where (has_command id) (with_outcome o) t.commands })

unfoldable pub update_command_status : Text → Text → Sql (Unit {0})
update_command_status id status = exec λ t. some (record t {
  commands = update_where (has_command id) (λ r. record r { status = status }) t.commands;
})

unfoldable pub time_out : Text → CommandRow → CommandRow
time_out now r = record r {
  status = timed_out;
  error_message = codes "command timed out";
  finished_at = some now;
}

unfoldable pub mark_command_timeout : Text → Text → Sql (Unit {0})
mark_command_timeout id now = exec λ t. some (record t {
  commands = update_where (λ r. has_command id r && is_open r.status) (time_out now) t.commands;
})

-- ---- the log, as it is read

pub record CommandLogEntry : Type 0 where
  pub command_id : Text
  pub session_id : Text
  pub device_id : Text
  pub type : CommandType
  pub params : Reading
  pub status : Text
  pub exit_code : ℤ
  pub stdout : Text
  pub stderr : Text
  pub error_message : Text
  pub created_at : Text
  pub started_at : Text
  pub finished_at : Text

-- `LEFT JOIN terminals`, where `session_id` is the primary key: one terminal at most.
unfoldable pub joined_device : List TerminalRow → CommandRow → Option Text
joined_device terminals r = elim (find (has_session r.session_id) terminals) [
  | none ↦ none
  | some t ↦ some t.device_id
]

unfoldable pub log_entry : List TerminalRow → CommandRow → CommandLogEntry
log_entry terminals r = record {
  command_id = r.command_id;
  session_id = r.session_id;
  device_id = null_str (joined_device terminals r);
  type = command_type_value r.type_name;
  params = unmarshal_json_map r.params;
  status = r.status;
  exit_code = elim r.exit_code [ none ↦ pos 0 | some n ↦ n ];
  stdout = r.stdout;
  stderr = r.stderr;
  error_message = r.error_message;
  created_at = r.created_at;
  started_at = null_str r.started_at;
  finished_at = null_str r.finished_at;
}

abbrev is_text : Text → Option Text → Bool
is_text s none = false
is_text s (some t) = text_eq t s

-- The device, where one is given, takes precedence over the session.
unfoldable pub log_selects : Text → Text → List TerminalRow → CommandRow → Bool
log_selects [] [] terminals r = true
log_selects [] (c ∷ sid) terminals r = text_eq r.session_id (c ∷ sid)
log_selects (c ∷ dev) sid terminals r = is_text (c ∷ dev) (joined_device terminals r)

unfoldable pub log_limit : ℤ → ℕ
log_limit (pos n) = if leb n 0 || ltb 200 n then 50 else n
log_limit (negsuc n) = 50

module _ (engine : Engine) where
  unfoldable pub log_rows : Text → Text → ℤ → Tables → List CommandRow
  log_rows dev sid limit t = take (log_limit limit) (
      engine.order_desc CommandRow (λ r. r.created_at)
        (where_ (log_selects dev sid t.terminals) t.commands))

  -- The query and the end of its iteration may each fail.
  unfoldable pub get_command_log : Text → Text → ℤ → Sql (List CommandLogEntry)
  get_command_log dev sid limit = do
    entries ← query (λ t. ok (map (log_entry t.terminals) (log_rows dev sid limit t)))
    query (λ t. ok entries)
