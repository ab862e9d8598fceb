-- ===== src/Tests/StoreExamples.antt =====
-- The theorems on the store, at the sample rows.
use team_x.Base.{
  ◌||◌, none, some, [], ◌≡◌, ◌≢◌, refl, false, not, ◌&&◌, ◌∷◌, codes, text_eq, if◌then◌else◌, any,
  find, All, arith, pos,
}
use team_x.Utf8.{runes}
use team_x.Proto.Types.{command_type_value, command_type_name, unspecified}
use team_x.Proto.Types.Names.{is_known, command_type_value-command_type_name}
use team_x.Store.Sql.{ok, err, failed}
use team_x.Store.Json.Scan.{quote}
use team_x.Store.Json.Array.{marshal_json_array, parse_json_string_array}
use team_x.Store.Json.Array.RoundTrip.{parse-marshal_json_array}
use team_x.Store.Json.Array.Loss.{parse-marshal_lost}
use team_x.Store.Json.Map.{done, out_of_fuel, marshal_json_map, unmarshal_json_map}
use team_x.Store.Json.Map.Loss.{unmarshal-marshal_json_map}
use team_x.Store.Json.Map.Total.{unmarshal_json_map-ends}
use team_x.Store.Terminals.{
  get_terminal, upsert_terminal, is_device_blocked, mark_blocked, unblock_terminal, has_session,
  has_device,
}
use team_x.Store.Terminals.Sessions.{registered, get-upsert_terminal}
use team_x.Store.Terminals.Blocklist.{is_device_blocked-mark_blocked}
use team_x.Store.Commands.{
  or_null, mark_command_timeout, update_command_result, update_command_status, save_command_log,
  has_command, sent,
}
use team_x.Store.Commands.Status.{
  command_row, on_row, row-mark_command_timeout, row-update_command_result, row-save_command_log,
}
use team_x.Server.Dispatch.{outcome_of}
use team_x.Tests.Samples.{machine, stamp, db_one, result_one}

parse-marshal_json_array_example :
    parse_json_string_array (marshal_json_array (codes "10.0.0.1" ∷ codes "a\\b" ∷ []))
    ≡ some (codes "10.0.0.1" ∷ codes "a\\b" ∷ [])
parse-marshal_json_array_example =
    parse-marshal_json_array (codes "10.0.0.1" ∷ codes "a\\b" ∷ [])
      ((omega arith, refl), ((omega arith, refl), tt))

parse-marshal_lost_example :
    parse_json_string_array (marshal_json_array (codes "C:\\" ∷ [])) ≡ some []
parse-marshal_lost_example = parse-marshal_lost (codes "C:\\") (omega arith) refl

unmarshal-marshal_json_map_example :
    unmarshal_json_map (marshal_json_map ((codes "script", codes "ls") ∷ [])) ≡ done []
unmarshal-marshal_json_map_example =
    unmarshal-marshal_json_map (codes "script") (codes "ls") [] no_quote
  where
    no_quote : All (λ c. c ≢ quote) (runes (codes "script"))
    no_quote = unfold runes in omega arith

unmarshal_json_map-ends_example : unmarshal_json_map (codes "{\"a\":\"b\"}") ≢ out_of_fuel
unmarshal_json_map-ends_example = unmarshal_json_map-ends (codes "{\"a\":\"b\"}")

command_type_value-command_type_name_example :
    command_type_value (command_type_name (pos 9))
    ≡ (if is_known (pos 9) then pos 9 else unspecified)
command_type_value-command_type_name_example = command_type_value-command_type_name (pos 9)

get-upsert_terminal_example :
    (get_terminal (codes "s1") (upsert_terminal (codes "s1") machine stamp db_one).1).0 ≡ (
      if text_eq (codes "s1") (codes "s1")
      then ok
          (registered (codes "s1") machine stamp (find (has_session (codes "s1")) db_one.terminals))
      else (get_terminal (codes "s1") db_one).0)
get-upsert_terminal_example =
    get-upsert_terminal (codes "s1") (codes "s1") machine stamp db_one refl

is_device_blocked-mark_blocked_example :
    ((is_device_blocked (codes "dev1") (mark_blocked (codes "dev1") db_one).1).0 ≡ (
      if text_eq (codes "dev1") (codes "dev1")
      then ok (any (has_device (codes "dev1")) db_one.terminals)
      else (is_device_blocked (codes "dev1") db_one).0))
    × ((is_device_blocked (codes "dev1") (unblock_terminal (codes "dev1") db_one).1).0 ≡ (
        if text_eq (codes "dev1") (codes "dev1")
        then ok false
        else (is_device_blocked (codes "dev1") db_one).0))
is_device_blocked-mark_blocked_example =
    is_device_blocked-mark_blocked (codes "dev1") (codes "dev1") db_one refl

row-mark_command_timeout_example :
    command_row (codes "c1") (mark_command_timeout (codes "c1") stamp db_one).1 ≡ (
      if text_eq (codes "c1") (codes "c1")
      then on_row
          (λ r.
            if text_eq r.status (codes "Pending")
              || text_eq r.status (codes "Sent")
              || text_eq r.status (codes "Executing")
            then record r {
              status = codes "Timeout";
              error_message = codes "command timed out";
              finished_at = some stamp;
            }
            else r)
          (command_row (codes "c1") db_one)
      else command_row (codes "c1") db_one)
row-mark_command_timeout_example =
    row-mark_command_timeout (codes "c1") (codes "c1") stamp db_one refl

row-update_command_result_example :
    (command_row (codes "c1") (update_command_result (codes "c1") (outcome_of result_one) db_one).1
      ≡ (if text_eq (codes "c1") (codes "c1")
          then on_row
              (λ r. record r {
                status = (outcome_of result_one).status;
                exit_code = some (outcome_of result_one).exit_code;
                stdout = (outcome_of result_one).stdout;
                stderr = (outcome_of result_one).stderr;
                error_message = (outcome_of result_one).error_message;
                started_at = or_null (outcome_of result_one).started_at;
                finished_at = or_null (outcome_of result_one).finished_at;
              })
              (command_row (codes "c1") db_one)
          else command_row (codes "c1") db_one))
    × (command_row (codes "c1") (update_command_status (codes "c1") sent db_one).1 ≡ (
        if text_eq (codes "c1") (codes "c1")
        then on_row (λ r. record r { status = sent }) (command_row (codes "c1") db_one)
        else command_row (codes "c1") db_one))
row-update_command_result_example =
    row-update_command_result (codes "c1") (codes "c1") (outcome_of result_one) sent db_one refl

row-save_command_log_example :
    ((save_command_log (codes "c2") (codes "s1") (codes "dev1") (pos 1) [] stamp db_one).0
      ≡ (if any (has_command (codes "c2")) db_one.commands then err failed else ok tt))
    × (command_row
          (codes "c2")
          (save_command_log (codes "c2") (codes "s1") (codes "dev1") (pos 1) [] stamp db_one).1
        ≡ (if text_eq (codes "c2") (codes "c2")
              && not (any (has_command (codes "c2")) db_one.commands)
            then some (record {
              command_id = codes "c2";
              session_id = codes "s1";
              type_name = command_type_name (pos 1);
              params = marshal_json_map [];
              status = codes "Pending";
              exit_code = none;
              stdout = [];
              stderr = [];
              error_message = [];
              created_at = stamp;
              started_at = none;
              finished_at = none;
            })
            else command_row (codes "c2") db_one))
row-save_command_log_example =
    row-save_command_log (codes "c2") (codes "c2") (codes "s1") (codes "dev1") (pos 1) [] stamp
      db_one refl
