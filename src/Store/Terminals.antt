-- ===== src/Store/Terminals.antt =====
-- internal/server/store/terminal.go: the `terminals` table. `now` is the clock's text at the call.
pub mod Sessions
pub mod Blocklist
pub mod Refinement
use team_x.Base.{
  ℕ, ◌≡◌, Bool, true, false, ◌&&◌, ◌||◌, Option, none, some, List, [], ◌∷◌, ◌++◌, map, Text,
  text_eq, if◌then◌else◌, ◌<◌, ltb, leb, length, take, drop, head?, where_, update_where, find, any,
  not, is_some, ℤ, pos, negsuc,
}
use team_x.Store.Json.Array.{marshal_json_array}
use team_x.Store.Engine.{Engine}
use team_x.Store.Sql.{
  TerminalRow, Tables, Db, Result, ok, err, no_rows, Sql, ◌>>=◌, query, exec, pure,
}

-- The result of a query for one row.
pub record Terminal : Type 0 where
  pub session_id : Text
  pub device_id : Text
  pub hostname : Text
  pub os : Text
  pub os_version : Text
  pub kernel_version : Text
  pub client_version : Text
  pub online : Bool
  pub blocked : Bool
  pub last_heartbeat : Text
  pub last_seen_at : Text
  pub first_seen_at : Text

-- What `UpsertTerminal` is given beside the session.
pub record Machine : Type 0 where
  pub device_id : Text
  pub hostname : Text
  pub os : Text
  pub os_version : Text
  pub kernel_version : Text
  pub client_version : Text
  pub mac_addrs : List Text
  pub ip_addrs : List Text

abbrev pub has_session : Text → TerminalRow → Bool
has_session sid r = text_eq r.session_id sid

abbrev pub has_device : Text → TerminalRow → Bool
has_device dev r = text_eq r.device_id dev

unfoldable pub new_row : Text → Machine → Text → TerminalRow
new_row sid m now = record {
  session_id = sid;
  device_id = m.device_id;
  hostname = m.hostname;
  os = m.os;
  os_version = m.os_version;
  kernel_version = m.kernel_version;
  client_version = m.client_version;
  mac_addrs = marshal_json_array m.mac_addrs;
  ip_addrs = marshal_json_array m.ip_addrs;
  first_seen_at = now;
  last_seen_at = now;
  last_heartbeat = none;
  online = false;
  blocked = false;
}

-- `ON CONFLICT(session_id) DO UPDATE SET …`
unfoldable pub conflict_row : Machine → Text → TerminalRow → TerminalRow
conflict_row m now r = record r {
  device_id = m.device_id;
  hostname = m.hostname;
  os = m.os;
  os_version = m.os_version;
  kernel_version = m.kernel_version;
  client_version = m.client_version;
  mac_addrs = marshal_json_array m.mac_addrs;
  ip_addrs = marshal_json_array m.ip_addrs;
  last_seen_at = now;
}

unfoldable pub upsert_rows : Text → Machine → Text → List TerminalRow → List TerminalRow
upsert_rows sid m now rows =
    if any (has_session sid) rows
    then update_where (has_session sid) (conflict_row m now) rows
    else rows ++ new_row sid m now ∷ []

unfoldable pub upsert_terminal : Text → Machine → Text → Sql (Unit {0})
upsert_terminal sid m now =
    exec λ t. some (record t { terminals = upsert_rows sid m now t.terminals })

unfoldable pub update_heartbeat : Text → Text → Sql (Unit {0})
update_heartbeat sid now = exec λ t. some (record t {
  terminals =
      update_where (has_session sid) (λ r. record r { last_heartbeat = some now; online = true })
        t.terminals;
})

unfoldable pub mark_offline : Text → Sql (Unit {0})
mark_offline sid = exec λ t. some (record t {
  terminals = update_where (has_session sid) (λ r. record r { online = false }) t.terminals;
})

abbrev pub null_str : Option Text → Text
null_str none = []
null_str (some s) = s

unfoldable pub scan_row : TerminalRow → Terminal
scan_row r = record {
  session_id = r.session_id;
  device_id = r.device_id;
  hostname = r.hostname;
  os = r.os;
  os_version = r.os_version;
  kernel_version = r.kernel_version;
  client_version = r.client_version;
  online = r.online;
  blocked = r.blocked;
  last_heartbeat = null_str r.last_heartbeat;
  last_seen_at = r.last_seen_at;
  first_seen_at = r.first_seen_at;
}

-- `scanTerminal` of a `QueryRow`.
unfoldable pub scan_terminal : Option TerminalRow → Result Terminal
scan_terminal none = err no_rows
scan_terminal (some r) = ok (scan_row r)

unfoldable pub get_terminal : Text → Sql Terminal
get_terminal sid = query λ t. scan_terminal (find (has_session sid) t.terminals)

-- ---- blocklist

unfoldable pub mark_blocked : Text → Sql (Unit {0})
mark_blocked dev = exec λ t. some (record t {
  terminals = update_where (has_device dev) (λ r. record r { blocked = true }) t.terminals;
})

unfoldable pub unblock_terminal : Text → Sql (Unit {0})
unblock_terminal dev = exec λ t. some (record t {
  terminals = update_where (has_device dev) (λ r. record r { blocked = false }) t.terminals;
})

-- `SELECT COUNT(*) … > 0`
unfoldable pub device_blocked : Text → List TerminalRow → Bool
device_blocked dev rows = ltb 0 (length (where_ (λ r. has_device dev r && r.blocked) rows))

unfoldable pub is_device_blocked : Text → Sql Bool
is_device_blocked dev = query λ t. ok (device_blocked dev t.terminals)

abbrev pub passes : Option Bool → TerminalRow → Bool
passes none r = true
passes (some true) r = r.online
passes (some false) r = not r.online

-- `offset < 0` and `limit <= 0 || limit > 500` are mended here too.
unfoldable pub list_offset : ℤ → ℕ
list_offset (pos n) = n
list_offset (negsuc n) = 0

unfoldable pub list_limit : ℤ → ℕ
list_limit (pos n) = if leb n 0 || ltb 500 n then 50 else n
list_limit (negsuc n) = 50

module _ (engine : Engine) where
  -- `WHERE device_id = ? ORDER BY last_seen_at DESC LIMIT 1`
  unfoldable pub latest_of : Text → List TerminalRow → Option TerminalRow
  latest_of dev rows =
      head? (engine.order_desc TerminalRow (λ r. r.last_seen_at) (where_ (has_device dev) rows))

  unfoldable pub get_terminal_by_device : Text → Sql Terminal
  get_terminal_by_device dev = query λ t. scan_terminal (latest_of dev t.terminals)

  -- `ROW_NUMBER() OVER (PARTITION BY device_id ORDER BY last_seen_at DESC) = 1`
  unfoldable pub is_latest : List TerminalRow → TerminalRow → Bool
  is_latest rows r = elim (latest_of r.device_id rows) [
    | none ↦ false
    | some l ↦ text_eq l.session_id r.session_id
  ]

  unfoldable pub listed : Option Bool → List TerminalRow → List TerminalRow
  listed online rows = where_ (λ r. is_latest rows r && passes online r) rows

  unfoldable pub page_rows : Option Bool → ℤ → ℤ → List TerminalRow → List TerminalRow
  page_rows online offset limit rows = take (list_limit limit) (
      drop (list_offset offset)
        (engine.order_desc TerminalRow (λ r. r.last_seen_at) (listed online rows)))

  -- The count, the page, and the end of the iteration over the page may each fail.
  unfoldable pub list_terminals : Option Bool → ℤ → ℤ → Sql (List Terminal × ℕ)
  list_terminals online offset limit = do
    total ← query (λ t. ok (length (listed online t.terminals)))
    rows ← query (λ t. ok (page_rows online offset limit t.terminals))
    query (λ t. ok (map scan_row rows, total))
