-- ===== src/Tests/Samples.antt =====
-- A handshake, rows, commands and a server with one session.
use team_x.Base.{true, false, none, some, [], ◌∷◌, Text, codes, pos}
use team_x.Proto.Messages.{HandshakeRequest, Command, CommandResult}
use team_x.Store.Sql.{TerminalRow, CommandRow, Tables, Db}
use team_x.Store.Terminals.{Machine}
use team_x.Store.Commands.{pending, completed}
use team_x.Server.Connection.{ClientConn, ConnectionManager}
use team_x.Server.Service.{Server, machine_of}

abbrev pub hello : HandshakeRequest
hello = record {
  hostname = codes "host";
  os = codes "linux";
  os_version = codes "6.1";
  kernel_version = codes "6.1.0";
  client_version = codes "1.0";
  mac_addrs = codes "aa:bb" ∷ [];
  ip_addrs = codes "10.0.0.1" ∷ [];
  device_id = codes "dev1";
}

abbrev pub machine : Machine
machine = machine_of hello

abbrev pub stamp : Text
stamp = codes "2026-01-02T03:04:05Z"

abbrev pub row_one : TerminalRow
row_one = record {
  session_id = codes "s1";
  device_id = codes "dev1";
  hostname = codes "host";
  os = codes "linux";
  os_version = codes "6.1";
  kernel_version = codes "6.1.0";
  client_version = codes "1.0";
  mac_addrs = codes "[]";
  ip_addrs = codes "[]";
  first_seen_at = codes "2026-01-01T00:00:00Z";
  last_seen_at = codes "2026-01-01T00:00:00Z";
  last_heartbeat = none;
  online = true;
  blocked = false;
}

abbrev pub command_one : CommandRow
command_one = record {
  command_id = codes "c1";
  session_id = codes "s1";
  type_name = codes "COMMAND_TYPE_RUN_SCRIPT";
  params = codes "{}";
  status = pending;
  exit_code = none;
  stdout = [];
  stderr = [];
  error_message = [];
  created_at = codes "2026-01-01T00:00:00Z";
  started_at = none;
  finished_at = none;
}

abbrev pub tables_one : Tables
tables_one = record {
  terminals = row_one ∷ [];
  commands = command_one ∷ [];
  reports = [];
  disks = [];
  nets = [];
  bios = [];
  boards = [];
}

abbrev pub db_one : Db
db_one = record { tables = tables_one; faults = [] }

abbrev pub conn_one : ClientConn
conn_one = record {
  session_id = codes "s1";
  device_id = codes "dev1";
  hostname = codes "host";
  os = codes "linux";
  os_version = codes "6.1";
  client_version = codes "1.0";
  mac_addrs = [];
  ip_addrs = [];
  stream = some 1;
  disconnect_closed = false;
  cmd_queue = [];
  last_heartbeat = 100;
  online = true;
  connected_at = 50;
}

abbrev pub cm_one : ConnectionManager
cm_one = record { sessions = conn_one ∷ []; max_conns = pos 2 }

abbrev pub server_one : Server
server_one = record { cm = cm_one; db = db_one }

-- The same, with room for one session only.
abbrev pub server_full : Server
server_full = record { cm = record cm_one { max_conns = pos 1 }; db = db_one }

abbrev pub server_offline : Server
server_offline = record {
  cm = record { sessions = record conn_one { online = false } ∷ []; max_conns = pos 2 };
  db = db_one;
}

-- The next statement fails.
abbrev pub server_down : Server
server_down = record { cm = cm_one; db = record db_one { faults = true ∷ [] } }

abbrev pub ping : Command
ping = record {
  command_id = codes "c2";
  type = pos 1;
  params = [];
  timeout_sec = pos 30;
  created_at_unix = pos 0;
}

abbrev pub result_one : CommandResult
result_one = record {
  command_id = codes "c1";
  status = completed;
  exit_code = pos 0;
  stdout = codes "ok";
  stderr = [];
  started_at_unix = pos 1;
  finished_at_unix = pos 2;
  error_message = [];
}
