-- ===== src/Tests/ClientSamples.antt =====
-- A client with an open session, a host, and a network.
use team_x.Base.{refl, true, false, none, some, [], ◌∷◌, codes, pos}
use team_x.Proto.Messages.{HardwareInfo, HandshakeResponse, Command, reply, ClientMessage}
use team_x.Server.Service.{blocked_response}
use team_x.Client.Agent.{Config, Agent}
use team_x.Client.Cache.{Hashing, zeros}
use team_x.Client.Executor.{Host, no_error}
use team_x.Client.Session.{Network, Round, RunState}
use team_x.Client.Identity.{System, Interface}
use team_x.EndToEnd.Commands.{Arrival}
use team_x.Tests.Samples.{stamp}

-- Its digests are all the same, and long enough.
abbrev pub hashing : Hashing
hashing = record { marshal = λ info. some []; digest = λ s. zeros; length-digest = λ s. refl }

abbrev pub bare_hardware : HardwareInfo
bare_hardware = record {
  cpu = none;
  memory = none;
  disks = [];
  nets = [];
  bios = none;
  motherboard = none;
}

abbrev pub host : Host
host = record {
  windows = false;
  hardware = some bare_hardware;
  report_id = codes "r1";
  exec = λ shell flag script timeout. record {
    stdout = codes "up";
    error = no_error;
    deadline = false;
  };
  panic = none;
  send_error = codes "EOF";
  type_text = λ t. codes "COMMAND_TYPE_RUN_SCRIPT";
  begun = pos 1;
  started = pos 2;
  finished = pos 3;
}

abbrev pub config : Config
config = record {
  server_addr = codes "localhost:50051";
  heartbeat_interval = 10000000000;
  report_interval = 300000000000;
  reconnect_initial = 1000000000;
  reconnect_max = 60000000000;
  client_version = codes "0.2.0";
}

abbrev pub agent : Agent
agent = record {
  cfg = config;
  info = record {
    hostname = codes "host";
    os = codes "linux";
    os_version = codes "Debian";
    kernel_version = codes "6.1";
    ip_addrs = [];
    mac_addrs = [];
  };
  device_id = zeros;
  session_id = codes "s1";
  seq = 0;
  last_hash = [];
  has_cancel = true;
  cancelled = false;
  restart_requested = false;
  shutdown_requested = false;
  exited = false;
  beating = true;
  reporting = true;
  sent = [];
  send_faults = [];
}

abbrev pub uptime : Command
uptime = record {
  command_id = codes "c1";
  type = pos 2;
  params = (codes "cmd", codes "uptime") ∷ [];
  timeout_sec = pos 30;
  created_at_unix = pos 0;
}

abbrev pub taken_in : HandshakeResponse
taken_in = record {
  ok = true;
  session_id = codes "12345678";
  server_time = stamp;
  message = codes "welcome to TeamX";
}

abbrev pub unreachable : Network
unreachable = record {
  dial_fails = false;
  generated = zeros;
  answer = none;
  channel_error = none;
  faults = [];
  events = [];
}

abbrev pub blocking : Network
blocking = record {
  dial_fails = false;
  generated = zeros;
  answer = some (reply blocked_response);
  channel_error = none;
  faults = [];
  events = [];
}

abbrev pub round_of : Network → Round
round_of net = record { done = false; done_waiting = false; jitter = 5; net = net }

abbrev pub fresh_run : RunState
fresh_run = record { attempt = 0; delays = []; agent = agent }

abbrev pub physical : Interface
physical = record { name = codes "eth0"; address = some (codes "aa:bb\n"); has_device = true }

abbrev pub system : System
system = record {
  cached = none;
  product_uuid = some (codes "uuid\n");
  machine_id = none;
  interfaces = some (physical ∷ []);
  serials = [];
  hostname = some (codes "host");
  version = none;
  can_write = true;
}

abbrev pub at_noon : ClientMessage → Arrival
at_noon m = record { now = 500; stamp = stamp }
