-- ===== src/Proto/Messages.antt =====
-- The messages of internal/proto/teamx.pb.go that the server and the client exchange. A message
-- field that may be nil is an `Option`; the getters read the zero value from nil.
use team_x.Base.{ℕ, Bool, Option, List, Text, ℤ}
use team_x.Proto.Types.{CommandType}
use team_x.Store.Json.Map.{Entries}

pub record HandshakeRequest : Type 0 where
  pub hostname : Text
  pub os : Text
  pub os_version : Text
  pub kernel_version : Text
  pub client_version : Text
  pub mac_addrs : List Text
  pub ip_addrs : List Text
  pub device_id : Text

pub record HandshakeResponse : Type 0 where
  pub ok : Bool
  pub session_id : Text
  pub server_time : Text
  pub message : Text

pub record CpuInfo : Type 0 where
  pub model : Text
  pub cores : ℤ
  pub threads : ℤ
  pub architecture : Text

pub record MemoryInfo : Type 0 where
  pub total_bytes : ℕ
  pub available_bytes : ℕ
  pub used_bytes : ℕ

pub record DiskInfo : Type 0 where
  pub device : Text
  pub mount_point : Text
  pub fs_type : Text
  pub total_bytes : ℕ
  pub used_bytes : ℕ
  pub free_bytes : ℕ

pub record NetInfo : Type 0 where
  pub name : Text
  pub mac_addr : Text
  pub ip_addrs : List Text
  pub is_loopback : Bool

pub record BiosInfo : Type 0 where
  pub vendor : Text
  pub version : Text
  pub release_date : Text

pub record MotherboardInfo : Type 0 where
  pub manufacturer : Text
  pub product : Text
  pub serial : Text

pub record HardwareInfo : Type 0 where
  pub cpu : Option CpuInfo
  pub memory : Option MemoryInfo
  pub disks : List DiskInfo
  pub nets : List NetInfo
  pub bios : Option BiosInfo
  pub motherboard : Option MotherboardInfo

-- The `oneof type` of a report: hardware, which may be nil, or one of the kinds that the server
-- does not read.
pub data ReportType : Type 0 where
  hardware : Option HardwareInfo → ReportType
  other : ReportType

pub record ReportRequest : Type 0 where
  pub report_id : Text
  pub type : ReportType

pub record Command : Type 0 where
  pub command_id : Text
  pub type : CommandType
  pub params : Entries
  pub timeout_sec : ℤ
  pub created_at_unix : ℤ

pub record CommandResult : Type 0 where
  pub command_id : Text
  pub status : Text
  pub exit_code : ℤ
  pub stdout : Text
  pub stderr : Text
  pub started_at_unix : ℤ
  pub finished_at_unix : ℤ
  pub error_message : Text

-- The payload of a client's message; `unset` is what the server takes for an unknown type.
pub data ClientPayload : Type 0 where
  heartbeat : ClientPayload
  report_request : ReportRequest → ClientPayload
  command_result : CommandResult → ClientPayload
  unset : ClientPayload

pub record ClientMessage : Type 0 where
  pub seq : ℕ
  pub payload : ClientPayload

pub data ServerPayload : Type 0 where
  heartbeat_ack : ℤ → ServerPayload
  command : Command → ServerPayload
  unset : ServerPayload

-- A status that an RPC ends with; the text beside it is not modelled.
pub data Code : Type 0 where
  resource_exhausted not_found internal invalid_argument unauthenticated : Code
  permission_denied unimplemented : Code

pub data Rpc {ℓ} (A : Type ℓ) : Type ℓ where
  reply : A → Rpc A
  status : Code → Rpc A
