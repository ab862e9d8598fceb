-- ===== src/Store/Hardware.antt =====
-- internal/server/store/hardware.go: reports and their sub-tables. `now` is the clock's text.
pub mod Saved
pub mod Latest
pub mod Links
use team_x.Base.{
  ℕ, Bool, true, false, ◌&&◌, Option, none, some, List, [], ◌∷◌, ◌++◌, map, Text, text_eq, text_le,
  if◌then◌else◌, leb, take, where_, head?, find, any, ℤ, pos, negsuc, to_int64, to_uint64,
}
use team_x.Proto.Messages.{
  CpuInfo, MemoryInfo, DiskInfo, NetInfo, BiosInfo, MotherboardInfo, HardwareInfo, hardware, other,
  ReportRequest,
}
use team_x.Store.Engine.{Engine}
use team_x.Store.Json.Array.{marshal_json_array, parse_json_string_array}
use team_x.Store.Sql.{
  ReportRow, DiskRow, NetRow, BiosRow, BoardRow, ok, err, no_payload, Sql, ◌>>=◌, ◌>>◌, query,
  query_or, exec, exec_affected, transaction, pure,
}

-- What the getters of a nil message return.
abbrev pub cpu_of : Option CpuInfo → CpuInfo
cpu_of none = record { model = []; cores = pos 0; threads = pos 0; architecture = [] }
cpu_of (some c) = c

abbrev pub memory_of : Option MemoryInfo → MemoryInfo
memory_of none = record { total_bytes = 0; available_bytes = 0; used_bytes = 0 }
memory_of (some m) = m

unfoldable pub report_row : Text → Text → Text → Text → HardwareInfo → ReportRow
report_row id dev sid now info = record {
  report_id = id;
  device_id = dev;
  session_id = sid;
  created_at = now;
  cpu_model = (cpu_of info.cpu).model;
  cpu_cores = (cpu_of info.cpu).cores;
  cpu_threads = (cpu_of info.cpu).threads;
  cpu_arch = (cpu_of info.cpu).architecture;
  mem_total_bytes = to_int64 (memory_of info.memory).total_bytes;
  mem_avail_bytes = to_int64 (memory_of info.memory).available_bytes;
  mem_used_bytes = to_int64 (memory_of info.memory).used_bytes;
}

abbrev pub has_report : Text → ReportRow → Bool
has_report id r = text_eq r.report_id id

unfoldable pub insert_report : ReportRow → Sql Bool
insert_report r = exec_affected λ t.
    if any (has_report r.report_id) t.reports
    then (t, false)
    else (record t { reports = t.reports ++ r ∷ [] }, true)

unfoldable pub disk_row : Text → DiskInfo → DiskRow
disk_row id d = record {
  report_id = id;
  device = d.device;
  mount_point = d.mount_point;
  fs_type = d.fs_type;
  total_bytes = to_int64 d.total_bytes;
  used_bytes = to_int64 d.used_bytes;
  free_bytes = to_int64 d.free_bytes;
}

unfoldable pub insert_disks : Text → List DiskInfo → Sql (Unit {0})
insert_disks id [] = pure tt
insert_disks id (d ∷ disks) = do
  exec (λ t. some (record t { disks = t.disks ++ disk_row id d ∷ [] }))
  insert_disks id disks

unfoldable pub net_row : Text → NetInfo → NetRow
net_row id n = record {
  report_id = id;
  name = n.name;
  mac_addr = n.mac_addr;
  ip_addrs = marshal_json_array n.ip_addrs;
  is_loopback = n.is_loopback;
}

unfoldable pub insert_nets : Text → List NetInfo → Sql (Unit {0})
insert_nets id [] = pure tt
insert_nets id (n ∷ nets) = do
  exec (λ t. some (record t { nets = t.nets ++ net_row id n ∷ [] }))
  insert_nets id nets

abbrev pub has_bios : Text → BiosRow → Bool
has_bios id r = text_eq r.report_id id

abbrev pub has_board : Text → BoardRow → Bool
has_board id r = text_eq r.report_id id

unfoldable pub bios_row : Text → BiosInfo → BiosRow
bios_row id b = record {
  report_id = id;
  vendor = b.vendor;
  version = b.version;
  release_date = b.release_date;
}

unfoldable pub insert_bios : Text → Option BiosInfo → Sql (Unit {0})
insert_bios id none = pure tt
insert_bios id (some b) = exec λ t.
    if any (has_bios id) t.bios
    then none
    else some (record t { bios = t.bios ++ bios_row id b ∷ [] })

unfoldable pub board_row : Text → MotherboardInfo → BoardRow
board_row id m = record {
  report_id = id;
  manufacturer = m.manufacturer;
  product = m.product;
  serial = m.serial;
}

unfoldable pub insert_motherboard : Text → Option MotherboardInfo → Sql (Unit {0})
insert_motherboard id none = pure tt
insert_motherboard id (some m) = exec λ t.
    if any (has_board id) t.boards
    then none
    else some (record t { boards = t.boards ++ board_row id m ∷ [] })

-- The four sub-tables of a report.
unfoldable pub insert_parts : Text → HardwareInfo → Sql (Unit {0})
insert_parts id info = do
  insert_disks id info.disks
  insert_nets id info.nets
  insert_bios id info.bios
  insert_motherboard id info.motherboard

-- A report that is there already is left alone.
unfoldable pub insert_all : Text → Text → Text → Text → HardwareInfo → Sql (Unit {0})
insert_all id dev sid now info = do
  added ← insert_report (report_row id dev sid now info)
  if added then insert_parts id info else pure tt

unfoldable pub save_hardware_report : Text → Text → Text → ReportRequest → Sql (Unit {0})
save_hardware_report sid dev now report = elim report.type [
  | other ↦ λ db. (err no_payload, db)
  | hardware found ↦ elim found [
    | none ↦ λ db. (err no_payload, db)
    | some info ↦ transaction (insert_all report.report_id dev sid now info)
  ]
]

-- ---- reading back

unfoldable pub disk_info : DiskRow → DiskInfo
disk_info r = record {
  device = r.device;
  mount_point = r.mount_point;
  fs_type = r.fs_type;
  total_bytes = to_uint64 r.total_bytes;
  used_bytes = to_uint64 r.used_bytes;
  free_bytes = to_uint64 r.free_bytes;
}

unfoldable pub load_disks : Text → Sql (List DiskInfo)
load_disks id = query_or [] λ t. some (map disk_info (where_ (λ r. text_eq r.report_id id) t.disks))

-- A panic of the JSON reader, which no written column causes, ends the list here.
unfoldable pub net_info : NetRow → NetInfo
net_info r = record {
  name = r.name;
  mac_addr = r.mac_addr;
  ip_addrs = elim (parse_json_string_array r.ip_addrs) [ none ↦ [] | some ips ↦ ips ];
  is_loopback = r.is_loopback;
}

unfoldable pub load_nets : Text → Sql (List NetInfo)
load_nets id = query_or [] λ t. some (map net_info (where_ (λ r. text_eq r.report_id id) t.nets))

abbrev bios_info : BiosRow → Option BiosInfo
bios_info r =
    some (record { vendor = r.vendor; version = r.version; release_date = r.release_date })

unfoldable pub load_bios : Text → Sql (Option BiosInfo)
load_bios id =
    query_or none
      λ t. elim (find (has_bios id) t.bios) [ none ↦ none | some r ↦ some (bios_info r) ]

abbrev board_info : BoardRow → Option MotherboardInfo
board_info r =
    some (record { manufacturer = r.manufacturer; product = r.product; serial = r.serial })

unfoldable pub load_motherboard : Text → Sql (Option MotherboardInfo)
load_motherboard id =
    query_or none
      λ t. elim (find (has_board id) t.boards) [ none ↦ none | some r ↦ some (board_info r) ]

unfoldable pub row_info :
    ReportRow
    → List DiskInfo
    → List NetInfo
    → Option BiosInfo
    → Option MotherboardInfo
    → HardwareInfo
row_info r disks nets bios board = record {
  cpu = some (record {
    model = r.cpu_model;
    cores = r.cpu_cores;
    threads = r.cpu_threads;
    architecture = r.cpu_arch;
  });
  memory = some (record {
    total_bytes = to_uint64 r.mem_total_bytes;
    available_bytes = to_uint64 r.mem_avail_bytes;
    used_bytes = to_uint64 r.mem_used_bytes;
  });
  disks = disks;
  nets = nets;
  bios = bios;
  motherboard = board;
}

-- A report's main row with its sub-tables.
unfoldable pub load_info : ReportRow → Sql HardwareInfo
load_info r = do
  disks ← load_disks r.report_id
  nets ← load_nets r.report_id
  bios ← load_bios r.report_id
  board ← load_motherboard r.report_id
  pure (row_info r disks nets bios board)

pub record HardwareSnapshot : Type 0 where
  pub report_id : Text
  pub created_at : Text
  pub info : HardwareInfo

unfoldable pub load_snapshots : List ReportRow → Sql (List HardwareSnapshot)
load_snapshots [] = pure []
load_snapshots (r ∷ rows) = do
  info ← load_info r
  rest ← load_snapshots rows
  pure (record { report_id = r.report_id; created_at = r.created_at; info = info } ∷ rest)

-- An empty bound is no bound; both bounds are inclusive.
unfoldable pub in_range : Text → Text → ReportRow → Bool
in_range [] [] r = true
in_range [] (c ∷ until) r = text_le r.created_at (c ∷ until)
in_range (c ∷ since) [] r = text_le (c ∷ since) r.created_at
in_range (c ∷ since) (d ∷ until) r =
    text_le (c ∷ since) r.created_at && text_le r.created_at (d ∷ until)

unfoldable pub report_limit : ℤ → ℕ
report_limit (pos n) = if leb n 0 then 100 else n
report_limit (negsuc n) = 100

abbrev pub of_device : Text → ReportRow → Bool
of_device dev r = text_eq r.device_id dev

module _ (engine : Engine) where
  unfoldable pub newest_first : List ReportRow → List ReportRow
  newest_first rows = engine.order_desc ReportRow (λ r. r.created_at) rows

  load_latest : Option ReportRow → Sql (Option HardwareInfo)
  load_latest none = pure none
  load_latest (some r) = do info ← load_info r; pure (some info)

  -- `sql.ErrNoRows` is no error here.
  unfoldable pub get_latest_hardware : Text → Sql (Option HardwareInfo)
  unfolding load_latest
  get_latest_hardware dev = do
    row ← query (λ t. ok (head? (newest_first (where_ (of_device dev) t.reports))))
    load_latest row

  -- The query and the end of its iteration may each fail.
  unfoldable pub list_hardware_reports : Text → Text → Text → ℤ → Sql (List HardwareSnapshot)
  list_hardware_reports dev since until limit = do
    rows ←
        query (λ t.
          ok (newest_first (where_ (λ r. of_device dev r && in_range since until r) t.reports)))
    query (λ t. ok tt)
    load_snapshots (take (report_limit limit) rows)
