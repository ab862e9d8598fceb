-- ===== src/Client/Collector.antt =====
-- internal/client/collector/collector.go and hardware_linux.go: the hardware that is collected on
-- Linux, with the interfaces, the BIOS and the motherboard.
pub mod Sources
pub mod Cpu
pub mod Memory
pub mod Disks
use team_x.Base.{
  ℕ, ◌+◌, ◌-◌, ◌*◌, ◌%◌, ◌^◌, Bool, true, false, ◌&&◌, not, Option, none, some, List, [], ◌∷◌, Text,
  codes, text_eq, if◌then◌else◌, ◌==◌, ltb, ℤ, pos, negsuc, to_uint64, leb_zero, is_zero, any,
  trim_space, trim_suffix, split, cut, fields, parse_uint, atoi,
}
use team_x.Proto.Messages.{
  CpuInfo, MemoryInfo, DiskInfo, NetInfo, BiosInfo, MotherboardInfo, HardwareInfo,
}
use team_x.Client.Collector.Sources.{Statfs, Iface, Readings, minus, prepend_some}
use team_x.Client.Collector.Cpu.{collect_cpu}
use team_x.Client.Collector.Memory.{collect_memory}
use team_x.Client.Collector.Disks.{collect_disks}

-- The mask is stripped; some addresses are just bare.
unfoldable pub ip_of : Readings → Text → Option Text
ip_of r addr = elim (r.parse_cidr addr) [
  | some ip ↦ some ip
  | none ↦ r.parse_ip (trim_suffix addr (codes "/32"))
]

unfoldable pub ips_of : Readings → List Text → List Text
ips_of r [] = []
ips_of r (addr ∷ addrs) = prepend_some (ip_of r addr) (ips_of r addrs)

abbrev mac_or_zero : Text → Text
mac_or_zero [] = codes "00:00:00:00:00:00"
mac_or_zero (c ∷ mac) = c ∷ mac

unfoldable pub net_of : Readings → Iface → Option NetInfo
net_of r i = elim i.addrs [
  | none ↦ none
  | some addrs ↦ some (record {
    name = i.name;
    mac_addr = mac_or_zero i.hardware_addr;
    ip_addrs = ips_of r addrs;
    is_loopback = i.is_loopback;
  })
]

unfoldable pub nets_of : Readings → List Iface → List NetInfo
nets_of r [] = []
nets_of r (i ∷ is) = prepend_some (net_of r i) (nets_of r is)

unfoldable pub collect_network : Readings → List NetInfo
collect_network r = elim r.interfaces [ none ↦ [] | some is ↦ nets_of r is ]

-- ---- BIOS and motherboard

-- /sys/class/dmi/id/<name>
unfoldable pub read_dmi_field : Readings → Text → Text
read_dmi_field r name = elim (r.dmi name) [ none ↦ [] | some s ↦ trim_space s ]

abbrev bios_or_nil : Text → Text → Text → Option BiosInfo
bios_or_nil vendor version date =
    if text_eq vendor [] && text_eq version [] && text_eq date []
    then none
    else some (record { vendor = vendor; version = version; release_date = date })

unfoldable pub collect_bios : Readings → Option BiosInfo
collect_bios r =
    bios_or_nil (read_dmi_field r (codes "bios_vendor")) (read_dmi_field r (codes "bios_version"))
      (read_dmi_field r (codes "bios_date"))

abbrev board_or_nil : Text → Text → Text → Option MotherboardInfo
board_or_nil mfr product serial =
    if text_eq mfr [] && text_eq product [] && text_eq serial []
    then none
    else some (record { manufacturer = mfr; product = product; serial = serial })

unfoldable pub collect_motherboard : Readings → Option MotherboardInfo
collect_motherboard r =
    board_or_nil (read_dmi_field r (codes "board_vendor")) (read_dmi_field r (codes "board_name"))
      (read_dmi_field r (codes "board_serial"))

unfoldable pub collect_hardware : Readings → HardwareInfo
collect_hardware r = record {
  cpu = some (collect_cpu r);
  memory = some (collect_memory r);
  disks = collect_disks r;
  nets = collect_network r;
  bios = collect_bios r;
  motherboard = collect_motherboard r;
}
