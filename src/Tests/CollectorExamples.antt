-- ===== src/Tests/CollectorExamples.antt =====
-- The collector on files of the usual form.
use team_x.Base.{
  true, ℕ, false, subst, arith, List, digits, ◌-◌, Text, ◌≡◌, refl, none, some, [], ◌∷◌, ◌++◌,
  codes, pos, ◌*◌, split, cut, trim_space, trim_end, trim_start, text_eq, number_from, parse_uint,
  trim_suffix, atoi, to_int32, fields, to_uint64,
}
use team_x.Base.Strings.Laws.{spaces}
use team_x.Proto.Messages.{report_request}
use team_x.Store.Json.Array.RoundTrip.{IsPlain}
use team_x.Store.Sql.{ok}
use team_x.Store.Hardware.{get_latest_hardware}
use team_x.Store.Hardware.Saved.{IsFresh}
use team_x.Server.Service.{Server}
use team_x.Server.Dispatch.{receive, message}
use team_x.Client.Cache.{as_report}
use team_x.Client.Collector.{collect_hardware}
use team_x.Client.Collector.Memory.Printed.{
  MeminfoLine, line, print, IsMeminfoLine, amount, collect_memory-print,
}
use team_x.Admin.Format.{unit_letter, format_bytes}
use team_x.Admin.Format.Scale.{Scaled, format_bytes_lem}
use team_x.EndToEnd.Collected.{WritesPlain, get_latest-collect_hardware}
use team_x.Tests.SortEngine.{sort_engine}
use team_x.Tests.Samples.{stamp, db_one, cm_one}
use team_x.Client.Collector.Sources.{Readings}
use team_x.Client.Collector.Memory.{collect_memory, mem_loop, mem_line}
use team_x.Client.Collector.Cpu.{collect_cpu, cpu_loop, cpu_line, cpu_field}
use team_x.Client.Collector.Disks.{collect_disks, disks_of, mount_disk, is_real_fs}

abbrev pub readings : Readings
readings = record {
  goarch = codes "amd64";
  cpuinfo = some (
      codes
        "processor\t: 0\nmodel name\t: Xeon\nsiblings\t: 8\ncpu cores\t: 4\n\nprocessor\t: 1\nmodel name\t: Other\n");
  meminfo =
      some (
        codes "MemTotal:       8000 kB\nMemFree:  12 kB\nMemAvailable:   3000 kB\nBuffers: 7 kB\n");
  mounts = some (codes "/dev/sda1 / ext4 rw 0 0\nproc /proc proc rw 0 0\n");
  statfs = λ m. some (record { bsize = pos 4096; blocks = 100; bfree = 40 });
  interfaces = some (
      record {
        name = codes "eth0";
        addrs = some (codes "10.0.0.1/24" ∷ []);
        hardware_addr = codes "aa:bb";
        is_loopback = false;
      }
      ∷ []);
  parse_cidr = λ a. some (codes "10.0.0.1");
  parse_ip = λ a. some (codes "10.0.0.1");
  dmi = λ n. none;
}

memory_read :
    collect_memory readings
    ≡ record { total_bytes = 8000 * 1024; available_bytes = 3000 * 1024; used_bytes = 5000 * 1024 }
unfolding collect_memory mem_loop mem_line parse_uint trim_suffix split cut trim_space trim_end
    trim_start text_eq number_from
memory_read = refl

cpu_read :
    collect_cpu readings
    ≡ record { model = codes "Xeon"; cores = pos 4; threads = pos 8; architecture = codes "amd64" }
unfolding collect_cpu cpu_loop cpu_line cpu_field atoi to_int32 split cut trim_space trim_end
    trim_start text_eq number_from
cpu_read = refl

disks_read :
    collect_disks readings
    ≡ record {
      device = codes "/dev/sda1";
      mount_point = codes "/";
      fs_type = codes "ext4";
      total_bytes = 409600;
      used_bytes = 245760;
      free_bytes = 163840;
    }
      ∷ []
unfolding collect_disks disks_of mount_disk is_real_fs fields to_uint64 split trim_space trim_end
    trim_start text_eq
disks_read = refl

writes_plain : WritesPlain readings
writes_plain = record { cidr = λ a ip e. plain_ip ip e; bare = λ a ip e. plain_ip ip e }
  where
    plain_ip : (ip : Text) → some (codes "10.0.0.1") ≡ some ip → IsPlain ip
    plain_ip ip e = let same : codes "10.0.0.1" ≡ ip = cc in subst IsPlain same (omega arith, refl)

abbrev server_one : Server
server_one = record { cm = cm_one; db = db_one }

get_latest-collect_hardware_example :
    (get_latest_hardware sort_engine
      (codes "dev1")
      (receive
        (codes "s1")
        (codes "dev1")
        5
        stamp
        (message (record {
          seq = 3;
          payload = report_request (as_report (codes "r1") (collect_hardware readings));
        }))
        server_one).1.db).0
    ≡ ok (some (collect_hardware readings))
get_latest-collect_hardware_example =
    get_latest-collect_hardware sort_engine readings (codes "r1") (codes "dev1") (codes "s1") stamp
      5 3 server_one writes_plain refl fresh tt
  where
    fresh : IsFresh (codes "r1") db_one.tables
    fresh = record { reports = refl; disks = refl; nets = refl; bios = refl; boards = refl }

abbrev meminfo_line : Text → ℕ → MeminfoLine
meminfo_line key n = record { key = key; pad = 5; kilobytes = n; has_unit = true }

abbrev huge_pages : MeminfoLine
huge_pages = record { key = codes "HugePages_Total"; pad = 7; kilobytes = 0; has_unit = false }

abbrev meminfo : List MeminfoLine
meminfo =
    meminfo_line (codes "MemTotal") 8000
    ∷ meminfo_line (codes "MemFree") 12
    ∷ meminfo_line (codes "MemAvailable") 3000
    ∷ huge_pages
    ∷ []

total_line : IsMeminfoLine (meminfo_line (codes "MemTotal") 8000)
unfolding line digits spaces trim_space trim_start trim_end text_eq
total_line = record { no_colon = refl; no_newline = refl; trimmed = refl; is_uint64 = omega arith }

free_line : IsMeminfoLine (meminfo_line (codes "MemFree") 12)
unfolding line digits spaces trim_space trim_start trim_end text_eq
free_line = record { no_colon = refl; no_newline = refl; trimmed = refl; is_uint64 = omega arith }

avail_line : IsMeminfoLine (meminfo_line (codes "MemAvailable") 3000)
unfolding line digits spaces trim_space trim_start trim_end text_eq
avail_line = record { no_colon = refl; no_newline = refl; trimmed = refl; is_uint64 = omega arith }

pages_line : IsMeminfoLine huge_pages
unfolding line digits spaces trim_space trim_start trim_end text_eq
pages_line = record { no_colon = refl; no_newline = refl; trimmed = refl; is_uint64 = omega arith }

collect_memory-print_example :
    collect_memory (record readings { meminfo = some (print meminfo) }) ≡ record {
      total_bytes = amount (codes "MemTotal") meminfo * 1024;
      available_bytes = amount (codes "MemAvailable") meminfo * 1024;
      used_bytes =
          (amount (codes "MemTotal") meminfo - amount (codes "MemAvailable") meminfo) * 1024;
    }
unfolding text_eq
collect_memory-print_example =
    collect_memory-print (record readings { meminfo = some (print meminfo) }) meminfo refl
      (total_line, (free_line, (avail_line, (pages_line, tt))))
      ((λ h. refl), ((λ h. refl), ((λ h. refl), ((λ h. refl), tt))))
      ((λ h. cc), ((λ h. cc), ((λ h. refl), ((λ h. refl), tt)))) (omega arith) (omega arith)

format_bytes_lem_example :
    (div : ℕ) × (exp : ℕ) × (letter : ℕ) × Scaled 5000000 div exp
    × (unit_letter exp ≡ some letter)
    × (format_bytes (λ n d. digits 20 n []) 5000000
        ≡ some (digits 20 5000000 [] ++ b' ' ∷ letter ∷ b'B' ∷ []))
format_bytes_lem_example =
    format_bytes_lem (λ n d. digits 20 n []) 5000000 (omega arith) (omega arith)
