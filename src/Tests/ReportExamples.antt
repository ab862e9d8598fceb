-- ===== src/Tests/ReportExamples.antt =====
-- The theorems on reports, on sessions as a function, and on `SendCommand`, at the samples.
use team_x.Base.{◌≡◌, refl, false, ◌||◌, none, some, [], ◌∷◌, codes, text_eq, pos, any, arith}
use team_x.Proto.Messages.{HardwareInfo, NetInfo, DiskInfo}
use team_x.Store.Sql.{ok, err, Error}
use team_x.Store.Terminals.{latest_of}
use team_x.Store.Terminals.Refinement.{upserts, beats, leaves, run, replay, view, run-refines}
use team_x.Store.Commands.{has_command}
use team_x.Store.Hardware.{get_latest_hardware, save_hardware_report}
use team_x.Store.Hardware.Saved.{IsFresh, hardware_report}
use team_x.Store.Hardware.Latest.{IsReadable, completed, get_latest-save}
use team_x.Store.Hardware.Links.{IsLinked, save-IsLinked}
use team_x.Server.Connection.{get}
use team_x.Server.Dispatch.{SendRequest, send_command, is_unspecified}
use team_x.Server.Sending.{running, Sent, send_command-Sent}
use team_x.Tests.SortEngine.{sort_engine}
use team_x.Tests.Samples.{machine, stamp, row_one, tables_one, db_one, conn_one, cm_one}

abbrev disk : DiskInfo
disk = record {
  device = codes "/dev/sda1";
  mount_point = codes "/";
  fs_type = codes "ext4";
  total_bytes = 1000;
  used_bytes = 400;
  free_bytes = 600;
}

abbrev net : NetInfo
net = record {
  name = codes "eth0";
  mac_addr = codes "aa:bb";
  ip_addrs = codes "10.0.0.1" ∷ [];
  is_loopback = false;
}

abbrev hardware_one : HardwareInfo
hardware_one = record {
  cpu = none;
  memory = none;
  disks = disk ∷ [];
  nets = net ∷ [];
  bios = none;
  motherboard = none;
}

get_latest-save_example :
    (get_latest_hardware sort_engine
      (codes "dev1")
      (save_hardware_report
        (codes "s1")
        (codes "dev1")
        stamp
        (hardware_report (codes "r1") hardware_one)
        db_one).1).0
    ≡ ok (some (completed hardware_one))
get_latest-save_example =
    get_latest-save sort_engine (codes "r1") (codes "dev1") (codes "s1") stamp hardware_one db_one
      refl fresh readable tt
  where
    fresh : IsFresh (codes "r1") db_one.tables
    fresh = record { reports = refl; disks = refl; nets = refl; bios = refl; boards = refl }

    readable : IsReadable hardware_one
    readable = record {
      total = omega arith;
      available = omega arith;
      used = omega arith;
      disks = ((omega arith, omega arith, omega arith), tt);
      nets = (((omega arith, refl), tt), tt);
    }

save-IsLinked_example :
    (IsLinked db_one.tables
      → IsLinked
          (save_hardware_report
            (codes "s1")
            (codes "dev1")
            stamp
            (hardware_report (codes "r1") hardware_one)
            db_one).1.tables)
    × ((e : Error)
        → (save_hardware_report
            (codes "s1")
            (codes "dev1")
            stamp
            (hardware_report (codes "r1") hardware_one)
            db_one).0
          ≡ err e
        → (save_hardware_report
            (codes "s1")
            (codes "dev1")
            stamp
            (hardware_report (codes "r1") hardware_one)
            db_one).1.tables
          ≡ db_one.tables)
save-IsLinked_example =
    save-IsLinked (codes "s1") (codes "dev1") stamp (hardware_report (codes "r1") hardware_one)
      db_one

run-refines_example :
    view (
      run
        (upserts (codes "s2") machine stamp ∷ beats (codes "s2") stamp ∷ leaves (codes "s1") ∷ [])
        db_one)
    ≡ replay
        (upserts (codes "s2") machine stamp ∷ beats (codes "s2") stamp ∷ leaves (codes "s1") ∷ [])
        (view db_one)
run-refines_example =
    run-refines
      (upserts (codes "s2") machine stamp ∷ beats (codes "s2") stamp ∷ leaves (codes "s1") ∷ [])
      db_one refl

abbrev request : SendRequest
request = record {
  device_id = codes "dev1";
  type = pos 2;
  params = (codes "cmd", codes "uptime") ∷ [];
  timeout_sec = pos 0;
}

latest_there : latest_of sort_engine request.device_id tables_one.terminals ≡ some row_one
unfolding latest_of text_eq
latest_there = refl

found_there : get row_one.session_id cm_one ≡ some conn_one
unfolding get text_eq
found_there = refl

unused_there : any (has_command (codes "c9")) tables_one.commands ≡ false
unfolding text_eq
unused_there = refl

well_formed : (text_eq request.device_id [] || is_unspecified request.type) ≡ false
unfolding text_eq
well_formed = refl

send_command-Sent_example :
    Sent sort_engine request
      (codes "c9")
      (pos 7)
      stamp
      cm_one
      tables_one
      row_one
      conn_one
      latest_there
      found_there
      refl
      unused_there
      (send_command sort_engine request (codes "c9") (pos 7) stamp (running cm_one tables_one))
send_command-Sent_example =
    send_command-Sent sort_engine request (codes "c9") (pos 7) stamp cm_one tables_one row_one
      conn_one latest_there found_there refl unused_there well_formed
