-- ===== src/Store/Hardware/Latest.antt =====
-- What `GetLatestHardware` reads right after `SaveHardwareReport`.
use team_x.Base.{
  ◌<◌, ◌^◌, ◌≡◌, refl, ap, ◌∙◌, false, Option, none, some, List, [], ◌∷◌, map, Text, text_eq,
  text_eq_refl, where_, find, All, head?, text_le, to_uint64-to_int64, where-none, find-append,
  Option-cases, inl, inr,
}
use team_x.Proto.Messages.{DiskInfo, NetInfo, BiosInfo, MotherboardInfo, HardwareInfo}
use team_x.Store.Engine.{Engine}
use team_x.Store.Engine.Latest.{ReportRow-set, head?-order_desc}
use team_x.Store.Json.Array.RoundTrip.{IsPlain, parse-marshal_json_array}
use team_x.Store.Sql.{ReportRow, BiosRow, BoardRow, Tables, Db, IsUp, ok, bind-ok, query, query_or}
use team_x.Store.Hardware.{
  cpu_of, memory_of, report_row, disk_row, net_row, has_bios, has_board, bios_row, board_row,
  save_hardware_report, disk_info, load_disks, net_info, load_nets, load_bios, load_motherboard,
  row_info, load_info, of_device, newest_first, get_latest_hardware,
}
use team_x.Store.Hardware.Saved.{
  up, bios_rows, board_rows, where-append, IsFresh, hardware_report, stored, save-up,
}

abbrev bios_of : Option BiosRow → Option BiosInfo
bios_of none = none
bios_of (some r) =
    some (record { vendor = r.vendor; version = r.version; release_date = r.release_date })

abbrev board_of : Option BoardRow → Option MotherboardInfo
board_of none = none
board_of (some r) =
    some (record { manufacturer = r.manufacturer; product = r.product; serial = r.serial })

load_bios-up :
    (id : Text) (t : Tables)
    → load_bios id (up t) ≡ (ok (bios_of (find (has_bios id) t.bios)), up t)
unfolding load_bios query_or
load_bios-up id t = elim (Option-cases (find (has_bios id) t.bios)) [
  | inl e ↦ rw e refl
  | inr (r, e) ↦ rw e refl
]

load_motherboard-up :
    (id : Text) (t : Tables)
    → load_motherboard id (up t) ≡ (ok (board_of (find (has_board id) t.boards)), up t)
unfolding load_motherboard query_or
load_motherboard-up id t = elim (Option-cases (find (has_board id) t.boards)) [
  | inl e ↦ rw e refl
  | inr (r, e) ↦ rw e refl
]

load_info-up :
    (r : ReportRow) (t : Tables)
    → load_info r (up t) ≡ (
      ok (
          row_info r
            (map disk_info (where_ (λ d. text_eq d.report_id r.report_id) t.disks))
            (map net_info (where_ (λ n. text_eq n.report_id r.report_id) t.nets))
            (bios_of (find (has_bios r.report_id) t.bios))
            (board_of (find (has_board r.report_id) t.boards))),
      up t,
    )
unfolding load_info load_disks load_nets query_or
load_info-up r t =
    bind-ok (load_disks r.report_id) _ (up t) (up t) _ refl
    ∙ bind-ok (load_nets r.report_id) _ (up t) (up t) _ refl
    ∙ bind-ok (load_bios r.report_id) _ (up t) (up t) _ (load_bios-up r.report_id t)
    ∙ bind-ok (load_motherboard r.report_id) _ (up t) (up t) _ (load_motherboard-up r.report_id t)

-- ---- the rows of the saved report, read back

abbrev pub InRange : DiskInfo → Type 0
InRange d = (d.total_bytes < 2 ^ 64) × (d.used_bytes < 2 ^ 64) × (d.free_bytes < 2 ^ 64)

-- Byte counts are uint64, and each address is ASCII and does not end with a backslash.
pub record IsReadable (info : HardwareInfo) : Type 0 where
  pub total : (memory_of info.memory).total_bytes < 2 ^ 64
  pub available : (memory_of info.memory).available_bytes < 2 ^ 64
  pub used : (memory_of info.memory).used_bytes < 2 ^ 64
  pub disks : All InRange info.disks
  pub nets : All (λ n. All IsPlain n.ip_addrs) info.nets

where-disk_row :
    (id : Text) (ds : List DiskInfo)
    → where_ (λ d. text_eq d.report_id id) (map (disk_row id) ds) ≡ map (disk_row id) ds
unfolding disk_row
where-disk_row id [] = refl
where-disk_row id (d ∷ ds) =
    rw (text_eq_refl id) (ap (λ rest. disk_row id d ∷ rest) (where-disk_row id ds))

where-net_row :
    (id : Text) (ns : List NetInfo)
    → where_ (λ n. text_eq n.report_id id) (map (net_row id) ns) ≡ map (net_row id) ns
unfolding net_row
where-net_row id [] = refl
where-net_row id (n ∷ ns) =
    rw (text_eq_refl id) (ap (λ rest. net_row id n ∷ rest) (where-net_row id ns))

disk_info-disk_row : (id : Text) (d : DiskInfo) → InRange d → disk_info (disk_row id d) ≡ d
unfolding disk_info disk_row
disk_info-disk_row id d h =
    rw
      (
        to_uint64-to_int64 d.total_bytes h.0,
        to_uint64-to_int64 d.used_bytes h.1,
        to_uint64-to_int64 d.free_bytes h.2,
      )
      refl

net_info-net_row : (id : Text) (n : NetInfo) → All IsPlain n.ip_addrs → net_info (net_row id n) ≡ n
unfolding net_info net_row
net_info-net_row id n h = rw (parse-marshal_json_array n.ip_addrs h) refl

map-disk_info :
    (id : Text) (ds : List DiskInfo) → All InRange ds → map disk_info (map (disk_row id) ds) ≡ ds
map-disk_info id [] h = refl
map-disk_info id (d ∷ ds) h =
    ap (λ e. e ∷ map disk_info (map (disk_row id) ds)) (disk_info-disk_row id d h.0)
    ∙ ap (λ rest. d ∷ rest) (map-disk_info id ds h.1)

map-net_info :
    (id : Text) (ns : List NetInfo)
    → All (λ n. All IsPlain n.ip_addrs) ns
    → map net_info (map (net_row id) ns) ≡ ns
map-net_info id [] h = refl
map-net_info id (n ∷ ns) h =
    ap (λ e. e ∷ map net_info (map (net_row id) ns)) (net_info-net_row id n h.0)
    ∙ ap (λ rest. n ∷ rest) (map-net_info id ns h.1)

find-bios_rows :
    (id : Text) (b : Option BiosInfo) → bios_of (find (has_bios id) (bios_rows id b)) ≡ b
unfolding bios_row
find-bios_rows id none = refl
find-bios_rows id (some b) = rw (text_eq_refl id) refl

find-board_rows :
    (id : Text) (m : Option MotherboardInfo) → board_of (find (has_board id) (board_rows id m)) ≡ m
unfolding board_row
find-board_rows id none = refl
find-board_rows id (some m) = rw (text_eq_refl id) refl

-- The report with its processor and its memory present, as the getters read them.
abbrev pub completed : HardwareInfo → HardwareInfo
completed info = record info { cpu = some (cpu_of info.cpu); memory = some (memory_of info.memory) }

module _ (id dev sid now : Text) (info : HardwareInfo) (t : Tables) (fresh : IsFresh id t)
    (readable : IsReadable info) where
  row : ReportRow
  row = report_row id dev sid now info

  own_disks :
      map disk_info (where_ (λ d. text_eq d.report_id id) (stored id dev sid now info t).disks)
      ≡ info.disks
  own_disks =
      ap (map disk_info) (
        where-append (λ d. text_eq d.report_id id) t.disks (map (disk_row id) info.disks)
        ∙ rw (where-none (λ d. text_eq d.report_id id) t.disks fresh.disks)
            (where-disk_row id info.disks))
      ∙ map-disk_info id info.disks readable.disks

  own_nets :
      map net_info (where_ (λ n. text_eq n.report_id id) (stored id dev sid now info t).nets)
      ≡ info.nets
  own_nets =
      ap (map net_info) (
        where-append (λ n. text_eq n.report_id id) t.nets (map (net_row id) info.nets)
        ∙ rw (where-none (λ n. text_eq n.report_id id) t.nets fresh.nets)
            (where-net_row id info.nets))
      ∙ map-net_info id info.nets readable.nets

  own_bios : bios_of (find (has_bios id) (stored id dev sid now info t).bios) ≡ info.bios
  own_bios =
      ap bios_of (find-append (has_bios id) t.bios (bios_rows id info.bios) fresh.bios)
      ∙ find-bios_rows id info.bios

  own_board :
      board_of (find (has_board id) (stored id dev sid now info t).boards) ≡ info.motherboard
  own_board =
      ap board_of
        (find-append (has_board id) t.boards (board_rows id info.motherboard) fresh.boards)
      ∙ find-board_rows id info.motherboard

  load_info-stored :
      load_info row (up (stored id dev sid now info t))
      ≡ (ok (completed info), up (stored id dev sid now info t))
  unfolding row report_row row_info
  load_info-stored =
      load_info-up row (stored id dev sid now info t)
      ∙ rw
          (
            own_disks,
            own_nets,
            own_bios,
            own_board,
            to_uint64-to_int64 (memory_of info.memory).total_bytes readable.total,
            to_uint64-to_int64 (memory_of info.memory).available_bytes readable.available,
            to_uint64-to_int64 (memory_of info.memory).used_bytes readable.used,
          )
          refl

  latest_row :
      (engine : Engine)
      → All (λ r. text_le now r.created_at ≡ false) (where_ (of_device dev) t.reports)
      → head? (newest_first engine (where_ (of_device dev) (stored id dev sid now info t).reports))
        ≡ some row
  unfolding newest_first row report_row
  latest_row engine older =
      ap (λ rows. head? (engine.order_desc ReportRow (λ r. r.created_at) rows))
        (where-append (of_device dev) t.reports (row ∷ []) ∙ rw (text_eq_refl dev) refl)
      ∙ head?-order_desc ReportRow-set (λ r. r.created_at) row (where_ (of_device dev) t.reports)
          older engine

-- On an engine that does not fail, and with a report identifier that no row has, a hardware report
-- that is saved later than all of its device is what `GetLatestHardware` reads back: its disks, nets,
-- BIOS and board as they were sent, its processor and its memory too, with the zero values where
-- they were missing. The report's byte counts are uint64, and its addresses ASCII with no backslash
-- at the end.
pub get_latest-save :
    (engine : Engine) (id dev sid now : Text) (info : HardwareInfo) (db : Db)
    → IsUp db
    → IsFresh id db.tables
    → IsReadable info
    → All (λ r. text_le now r.created_at ≡ false) (where_ (of_device dev) db.reports)
    → (get_latest_hardware engine dev
        (save_hardware_report sid dev now (hardware_report id info) db).1).0
      ≡ ok (some (completed info))
unfolding get_latest_hardware query
get_latest-save engine id dev sid now info db running fresh readable older =
    ap
      (λ d.
        (get_latest_hardware engine dev
          (save_hardware_report sid dev now (hardware_report id info) d).1).0)
      (is_up db running)
    ∙ ap (λ r. (get_latest_hardware engine dev r.1).0) (save-up id dev sid now info db.tables fresh)
    ∙ ap (λ r. r.0)
        (bind-ok (query _) _ (up after) (up after) (some saved) (
            ap (λ o. (ok o, up after))
              (latest_row id dev sid now info db.tables fresh readable engine older))
          ∙ bind-ok (load_info saved) _ (up after) (up after) (completed info)
              (load_info-stored id dev sid now info db.tables fresh readable))
  where
    after : Tables
    after = stored id dev sid now info db.tables

    saved : ReportRow
    saved = row id dev sid now info db.tables fresh readable

    is_up : (d : Db) → IsUp d → d ≡ up d.tables
    is_up d e = λ i. record { tables = d.tables; faults = e i }
