-- ===== src/Store/Hardware/Saved.antt =====
-- What `SaveHardwareReport` writes, and what `GetLatestHardware` then reads.
use team_x.Base.{
  ◌≡◌, refl, ap, sym, ◌∙◌, Bool, true, false, Option, none, some, List, [], ◌∷◌, ◌++◌, append_assoc,
  append-nil, map, arith, Text, text_eq, any, where_,
}
use team_x.Proto.Messages.{
  DiskInfo, NetInfo, BiosInfo, MotherboardInfo, HardwareInfo, ReportRequest, hardware,
}
use team_x.Store.Sql.{
  BiosRow, BoardRow, Tables, Db, ok, ◌>>=◌, bind-ok, rolled_back, query, exec, exec_affected,
  transaction,
}
use team_x.Store.Hardware.{
  report_row, has_report, insert_report, disk_row, insert_disks, net_row, insert_nets, has_bios,
  has_board, bios_row, insert_bios, board_row, insert_motherboard, insert_parts, insert_all,
  save_hardware_report,
}

-- An engine that does not fail.
abbrev pub up : Tables → Db
up t = record { tables = t; faults = [] }

pub where-append :
    {A : Type 0} (p : A → Bool) (xs ys : List A) → where_ p (xs ++ ys) ≡ where_ p xs ++ where_ p ys
where-append p [] ys = refl
where-append p (x ∷ xs) ys = ground (arith, where-append p xs ys)

abbrev pub bios_rows : Text → Option BiosInfo → List BiosRow
bios_rows id none = []
bios_rows id (some b) = bios_row id b ∷ []

abbrev pub board_rows : Text → Option MotherboardInfo → List BoardRow
board_rows id none = []
board_rows id (some m) = board_row id m ∷ []

abbrev pub with_parts : Text → HardwareInfo → Tables → Tables
with_parts id info t = record t {
  disks = t.disks ++ map (disk_row id) info.disks;
  nets = t.nets ++ map (net_row id) info.nets;
  bios = t.bios ++ bios_rows id info.bios;
  boards = t.boards ++ board_rows id info.motherboard;
}

insert_disks-up :
    (id : Text) (disks : List DiskInfo) (t : Tables)
    → insert_disks id disks (up t)
      ≡ (ok tt, up (record t { disks = t.disks ++ map (disk_row id) disks }))
unfolding insert_disks ◌>>=◌ exec
insert_disks-up id [] t =
    ap (λ rows. (ok tt, up (record t { disks = rows }))) (sym (append-nil t.disks))
insert_disks-up id (d ∷ disks) t =
    insert_disks-up id disks (record t { disks = t.disks ++ disk_row id d ∷ [] })
    ∙ ap (λ rows. (ok tt, up (record t { disks = rows })))
        (append_assoc t.disks (disk_row id d ∷ []) (map (disk_row id) disks))

insert_nets-up :
    (id : Text) (nets : List NetInfo) (t : Tables)
    → insert_nets id nets (up t) ≡ (ok tt, up (record t { nets = t.nets ++ map (net_row id) nets }))
unfolding insert_nets ◌>>=◌ exec
insert_nets-up id [] t =
    ap (λ rows. (ok tt, up (record t { nets = rows }))) (sym (append-nil t.nets))
insert_nets-up id (n ∷ nets) t =
    insert_nets-up id nets (record t { nets = t.nets ++ net_row id n ∷ [] })
    ∙ ap (λ rows. (ok tt, up (record t { nets = rows })))
        (append_assoc t.nets (net_row id n ∷ []) (map (net_row id) nets))

insert_bios-up :
    (id : Text) (b : Option BiosInfo) (t : Tables)
    → any (has_bios id) t.bios ≡ false
    → insert_bios id b (up t) ≡ (ok tt, up (record t { bios = t.bios ++ bios_rows id b }))
unfolding insert_bios exec
insert_bios-up id none t free =
    ap (λ rows. (ok tt, up (record t { bios = rows }))) (sym (append-nil t.bios))
insert_bios-up id (some b) t free = rw free refl

insert_motherboard-up :
    (id : Text) (m : Option MotherboardInfo) (t : Tables)
    → any (has_board id) t.boards ≡ false
    → insert_motherboard id m (up t)
      ≡ (ok tt, up (record t { boards = t.boards ++ board_rows id m }))
unfolding insert_motherboard exec
insert_motherboard-up id none t free =
    ap (λ rows. (ok tt, up (record t { boards = rows }))) (sym (append-nil t.boards))
insert_motherboard-up id (some m) t free = rw free refl

insert_parts-up :
    (id : Text) (info : HardwareInfo) (t : Tables)
    → any (has_bios id) t.bios ≡ false
    → any (has_board id) t.boards ≡ false
    → insert_parts id info (up t) ≡ (ok tt, up (with_parts id info t))
unfolding insert_parts
insert_parts-up id info t bios boards =
    bind-ok (insert_disks id info.disks) _ (up t) _ tt (insert_disks-up id info.disks t)
    ∙ bind-ok (insert_nets id info.nets) _ _ _ tt (insert_nets-up id info.nets _)
    ∙ bind-ok (insert_bios id info.bios) _ _ _ tt (insert_bios-up id info.bios _ bios)
    ∙ insert_motherboard-up id info.motherboard _ boards

-- No row has this report identifier.
pub record IsFresh (id : Text) (t : Tables) : Type 0 where
  pub reports : any (has_report id) t.reports ≡ false
  pub disks : any (λ r. text_eq r.report_id id) t.disks ≡ false
  pub nets : any (λ r. text_eq r.report_id id) t.nets ≡ false
  pub bios : any (has_bios id) t.bios ≡ false
  pub boards : any (has_board id) t.boards ≡ false

abbrev pub hardware_report : Text → HardwareInfo → ReportRequest
hardware_report id info = record { report_id = id; type = hardware (some info) }

abbrev pub stored : Text → Text → Text → Text → HardwareInfo → Tables → Tables
stored id dev sid now info t =
    with_parts id info (record t { reports = t.reports ++ report_row id dev sid now info ∷ [] })

module _ (id dev sid now : Text) (info : HardwareInfo) (t : Tables) (fresh : IsFresh id t) where
  insert_report-up :
      insert_report (report_row id dev sid now info) (up t)
      ≡ (ok true, up (record t { reports = t.reports ++ report_row id dev sid now info ∷ [] }))
  unfolding insert_report exec_affected report_row
  insert_report-up = rw fresh.reports refl

  insert_all-up : insert_all id dev sid now info (up t) ≡ (ok tt, up (stored id dev sid now info t))
  unfolding insert_all
  insert_all-up =
      bind-ok (insert_report (report_row id dev sid now info)) _ (up t) _ true insert_report-up
      ∙ insert_parts-up id info _ fresh.bios fresh.boards

  pub save-up :
      save_hardware_report sid dev now (hardware_report id info) (up t)
      ≡ (ok tt, up (stored id dev sid now info t))
  unfolding save_hardware_report transaction query
  save-up = ap (rolled_back t) (
      bind-ok (query (λ u. ok tt)) _ (up t) (up t) tt refl
      ∙ bind-ok (insert_all id dev sid now info) _ (up t) _ tt insert_all-up)
