-- ===== src/Store/Hardware/Links.antt =====
-- The sub-tables of hardware.go never hold a row without its report, whatever statements fail.
use team_x.Base.{
  ◌≡◌, refl, Bool, true, false, Option, none, some, List, [], ◌∷◌, ◌++◌, arith, Text, text_eq_refl,
  if◌then◌else◌, any, any-append, All, All-append, All-map, Bool-cases, inl, inr,
}
use team_x.Proto.Messages.{
  DiskInfo, NetInfo, BiosInfo, MotherboardInfo, HardwareInfo, ReportRequest, ReportType, hardware,
  other,
}
use team_x.Store.Sql.{
  Tables, Db, Error, Result, ok, err, Sql, ◌>>=◌, continue, rolled_back, fails, pure, query, exec,
  exec_affected, transaction,
}
use team_x.Store.Hardware.{
  has_report, has_bios, has_board, report_row, insert_report, disk_row, insert_disks, net_row,
  insert_nets, bios_row, insert_bios, board_row, insert_motherboard, insert_parts, insert_all,
  save_hardware_report,
}

-- A report of this identifier is there.
abbrev pub IsReport : Text → Tables → Type 0
IsReport id t = any (has_report id) t.reports ≡ true

pub record IsLinked (t : Tables) : Type 0 where
  pub disks : All (λ r. IsReport r.report_id t) t.disks
  pub nets : All (λ r. IsReport r.report_id t) t.nets
  pub bios : All (λ r. IsReport r.report_id t) t.bios
  pub boards : All (λ r. IsReport r.report_id t) t.boards

-- A call keeps a property of the tables, whether or not its statements fail.
abbrev Holds : {A : Type 0} → (Tables → Type 0) → Sql A → Type 0
Holds Q m = (db : Db) → Q db.tables → Q (m db).1.tables

module _ (Q : Tables → Type 0) where
  Holds-bind :
      {A B : Type 0} (m : Sql A) (f : A → Sql B)
      → Holds Q m
      → ((a : A) → Holds Q (f a))
      → Holds Q (m >>= f)
  unfolding ◌>>=◌
  Holds-bind {A} {B} m f k l db q = go (m db).0 (m db).1 (k db q)
    where
      go : (r : Result A) (mid : Db) → Q mid.tables → Q (continue r f mid).1.tables
      go (ok a) mid q' = l a mid q'
      go (err x) mid q' = q'

  Holds-write :
      (g : Tables → Tables) → ((t : Tables) → Q t → Q (g t)) → Holds Q (exec (λ t. some (g t)))
  unfolding exec
  Holds-write g keeps db q = elim (Bool-cases (fails db.faults)) [
    | inl down ↦ rw down q
    | inr fine ↦ rw fine (keeps db.tables q)
  ]

  Holds-write_unless :
      (taken : Tables → Bool) (g : Tables → Tables)
      → ((t : Tables) → Q t → Q (g t))
      → Holds Q (exec (λ t. if taken t then none else some (g t)))
  unfolding exec
  Holds-write_unless taken g keeps db q = elim (Bool-cases (fails db.faults)) [
    | inl down ↦ rw down q
    | inr fine ↦ elim (Bool-cases (taken db.tables)) [
      | inl full ↦ rw (fine, full) q
      | inr free ↦ rw (fine, free) (keeps db.tables q)
    ]
  ]

  Holds-query : {A : Type 0} (f : Tables → Result A) → Holds Q (query f)
  unfolding query
  Holds-query f db q = q

  Holds-transaction : {A : Type 0} (body : Sql A) → Holds Q body → Holds Q (transaction body)
  unfolding transaction
  Holds-transaction {A} body k db q = go _ _ (
      Holds-bind (query (λ t. ok tt)) (λ _. body >>= λ a. query (λ t. ok a))
        (Holds-query (λ t. ok tt))
        (λ _. Holds-bind body (λ a. query (λ t. ok a)) k (λ a. Holds-query (λ t. ok a))) db q)
    where
      go :
          (r : Result A) (after : Db)
          → Q after.tables
          → Q (rolled_back db.tables (r, after)).1.tables
      go (ok a) after q' = q'
      go (err x) after q' = q

-- The tables are linked, and hold the report whose parts are inserted.
abbrev Filling : Text → Tables → Type 0
Filling id t = IsLinked t × IsReport id t

module _ (id : Text) where
  Holds-insert_disks : (disks : List DiskInfo) → Holds (Filling id) (insert_disks id disks)
  unfolding insert_disks disk_row
  Holds-insert_disks [] = λ db q. q
  Holds-insert_disks (d ∷ disks) =
      Holds-bind (Filling id) (exec _) (λ _. insert_disks id disks)
        (Holds-write (Filling id) (λ t. record t { disks = t.disks ++ disk_row id d ∷ [] })
          (λ t q. (
            record {
              nets = q.0.nets;
              bios = q.0.bios;
              boards = q.0.boards;
              disks = All-append (λ r. IsReport r.report_id t) t.disks _ q.0.disks (q.1, tt);
            },
            q.1,
          )))
        (λ _. Holds-insert_disks disks)

  Holds-insert_nets : (nets : List NetInfo) → Holds (Filling id) (insert_nets id nets)
  unfolding insert_nets net_row
  Holds-insert_nets [] = λ db q. q
  Holds-insert_nets (n ∷ nets) =
      Holds-bind (Filling id) (exec _) (λ _. insert_nets id nets)
        (Holds-write (Filling id) (λ t. record t { nets = t.nets ++ net_row id n ∷ [] })
          (λ t q. (
            record {
              disks = q.0.disks;
              bios = q.0.bios;
              boards = q.0.boards;
              nets = All-append (λ r. IsReport r.report_id t) t.nets _ q.0.nets (q.1, tt);
            },
            q.1,
          )))
        (λ _. Holds-insert_nets nets)

  Holds-insert_bios : (b : Option BiosInfo) → Holds (Filling id) (insert_bios id b)
  unfolding insert_bios bios_row
  Holds-insert_bios none = λ db q. q
  Holds-insert_bios (some b) =
      Holds-write_unless (Filling id) (λ t. any (has_bios id) t.bios)
        (λ t. record t { bios = t.bios ++ bios_row id b ∷ [] })
        (λ t q. (
          record {
            disks = q.0.disks;
            nets = q.0.nets;
            boards = q.0.boards;
            bios = All-append (λ r. IsReport r.report_id t) t.bios _ q.0.bios (q.1, tt);
          },
          q.1,
        ))

  Holds-insert_motherboard :
      (m : Option MotherboardInfo) → Holds (Filling id) (insert_motherboard id m)
  unfolding insert_motherboard board_row
  Holds-insert_motherboard none = λ db q. q
  Holds-insert_motherboard (some m) =
      Holds-write_unless (Filling id) (λ t. any (has_board id) t.boards)
        (λ t. record t { boards = t.boards ++ board_row id m ∷ [] })
        (λ t q. (
          record {
            disks = q.0.disks;
            nets = q.0.nets;
            bios = q.0.bios;
            boards = All-append (λ r. IsReport r.report_id t) t.boards _ q.0.boards (q.1, tt);
          },
          q.1,
        ))

  Holds-insert_parts : (info : HardwareInfo) → Holds (Filling id) (insert_parts id info)
  unfolding insert_parts
  Holds-insert_parts info = Holds-bind (Filling id) _ _ (Holds-insert_disks info.disks) λ _.
      Holds-bind (Filling id) _ _ (Holds-insert_nets info.nets) λ _.
        Holds-bind (Filling id) _ _ (Holds-insert_bios info.bios)
          λ _. Holds-insert_motherboard info.motherboard

  -- A report that is added makes room for its parts; rows that were linked stay so.
  module _ (dev sid now : Text) (info : HardwareInfo) where
    added : Tables → Tables
    added t = record t { reports = t.reports ++ report_row id dev sid now info ∷ [] }

    added-Filling : (t : Tables) → IsLinked t → Filling id (added t)
    unfolding added
    added-Filling t q = (
      record {
        disks = All-map _ _ t.disks (λ r. more r.report_id) q.disks;
        nets = All-map _ _ t.nets (λ r. more r.report_id) q.nets;
        bios = All-map _ _ t.bios (λ r. more r.report_id) q.bios;
        boards = All-map _ _ t.boards (λ r. more r.report_id) q.boards;
      },
      rw (any-append (has_report id) t.reports (report_row id dev sid now info ∷ []))
          (unfold report_row in ground (arith, text_eq_refl id)),
    )
      where
        more : (j : Text) → IsReport j t → IsReport j (added t)
        more j h =
            rw (any-append (has_report j) t.reports (report_row id dev sid now info ∷ []), h) refl

    after_insert :
        (r : Result Bool) (mid : Db)
        → IsLinked mid.tables
        → (r ≡ ok true → IsReport id mid.tables)
        → IsLinked (continue r (λ a. if a then insert_parts id info else pure tt) mid).1.tables
    after_insert (ok true) mid q h = (Holds-insert_parts info mid (q, h refl)).0
    after_insert (ok false) mid q h = q
    after_insert (err x) mid q h = q

    insert_report_lem :
        (db : Db)
        → IsLinked db.tables
        → IsLinked (insert_report (report_row id dev sid now info) db).1.tables
          × ((insert_report (report_row id dev sid now info) db).0 ≡ ok true
              → IsReport id (insert_report (report_row id dev sid now info) db).1.tables)
    unfolding insert_report exec_affected added
    insert_report_lem db q = elim (Bool-cases (fails db.faults)) [
      | inl down ↦ rw down (q, λ e. cc)
      | inr fine ↦
          elim (Bool-cases
            (any (has_report (report_row id dev sid now info).report_id) db.reports)) [
              | inl old ↦ rw (fine, old) (q, λ e. cc)
              | inr new ↦
                  let filled : Filling id (added db.tables) = added-Filling db.tables q in
                  rw (fine, new) (filled.0, λ e. filled.1)
            ]
    ]

    Holds-insert_all : Holds IsLinked (insert_all id dev sid now info)
    unfolding insert_all ◌>>=◌
    Holds-insert_all db q =
        let first = insert_report_lem db q in
        after_insert _ (insert_report (report_row id dev sid now info) db).1 first.0 first.1

-- An error leaves the tables as they were.
rolled_back-err :
    {A : Type 0} (t : Tables) (r : Result A) (after : Db) (e : Error)
    → (rolled_back t (r, after)).0 ≡ err e
    → (rolled_back t (r, after)).1.tables ≡ t
rolled_back-err t (ok a) after e h = cc
rolled_back-err t (err x) after e h = refl

-- Whatever statements fail, the commit included: no row of a sub-table is without its report after
-- `SaveHardwareReport` if none was before, and where it returns an error no table has changed.
pub save-IsLinked :
    (sid dev now : Text) (report : ReportRequest) (db : Db)
    → (IsLinked db.tables → IsLinked (save_hardware_report sid dev now report db).1.tables)
      × ((e : Error)
          → (save_hardware_report sid dev now report db).0 ≡ err e
          → (save_hardware_report sid dev now report db).1.tables ≡ db.tables)
unfolding save_hardware_report
save-IsLinked sid dev now report db = of_type report.type
  where
    of_type :
        (ty : ReportType)
        → (IsLinked db.tables
            → IsLinked (save_hardware_report sid dev now (record report { type = ty }) db).1.tables)
          × ((e : Error)
              → (save_hardware_report sid dev now (record report { type = ty }) db).0 ≡ err e
              → (save_hardware_report sid dev now (record report { type = ty }) db).1.tables
                ≡ db.tables)
    of_type other = (λ q. q, λ e h. refl)
    of_type (hardware none) = (λ q. q, λ e h. refl)
    of_type (hardware (some info)) = (
      Holds-transaction IsLinked (insert_all report.report_id dev sid now info)
          (Holds-insert_all report.report_id dev sid now info) db,
      unfold transaction in rolled_back-err db.tables _ _,
    )
