-- ===== src/EndToEnd/Effects.antt =====
-- What saving a hardware report leaves alone: the table of commands, on an engine that does not fail.
use team_x.Base.{
  ◌≡◌, refl, ◌∙◌, Bool, true, false, Option, none, some, List, [], ◌∷◌, arith, Text, if◌then◌else◌,
  Option-cases, inl, inr,
}
use team_x.Proto.Messages.{
  DiskInfo, NetInfo, BiosInfo, MotherboardInfo, HardwareInfo, ReportRequest, ReportType, hardware,
  other,
}
use team_x.Store.Sql.{
  Tables, Db, IsUp, continue, rolled_back, Result, ok, err, Sql, ◌>>=◌, pure, query, exec,
  exec_affected, transaction,
}
use team_x.Store.Hardware.{
  insert_report, report_row, insert_disks, insert_nets, insert_bios, insert_motherboard,
  insert_parts, insert_all, save_hardware_report,
}

abbrev pub Keeps : {A : Type 0} → Sql A → Type 0
Keeps m = (db : Db) → IsUp db → IsUp (m db).1 × ((m db).1.commands ≡ db.commands)

module _ {A B : Type 0} where
  Keeps-bind : (m : Sql A) (f : A → Sql B) → Keeps m → ((a : A) → Keeps (f a)) → Keeps (m >>= f)
  unfolding ◌>>=◌
  Keeps-bind m f k l db up = go (m db).0 (m db).1 (k db up).0 (k db up).1
    where
      go :
          (r : Result A) (mid : Db)
          → IsUp mid
          → mid.commands ≡ db.commands
          → IsUp (continue r f mid).1 × ((continue r f mid).1.commands ≡ db.commands)
      go (ok a) mid up' e = ((l a mid up').0, (l a mid up').1 ∙ e)
      go (err x) mid up' e = (up', e)

Keeps-query : {A : Type 0} (q : Tables → Result A) → Keeps (query q)
unfolding query
Keeps-query q db up = rw up (refl, refl)

module _ {A : Type 0} where
  Keeps-rolled_back :
      (db : Db) (r : Result A) (after : Db)
      → IsUp after
      → after.commands ≡ db.commands
      → IsUp (rolled_back db.tables (r, after)).1
        × ((rolled_back db.tables (r, after)).1.commands ≡ db.commands)
  Keeps-rolled_back db (ok a) after up e = (up, e)
  Keeps-rolled_back db (err x) after up e = (up, refl)

  Keeps-transaction : (body : Sql A) → Keeps body → Keeps (transaction body)
  unfolding transaction
  Keeps-transaction body k db up =
      let inner =
        Keeps-bind (query (λ t. ok tt)) (λ _. body >>= λ a. query (λ t. ok a))
          (Keeps-query (λ t. ok tt))
          (λ _. Keeps-bind body (λ a. query (λ t. ok a)) k (λ a. Keeps-query (λ t. ok a))) db up in
      Keeps-rolled_back db _ _ inner.0 inner.1

Keeps-exec :
    (write : Tables → Option Tables)
    → ((t u : Tables) → write t ≡ some u → u.commands ≡ t.commands)
    → Keeps (exec write)
unfolding exec
Keeps-exec write same db up = elim (Option-cases (write db.tables)) [
  | inl e ↦ rw (up, e) (rw up refl, refl)
  | inr (u, e) ↦ rw (up, e) (rw up refl, same db.tables u e)
]

Keeps-exec_affected :
    (write : Tables → Tables × Bool)
    → ((t : Tables) → (write t).0.commands ≡ t.commands)
    → Keeps (exec_affected write)
unfolding exec_affected
Keeps-exec_affected write same db up = rw up (refl, same db.tables)

Keeps-pure : {A : Type 0} (a : A) → Keeps (pure a)
Keeps-pure a db up = (up, refl)

Keeps-insert_disks : (id : Text) (disks : List DiskInfo) → Keeps (insert_disks id disks)
unfolding insert_disks
Keeps-insert_disks id [] = Keeps-pure tt
Keeps-insert_disks id (d ∷ disks) =
    Keeps-bind (exec _) (λ _. insert_disks id disks) (Keeps-exec _ (λ t u e. cc))
      (λ _. Keeps-insert_disks id disks)

Keeps-insert_nets : (id : Text) (nets : List NetInfo) → Keeps (insert_nets id nets)
unfolding insert_nets
Keeps-insert_nets id [] = Keeps-pure tt
Keeps-insert_nets id (n ∷ nets) =
    Keeps-bind (exec _) (λ _. insert_nets id nets) (Keeps-exec _ (λ t u e. cc))
      (λ _. Keeps-insert_nets id nets)

Keeps-insert_bios : (id : Text) (b : Option BiosInfo) → Keeps (insert_bios id b)
unfolding insert_bios
Keeps-insert_bios id none = Keeps-pure tt
Keeps-insert_bios id (some b) = Keeps-exec _ (λ t u e. ground arith)

Keeps-insert_motherboard :
    (id : Text) (m : Option MotherboardInfo) → Keeps (insert_motherboard id m)
unfolding insert_motherboard
Keeps-insert_motherboard id none = Keeps-pure tt
Keeps-insert_motherboard id (some m) = Keeps-exec _ (λ t u e. ground arith)

Keeps-insert_parts : (id : Text) (info : HardwareInfo) → Keeps (insert_parts id info)
unfolding insert_parts
Keeps-insert_parts id info = Keeps-bind _ _ (Keeps-insert_disks id info.disks) λ _.
    Keeps-bind _ _ (Keeps-insert_nets id info.nets) λ _.
      Keeps-bind _ _ (Keeps-insert_bios id info.bios)
        λ _. Keeps-insert_motherboard id info.motherboard

Keeps-insert_all :
    (id dev sid now : Text) (info : HardwareInfo) → Keeps (insert_all id dev sid now info)
unfolding insert_all insert_report
Keeps-insert_all id dev sid now info =
    Keeps-bind (insert_report (report_row id dev sid now info))
      (λ added. if added then insert_parts id info else pure tt)
      (Keeps-exec_affected _ (λ t. ground arith)) after
  where
    after : (added : Bool) → Keeps (if added then insert_parts id info else pure tt)
    after true = Keeps-insert_parts id info
    after false = Keeps-pure tt

pub Keeps-save_hardware_report :
    (sid dev now : Text) (r : ReportRequest) → Keeps (save_hardware_report sid dev now r)
unfolding save_hardware_report
Keeps-save_hardware_report sid dev now r = of_type r.type
  where
    of_type : (t : ReportType) → Keeps (save_hardware_report sid dev now (record r { type = t }))
    of_type other = λ db up. (up, refl)
    of_type (hardware none) = λ db up. (up, refl)
    of_type (hardware (some info)) =
        Keeps-transaction _ (Keeps-insert_all r.report_id dev sid now info)
