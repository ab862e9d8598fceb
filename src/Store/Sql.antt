-- ===== src/Store/Sql.antt =====
-- The database behind `sqliteStore` (store.go, schema.go): its tables, and statements that may fail.
-- The engine is SQLite, which is not part of the repository. A statement is read as SQLite
-- documents it; whether the engine fails is `faults`, one entry for each statement that is sent.
use team_x.Base.{ap, ◌≡◌, Bool, false, Option, none, some, List, [], ◌∷◌, Text, if◌then◌else◌, ℤ}

-- A row of `terminals`; `online` and `blocked` are only ever set to 0 and 1.
pub record TerminalRow : Type 0 where
  pub session_id : Text
  pub device_id : Text
  pub hostname : Text
  pub os : Text
  pub os_version : Text
  pub kernel_version : Text
  pub client_version : Text
  pub mac_addrs : Text
  pub ip_addrs : Text
  pub first_seen_at : Text
  pub last_seen_at : Text
  pub last_heartbeat : Option Text
  pub online : Bool
  pub blocked : Bool

-- A row of `command_logs`.
pub record CommandRow : Type 0 where
  pub command_id : Text
  pub session_id : Text
  pub type_name : Text
  pub params : Text
  pub status : Text
  pub exit_code : Option ℤ
  pub stdout : Text
  pub stderr : Text
  pub error_message : Text
  pub created_at : Text
  pub started_at : Option Text
  pub finished_at : Option Text

-- A row of `hardware_reports`; the byte counts are signed 64-bit columns.
pub record ReportRow : Type 0 where
  pub report_id : Text
  pub device_id : Text
  pub session_id : Text
  pub created_at : Text
  pub cpu_model : Text
  pub cpu_cores : ℤ
  pub cpu_threads : ℤ
  pub cpu_arch : Text
  pub mem_total_bytes : ℤ
  pub mem_avail_bytes : ℤ
  pub mem_used_bytes : ℤ

pub record DiskRow : Type 0 where
  pub report_id : Text
  pub device : Text
  pub mount_point : Text
  pub fs_type : Text
  pub total_bytes : ℤ
  pub used_bytes : ℤ
  pub free_bytes : ℤ

pub record NetRow : Type 0 where
  pub report_id : Text
  pub name : Text
  pub mac_addr : Text
  pub ip_addrs : Text
  pub is_loopback : Bool

pub record BiosRow : Type 0 where
  pub report_id : Text
  pub vendor : Text
  pub version : Text
  pub release_date : Text

pub record BoardRow : Type 0 where
  pub report_id : Text
  pub manufacturer : Text
  pub product : Text
  pub serial : Text

pub record Tables : Type 0 where
  pub terminals : List TerminalRow
  pub commands : List CommandRow
  pub reports : List ReportRow
  pub disks : List DiskRow
  pub nets : List NetRow
  pub bios : List BiosRow
  pub boards : List BoardRow

pub record Db : Type 0 where
  pub tables : Tables
  pub open tables use *
  pub faults : List Bool

-- `sql.ErrNoRows`, a failing statement, and a report with no hardware in it.
pub data Error : Type 0 where
  no_rows failed no_payload : Error

pub data Result {ℓ} (A : Type ℓ) : Type ℓ where
  ok : A → Result A
  err : Error → Result A

abbrev pub Sql : Type 0 → Type 0
Sql A = Db → Result A × Db

module _ {A B : Type 0} where
  abbrev pub continue : Result A → (A → Sql B) → Sql B
  continue (ok a) f db = f a db
  continue (err e) f db = (err e, db)

  infixl 5 ◌>>=◌
  unfoldable pub ◌>>=◌ : Sql A → (A → Sql B) → Sql B
  ◌>>=◌ m f db = continue (m db).0 f (m db).1

module _ {A B : Type 0} where
  -- A chain after a step that is known to go well.
  pub bind-ok :
      (m : Sql A) (f : A → Sql B) (db mid : Db) (a : A)
      → m db ≡ (ok a, mid)
      → (m >>= f) db ≡ f a mid
  unfolding ◌>>=◌
  bind-ok m f db mid a e = ap (λ r. continue r.0 f r.1) e

infixl 5 ◌>>◌
abbrev pub ◌>>◌ : {B : Type 0} → Sql (Unit {0}) → Sql B → Sql B
m >> k = m >>= λ _. k

abbrev pub pure : {A : Type 0} → A → Sql A
pure a db = (ok a, db)

abbrev pub fails : List Bool → Bool
fails [] = false
fails (f ∷ fs) = f

abbrev pub later : List Bool → List Bool
later [] = []
later (f ∷ fs) = fs

-- One statement that only reads.
unfoldable pub query : {A : Type 0} → (Tables → Result A) → Sql A
query q db =
    (if fails db.faults then err failed else q db.tables, record db { faults = later db.faults })

-- One statement that writes; `none` is a violated constraint. A failed statement writes nothing.
unfoldable pub exec : (Tables → Option Tables) → Sql (Unit {0})
exec write db =
    if fails db.faults
    then (err failed, record db { faults = later db.faults })
    else elim (write db.tables) [
      | none ↦ (err failed, record db { faults = later db.faults })
      | some t ↦ (ok tt, record { tables = t; faults = later db.faults })
    ]

-- The engine does not fail.
abbrev pub IsUp : Db → Type 0
IsUp db = db.faults ≡ []

-- `INSERT OR IGNORE`: the tables after it and whether a row was added (`RowsAffected`).
unfoldable pub exec_affected : (Tables → Tables × Bool) → Sql Bool
exec_affected write db =
    if fails db.faults
    then (err failed, record db { faults = later db.faults })
    else (ok (write db.tables).1, record { tables = (write db.tables).0; faults = later db.faults })

-- A query whose error is swallowed: the caller goes on with a default.
unfoldable pub query_or : {A : Type 0} → A → (Tables → Option A) → Sql A
query_or d q db = (
  if fails db.faults then ok d else elim (q db.tables) [ none ↦ ok d | some a ↦ ok a ],
  record db { faults = later db.faults },
)

abbrev pub rolled_back : {A : Type 0} → Tables → Result A × Db → Result A × Db
rolled_back t (ok a, db) = (ok a, db)
rolled_back t (err e, db) = (err e, record db { tables = t })

-- `Begin`, the statements, `Commit`, and the deferred `Rollback`, which undoes the writes of a
-- transaction that did not commit.
unfoldable pub transaction : {A : Type 0} → Sql A → Sql A
transaction body db =
    rolled_back db.tables ((do query (λ t. ok tt); a ← body; query (λ t. ok a)) db)
