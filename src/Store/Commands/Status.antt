-- ===== src/Store/Commands/Status.antt =====
-- The life of one command's row under the writes of command.go.
use team_x.Base.{
  ◌≡◌, refl, ap, Bool, true, false, ◌&&◌, ◌||◌, not, codes, inl, inr, Option, none, some, List, [],
  ◌∷◌, ◌++◌, arith, Text, text_eq, text_eq_iff, text_eq_refl, if◌then◌else◌, find, any,
  update_where, Bool-cases, Option-cases, find-update_where, find-update_other, find-append,
  find-append_other, find-passes,
}
use team_x.Proto.Types.{CommandType, command_type_name}
use team_x.Store.Json.Map.{Entries, marshal_json_map}
use team_x.Store.Sql.{CommandRow, Db, IsUp, ok, err, failed, exec}
use team_x.Store.Commands.{
  has_command, is_open, or_null, new_command, save_command_log, Outcome, with_outcome,
  update_command_result, update_command_status, time_out, mark_command_timeout,
}

-- The row of a command.
abbrev pub command_row : Text → Db → Option CommandRow
command_row id db = find (has_command id) db.commands

abbrev pub on_row : (CommandRow → CommandRow) → Option CommandRow → Option CommandRow
on_row f none = none
on_row f (some r) = some (f r)

has_command-disjoint :
    (id j : Text) (r : CommandRow)
    → text_eq id j ≡ false
    → has_command id r ≡ true
    → has_command j r ≡ false
has_command-disjoint id j r ne h = rw ((text_eq_iff r.command_id id).0 h) ne

-- A write to the rows of one command that pass a further test.
find-write :
    (id j : Text) (p : CommandRow → Bool) (f : CommandRow → CommandRow) (rows : List CommandRow)
    → ((r : CommandRow) → (f r).command_id ≡ r.command_id)
    → find (has_command j) (update_where (λ r. has_command id r && p r) f rows) ≡ (
        if text_eq id j
        then on_row (λ r. if p r then f r else r) (find (has_command j) rows)
        else find (has_command j) rows)
find-write id j p f rows keeps = elim (Bool-cases (text_eq id j)) [
  | inr other ↦
      rw
        (
          other,
          find-update_other (has_command j) (λ r. has_command id r && p r) f rows
              (λ r. ap (λ s. text_eq s j) (keeps r))
              (λ r h. has_command-disjoint id j r other (ground arith)),
        )
        refl
  | inl same ↦
      rw
        (
          same,
          ← (text_eq_iff id j).0 same,
          find-update_where (has_command id) (λ r. has_command id r && p r) f rows
              (λ r. ap (λ s. text_eq s id) (keeps r)),
        )
        (elim (Option-cases (find (has_command id) rows)) [
          | inl missing ↦ rw missing refl
          | inr (r, found) ↦ rw (found, find-passes (has_command id) rows r found) refl
        ])
]

update_where-all :
    (p : CommandRow → Bool) (f : CommandRow → CommandRow) (rows : List CommandRow)
    → update_where p f rows ≡ update_where (λ r. p r && true) f rows
update_where-all p f [] = refl
update_where-all p f (r ∷ rows) = ground (arith, update_where-all p f rows)

-- On an engine that does not fail, the timeout of a command makes its row one of status Timeout, with
-- a message and the time it finished, exactly if its status is Pending, Sent or Executing; a row in any other status, and every other row, stays as it is.
pub row-mark_command_timeout :
    (id j now : Text) (db : Db)
    → IsUp db
    → command_row j (mark_command_timeout id now db).1 ≡ (
        if text_eq id j
        then on_row
            (λ r.
              if text_eq r.status (codes "Pending")
                || text_eq r.status (codes "Sent")
                || text_eq r.status (codes "Executing")
              then record r {
                status = codes "Timeout";
                error_message = codes "command timed out";
                finished_at = some now;
              }
              else r)
            (command_row j db)
        else command_row j db)
unfolding mark_command_timeout exec is_open time_out
row-mark_command_timeout id j now db up =
    rw up (find-write id j (λ r. is_open r.status) (time_out now) db.commands (λ r. refl))

-- On an engine that does not fail, a result puts its status, exit code, outputs, message and times
-- (an empty one as NULL) into the row of its command, and a new status its status alone, whatever the
-- status was, also a final one; no other row changes.
pub row-update_command_result :
    (id j : Text) (o : Outcome) (status : Text) (db : Db)
    → IsUp db
    → (command_row j (update_command_result id o db).1 ≡ (
        if text_eq id j
        then on_row
            (λ r. record r {
              status = o.status;
              exit_code = some o.exit_code;
              stdout = o.stdout;
              stderr = o.stderr;
              error_message = o.error_message;
              started_at = or_null o.started_at;
              finished_at = or_null o.finished_at;
            })
            (command_row j db)
        else command_row j db))
      × (command_row j (update_command_status id status db).1 ≡ (
          if text_eq id j
          then on_row (λ r. record r { status = status }) (command_row j db)
          else command_row j db))
unfolding update_command_result update_command_status exec with_outcome
row-update_command_result id j o status db up = (
  rw (up, update_where-all (has_command id) (with_outcome o) db.commands)
      (find-write id j (λ r. true) (with_outcome o) db.commands (λ r. refl)),
  rw (up, update_where-all (has_command id) (λ r. record r { status = status }) db.commands)
      (find-write id j (λ r. true) (λ r. record r { status = status }) db.commands (λ r. refl)),
)

find-insert :
    (id j : Text) (row : CommandRow) (rows : List CommandRow)
    → row.command_id ≡ id
    → any (has_command id) rows ≡ false
    → find (has_command j) (rows ++ row ∷ [])
      ≡ (if text_eq id j then some row else find (has_command j) rows)
find-insert id j row rows e free = elim (Bool-cases (text_eq id j)) [
  | inl same ↦
      rw (same, ← (text_eq_iff id j).0 same, find-append (has_command id) rows (row ∷ []) free)
        (rw (e, text_eq_refl id) refl)
  | inr other ↦ rw (other, find-append_other (has_command j) rows row (rw e other)) refl
]

-- On an engine that does not fail, a new command is saved as Pending, with its
-- type and parameters as they are written, with no result, and leaves the other rows; a
-- command identifier that is taken is refused, and no row changes.
pub row-save_command_log :
    (id j sid dev : Text) (ty : CommandType) (params : Entries) (now : Text) (db : Db)
    → IsUp db
    → ((save_command_log id sid dev ty params now db).0
        ≡ (if any (has_command id) db.commands then err failed else ok tt))
      × (command_row j (save_command_log id sid dev ty params now db).1 ≡ (
          if text_eq id j && not (any (has_command id) db.commands)
          then some (record {
            command_id = id;
            session_id = sid;
            type_name = command_type_name ty;
            params = marshal_json_map params;
            status = codes "Pending";
            exit_code = none;
            stdout = [];
            stderr = [];
            error_message = [];
            created_at = now;
            started_at = none;
            finished_at = none;
          })
          else command_row j db))
unfolding save_command_log exec new_command
row-save_command_log id j sid dev ty params now db up =
    elim (Bool-cases (any (has_command id) db.commands)) [
      | inl taken ↦ (rw (up, taken) refl, rw (up, taken) (ground arith))
      | inr free ↦ (
        rw (up, free) refl,
        rw (up, free, find-insert id j (new_command id sid ty params now) db.commands refl free)
            (ground arith),
      )
    ]
