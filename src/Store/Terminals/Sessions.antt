-- ===== src/Store/Terminals/Sessions.antt =====
-- What a session's row shows after the writes of terminal.go.
use team_x.Base.{
  ◌≡◌, refl, ap, true, false, inl, inr, Option, none, some, List, [], ◌∷◌, Text, text_eq,
  text_eq_iff, text_eq_refl, if◌then◌else◌, find, any, update_where, Bool-cases, Option-cases,
  find-update_where, find-update_other, find-append, find-append_other, find-none, find-passes,
  find-some,
}
use team_x.Store.Sql.{TerminalRow, Db, IsUp, Result, ok, err, query, exec}
use team_x.Store.Terminals.{
  Terminal, Machine, has_session, null_str, new_row, conflict_row, upsert_rows, upsert_terminal,
  update_heartbeat, mark_offline, scan_row, scan_terminal, get_terminal,
}

-- What a registration leaves visible of a session that had no row, and of one that had.
abbrev pub registered : Text → Machine → Text → Option TerminalRow → Terminal
registered sid m now old = record {
  session_id = sid;
  device_id = m.device_id;
  hostname = m.hostname;
  os = m.os;
  os_version = m.os_version;
  kernel_version = m.kernel_version;
  client_version = m.client_version;
  online = elim old [ none ↦ false | some r ↦ r.online ];
  blocked = elim old [ none ↦ false | some r ↦ r.blocked ];
  last_heartbeat = elim old [ none ↦ [] | some r ↦ null_str r.last_heartbeat ];
  last_seen_at = now;
  first_seen_at = elim old [ none ↦ now | some r ↦ r.first_seen_at ];
}

-- The session that is written, where it has a row, and where it has none.
upsert_self_old :
    (sid : Text) (m : Machine) (now : Text) (rows : List TerminalRow) (r : TerminalRow)
    → any (has_session sid) rows ≡ true
    → find (has_session sid) rows ≡ some r
    → scan_terminal (find (has_session sid) (upsert_rows sid m now rows))
      ≡ ok (registered sid m now (some r))
unfolding upsert_rows scan_terminal scan_row conflict_row
upsert_self_old sid m now rows r h found =
    let passes : has_session sid r ≡ true = find-passes (has_session sid) rows r found in
    rw
      (
        h,
        find-update_where (has_session sid) (has_session sid) (conflict_row m now) rows (λ x. refl),
        found,
        passes,
      )
      (cc ((text_eq_iff r.session_id sid).0 passes))

upsert_self_new :
    (sid : Text) (m : Machine) (now : Text) (rows : List TerminalRow)
    → any (has_session sid) rows ≡ false
    → scan_terminal (find (has_session sid) (upsert_rows sid m now rows))
      ≡ ok (registered sid m now none)
unfolding upsert_rows scan_terminal scan_row new_row
upsert_self_new sid m now rows h =
    rw (h, find-append (has_session sid) rows (new_row sid m now ∷ []) h, text_eq_refl sid) refl

upsert_self :
    (sid : Text) (m : Machine) (now : Text) (rows : List TerminalRow)
    → scan_terminal (find (has_session sid) (upsert_rows sid m now rows))
      ≡ ok (registered sid m now (find (has_session sid) rows))
upsert_self sid m now rows = elim (Bool-cases (any (has_session sid) rows)) [
  | inl old ↦
      let (r, found) = find-some (has_session sid) rows old in
      rw found (upsert_self_old sid m now rows r old found)
  | inr new ↦ rw (find-none (has_session sid) rows new) (upsert_self_new sid m now rows new)
]

has_session-disjoint :
    (sid j : Text) (r : TerminalRow)
    → text_eq sid j ≡ false
    → has_session sid r ≡ true
    → has_session j r ≡ false
has_session-disjoint sid j r ne h = rw ((text_eq_iff r.session_id sid).0 h) ne

-- Another session's row is found as before.
upsert_other :
    (sid j : Text) (m : Machine) (now : Text) (rows : List TerminalRow)
    → text_eq sid j ≡ false
    → find (has_session j) (upsert_rows sid m now rows) ≡ find (has_session j) rows
unfolding upsert_rows new_row conflict_row
upsert_other sid j m now rows ne = elim (Bool-cases (any (has_session sid) rows)) [
  | inl old ↦ rw old (
      find-update_other (has_session j) (has_session sid) (conflict_row m now) rows (λ x. refl)
        (λ x. has_session-disjoint sid j x ne))
  | inr new ↦ rw new (find-append_other (has_session j) rows (new_row sid m now) ne)
]

-- On an engine that does not fail, a session that was just registered shows the machine that
-- registered it and the time as last seen; a new session is offline and not blocked, first seen
-- now, and an old one keeps those fields and its heartbeat. Every other session shows what it did.
pub get-upsert_terminal :
    (sid j : Text) (m : Machine) (now : Text) (db : Db)
    → IsUp db
    → (get_terminal j (upsert_terminal sid m now db).1).0 ≡ (
        if text_eq sid j
        then ok (registered sid m now (find (has_session sid) db.terminals))
        else (get_terminal j db).0)
unfolding get_terminal upsert_terminal query exec
get-upsert_terminal sid j m now db up = elim (Bool-cases (text_eq sid j)) [
  | inl same ↦ rw (up, same, ← (text_eq_iff sid j).0 same) (upsert_self sid m now db.terminals)
  | inr other ↦ rw (up, other, upsert_other sid j m now db.terminals other) refl
]

-- A result with its row changed; an error stays.
abbrev pub changed : (Terminal → Terminal) → Result Terminal → Result Terminal
changed f (ok t) = ok (f t)
changed f (err e) = err e

-- A write to one session's row, as `GetTerminal` sees it.
find-write :
    (sid j : Text) (f : TerminalRow → TerminalRow) (g : Terminal → Terminal)
    (rows : List TerminalRow)
    → ((r : TerminalRow) → (f r).session_id ≡ r.session_id)
    → ((r : TerminalRow) → scan_row (f r) ≡ g (scan_row r))
    → scan_terminal (find (has_session j) (update_where (has_session sid) f rows)) ≡ (
        if text_eq sid j
        then changed g (scan_terminal (find (has_session j) rows))
        else scan_terminal (find (has_session j) rows))
unfolding scan_terminal
find-write sid j f g rows keeps shows = elim (Bool-cases (text_eq sid j)) [
  | inr other ↦
      rw
        (
          other,
          find-update_other (has_session j) (has_session sid) f rows
              (λ r. ap (λ s. text_eq s j) (keeps r)) (λ r. has_session-disjoint sid j r other),
        )
        refl
  | inl same ↦
      rw
        (
          same,
          ← (text_eq_iff sid j).0 same,
          find-update_where (has_session sid) (has_session sid) f rows
              (λ r. ap (λ s. text_eq s sid) (keeps r)),
        )
        (elim (Option-cases (find (has_session sid) rows)) [
          | inl missing ↦ rw missing refl
          | inr (r, found) ↦
              rw (found, find-passes (has_session sid) rows r found) (ap ok (shows r))
        ])
]

-- On an engine that does not fail, a heartbeat shows its session online with the heartbeat's time,
-- and marking it offline shows it offline; each leaves its other fields and every other session as
-- they were, and neither brings a session into being.
pub get-update_heartbeat :
    (sid j : Text) (now : Text) (db : Db)
    → IsUp db
    → ((get_terminal j (update_heartbeat sid now db).1).0 ≡ (
        if text_eq sid j
        then changed (λ t. record t { online = true; last_heartbeat = now }) (get_terminal j db).0
        else (get_terminal j db).0))
      × ((get_terminal j (mark_offline sid db).1).0 ≡ (
          if text_eq sid j
          then changed (λ t. record t { online = false }) (get_terminal j db).0
          else (get_terminal j db).0))
unfolding get_terminal update_heartbeat mark_offline query exec
get-update_heartbeat sid j now db up = (
  rw up (
      find-write sid j (λ r. record r { last_heartbeat = some now; online = true })
        (λ t. record t { online = true; last_heartbeat = now }) db.terminals (λ r. refl)
        (λ r. unfold scan_row in refl)),
  rw up (
      find-write sid j (λ r. record r { online = false }) (λ t. record t { online = false })
        db.terminals (λ r. refl) (λ r. unfold scan_row in refl)),
)
