-- ===== src/Store/Terminals/Blocklist.antt =====
-- The blocklist: `MarkBlocked`, `UnblockTerminal`, `IsDeviceBlocked` and `UpsertTerminal`.
use team_x.Base.{
  ◌≡◌, Bool, true, false, ◌&&◌, List, [], ◌∷◌, arith, Text, text_eq, text_eq_iff, if◌then◌else◌,
  any, update_where, length-where-pos,
}
use team_x.Store.Sql.{TerminalRow, Db, IsUp, ok, query, exec}
use team_x.Store.Terminals.{
  has_device, device_blocked, mark_blocked, unblock_terminal, is_device_blocked,
}

abbrev pub is_blocked_row : Text → TerminalRow → Bool
is_blocked_row dev r = has_device dev r && r.blocked

pub device_blocked-any :
    (dev : Text) (rows : List TerminalRow) → device_blocked dev rows ≡ any (is_blocked_row dev) rows
unfolding device_blocked
device_blocked-any dev rows = length-where-pos (is_blocked_row dev) rows

any-mark :
    (d e : Text) (rows : List TerminalRow)
    → any (is_blocked_row e) (update_where (has_device d) (λ r. record r { blocked = true }) rows)
      ≡ (if text_eq d e then any (has_device e) rows else any (is_blocked_row e) rows)
any-mark d e [] = ground arith
any-mark d e (r ∷ rows) = ground (
  arith,
  any-mark d e rows,
  text_eq_iff d e,
  text_eq_iff r.device_id d,
  text_eq_iff r.device_id e,
)

any-unblock :
    (d e : Text) (rows : List TerminalRow)
    → any (is_blocked_row e) (update_where (has_device d) (λ r. record r { blocked = false }) rows)
      ≡ (if text_eq d e then false else any (is_blocked_row e) rows)
any-unblock d e [] = ground arith
any-unblock d e (r ∷ rows) = ground (
  arith,
  any-unblock d e rows,
  text_eq_iff d e,
  text_eq_iff r.device_id d,
  text_eq_iff r.device_id e,
)

-- On an engine that does not fail: after `MarkBlocked`, a device counts as blocked exactly if it is
-- that device and has a session in the table, or is another one that was blocked before; after
-- `UnblockTerminal` the device is not blocked, and the others are as before. In particular the
-- block of a device that never registered is not kept.
pub is_device_blocked-mark_blocked :
    (d e : Text) (db : Db)
    → IsUp db
    → ((is_device_blocked e (mark_blocked d db).1).0 ≡ (
        if text_eq d e then ok (any (has_device e) db.terminals) else (is_device_blocked e db).0))
      × ((is_device_blocked e (unblock_terminal d db).1).0
          ≡ (if text_eq d e then ok false else (is_device_blocked e db).0))
unfolding is_device_blocked mark_blocked unblock_terminal query exec
is_device_blocked-mark_blocked d e db up = (
  rw up (simp (device_blocked-any, any-mark) (ground arith)),
  rw up (simp (device_blocked-any, any-unblock) (ground arith)),
)
