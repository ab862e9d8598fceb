-- ===== src/Server/Heartbeats.antt =====
-- `HeartbeatChecker`, and the two places that keep whether a session is online.
use team_x.Base.{
  ℕ, ◌-◌, ltb, ◌&&◌, map, where_, ◌≡◌, refl, ap, ◌∙◌, Bool, true, false, ◌||◌, Option, none, some,
  List, [], ◌∷◌, arith, Text, text_eq, text_eq_iff, if◌then◌else◌, find, any, update_where,
  after_update, find-update_where,
}
use team_x.Store.Sql.{TerminalRow, IsUp, exec}
use team_x.Store.Terminals.{has_session, mark_offline}
use team_x.Server.Connection.{
  ClientConn, ConnectionManager, is_session, get, is_stale, check_heartbeats, newly_offline,
}
use team_x.Server.Service.{Server, run_db}
use team_x.Server.Steps.{tick, mark_all_offline}

abbrev pub offline_conn : ClientConn → ClientConn
offline_conn c = record c { online = false }

abbrev pub aged : ℕ → ℕ → Option ClientConn → Option ClientConn
aged now timeout none = none
aged now timeout (some c) =
    some
      (if c.online && ltb timeout (now - c.last_heartbeat) then record c { online = false } else c)

get-check_heartbeats :
    (sid : Text) (now timeout : ℕ) (cm : ConnectionManager)
    → get sid (check_heartbeats now timeout cm) ≡ aged now timeout (get sid cm)
unfolding get check_heartbeats
get-check_heartbeats sid now timeout cm =
    find-update_where (is_session sid) (is_stale now timeout) offline_conn cm.sessions (λ c. refl)
    ∙ shape (find (is_session sid) cm.sessions)
  where
    shape :
        (o : Option ClientConn)
        → after_update (is_stale now timeout) offline_conn o ≡ aged now timeout o
    shape none = refl
    shape (some c) = refl

cm-mark_all_offline : (sids : List Text) (s : Server) → (mark_all_offline sids s).cm ≡ s.cm
unfolding mark_all_offline
cm-mark_all_offline [] s = refl
cm-mark_all_offline (sid ∷ sids) s = cm-mark_all_offline sids (run_db (mark_offline sid) s)

abbrev pub names : Text → List Text → Bool
names sid sids = any (λ t. text_eq t sid) sids

-- A row that the store shows after the sessions `sids` were marked offline.
abbrev pub set_offline : Bool → Option TerminalRow → Option TerminalRow
set_offline b none = none
set_offline b (some r) = some (record r { online = if b then false else r.online })

find-mark_one :
    (sid j : Text) (rows : List TerminalRow)
    → find (has_session j) (update_where (has_session sid) (λ r. record r { online = false }) rows)
      ≡ set_offline (text_eq sid j) (find (has_session j) rows)
find-mark_one sid j [] = refl
find-mark_one sid j (r ∷ rows) = ground (
  arith,
  find-mark_one sid j rows,
  text_eq_iff sid j,
  text_eq_iff r.session_id sid,
  text_eq_iff r.session_id j,
)

set_offline-twice :
    (a b : Bool) (o : Option TerminalRow) → set_offline b (set_offline a o) ≡ set_offline (a || b) o
set_offline-twice a b none = refl
set_offline-twice true true (some r) = refl
set_offline-twice true false (some r) = refl
set_offline-twice false b (some r) = refl

module _ (sid : Text) (s : Server) (up : IsUp s.db) where
  mark_offline-IsUp : IsUp (run_db (mark_offline sid) s).db
  unfolding mark_offline exec
  mark_offline-IsUp = rw up refl

  terminals-mark_offline :
      (run_db (mark_offline sid) s).db.terminals
      ≡ update_where (has_session sid) (λ r. record r { online = false }) s.db.terminals
  unfolding mark_offline exec
  terminals-mark_offline = rw up refl

find-mark_all_offline :
    (j : Text) (sids : List Text) (s : Server)
    → IsUp s.db
    → find (has_session j) (mark_all_offline sids s).db.terminals
      ≡ set_offline (names j sids) (find (has_session j) s.db.terminals)
unfolding mark_all_offline
find-mark_all_offline j [] s up = same (find (has_session j) s.db.terminals)
  where
    same : (o : Option TerminalRow) → o ≡ set_offline false o
    same none = refl
    same (some r) = refl
find-mark_all_offline j (sid ∷ sids) s up =
    find-mark_all_offline j sids (run_db (mark_offline sid) s) (mark_offline-IsUp sid s up)
    ∙ ap (λ rows. set_offline (names j sids) (find (has_session j) rows))
        (terminals-mark_offline sid s up)
    ∙ ap (set_offline (names j sids)) (find-mark_one sid j s.db.terminals)
    ∙ set_offline-twice (text_eq sid j) (names j sids) (find (has_session j) s.db.terminals)

-- A session with this identifier is online, and its last heartbeat is older than the timeout.
abbrev pub goes_offline : Text → ℕ → ℕ → List ClientConn → Bool
goes_offline sid now timeout cs =
    any (λ c. text_eq c.session_id sid && (c.online && ltb timeout (now - c.last_heartbeat))) cs

names-newly_offline :
    (sid : Text) (now timeout : ℕ) (cs : List ClientConn)
    → names sid (map (λ c. c.session_id) (where_ (is_stale now timeout) cs))
      ≡ goes_offline sid now timeout cs
names-newly_offline sid now timeout [] = refl
names-newly_offline sid now timeout (c ∷ cs) =
    ground (arith, names-newly_offline sid now timeout cs)

-- After a tick of the checker, a session is offline if it was, or if its last heartbeat is older
-- than the timeout, and is otherwise as it was. On an engine that does not fail, the store shows
-- offline exactly the sessions that were online in the registry with a last heartbeat older than the
-- timeout, beside those that it showed so before.
pub tick_lem :
    (sid : Text) (now timeout : ℕ) (s : Server)
    → (get sid (tick now timeout s).cm ≡ aged now timeout (get sid s.cm))
      × (IsUp s.db
          → find (has_session sid) (tick now timeout s).db.terminals
            ≡ set_offline
                (goes_offline sid now timeout s.cm.sessions)
                (find (has_session sid) s.db.terminals))
unfolding tick
tick_lem sid now timeout s = (
  ap (get sid) (cm-mark_all_offline (newly_offline now timeout s.cm) _)
      ∙ get-check_heartbeats sid now timeout s.cm,
  λ up.
      find-mark_all_offline sid (newly_offline now timeout s.cm)
        (record s { cm = check_heartbeats now timeout s.cm }) up
      ∙ ap (λ b. set_offline b (find (has_session sid) s.db.terminals))
          (unfold newly_offline in names-newly_offline sid now timeout s.cm.sessions),
)
