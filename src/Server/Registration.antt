-- ===== src/Server/Registration.antt =====
-- `Register`, alone and after `BlockTerminal`.
use team_x.Base.{
  ap, find, ℕ, ◌≡◌, refl, ◌∙◌, Bool, true, false, ◌⊎◌, inl, inr, none, some, [], ◌∷◌, Text, codes,
  text_eq_refl, if◌then◌else◌, any, Bool-cases, find-append, any-find-none, length-update_where,
}
use team_x.Proto.Messages.{HandshakeRequest, reply}
use team_x.Store.Sql.{ok, IsUp, exec, query}
use team_x.Store.Terminals.Sessions.{registered, get-upsert_terminal}
use team_x.Store.Terminals.{
  has_session, get_terminal, has_device, device_blocked, is_device_blocked, mark_blocked,
  upsert_terminal,
}
use team_x.Store.Terminals.Blocklist.{is_device_blocked-mark_blocked}
use team_x.Server.Connection.{
  ConnectionManager, is_session, get, add, is_full, kick_device_sessions,
}
use team_x.Server.Service.{
  Server, new_conn, machine_of, welcome, blocked_response, admit, unless_blocked, register,
  block_terminal,
}

get-add :
    (sid : Text) (now : ℕ) (req : HandshakeRequest) (cm : ConnectionManager)
    → get sid cm ≡ none
    → get sid (add (new_conn sid now req) cm) ≡ some (new_conn sid now req)
unfolding get add
get-add sid now req cm h =
    let fresh : any (is_session sid) cm.sessions ≡ false =
      any-find-none (is_session sid) cm.sessions h in
    rw
      (
        fresh,
        find-append (is_session sid) cm.sessions (new_conn sid now req ∷ []) fresh,
        text_eq_refl sid,
      )
      refl

-- What `register` comes to for a device that is not blocked.
module _ (req : HandshakeRequest) (sid : Text) (now : ℕ) (stamp : Text) (s : Server)
    (up : IsUp s.db) (room : is_full s.cm ≡ false)
    (free : device_blocked req.device_id s.db.terminals ≡ false) where
  tables-register :
      (register req sid now stamp s).1.db.tables
      ≡ (upsert_terminal sid (machine_of req) stamp s.db).1.tables
  unfolding register is_device_blocked query
  tables-register = rw (room, up, free) (unfold unless_blocked admit upsert_terminal exec in refl)

  faults-register :
      (register req sid now stamp s).1.db.faults
      ≡ (upsert_terminal sid (machine_of req) stamp s.db).1.faults
  unfolding register is_device_blocked query
  faults-register = rw (room, up, free) (unfold unless_blocked admit upsert_terminal exec in refl)

  db-register :
      (register req sid now stamp s).1.db ≡ (upsert_terminal sid (machine_of req) stamp s.db).1
  db-register = λ i. record { tables = tables-register i; faults = faults-register i }

  get_terminal-register :
      (get_terminal sid (register req sid now stamp s).1.db).0
      ≡ ok (registered sid (machine_of req) stamp (find (has_session sid) s.db.terminals))
  get_terminal-register =
      ap (λ d. (get_terminal sid d).0) db-register
      ∙ get-upsert_terminal sid sid (machine_of req) stamp s.db up
      ∙ rw (text_eq_refl sid) refl

-- With room in the registry and an engine that does not fail: a blocked device is refused and
-- nothing changes; any other is welcomed under the new session. The session is then in the registry,
-- offline until it opens its channel, with its device, its machine and an empty queue, and the store
-- shows it with that machine, as a registration leaves it.
pub register-up :
    (req : HandshakeRequest) (sid : Text) (now : ℕ) (stamp : Text) (s : Server)
    → IsUp s.db
    → is_full s.cm ≡ false
    → get sid s.cm ≡ none
    → let after = register req sid now stamp s in
      ((device_blocked req.device_id s.db.terminals ≡ true)
        × (after.0
            ≡ reply (record {
              ok = false;
              session_id = [];
              server_time = [];
              message = codes "device is blocked";
            }))
        × (after.1.cm ≡ s.cm)
        × (after.1.db.tables ≡ s.db.tables))
      ⊎ ((device_blocked req.device_id s.db.terminals ≡ false)
          × (after.0
              ≡ reply (record {
                ok = true;
                session_id = sid;
                server_time = stamp;
                message = codes "welcome to TeamX";
              }))
          × (get sid after.1.cm
              ≡ some (record {
                session_id = sid;
                device_id = req.device_id;
                hostname = req.hostname;
                os = req.os;
                os_version = req.os_version;
                client_version = req.client_version;
                mac_addrs = req.mac_addrs;
                ip_addrs = req.ip_addrs;
                stream = none;
                disconnect_closed = false;
                cmd_queue = [];
                last_heartbeat = 0;
                online = false;
                connected_at = now;
              }))
          × ((get_terminal sid after.1.db).0
              ≡ ok (
                  registered sid
                    (record {
                      device_id = req.device_id;
                      hostname = req.hostname;
                      os = req.os;
                      os_version = req.os_version;
                      kernel_version = req.kernel_version;
                      client_version = req.client_version;
                      mac_addrs = req.mac_addrs;
                      ip_addrs = req.ip_addrs;
                    })
                    stamp
                    (find (has_session sid) s.db.terminals))))
unfolding register is_device_blocked query
register-up req sid now stamp s up room fresh =
    elim (Bool-cases (device_blocked req.device_id s.db.terminals)) [
      | inl blocked ↦ inl (
        blocked,
        rw (room, up, blocked) (unfold unless_blocked in refl),
        rw (room, up, blocked) (unfold unless_blocked in refl),
        rw (room, up, blocked) (unfold unless_blocked in refl),
      )
      | inr free ↦ inr (
        free,
        rw (room, up, free) (unfold unless_blocked admit in refl),
        rw (room, up, free) (unfold unless_blocked admit in get-add sid now req s.cm fresh),
        get_terminal-register req sid now stamp s up room free,
      )
    ]

is_full-kick_device_sessions :
    (dev : Text) (cm : ConnectionManager) → is_full (kick_device_sessions dev cm) ≡ is_full cm
unfolding is_full kick_device_sessions
is_full-kick_device_sessions dev cm = rw length-update_where refl

block_terminal-up :
    (dev : Text) (s : Server)
    → IsUp s.db
    → (block_terminal dev s).1
      ≡ record { cm = kick_device_sessions dev s.cm; db = (mark_blocked dev s.db).1 }
unfolding block_terminal mark_blocked exec
block_terminal-up dev s up = rw up refl

register-answer :
    (req : HandshakeRequest) (sid : Text) (now : ℕ) (stamp : Text) (s : Server) (blocked : Bool)
    → is_full s.cm ≡ false
    → (is_device_blocked req.device_id s.db).0 ≡ ok blocked
    → (register req sid now stamp s).0
      ≡ (if blocked then reply blocked_response else reply (welcome sid stamp))
unfolding register
register-answer req sid now stamp s true room e = rw (room, e) (unfold unless_blocked in refl)
register-answer req sid now stamp s false room e =
    rw (room, e) (unfold unless_blocked admit in refl)

-- With room in the registry and an engine that does not fail, a device is refused after it was
-- blocked exactly if it has a session in the store: the block of a device that never registered is
-- answered with success and keeps nobody out.
pub register-block_terminal :
    (req : HandshakeRequest) (sid : Text) (now : ℕ) (stamp : Text) (s : Server)
    → IsUp s.db
    → is_full s.cm ≡ false
    → ((block_terminal req.device_id s).0 ≡ reply (record { ok = true; message = codes "blocked" }))
      × ((register req sid now stamp (block_terminal req.device_id s).1).0 ≡ (
          if any (has_device req.device_id) s.db.terminals
          then reply blocked_response
          else reply (welcome sid stamp)))
register-block_terminal req sid now stamp s up room = (
  answered,
  rw (block_terminal-up req.device_id s up) (
      register-answer req sid now stamp
        (record {
          cm = kick_device_sessions req.device_id s.cm;
          db = (mark_blocked req.device_id s.db).1;
        })
        (any (has_device req.device_id) s.db.terminals)
        (is_full-kick_device_sessions req.device_id s.cm ∙ room)
        ((is_device_blocked-mark_blocked req.device_id req.device_id s.db up).0
          ∙ rw (text_eq_refl req.device_id) refl)),
)
  where
    answered :
        (block_terminal req.device_id s).0 ≡ reply (record { ok = true; message = codes "blocked" })
    answered = unfold block_terminal mark_blocked exec in rw up refl
