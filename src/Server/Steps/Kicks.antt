-- ===== src/Server/Steps/Kicks.antt =====
-- Kicking: `DisconnectTerminal` and `BlockTerminal` close the `DisconnectCh` of a session.
use team_x.Base.{
  Option, Bool, sym, subst, ℕ, ◌≡◌, refl, ap, ◌∙◌, true, false, ◌&&◌, ◌⊎◌, inl, inr, none, some,
  List, [], ◌∷◌, arith, Text, codes, text_eq_iff, if◌then◌else◌, find, any, Bool-cases,
  Option-cases, find-update_where, find-passes,
}
use team_x.Proto.Messages.{Rpc, reply}
use team_x.Store.Engine.{Engine}
use team_x.Store.Sql.{IsUp, exec}
use team_x.Store.Terminals.{mark_blocked}
use team_x.Server.Connection.{
  ClientConn, ConnectionManager, is_session, get, kick, kick_conn, kick_device_sessions,
  is_online_of, record_heartbeat,
}
use team_x.Server.Service.{Server, Answer, disconnect_terminal, block_terminal}
use team_x.Server.Steps.{Reach}
use team_x.Server.Steps.Registry.{is_kicked}
use team_x.Server.Steps.Handlers.{Reach-Grows}

abbrev pub kicked_conn : ClientConn → ClientConn
kicked_conn c = record c { disconnect_closed = true }

-- A session that is found kicked counts as kicked.
is_kicked-get :
    (sid : Text) (cs : List ClientConn) (c : ClientConn)
    → find (is_session sid) cs ≡ some c
    → c.disconnect_closed ≡ true
    → any (λ d. is_session sid d && d.disconnect_closed) cs ≡ true
is_kicked-get sid [] c e h = ground arith
is_kicked-get sid (d ∷ cs) c e h = ground (arith, is_kicked-get sid cs c)

abbrev pub kicked_answer : Rpc Answer
kicked_answer = reply (record { ok = true; message = codes "kicked" })

abbrev pub not_kicked_answer : Rpc Answer
not_kicked_answer = reply (record { ok = false; message = codes "session not found or offline" })

get-kick :
    (sid : Text) (cm : ConnectionManager) (c : ClientConn)
    → get sid cm ≡ some c
    → get sid (kick sid cm) ≡ some (kick_conn c)
unfolding get kick
get-kick sid cm c e =
    rw
      (
        find-update_where (is_session sid) (is_session sid) kick_conn cm.sessions
            (λ d. ground arith),
        e,
        find-passes (is_session sid) cm.sessions c e,
      )
      refl

get-kick_missing :
    (sid : Text) (cm : ConnectionManager) → get sid cm ≡ none → get sid (kick sid cm) ≡ none
unfolding get kick
get-kick_missing sid cm e =
    rw
      (
        find-update_where (is_session sid) (is_session sid) kick_conn cm.sessions
            (λ d. ground arith),
        e,
      )
      refl

module _ (sid : Text) (seen s : Server) where
  disconnect_terminal-online :
      (c : ClientConn)
      → get sid seen.cm ≡ some c
      → c.online ≡ true
      → disconnect_terminal sid seen s ≡ (kicked_answer, record s { cm = kick sid s.cm })
  unfolding disconnect_terminal
  disconnect_terminal-online c e on = rw (e, disconnect_terminal) (ground arith)

  disconnect_terminal-offline :
      (c : ClientConn)
      → get sid seen.cm ≡ some c
      → c.online ≡ false
      → disconnect_terminal sid seen s ≡ (not_kicked_answer, s)
  unfolding disconnect_terminal
  disconnect_terminal-offline c e off = rw (e, disconnect_terminal) (ground arith)

  disconnect_terminal-missing :
      get sid seen.cm ≡ none → disconnect_terminal sid seen s ≡ (not_kicked_answer, s)
  unfolding disconnect_terminal
  disconnect_terminal-missing e = rw (e, disconnect_terminal) refl

is_kicked-of_get :
    (sid : Text) (cm : ConnectionManager) (c : ClientConn)
    → get sid cm ≡ some c
    → c.disconnect_closed ≡ true
    → is_kicked sid cm ≡ true
unfolding get is_kicked
is_kicked-of_get sid cm c e h = is_kicked-get sid cm.sessions c e h

-- Whether a session is there and online.
abbrev pub is_up : Option ClientConn → Bool
is_up none = false
is_up (some c) = c.online

-- What the second lock finds decides.
kick_cases :
    (engine : Engine) (sid : Text) (s t : Server)
    → Reach engine (record s { cm = kick sid s.cm }) t
    → ((is_up (get sid s.cm) ≡ true) × (is_kicked sid t.cm ≡ true))
      ⊎ ((is_up (get sid s.cm) ≡ false) × (get sid (kick sid s.cm) ≡ get sid s.cm))
kick_cases engine sid s t r = elim (Option-cases (get sid s.cm)) [
  | inl missing ↦ inr (rw missing refl, get-kick_missing sid s.cm missing ∙ sym missing)
  | inr (c, found) ↦ elim (Bool-cases c.online) [
    | inr off ↦ inr (rw found off, get-kick sid s.cm c found ∙ ap some (ground arith) ∙ sym found)
    | inl on ↦ inl (
      rw found on,
      (Reach-Grows r).kicked sid (
          is_kicked-of_get sid (kick sid s.cm) (kick_conn c) (get-kick sid s.cm c found)
            (ground arith)),
    )
  ]
]

-- DisconnectTerminal sees the session in one state and kicks it in another, `s`. Where it answers
-- that the session was kicked, either the session is online in `s`, and its `DisconnectCh` is closed
-- in every later state of the server; or it is not, as after a tick of the heartbeat checker in
-- between, and the session stays as it was in `s`. Where it answers otherwise, it changes nothing.
pub disconnect_terminal-is_kicked :
    (engine : Engine) (sid : Text) (seen s t : Server)
    → Reach engine (disconnect_terminal sid seen s).1 t
    → (((disconnect_terminal sid seen s).0 ≡ kicked_answer)
        × (is_up (get sid s.cm) ≡ true)
        × (is_kicked sid t.cm ≡ true))
      ⊎ (((disconnect_terminal sid seen s).0 ≡ kicked_answer)
          × (is_up (get sid s.cm) ≡ false)
          × (get sid (disconnect_terminal sid seen s).1.cm ≡ get sid s.cm))
      ⊎ ((is_up (get sid seen.cm) ≡ false)
          × (disconnect_terminal sid seen s ≡ (not_kicked_answer, s)))
disconnect_terminal-is_kicked engine sid seen s t r = elim (Option-cases (get sid seen.cm)) [
  | inl missing ↦ inr (inr (rw missing refl, disconnect_terminal-missing sid seen s missing))
  | inr (c, found) ↦ elim (Bool-cases c.online) [
    | inr off ↦ inr (inr (rw found off, disconnect_terminal-offline sid seen s c found off))
    | inl on ↦
        let e = disconnect_terminal-online sid seen s c found on in
        elim (kick_cases engine sid s t (subst (λ p. Reach engine p.1 t) e r)) [
          | inl (up, kicked) ↦ inl (ap (λ p. p.0) e, up, kicked)
          | inr (down, same) ↦ inr (inl (ap (λ p. p.0) e, down, ap (λ p. get sid p.1.cm) e ∙ same))
        ]
  ]
]

-- ---- blocking

get-kick_device_sessions :
    (sid dev : Text) (cm : ConnectionManager) (c : ClientConn)
    → get sid cm ≡ some c
    → get sid (kick_device_sessions dev cm) ≡ some (if is_online_of dev c then kicked_conn c else c)
unfolding get kick_device_sessions
get-kick_device_sessions sid dev cm c e =
    rw
      (find-update_where (is_session sid) (is_online_of dev) kicked_conn cm.sessions (λ d. refl), e)
      refl

block_terminal-up :
    (dev : Text) (s : Server)
    → IsUp s.db
    → (block_terminal dev s).1.cm ≡ kick_device_sessions dev s.cm
unfolding block_terminal mark_blocked exec
block_terminal-up dev s up = rw up refl

get-record_heartbeat :
    (sid : Text) (now : ℕ) (cm : ConnectionManager) (c : ClientConn)
    → get sid cm ≡ some c
    → get sid (record_heartbeat sid now cm)
      ≡ some (record c { last_heartbeat = now; online = true })
unfolding get record_heartbeat
get-record_heartbeat sid now cm c e =
    rw
      (
        find-update_where (is_session sid) (is_session sid)
            (λ d. record d { last_heartbeat = now; online = true }) cm.sessions (λ d. refl),
        e,
        find-passes (is_session sid) cm.sessions c e,
      )
      refl

-- Where the store takes the block, every session of the device that is online is kicked for good.
pub block_terminal-is_kicked :
    (engine : Engine) (dev sid : Text) (s t : Server) (c : ClientConn)
    → IsUp s.db
    → get sid s.cm ≡ some c
    → c.device_id ≡ dev
    → c.online ≡ true
    → Reach engine (block_terminal dev s).1 t
    → is_kicked sid t.cm ≡ true
block_terminal-is_kicked engine dev sid s t c up e d on r = (Reach-Grows r).kicked sid (
    rw (block_terminal-up dev s up) (
      is_kicked-of_get sid (kick_device_sessions dev s.cm) _
        (get-kick_device_sessions sid dev s.cm c e) (ground (arith, text_eq_iff c.device_id dev))))

-- A session of the device that is offline at that moment, as one is whose heartbeats were late, is
-- not kicked by the block: its next heartbeat brings it online again, with the block in force.
pub block_terminal-spares_offline :
    (dev sid : Text) (now : ℕ) (s : Server) (c : ClientConn)
    → IsUp s.db
    → get sid s.cm ≡ some c
    → c.online ≡ false
    → get sid (record_heartbeat sid now (block_terminal dev s).1.cm)
      ≡ some (record c { last_heartbeat = now; online = true })
block_terminal-spares_offline dev sid now s c up e off = rw (block_terminal-up dev s up) (
    get-record_heartbeat sid now (kick_device_sessions dev s.cm) c
      (get-kick_device_sessions sid dev s.cm c e ∙ ap some (ground arith)))
