-- ===== src/Server/Steps/Registry.antt =====
-- What every step keeps of the registry of sessions.
use team_x.Base.{
  ℕ, ◌≤◌, ◌≡◌, refl, ◌∙◌, Bool, true, false, ◌&&◌, none, List, [], ◌∷◌, arith, Text, length,
  update_where, any, length-update_where, length-append, any-append, any-find-none,
}
use team_x.Proto.Messages.{Command}
use team_x.Server.Connection.{
  ClientConn, ConnectionManager, Stream, is_session, fresh_channels, add, get, kick,
  record_heartbeat, set_stream, clear_stream, check_heartbeats, kick_device_sessions, enqueue,
  dequeue,
}

-- The `DisconnectCh` of the session is closed.
unfoldable pub is_kicked : Text → ConnectionManager → Bool
is_kicked sid cm = any (λ c. is_session sid c && c.disconnect_closed) cm.sessions

-- No session leaves, the limit stands, and a closed `DisconnectCh` stays closed.
pub record Grows (cm cm' : ConnectionManager) : Type 0 where
  pub limit : cm'.max_conns ≡ cm.max_conns
  pub sessions : length cm.sessions ≤ length cm'.sessions
  pub kicked : (sid : Text) → is_kicked sid cm ≡ true → is_kicked sid cm' ≡ true

pub Grows-refl : (cm : ConnectionManager) → Grows cm cm
Grows-refl cm = record { limit = refl; sessions = omega arith; kicked = λ sid h. h }

pub Grows-trans : {a b c : ConnectionManager} → Grows a b → Grows b c → Grows a c
Grows-trans g h = record {
  limit = h.limit ∙ g.limit;
  sessions = omega arith;
  kicked = λ sid k. h.kicked sid (g.kicked sid k);
}

-- What a method may do to one connection.
pub record Harmless (f : ClientConn → ClientConn) : Type 0 where
  pub same_id : (c : ClientConn) → (f c).session_id ≡ c.session_id
  pub stays_kicked : (c : ClientConn) → c.disconnect_closed ≡ true → (f c).disconnect_closed ≡ true

any-kicked :
    (p : ClientConn → Bool) (f : ClientConn → ClientConn) (sid : Text) (cs : List ClientConn)
    → Harmless f
    → any (λ c. is_session sid c && c.disconnect_closed) cs ≡ true
    → any (λ c. is_session sid c && c.disconnect_closed) (update_where p f cs) ≡ true
any-kicked p f sid [] h k = k
any-kicked p f sid (c ∷ cs) h k =
    ground (arith, h.same_id c, h.stays_kicked c, any-kicked p f sid cs h)

update-Grows :
    (p : ClientConn → Bool) (f : ClientConn → ClientConn) (cm : ConnectionManager)
    → Harmless f
    → Grows cm (record cm { sessions = update_where p f cm.sessions })
unfolding is_kicked
update-Grows p f cm h = record {
  limit = refl;
  sessions = omega (arith, length-update_where p f cm.sessions);
  kicked = λ sid k. any-kicked p f sid cm.sessions h k;
}

-- ---- the methods of the registry

pub kick-Grows : (sid : Text) (cm : ConnectionManager) → Grows cm (kick sid cm)
unfolding kick
kick-Grows sid cm =
    update-Grows (is_session sid) _ cm
      (record { same_id = λ c. ground arith; stays_kicked = λ c h. ground arith })

pub record_heartbeat-Grows :
    (sid : Text) (now : ℕ) (cm : ConnectionManager) → Grows cm (record_heartbeat sid now cm)
unfolding record_heartbeat
record_heartbeat-Grows sid now cm =
    update-Grows (is_session sid) _ cm (record { same_id = λ c. refl; stays_kicked = λ c h. h })

pub set_stream-Grows :
    (sid : Text) (st : Stream) (now : ℕ) (cm : ConnectionManager)
    → Grows cm (set_stream sid st now cm)
unfolding set_stream
set_stream-Grows sid st now cm =
    update-Grows (is_session sid) _ cm (record { same_id = λ c. refl; stays_kicked = λ c h. h })

pub clear_stream-Grows : (sid : Text) (cm : ConnectionManager) → Grows cm (clear_stream sid cm)
unfolding clear_stream
clear_stream-Grows sid cm =
    update-Grows (is_session sid) _ cm (record { same_id = λ c. refl; stays_kicked = λ c h. h })

pub check_heartbeats-Grows :
    (now timeout : ℕ) (cm : ConnectionManager) → Grows cm (check_heartbeats now timeout cm)
unfolding check_heartbeats
check_heartbeats-Grows now timeout cm =
    update-Grows _ _ cm (record { same_id = λ c. refl; stays_kicked = λ c h. h })

pub kick_device_sessions-Grows :
    (dev : Text) (cm : ConnectionManager) → Grows cm (kick_device_sessions dev cm)
unfolding kick_device_sessions
kick_device_sessions-Grows dev cm =
    update-Grows _ _ cm (record { same_id = λ c. refl; stays_kicked = λ c h. refl })

pub enqueue-Grows :
    (sid : Text) (cmd : Command) (cm : ConnectionManager) → Grows cm (enqueue sid cmd cm)
unfolding enqueue
enqueue-Grows sid cmd cm =
    update-Grows (is_session sid) _ cm
      (record { same_id = λ c. ground arith; stays_kicked = λ c h. ground arith })

pub dequeue-Grows : (sid : Text) (cm : ConnectionManager) → Grows cm (dequeue sid cm)
unfolding dequeue
dequeue-Grows sid cm =
    update-Grows (is_session sid) _ cm (record { same_id = λ c. refl; stays_kicked = λ c h. h })

pub add-Grows :
    (conn : ClientConn) (cm : ConnectionManager)
    → get conn.session_id cm ≡ none
    → Grows cm (add conn cm)
unfolding add get is_kicked
add-Grows conn cm h =
    let fresh : any (is_session conn.session_id) cm.sessions ≡ false =
      any-find-none (is_session conn.session_id) cm.sessions h in
    rw fresh (record {
      limit = refl;
      sessions = omega (arith, length-append cm.sessions (fresh_channels conn ∷ []));
      kicked = λ sid k. ground (
        arith,
        any-append (λ c. is_session sid c && c.disconnect_closed) cm.sessions
            (fresh_channels conn ∷ []),
      );
    })
