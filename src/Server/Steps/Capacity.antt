-- ===== src/Server/Steps/Capacity.antt =====
-- The connection limit: `IsFull` counts every session that ever registered.
use team_x.Base.{ℕ, ◌≡◌, refl, true, arith, Text, ℤ, pos, negsuc}
use team_x.Proto.Messages.{HandshakeRequest, status, resource_exhausted}
use team_x.Store.Engine.{Engine}
use team_x.Server.Connection.{ConnectionManager, is_full}
use team_x.Server.Service.{Server, register}
use team_x.Server.Steps.{Reach}
use team_x.Server.Steps.Registry.{Grows}
use team_x.Server.Steps.Handlers.{Reach-Grows}

is_full-Grows : {a b : ConnectionManager} → Grows a b → is_full a ≡ true → is_full b ≡ true
unfolding is_full
is_full-Grows {a} {b} g h = rw g.limit (still a.max_conns h)
  where
    still :
        (n : ℤ)
        → is_full (record a { max_conns = n }) ≡ true
        → is_full (record b { max_conns = n }) ≡ true
    still (pos n) k = ground (arith, g.sessions)
    still (negsuc n) k = k

-- A server that was full once refuses every later registration, whatever happened in between: also
-- when every session has been closed, since no session leaves the registry.
pub register-full_forever :
    (engine : Engine) (s t : Server) (req : HandshakeRequest) (sid : Text) (now : ℕ) (stamp : Text)
    → is_full s.cm ≡ true
    → Reach engine s t
    → register req sid now stamp t ≡ (status resource_exhausted, t)
unfolding register
register-full_forever engine s t req sid now stamp full r =
    rw (is_full-Grows (Reach-Grows r) full) refl
