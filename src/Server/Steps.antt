-- ===== src/Server/Steps.antt =====
-- The server as a transition system: what the RPCs, the channels, the consumers, the timeout
-- watchers and the heartbeat checker do to its state, in any order. Each registry method runs under
-- its lock, so a step is a handler, or a part of one between two points where another may run. A
-- step may be taken with any arguments; a new session's identifier is not in use.
-- DisconnectTerminal takes the lock twice: the step is the second time, and `seen` the state of the first.
pub mod Registry
pub mod Capacity
pub mod Kicks
pub mod Handlers
use team_x.Base.{ℕ, ◌≡◌, Bool, Option, none, List, [], ◌∷◌, Text, ℤ}
use team_x.Proto.Messages.{HandshakeRequest, Command}
use team_x.Store.Engine.{Engine}
use team_x.Store.Sql.{Sql}
use team_x.Store.Terminals.{mark_offline}
use team_x.Server.Connection.{ConnectionManager, Stream, get, check_heartbeats, newly_offline}
use team_x.Server.Service.{
  Server, run_db, register, disconnect_terminal, block_terminal, unblock_terminal_rpc,
}
use team_x.Server.Dispatch.{
  SendRequest, send_command, Input, open_channel, receive, close_channel, take_command, mark_sent,
  watch_fires,
}

-- `onOffline` of cmd/server/main.go for each session that a tick took offline.
unfoldable pub mark_all_offline : List Text → Server → Server
mark_all_offline [] s = s
mark_all_offline (sid ∷ sids) s = mark_all_offline sids (run_db (mark_offline sid) s)

-- One tick of `HeartbeatChecker`, with the callback that cmd/server/main.go gives it.
unfoldable pub tick : ℕ → ℕ → Server → Server
tick now timeout s =
    mark_all_offline (newly_offline now timeout s.cm)
      (record s { cm = check_heartbeats now timeout s.cm })

-- The state after the consumer of a session took its next command, if there is one.
abbrev pub after_take : Server → Option (Command × Server) → Server
after_take s none = s
after_take s (Option.some (cmd, t)) = t

pub data Step (engine : Engine) : Server → Server → Type 0 where
  registers :
      (s : Server) (req : HandshakeRequest) (sid : Text) (now : ℕ) (stamp : Text)
      → get sid s.cm ≡ none
      → Step engine s (register req sid now stamp s).1
  opens :
      (s : Server) (md : Option (List Text)) (st : Stream) (now : ℕ)
      → Step engine s (open_channel md st now s).1
  receives :
      (s : Server) (sid dev : Text) (now : ℕ) (stamp : Text) (input : Input)
      → Step engine s (receive sid dev now stamp input s).1
  closes : (s : Server) (sid : Text) → Step engine s (close_channel sid s)
  takes : (s : Server) (sid : Text) → Step engine s (after_take s (take_command sid s))
  marks : (s : Server) (id : Text) (sends : Bool) → Step engine s (mark_sent id sends s)
  fires : (s : Server) (id stamp : Text) → Step engine s (watch_fires id stamp s)
  ticks : (s : Server) (now timeout : ℕ) → Step engine s (tick now timeout s)
  sends :
      (s : Server) (req : SendRequest) (id : Text) (unix : ℤ) (stamp : Text)
      → Step engine s (send_command engine req id unix stamp s).1
  disconnects : (s seen : Server) (sid : Text) → Step engine s (disconnect_terminal sid seen s).1
  blocks : (s : Server) (dev : Text) → Step engine s (block_terminal dev s).1
  unblocks : (s : Server) (dev : Text) → Step engine s (unblock_terminal_rpc dev s).1

pub data Reach (engine : Engine) (s : Server) : Server → Type 0 where
  here : Reach engine s s
  next : {t u : Server} → Reach engine s t → Step engine t u → Reach engine s u
