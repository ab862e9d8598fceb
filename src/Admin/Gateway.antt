-- ===== src/Admin/Gateway.antt =====
-- cmd/admin/gateway.go: the poll that tells the web console which terminals went online or offline.
-- A WebSocket is the list of its writes' faults and what it has received. The order in which a Go
-- map is ranged over is an argument.
pub mod Changes
use team_x.Base.{
  Bool, true, false, not, Option, none, some, List, [], ◌∷◌, ◌++◌, Text, codes, text_eq,
  if◌then◌else◌, where_, find,
}
use team_x.Server.Service.{TerminalSummary}

-- What a poll saw of a session.
abbrev pub Entry : Type 0
Entry = Text × Bool

abbrev pub has_entry : Text → Entry → Bool
has_entry sid e = text_eq e.0 sid

pub record WsEvent : Type 0 where
  pub type : Text
  pub session_id : Text
  pub hostname : Text
  pub timestamp : Text

pub record WsConn : Type 0 where
  pub faults : List Bool
  pub received : List WsEvent

pub record WsHub : Type 0 where
  pub conns : List WsConn
  pub last : List Entry

-- `current[id] = online`
unfoldable pub put : Text → Bool → List Entry → List Entry
put id online m = where_ (λ e. not (has_entry id e)) m ++ (id, online) ∷ []

-- The later of two rows of one session stays.
unfoldable pub snapshot_from : List Entry → List TerminalSummary → List Entry
snapshot_from m [] = m
snapshot_from m (t ∷ ts) = snapshot_from (put t.session_id t.online m) ts

abbrev pub snapshot : List TerminalSummary → List Entry
snapshot ts = snapshot_from [] ts

abbrev pub was_online : Text → List Entry → Option Bool
was_online sid m = elim (find (has_entry sid) m) [ none ↦ none | some e ↦ some e.1 ]

unfoldable pub find_hostname : List TerminalSummary → Text → Text
find_hostname [] sid = []
find_hostname (t ∷ ts) sid = if text_eq t.session_id sid then t.hostname else find_hostname ts sid

abbrev pub differs : Option Bool → Bool → Bool
differs none online = false
differs (some true) online = not online
differs (some false) online = online

abbrev pub event : List TerminalSummary → Text → Entry → WsEvent
event ts now e = record {
  type = if e.1 then codes "online" else codes "offline";
  session_id = e.0;
  hostname = find_hostname ts e.0;
  timestamp = now;
}

-- The events of the entries, in their order.
unfoldable pub changes : List Entry → List TerminalSummary → Text → List Entry → List WsEvent
changes last ts now [] = []
changes last ts now (e ∷ current) =
    let rest = changes last ts now current in
    if differs (was_online e.0 last) e.1 then event ts now e ∷ rest else rest

-- The events are written until a write fails, which closes the connection.
unfoldable pub write_all : List WsEvent → WsConn → Option WsConn
write_all [] c = some c
write_all (e ∷ events) c = elim c.faults [
  | [] ↦ write_all events (record c { received = c.received ++ e ∷ [] })
  | fault ∷ rest ↦
      (let next = write_all events (record { faults = rest; received = c.received ++ e ∷ [] }) in
        if fault then none else next)
]

unfoldable pub broadcast : List WsEvent → List WsConn → List WsConn
broadcast events [] = []
broadcast events (c ∷ conns) =
    let rest = broadcast events conns in
    elim (write_all events c) [ none ↦ rest | some d ↦ d ∷ rest ]

-- `none` is a failed ListTerminals. No event makes no write.
unfoldable pub poll :
    (List Entry → List Entry) → Bool → Text → Option (List TerminalSummary) → WsHub → WsHub
poll order broadcasts now none h = h
poll order false now (some ts) h = record h { last = snapshot ts }
poll order true now (some ts) h = record {
  conns = broadcast (changes h.last ts now (order (snapshot ts))) h.conns;
  last = snapshot ts;
}
