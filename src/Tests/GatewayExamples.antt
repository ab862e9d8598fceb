-- ===== src/Tests/GatewayExamples.antt =====
-- The events of the gateway at two lists of terminals.
use team_x.Base.{◌≡◌, refl, true, false, Bool, some, List, [], ◌∷◌, Text, codes, text_eq, where_}
use team_x.Server.Service.{TerminalSummary}
use team_x.Admin.Gateway.{snapshot, changes, poll}
use team_x.Admin.Gateway.Changes.{last_status, told, changes-poll}

abbrev listed : Text → Bool → TerminalSummary
listed sid online = record {
  session_id = sid;
  device_id = codes "dev-1";
  hostname = codes "host-1";
  os = codes "linux";
  os_version = [];
  client_version = [];
  online = online;
  blocked = false;
  last_heartbeat = [];
  last_seen_at = [];
}

abbrev before : List TerminalSummary
before = listed (codes "s-1") true ∷ listed (codes "s-2") false ∷ []

abbrev after : List TerminalSummary
after = listed (codes "s-1") false ∷ listed (codes "s-2") false ∷ []

changes-poll_example :
    where_
      (λ e. text_eq e.session_id (codes "s-1"))
      (changes
        (poll (λ m. m) false [] (some before) (record { conns = []; last = [] })).last
        after
        (codes "noon")
        (snapshot after))
    ≡ told after
        (codes "noon")
        (codes "s-1")
        (last_status (codes "s-1") before)
        (last_status (codes "s-1") after)
changes-poll_example =
    changes-poll (λ m. m) (codes "s-1") false [] (codes "noon") before after
      (record { conns = []; last = [] }) (λ m. refl)
