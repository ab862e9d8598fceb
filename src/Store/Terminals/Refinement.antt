-- ===== src/Store/Terminals/Refinement.antt =====
-- The sessions of the `terminals` table as a function from identifiers, over any sequence of the
-- writes that registrations, heartbeats and closed channels make.
use team_x.Base.{
  ◌≡◌, refl, ap, fun_ext, ◌∙◌, Bool, true, false, Option, none, some, List, [], ◌∷◌, Text, text_eq,
  if◌then◌else◌, find, Option-cases, inl, inr,
}
use team_x.Store.Sql.{Db, IsUp, Result, ok, err, exec, query}
use team_x.Store.Terminals.{
  Terminal, Machine, has_session, upsert_terminal, update_heartbeat, mark_offline, scan_row,
  scan_terminal, get_terminal,
}
use team_x.Store.Terminals.Sessions.{registered, changed, get-upsert_terminal, get-update_heartbeat}

pub data Write : Type 0 where
  upserts : Text → Machine → Text → Write
  beats : Text → Text → Write
  leaves : Text → Write

unfoldable pub apply : Write → Db → Db
apply (upserts sid m now) db = (upsert_terminal sid m now db).1
apply (beats sid now) db = (update_heartbeat sid now db).1
apply (leaves sid) db = (mark_offline sid db).1

unfoldable pub run : List Write → Db → Db
run [] db = db
run (w ∷ ws) db = run ws (apply w db)

-- ---- the specification: a function from identifiers, changed at one of them

abbrev pub Sessions : Type 0
Sessions = Text → Option Terminal

abbrev pub set_at : Text → Option Terminal → Sessions → Sessions
set_at sid t f j = if text_eq sid j then t else f j

abbrev pub map_at : Text → (Terminal → Terminal) → Sessions → Sessions
map_at sid g f j = if text_eq sid j then elim (f j) [ none ↦ none | some t ↦ some (g t) ] else f j

-- A session that registers: what it was keeps its heartbeat, its flags and its first time.
abbrev pub enrolled : Text → Machine → Text → Option Terminal → Terminal
enrolled sid m now old = record {
  session_id = sid;
  device_id = m.device_id;
  hostname = m.hostname;
  os = m.os;
  os_version = m.os_version;
  kernel_version = m.kernel_version;
  client_version = m.client_version;
  online = elim old [ none ↦ false | some t ↦ t.online ];
  blocked = elim old [ none ↦ false | some t ↦ t.blocked ];
  last_heartbeat = elim old [ none ↦ [] | some t ↦ t.last_heartbeat ];
  last_seen_at = now;
  first_seen_at = elim old [ none ↦ now | some t ↦ t.first_seen_at ];
}

unfoldable pub spec : Write → Sessions → Sessions
spec (upserts sid m now) f = set_at sid (some (enrolled sid m now (f sid))) f
spec (beats sid now) f = map_at sid (λ t. record t { online = true; last_heartbeat = now }) f
spec (leaves sid) f = map_at sid (λ t. record t { online = false }) f

unfoldable pub replay : List Write → Sessions → Sessions
replay [] f = f
replay (w ∷ ws) f = replay ws (spec w f)

-- ---- what `GetTerminal` shows, as such a function

abbrev pub as_option : Result Terminal → Option Terminal
as_option (ok t) = some t
as_option (err e) = none

abbrev pub view : Db → Sessions
view db j = as_option (get_terminal j db).0

apply-IsUp : (w : Write) (db : Db) → IsUp db → IsUp (apply w db)
unfolding apply upsert_terminal update_heartbeat mark_offline exec
apply-IsUp (upserts sid m now) db up = rw up refl
apply-IsUp (beats sid now) db up = rw up refl
apply-IsUp (leaves sid) db up = rw up refl

registered-enrolled :
    (sid : Text) (m : Machine) (now : Text) (db : Db)
    → IsUp db
    → registered sid m now (find (has_session sid) db.terminals) ≡ enrolled sid m now (view db sid)
unfolding get_terminal query scan_terminal scan_row
registered-enrolled sid m now db up = elim (Option-cases (find (has_session sid) db.terminals)) [
  | inl e ↦ rw (up, e) refl
  | inr (r, e) ↦ rw (up, e) refl
]

as_option-if :
    (b : Bool) (g : Terminal → Terminal) (r : Result Terminal)
    → as_option (if b then changed g r else r)
      ≡ (if b then elim (as_option r) [ none ↦ none | some t ↦ some (g t) ] else as_option r)
as_option-if true g (ok t) = refl
as_option-if true g (err e) = refl
as_option-if false g r = refl

view-apply : (w : Write) (db : Db) → IsUp db → view (apply w db) ≡ spec w (view db)
unfolding apply spec
view-apply (upserts sid m now) db up = fun_ext λ j.
    ap as_option (get-upsert_terminal sid j m now db up)
    ∙ at (text_eq sid j) (registered-enrolled sid m now db up) (get_terminal j db).0
  where
    at :
        {t u : Terminal} (b : Bool)
        → t ≡ u
        → (r : Result Terminal)
        → as_option (if b then ok t else r) ≡ (if b then some u else as_option r)
    at true e r = ap some e
    at false e r = refl
view-apply (beats sid now) db up = fun_ext λ j.
    ap as_option (get-update_heartbeat sid j now db up).0
    ∙ as_option-if (text_eq sid j) _ (get_terminal j db).0
view-apply (leaves sid) db up = fun_ext λ j.
    ap as_option (get-update_heartbeat sid j [] db up).1
    ∙ as_option-if (text_eq sid j) _ (get_terminal j db).0

-- On an engine that does not fail, any sequence of registrations, heartbeats and closed channels
-- leaves `GetTerminal` as the same sequence leaves a function from session identifiers that is
-- changed at one identifier at a time.
pub run-refines : (ws : List Write) (db : Db) → IsUp db → view (run ws db) ≡ replay ws (view db)
unfolding run replay
run-refines [] db up = refl
run-refines (w ∷ ws) db up =
    run-refines ws (apply w db) (apply-IsUp w db up) ∙ ap (replay ws) (view-apply w db up)
