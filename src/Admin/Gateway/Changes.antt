-- ===== src/Admin/Gateway/Changes.antt =====
-- What two polls in a row tell of one session.
use team_x.Base.{
  codes, ◌≡◌, refl, ◌∙◌, ap, Bool, true, false, not, Option, none, some, List, [], ◌∷◌, ◌++◌, Text,
  text_eq, text_eq_iff, text_eq_refl, append-nil, head?, Option-cases, if◌then◌else◌, where_, find,
  arith, Bool-cases, inl, inr,
}
use team_x.Server.Service.{TerminalSummary}
use team_x.Admin.Gateway.{
  find_hostname, Entry, has_entry, WsEvent, put, snapshot_from, snapshot, was_online, changes,
  WsHub, poll,
}

-- The status in the last row of the session.
unfoldable pub last_status : Text → List TerminalSummary → Option Bool
last_status sid [] = none
last_status sid (t ∷ ts) = elim (last_status sid ts) [
  | none ↦ if text_eq t.session_id sid then some t.online else none
  | some b ↦ some b
]

abbrev pub entries : Text → Option Bool → List Entry
entries sid none = []
entries sid (some b) = (sid, b) ∷ []

where-append :
    {A : Type 0} (p : A → Bool) (xs ys : List A) → where_ p (xs ++ ys) ≡ where_ p xs ++ where_ p ys
where-append p [] ys = refl
where-append p (x ∷ xs) ys = ground (arith, where-append p xs ys)

where-others-same :
    (sid : Text) (m : List Entry)
    → where_ (has_entry sid) (where_ (λ e. not (has_entry sid e)) m) ≡ []
where-others-same sid [] = refl
where-others-same sid (e ∷ m) = ground (arith, where-others-same sid m)

same_text : (u id : Text) → text_eq u id ≡ true → u ≡ id
same_text u id h = (text_eq_iff u id).0 h

-- The two conversions of a text test that the entries of another session need.
text_eq-other :
    (u id sid : Text) → text_eq id sid ≡ false → text_eq u id ≡ true → text_eq u sid ≡ false
text_eq-other u id sid h k = rw (same_text u id k) h

where-others :
    (sid id : Text) (m : List Entry)
    → text_eq id sid ≡ false
    → where_ (has_entry sid) (where_ (λ e. not (has_entry id e)) m) ≡ where_ (has_entry sid) m
where-others sid id [] h = refl
where-others sid id (e ∷ m) h = elim (Bool-cases (text_eq e.0 id)) [
  | inl same ↦ ground (arith, same, text_eq-other e.0 id sid h same, where-others sid id m h)
  | inr other ↦ ground (arith, other, where-others sid id m h)
]

where-put :
    (sid id : Text) (b : Bool) (m : List Entry)
    → where_ (has_entry sid) (put id b m)
      ≡ (if text_eq id sid then (sid, b) ∷ [] else where_ (has_entry sid) m)
unfolding put
where-put sid id b m = elim (Bool-cases (text_eq id sid)) [
  | inl same ↦
      rw (where-append (has_entry sid) (where_ (λ e. not (has_entry id e)) m) ((id, b) ∷ []))
        (rw (same_text id sid same) (ground (arith, where-others-same sid m, text_eq_refl sid)))
  | inr other ↦
      rw (where-append (has_entry sid) (where_ (λ e. not (has_entry id e)) m) ((id, b) ∷ []))
        (rw (where-others sid id m other) (rw other (append-nil (where_ (has_entry sid) m))))
]

abbrev or_else : List Entry → Text → Option Bool → List Entry
or_else old sid none = old
or_else old sid (some b) = (sid, b) ∷ []

where-snapshot_from :
    (sid : Text) (m : List Entry) (ts : List TerminalSummary)
    → where_ (has_entry sid) (snapshot_from m ts)
      ≡ or_else (where_ (has_entry sid) m) sid (last_status sid ts)
unfolding snapshot_from last_status
where-snapshot_from sid m [] = refl
where-snapshot_from sid m (t ∷ ts) =
    where-snapshot_from sid (put t.session_id t.online m) ts
    ∙ (elim (Option-cases (last_status sid ts)) [
      | inl missing ↦ rw missing (rw (where-put sid t.session_id t.online m) (ground arith))
      | inr (b, later) ↦ rw later refl
    ])

where-changes :
    (sid : Text) (last : List Entry) (ts : List TerminalSummary) (now : Text) (m : List Entry)
    → where_ (λ e. text_eq e.session_id sid) (changes last ts now m)
      ≡ changes last ts now (where_ (has_entry sid) m)
unfolding changes
where-changes sid last ts now [] = refl
where-changes sid last ts now (e ∷ m) = ground (arith, where-changes sid last ts now m)

find-where :
    (sid : Text) (m : List Entry) → find (has_entry sid) m ≡ head? (where_ (has_entry sid) m)
find-where sid [] = refl
find-where sid (e ∷ m) = ground (arith, find-where sid m)

or_else-nil : (sid : Text) (o : Option Bool) → or_else [] sid o ≡ entries sid o
or_else-nil sid none = refl
or_else-nil sid (some b) = refl

where-snapshot :
    (sid : Text) (ts : List TerminalSummary)
    → where_ (has_entry sid) (snapshot ts) ≡ entries sid (last_status sid ts)
where-snapshot sid ts = where-snapshot_from sid [] ts ∙ or_else-nil sid (last_status sid ts)

-- The status that an entry has.
abbrev status_of : Option Entry → Option Bool
status_of o = elim o [ none ↦ none | some e ↦ some e.1 ]

status-entries : (sid : Text) (o : Option Bool) → status_of (head? (entries sid o)) ≡ o
status-entries sid none = refl
status-entries sid (some b) = refl

was_online-snapshot :
    (sid : Text) (ts : List TerminalSummary) → was_online sid (snapshot ts) ≡ last_status sid ts
was_online-snapshot sid ts =
    ap status_of (find-where sid (snapshot ts) ∙ ap head? (where-snapshot sid ts))
    ∙ status-entries sid (last_status sid ts)

last-poll :
    (order : List Entry → List Entry) (broadcasts : Bool) (now : Text) (ts : List TerminalSummary)
    (h : WsHub)
    → (poll order broadcasts now (some ts) h).last ≡ snapshot ts
unfolding poll
last-poll order true now ts h = refl
last-poll order false now ts h = refl

-- The hostname in the first row of the session.
abbrev pub first_hostname : Text → List TerminalSummary → Text
first_hostname sid [] = []
first_hostname sid (t ∷ ts) = if text_eq t.session_id sid then t.hostname else first_hostname sid ts

abbrev pub event_of : Text → List TerminalSummary → Text → Text → WsEvent
event_of type ts now sid = record {
  type = type;
  session_id = sid;
  hostname = first_hostname sid ts;
  timestamp = now;
}

-- A session that the previous poll did not list is not told of, nor one that this poll misses.
abbrev pub told : List TerminalSummary → Text → Text → Option Bool → Option Bool → List WsEvent
told ts now sid none new = []
told ts now sid (some was) none = []
told ts now sid (some false) (some true) = event_of (codes "online") ts now sid ∷ []
told ts now sid (some true) (some false) = event_of (codes "offline") ts now sid ∷ []
told ts now sid (some true) (some true) = []
told ts now sid (some false) (some false) = []

find_hostname-eq :
    (sid : Text) (ts : List TerminalSummary) → find_hostname ts sid ≡ first_hostname sid ts
unfolding find_hostname
find_hostname-eq sid [] = refl
find_hostname-eq sid (t ∷ ts) = ground (arith, find_hostname-eq sid ts)

changes-one :
    (sid : Text) (was new : Option Bool) (last : List Entry) (ts : List TerminalSummary)
    (now : Text)
    → was_online sid last ≡ was
    → changes last ts now (entries sid new) ≡ told ts now sid was new
unfolding changes
changes-one sid none none last ts now e = refl
changes-one sid none (some b) last ts now e = rw e refl
changes-one sid (some was) none last ts now e = refl
changes-one sid (some true) (some true) last ts now e = rw e refl
changes-one sid (some false) (some false) last ts now e = rw e refl
changes-one sid (some true) (some false) last ts now e = rw e (
    ap
      (λ host.
        record { type = codes "offline"; session_id = sid; hostname = host; timestamp = now } ∷ [])
      (find_hostname-eq sid ts))
changes-one sid (some false) (some true) last ts now e = rw e (
    ap
      (λ host.
        record { type = codes "online"; session_id = sid; hostname = host; timestamp = now } ∷ [])
      (find_hostname-eq sid ts))

-- After a poll that listed `ts0`, the events about a session that a poll which lists `ts1` finds are
-- those that `told` gives for the status of the session's last row in `ts0` and in `ts1`: one event
-- where both list it and the status differs, with the new status and the first hostname listed for
-- the session, and none otherwise. This is so whatever order the entries of the Go map are ranged
-- over in, provided that the order keeps the entries of the session.
pub changes-poll :
    (order : List Entry → List Entry) (sid : Text) (broadcasts : Bool) (now0 now : Text)
    (ts0 ts1 : List TerminalSummary) (h : WsHub)
    → ((m : List Entry) → where_ (has_entry sid) (order m) ≡ where_ (has_entry sid) m)
    → where_
        (λ e. text_eq e.session_id sid)
        (changes (poll order broadcasts now0 (some ts0) h).last ts1 now (order (snapshot ts1)))
      ≡ told ts1 now sid (last_status sid ts0) (last_status sid ts1)
changes-poll order sid broadcasts now0 now ts0 ts1 h keeps =
    where-changes sid _ ts1 now (order (snapshot ts1))
    ∙ rw (keeps (snapshot ts1)) (
        rw (where-snapshot sid ts1) (
          changes-one sid (last_status sid ts0) (last_status sid ts1) _ ts1 now
            (rw (last-poll order broadcasts now0 ts0 h) (was_online-snapshot sid ts0))))
