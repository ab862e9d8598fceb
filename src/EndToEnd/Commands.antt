-- ===== src/EndToEnd/Commands.antt =====
-- A command on its way back: what `dispatchCommand` sends, as the receive loop of the server's
-- `Channel` takes it, is what the command's row comes to.
use team_x.Base.{
  ℕ, ◌≡◌, refl, sym, ap, ◌∙◌, Bool, true, false, Option, none, some, List, [], ◌∷◌, ◌++◌, Text,
  text_eq, text_eq_refl, if◌then◌else◌, find,
}
use team_x.Proto.Messages.{
  ReportRequest, ReportType, hardware, other, Command, CommandResult, ClientMessage, ClientPayload,
  heartbeat, report_request, command_result, unset,
}
use team_x.Store.Sql.{CommandRow, IsUp, exec}
use team_x.Store.Terminals.{update_heartbeat}
use team_x.Store.Commands.{is_open, with_outcome, has_command}
use team_x.Store.Commands.Status.{command_row, on_row, row-update_command_result}
use team_x.Store.Hardware.{save_hardware_report}
use team_x.Server.Service.{Server, run_db}
use team_x.Server.Dispatch.{
  receive, message, handle_payload, handle_heartbeat, handle_report, handle_command_result,
  outcome_of,
}
use team_x.Server.Lifecycle.{row_status, status_of, IsUp-result}
use team_x.Client.Agent.{Agent}
use team_x.Client.Cache.{Hashing}
use team_x.Client.Executor.{Host, dispatch_command, executing_result}
use team_x.Client.Executor.Results.{results, IsOpen, results-append, results-dispatch_command}
use team_x.EndToEnd.Effects.{Keeps-save_hardware_report}

-- The status of a row that takes these results one after the other.
abbrev with_status : Text → Option Text → Option Text
with_status st none = none
with_status st (some old) = some st

abbrev after_result : Text → CommandResult → Option Text → Option Text
after_result id r o = if text_eq r.command_id id then with_status r.status o else o

abbrev after_results : Text → List CommandResult → Option Text → Option Text
after_results id [] o = o
after_results id (r ∷ rs) o = after_results id rs (after_result id r o)

after_results-append :
    (id : Text) (rs ts : List CommandResult) (o : Option Text)
    → after_results id (rs ++ ts) o ≡ after_results id ts (after_results id rs o)
after_results-append id [] ts o = refl
after_results-append id (r ∷ rs) ts o = after_results-append id rs ts (after_result id r o)

after_results-some :
    (id : Text) (rs : List CommandResult) (st : Text)
    → (t : Text) × (after_results id rs (some st) ≡ some t)
after_results-some id [] st = (st, refl)
after_results-some id (r ∷ rs) st =
    elim (text_eq r.command_id id)
      as (λ b. (t : Text) × (after_results id rs (if b then some r.status else some st) ≡ some t)) [
        | true ↦ after_results-some id rs r.status
        | false ↦ after_results-some id rs st
      ]

-- The clock when a message arrives.
pub record Arrival : Type 0 where
  pub now : ℕ
  pub stamp : Text

module _ (sid dev : Text) (arrival : ClientMessage → Arrival) where
  -- The messages of one stream, in the order in which they were sent.
  unfoldable pub deliver : List ClientMessage → Server → Server
  deliver [] s = s
  deliver (m ∷ ms) s =
      deliver ms (receive sid dev (arrival m).now (arrival m).stamp (message m) s).1

status-kept :
    (id : Text) (s t : Server) → t.db.commands ≡ s.db.commands → status_of id t ≡ status_of id s
status-kept id s t e = ap (λ rows. row_status (find (has_command id) rows)) e

-- A server after a payload: it is up, and the command's status is that of the results in it.
abbrev Follows : Text → List CommandResult → Server → Server → Type 0
Follows id rs s t = IsUp t.db × (status_of id t ≡ after_results id rs (status_of id s))

row_status-if :
    (b : Bool) (r : CommandResult) (row : Option CommandRow)
    → row_status (if b then on_row (with_outcome (outcome_of r)) row else row)
      ≡ (if b then with_status r.status (row_status row) else row_status row)
unfolding with_outcome
row_status-if true r none = refl
row_status-if true r (some row) = refl
row_status-if false r row = refl

module _ (id sid dev : Text) (now : ℕ) (stamp : Text) (s : Server) (up : IsUp s.db) where
  heartbeat-Follows : Follows id [] s (handle_heartbeat sid now stamp s)
  unfolding handle_heartbeat update_heartbeat exec
  heartbeat-Follows = rw up (refl, refl)

  report-Follows : (r : ReportRequest) → Follows id [] s (handle_report sid dev stamp r s)
  unfolding handle_report
  report-Follows r = of_type r.type
    where
      of_type :
          (t : ReportType) → Follows id [] s (handle_report sid dev stamp (record r { type = t }) s)
      of_type other = (up, refl)
      of_type (hardware info) =
          let kept =
            Keeps-save_hardware_report sid dev stamp (record r { type = hardware info }) s.db up in
          (
            kept.0,
            status-kept id s
                (run_db (save_hardware_report sid dev stamp (record r { type = hardware info })) s)
                kept.1,
          )

  result-Follows : (r : CommandResult) → Follows id (r ∷ []) s (handle_command_result r s)
  unfolding handle_command_result with_outcome
  result-Follows r = (
    IsUp-result r s up,
    ap row_status (row-update_command_result r.command_id id (outcome_of r) [] s.db up).0
        ∙ row_status-if (text_eq r.command_id id) r (command_row id s.db),
  )

  payload-Follows :
      (seq : ℕ) (p : ClientPayload)
      → Follows id
          (results (record { seq = seq; payload = p } ∷ []))
          s
          (handle_payload sid dev now stamp p s)
  unfolding handle_payload results
  payload-Follows seq heartbeat = heartbeat-Follows
  payload-Follows seq (report_request r) = report-Follows r
  payload-Follows seq (command_result r) = result-Follows r
  payload-Follows seq unset = (up, refl)

module _ (id sid dev : Text) (arrival : ClientMessage → Arrival) where
  deliver-Follows :
      (ms : List ClientMessage) (s : Server)
      → IsUp s.db
      → status_of id (deliver sid dev arrival ms s) ≡ after_results id (results ms) (status_of id s)
  unfolding deliver receive results
  deliver-Follows [] s up = refl
  deliver-Follows (m ∷ ms) s up =
      let first =
        payload-Follows id sid dev (arrival m).now (arrival m).stamp s up m.seq m.payload in
      deliver-Follows ms _ first.0
      ∙ ap (after_results id (results ms)) first.1
      ∙ sym (after_results-append id (results (m ∷ [])) (results ms) (status_of id s))
      ∙ ap (λ rs. after_results id rs (status_of id s)) (sym (results-append (m ∷ []) ms))

-- The whole way back of a command: while neither the stream nor the engine fails, the messages that
-- the client has sent once it has dispatched the command, with those before on the stream, leave the
-- command's row with a final status at the server, whatever its type and whatever the host does.
pub status-dispatch_command :
    (h : Hashing) (host : Host) (cmd : Command) (a : Agent) (sid dev : Text)
    (arrival : ClientMessage → Arrival) (s : Server) (row : CommandRow)
    → IsOpen a
    → IsUp s.db
    → command_row cmd.command_id s.db ≡ some row
    → (st : Text) × (status_of cmd.command_id
          (deliver sid dev arrival (dispatch_command h host cmd a).sent s)
        ≡ some st)
      × (is_open st ≡ false)
status-dispatch_command h host cmd a sid dev arrival s row open_ up e =
    let (r, sent, same, final) = results-dispatch_command h host cmd a open_ in
    let id = cmd.command_id in
    let first = executing_result id host.begun in
    let (st, before) = after_results-some id (results a.sent) row.status in
    (
      r.status,
      deliver-Follows id sid dev arrival (dispatch_command h host cmd a).sent s up
          ∙ ap (λ rs. after_results id rs (status_of id s)) sent
          ∙ after_results-append id (results a.sent) (first ∷ r ∷ []) (status_of id s)
          ∙ ap
              (λ o.
                after_results id (first ∷ r ∷ [])
                  (after_results id (results a.sent) (row_status o)))
              e
          ∙ ap (after_results id (first ∷ r ∷ [])) before
          ∙ rw (text_eq_refl id, same, text_eq_refl id) refl,
      final,
    )
