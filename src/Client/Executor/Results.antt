-- ===== src/Client/Executor/Results.antt =====
-- What the server hears of one command.
use team_x.Base.{
  ◌≡◌, refl, ap, ◌∙◌, false, Option, none, some, List, [], ◌∷◌, ◌++◌, append_assoc, append-nil,
  codes, arith, Text, text_eq, Bool-cases, Option-cases, inl, inr, ℤ, pos, negsuc, ◌==◌,
}
use team_x.Proto.Messages.{
  HardwareInfo, Command, CommandResult, ReportRequest, ClientMessage, ClientPayload, report_request,
  command_result, heartbeat, unset,
}
use team_x.Store.Commands.{is_open}
use team_x.Client.Agent.{first_fault, Agent, send}
use team_x.Proto.Types.{CommandType}
use team_x.Client.Cache.{Hashing, as_report, hash_hardware, is_changed, mark_sent}
use team_x.Client.Executor.{
  param, run_exec, Host, ScriptRun, Handled, returned, panicked, failed, completed, success,
  executing_result, send_command_result, script_result, cancel_session, handle_run_script,
  handle_restart, handle_shutdown, collected, after_collection, handle_collect_now, run_handler,
  recovered, dispatch_command,
}

-- The results among the messages, oldest first.
unfoldable pub results : List ClientMessage → List CommandResult
results [] = []
results (m ∷ ms) = elim m.payload [
  | heartbeat ↦ results ms
  | report_request r ↦ results ms
  | command_result r ↦ r ∷ results ms
  | unset ↦ results ms
]

pub results-append : (ms ns : List ClientMessage) → results (ms ++ ns) ≡ results ms ++ results ns
unfolding results
results-append [] ns = refl
results-append (m ∷ ms) ns = ground (arith, results-append ms ns)

-- The stream does not fail.
abbrev pub IsOpen : Agent → Type 0
IsOpen a = a.send_faults ≡ []

results-send_result :
    (r : CommandResult) (a : Agent)
    → IsOpen a
    → results (send_command_result r a).sent ≡ results a.sent ++ r ∷ []
unfolding send_command_result send
results-send_result r a up =
    rw up (results-append a.sent _ ∙ ap (λ rs. results a.sent ++ rs) (unfold results in refl))

results-send_report :
    (r : ReportRequest) (a : Agent)
    → IsOpen a
    → results (send (report_request r) a).sent ≡ results a.sent
unfolding send results
results-send_report r a up = rw up (results-append a.sent _ ∙ append-nil (results a.sent))

send-IsOpen : (p : ClientPayload) (a : Agent) → IsOpen a → IsOpen (send p a)
unfolding send
send-IsOpen p a up = rw up refl

-- From `a` to `b` one result of the command is sent, and it is a final one.
abbrev pub Answers : Text → Agent → Agent → Type 0
Answers id a b =
    (r : CommandResult) × (results b.sent ≡ results a.sent ++ r ∷ [])
    × (r.command_id ≡ id)
    × (is_open r.status ≡ false)

Answers-send :
    (r : CommandResult) (a : Agent)
    → IsOpen a
    → is_open r.status ≡ false
    → Answers r.command_id a (send_command_result r a)
Answers-send r a up final = (r, results-send_result r a up, refl, final)

failed_is_final : is_open failed ≡ false
unfolding is_open text_eq
failed_is_final = refl

completed_is_final : is_open completed ≡ false
unfolding is_open text_eq
completed_is_final = refl

-- What is known of a handler's outcome: a panic comes before any result.
abbrev Outcome : Text → Agent → Handled → Type 0
Outcome id a (returned b) = Answers id a b
Outcome id a (panicked why b) = b ≡ a

script_result_is_final :
    (id : Text) (run : ScriptRun) (from to : ℤ)
    → is_open (script_result id run from to).status ≡ false
unfolding script_result
script_result_is_final id run from to = ground (arith, failed_is_final, completed_is_final)

command_id-script_result :
    (id : Text) (run : ScriptRun) (from to : ℤ) → (script_result id run from to).command_id ≡ id
unfolding script_result
command_id-script_result id run from to = ground arith

module _ (host : Host) (cmd : Command) (a : Agent) (up : IsOpen a) where
  handle_run_script-Outcome : Outcome cmd.command_id a (handle_run_script host cmd a)
  unfolding handle_run_script
  handle_run_script-Outcome = elim (Bool-cases (text_eq (param (codes "cmd") cmd.params) [])) [
    | inl missing ↦ rw missing (Answers-send _ a up failed_is_final)
    | inr script ↦ elim (Option-cases host.panic) [
      | inr (why, e) ↦ rw (script, e) refl
      | inl e ↦
          let r =
            script_result cmd.command_id (run_exec host (param (codes "cmd") cmd.params) cmd)
              host.started host.finished in
          rw (script, e)
            (
              r,
              results-send_result r a up,
              command_id-script_result cmd.command_id _ host.started host.finished,
              script_result_is_final cmd.command_id _ host.started host.finished,
            )
    ]
  ]

  handle_restart-Outcome : Outcome cmd.command_id a (handle_restart host cmd a)
  unfolding handle_restart cancel_session
  handle_restart-Outcome = Answers-send _ a up completed_is_final

  handle_shutdown-Outcome : Outcome cmd.command_id a (handle_shutdown host cmd a)
  unfolding handle_shutdown cancel_session
  handle_shutdown-Outcome = Answers-send _ a up completed_is_final

module _ (h : Hashing) (host : Host) (cmd : Command) (a : Agent) (up : IsOpen a) where
  collected-Answers : (info : HardwareInfo) → Answers cmd.command_id a (collected h host cmd info a)
  unfolding collected mark_sent
  collected-Answers info = elim (Bool-cases (is_changed h info a)) [
    | inr same ↦ rw same (Answers-send _ a up completed_is_final)
    | inl due ↦
        let p : ClientPayload = report_request (as_report host.report_id info) in
        let b = send p a in
        let r =
          success cmd.command_id (codes "hardware report triggered") host.started host.finished in
        let no_fault : first_fault a.send_faults ≡ false = rw up refl in
        rw (due, no_fault)
          (
            r,
            results-send_result r (record b { last_hash = hash_hardware h info })
                  (send-IsOpen p a up)
                ∙ ap (λ rs. rs ++ r ∷ [])
                    (results-send_report (as_report host.report_id info) a up),
            refl,
            completed_is_final,
          )
  ]

  after_collection-Outcome :
      (panic : Option Text) (info : Option HardwareInfo)
      → Outcome cmd.command_id a (after_collection h host cmd a panic info)
  unfolding after_collection
  after_collection-Outcome (some why) info = refl
  after_collection-Outcome none none = Answers-send _ a up failed_is_final
  after_collection-Outcome none (some info) = collected-Answers info

  handle_collect_now-Outcome : Outcome cmd.command_id a (handle_collect_now h host cmd a)
  unfolding handle_collect_now
  handle_collect_now-Outcome = after_collection-Outcome host.panic host.hardware

  run_handler-Outcome : (ty : CommandType) → Outcome cmd.command_id a (run_handler h host cmd ty a)
  unfolding run_handler
  run_handler-Outcome (negsuc n) = Answers-send _ a up failed_is_final
  run_handler-Outcome (pos n) = elim (Bool-cases (n == 1)) [
    | inl one ↦ rw one handle_collect_now-Outcome
    | inr e1 ↦ elim (Bool-cases (n == 2)) [
      | inl two ↦ rw (e1, two) (handle_run_script-Outcome host cmd a up)
      | inr e2 ↦ elim (Bool-cases (n == 6)) [
        | inl six ↦ rw (e1, e2, six) (handle_restart-Outcome host cmd a up)
        | inr e6 ↦ elim (Bool-cases (n == 7)) [
          | inl seven ↦ rw (e1, e2, e6, seven) (handle_shutdown-Outcome host cmd a up)
          | inr e7 ↦ rw (e1, e2, e6, e7) (Answers-send _ a up failed_is_final)
        ]
      ]
    ]
  ]

  recovered-Answers :
      (o : Handled) → Outcome cmd.command_id a o → Answers cmd.command_id a (recovered h host cmd o)
  unfolding recovered
  recovered-Answers (returned b) known = known
  recovered-Answers (panicked why b) e = rw e (Answers-send _ a up failed_is_final)

-- While the stream does not fail, a command of any type, with any parameters, is answered with just
-- two results under its identifier: Executing and then one with a final status, whatever the host
-- does, a panic included.
pub results-dispatch_command :
    (h : Hashing) (host : Host) (cmd : Command) (a : Agent)
    → IsOpen a
    → (r : CommandResult) × (results (dispatch_command h host cmd a).sent
        ≡ results a.sent ++ executing_result cmd.command_id host.begun ∷ r ∷ [])
      × (r.command_id ≡ cmd.command_id)
      × (is_open r.status ≡ false)
unfolding dispatch_command
results-dispatch_command h host cmd a up =
    let first = executing_result cmd.command_id host.begun in
    let b = send_command_result first a in
    let up' : IsOpen b = unfold send_command_result in send-IsOpen (command_result first) a up in
    let (r, sent, same, final) =
      recovered-Answers h host cmd b up' (run_handler h host cmd cmd.type b)
        (run_handler-Outcome h host cmd b up' cmd.type) in
    (
      r,
      sent
          ∙ ap (λ rs. rs ++ r ∷ []) (results-send_result first a up)
          ∙ append_assoc (results a.sent) (first ∷ []) (r ∷ []),
      same,
      final,
    )
