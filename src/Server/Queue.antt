-- ===== src/Server/Queue.antt =====
-- The command queue of a session, against a list: what is accepted is delivered in order.
use team_x.Base.{
  ◌+◌, ◌≤◌, ◌≡◌, refl, ap, ◌∙◌, sym, inl, inr, Option, none, some, List, [], ◌∷◌, ◌++◌, arith, Text,
  if◌then◌else◌, find, Bool-cases, Option-cases, find-update_where, find-passes, length,
  length-append, append_assoc, append-nil,
}
use team_x.Proto.Messages.{Command}
use team_x.Server.Connection.{
  ClientConn, ConnectionManager, cmd_queue_capacity, is_session, get, has_room, enqueue, dequeue,
  tail_queue,
}

-- The non-blocking send of `SendCommand` and the receive of the consumer.
pub data Move : Type 0 where
  offer : Command → Move
  pull : Move

-- What was accepted and what was delivered, oldest first, and the registry after it.
pub record Run : Type 0 where
  pub accepted : List Command
  pub delivered : List Command
  pub cm : ConnectionManager

abbrev pub queue_of : Option ClientConn → List Command
queue_of none = []
queue_of (some c) = c.cmd_queue

abbrev pub accepts : Command → Option ClientConn → List Command
accepts cmd none = []
accepts cmd (some c) = if has_room c then cmd ∷ [] else []

abbrev first : List Command → List Command
first [] = []
first (cmd ∷ q) = cmd ∷ []

unfoldable pub run : Text → List Move → ConnectionManager → Run
run sid [] cm = record { accepted = []; delivered = []; cm = cm }
run sid (offer cmd ∷ moves) cm =
    let rest = run sid moves (enqueue sid cmd cm) in
    record rest { accepted = accepts cmd (get sid cm) ++ rest.accepted }
run sid (pull ∷ moves) cm =
    let rest = run sid moves (dequeue sid cm) in
    record rest { delivered = first (queue_of (get sid cm)) ++ rest.delivered }

pub get-enqueue :
    (sid : Text) (cmd : Command) (cm : ConnectionManager)
    → queue_of (get sid (enqueue sid cmd cm)) ≡ queue_of (get sid cm) ++ accepts cmd (get sid cm)
unfolding get enqueue
get-enqueue sid cmd cm =
    rw
      (find-update_where (is_session sid) (is_session sid)
        (λ c. if has_room c then record c { cmd_queue = c.cmd_queue ++ cmd ∷ [] } else c)
        cm.sessions (λ c. ground arith))
      (elim (Option-cases (find (is_session sid) cm.sessions)) [
        | inl missing ↦ rw missing refl
        | inr (c, found) ↦ rw (found, find-passes (is_session sid) cm.sessions c found) (roomy c)
      ])
  where
    roomy :
        (c : ClientConn)
        → (if has_room c then record c { cmd_queue = c.cmd_queue ++ cmd ∷ [] } else c).cmd_queue
          ≡ c.cmd_queue ++ (if has_room c then cmd ∷ [] else [])
    roomy c = elim (Bool-cases (has_room c)) [
      | inl room ↦ rw room refl
      | inr full ↦ rw (full, append-nil) refl
    ]

get-dequeue :
    (sid : Text) (cm : ConnectionManager)
    → queue_of (get sid (dequeue sid cm)) ≡ tail_queue (queue_of (get sid cm))
unfolding get dequeue
get-dequeue sid cm =
    rw
      (find-update_where (is_session sid) (is_session sid)
        (λ c. record c { cmd_queue = tail_queue c.cmd_queue }) cm.sessions (λ c. refl))
      (elim (Option-cases (find (is_session sid) cm.sessions)) [
        | inl missing ↦ rw missing refl
        | inr (c, found) ↦ rw (found, find-passes (is_session sid) cm.sessions c found) refl
      ])

first-tail : (q : List Command) → first q ++ tail_queue q ≡ q
first-tail [] = refl
first-tail (cmd ∷ q) = refl

-- What stood in the queue and then what was accepted is what was delivered and then what stands in
-- the queue, in this order: no command is lost, doubled or overtaken, whatever the moves are.
pub run_fifo :
    (sid : Text) (moves : List Move) (cm : ConnectionManager)
    → queue_of (get sid cm) ++ (run sid moves cm).accepted
      ≡ (run sid moves cm).delivered ++ queue_of (get sid (run sid moves cm).cm)
unfolding run
run_fifo sid [] cm = append-nil (queue_of (get sid cm))
run_fifo sid (offer cmd ∷ moves) cm =
    sym (append_assoc (queue_of (get sid cm)) (accepts cmd (get sid cm)) _)
    ∙ ap (λ q. q ++ (run sid moves (enqueue sid cmd cm)).accepted) (sym (get-enqueue sid cmd cm))
    ∙ run_fifo sid moves (enqueue sid cmd cm)
run_fifo sid (pull ∷ moves) cm =
    ap (λ q. q ++ (run sid moves (dequeue sid cm)).accepted)
      (sym (first-tail (queue_of (get sid cm))))
    ∙ append_assoc (first (queue_of (get sid cm))) (tail_queue (queue_of (get sid cm))) _
    ∙ ap (λ q. first (queue_of (get sid cm)) ++ (q ++ (run sid moves (dequeue sid cm)).accepted))
        (sym (get-dequeue sid cm))
    ∙ ap (λ q. first (queue_of (get sid cm)) ++ q) (run_fifo sid moves (dequeue sid cm))
    ∙ sym (append_assoc (first (queue_of (get sid cm))) _ _)

length-tail_queue-le : (q : List Command) → length (tail_queue q) ≤ length q
length-tail_queue-le [] = omega arith
length-tail_queue-le (cmd ∷ q) = omega arith

length-accepts :
    (cmd : Command) (o : Option ClientConn)
    → length (queue_of o) ≤ cmd_queue_capacity
    → length (queue_of o) + length (accepts cmd o) ≤ cmd_queue_capacity
length-accepts cmd none h = omega arith
length-accepts cmd (some c) h = ground arith

-- A queue within the capacity stays within it.
pub run-bounded :
    (sid : Text) (moves : List Move) (cm : ConnectionManager)
    → length (queue_of (get sid cm)) ≤ cmd_queue_capacity
    → length (queue_of (get sid (run sid moves cm).cm)) ≤ cmd_queue_capacity
unfolding run
run-bounded sid [] cm h = h
run-bounded sid (offer cmd ∷ moves) cm h = run-bounded sid moves (enqueue sid cmd cm) (
    rw get-enqueue (
      omega (
        arith,
        length-append (queue_of (get sid cm)) (accepts cmd (get sid cm)),
        length-accepts cmd (get sid cm) h,
      )))
run-bounded sid (pull ∷ moves) cm h =
    run-bounded sid moves (dequeue sid cm)
      (rw get-dequeue (omega (arith, length-tail_queue-le (queue_of (get sid cm)))))
