-- ===== src/EndToEnd/Blocking.antt =====
-- A blocked device from both sides: `Register` of the server and `Run` of the client.
use team_x.Base.{
  ℕ, ◌≡◌, refl, ap, ◌∙◌, true, false, none, some, List, ◌∷◌, arith, Text, codes, inl, inr,
}
use team_x.Proto.Messages.{reply}
use team_x.Store.Sql.{IsUp}
use team_x.Store.Terminals.{device_blocked}
use team_x.Server.Connection.{get, is_full}
use team_x.Server.Service.{Server, register, blocked_response}
use team_x.Server.Registration.{register-up}
use team_x.Client.Agent.{Agent}
use team_x.Client.Cache.{Hashing}
use team_x.Client.Session.{
  rejected, Network, closed, answered, registered, handshake, with_device_id, connect, is_fatal,
  Round, fatal, RunState, waited, run,
}
use team_x.Client.Session.Running.{run-fatal}

module _ (h : Hashing) (net : Network) (a : Agent) where
  connect-answered :
      net.dial_fails ≡ false
      → connect h net a ≡ answered h net net.answer (with_device_id net.generated a)
  unfolding connect
  connect-answered d = ground arith

  connect-blocked :
      net.dial_fails ≡ false
      → net.answer ≡ some (reply blocked_response)
      → connect h net a
        ≡ closed (some (rejected (codes "device is blocked"))) (with_device_id net.generated a)
  unfolding registered
  connect-blocked d e =
      connect-answered d ∙ ap (λ o. answered h net o (with_device_id net.generated a)) e

-- A client whose device the server has blocked stops for good: with room in the registry and an
-- engine that does not fail, the answer of `Register` makes `Run` return "device is blocked", with
-- no attempt after it.
pub run-register :
    (h : Hashing) (r : Round) (rs : List Round) (st : RunState) (sid : Text) (now : ℕ)
    (stamp : Text) (s : Server)
    → IsUp s.db
    → is_full s.cm ≡ false
    → get sid s.cm ≡ none
    → device_blocked (with_device_id r.net.generated st.agent).device_id s.db.terminals ≡ true
    → r.net.dial_fails ≡ false
    → r.net.answer
      ≡ some (register (handshake (with_device_id r.net.generated st.agent)) sid now stamp s).0
    → st.agent.shutdown_requested ≡ false
    → r.done ≡ false
    → r.done_waiting ≡ false
    → run h (r ∷ rs) st ≡ (
      fatal (rejected (codes "device is blocked")),
      record (waited st r) { agent = with_device_id r.net.generated st.agent },
    )
unfolding handshake
run-register h r rs st sid now stamp s up room fresh blocked dial answer on d w =
    let a = with_device_id r.net.generated st.agent in
    let refused : (register (handshake a) sid now stamp s).0 ≡ reply blocked_response =
      elim (register-up (handshake a) sid now stamp s up room fresh) [
        | inl turned_away ↦ turned_away.1
        | inr welcomed ↦ absurd (ground (arith, welcomed.0, blocked))
      ] in
    run-fatal h r rs st (rejected (codes "device is blocked")) a on d w
      (connect-blocked h r.net st.agent dial (answer ∙ ap some refused)) (unfold is_fatal in refl)
