-- ===== src/Readiness/Controller/Wait.antt =====
-- readiness/ReadinessController.ts: `waitForRoute`, round by round.
use threadwire.Prelude.{
  ℕ, zero, suc, Bool, ◌&&◌, Option, none, some, nat_eq, text_eq, if◌then◌else◌,
}
use threadwire.Domain.Errors.{
  Failure, Result, ok, err, threadwire_error, operation_aborted, operation_timeout,
  turn_state_uncertain, runtime_generation_changed, cdp_readiness_failed,
}
use threadwire.Exec.{pure, raise, modify, attempt, ◌>>=◌, ◌>>◌}
use threadwire.Turn.{RouteExpectation}
use threadwire.Readiness.Gate.{Snapshot, ReadinessAction, wait, ready, focus}
use threadwire.Readiness.Controller.{
  Act, ActiveGate, FocusAnswer, Policies, Policy, ReadinessPort, ask, call, candidate_changed,
  clear_proof, create, focus_fails, focused, fresh_policy, is_blocking, is_fresh_root,
  is_known_fresh, observe, take_snapshot, throw_if_aborted, throw_if_expired,
}

-- `activeGateFactory` and `gate`
pub record Wait : Type 0 where
  pub policy : Policy
  pub gate : ActiveGate

pub data Round : Type 0 where
  found : Snapshot → Round
  again : Wait → Round

unfoldable pub readiness_failure : Failure → Failure
readiness_failure (threadwire_error operation_aborted) = threadwire_error operation_aborted
readiness_failure (threadwire_error runtime_generation_changed) =
    threadwire_error runtime_generation_changed
readiness_failure (threadwire_error turn_state_uncertain) = threadwire_error turn_state_uncertain
readiness_failure (threadwire_error operation_timeout) = threadwire_error operation_timeout
readiness_failure e = threadwire_error cdp_readiness_failed

unfoldable pub follow_focus : Wait → Wait → FocusAnswer → Act Wait
follow_focus kept renewed focused = pure kept
follow_focus kept renewed candidate_changed = do clear_proof; pure renewed
follow_focus kept renewed (focus_fails e) = raise e

module _ (port : ReadinessPort) (policies : Policies) (route : RouteExpectation) where
  abbrev pub new_wait : Policy → Wait
  new_wait p = record { policy = p; gate = create policies p }

  unfoldable pub may_dismiss : Snapshot → Bool
  may_dismiss s =
      is_fresh_root route
      && s.main_frame.expected_route
      && is_known_fresh s.blocking_notice
      && port.dismisses_notices

  -- A notice blocks the page.
  unfoldable pub handle_notice : Snapshot → Policy → Act Round
  handle_notice s p = do
    clear_proof
    if may_dismiss s
        then call port port.dismiss_known_fresh_notice >> pure (again (new_wait fresh_policy))
        else call port port.sleep >> pure (again (new_wait p))

  unfoldable pub act_on : Snapshot → Policy → ActiveGate × ReadinessAction → Act Round
  act_on s p (g, ready) = pure (found s)
  act_on s p (g, wait) = do call port port.sleep; pure (again (record { policy = p; gate = g }))
  act_on s p (g, focus node) = do
    answer ← ask port port.focus_backend_node
    next ← follow_focus (record { policy = p; gate = g }) (new_wait p) answer
    call port port.sleep
    pure (again next)

  unfoldable pub handle_snapshot : Wait → Snapshot × ℕ → Act Round
  handle_snapshot w (s, now) =
      if is_blocking s.blocking_notice
      then handle_notice s w.policy
      else act_on s w.policy (observe s now w.gate)

  unfoldable pub round : Wait → Act Round
  round w = do throw_if_expired; taken ← take_snapshot port; handle_snapshot w taken

  abbrev pub next_round : (Wait → Act (Option Snapshot)) → Round → Act (Option Snapshot)
  next_round loop (found s) = pure (some s)
  next_round loop (again w) = loop w

  -- The `while`, which has no answer yet when the rounds are used up.
  unfoldable pub wait_loop : ℕ → Wait → Act (Option Snapshot)
  wait_loop zero w = pure none
  wait_loop (suc rounds) w = do r ← round w; next_round (wait_loop rounds) r

  abbrev pub rethrow : {A : Type 0} → Result A → Act A
  rethrow (ok a) = pure a
  rethrow (err e) = raise (readiness_failure e)

  unfoldable pub wait_for_route : ℕ → Policy → Act (Option Snapshot)
  wait_for_route rounds p = do
    throw_if_aborted port
    modify (λ w. record w { deadline = none })
    outcome ← attempt (wait_loop rounds (new_wait p))
    rethrow outcome
