-- ===== src/Readiness/Controller.antt =====
-- readiness/ReadinessController.ts: the wait for a page that a gate finds ready. What answers it from
-- outside is a `ReadinessPort`: each call is answered as a function of `tick`, the number of calls
-- made before it, and the events of the signals are those that happen while the call runs, in
-- order. The messages and causes of errors are not modelled. Times are whole milliseconds.
pub mod Wait
pub mod Routes
pub mod Seen
pub mod Ready
pub mod Settled
pub mod Proof
pub mod Proven
pub mod Keeping
pub mod Later
pub mod Deadline
use threadwire.Prelude.{
  ℕ, zero, suc, ◌+◌, ◌≡◌, Bool, true, false, not, ◌&&◌, Option, none, some, List, [], ◌∷◌, Text,
  ◌==◌, nat_eq, text_eq, ltb, if◌then◌else◌,
}
use threadwire.Domain.Errors.{
  ErrorCode, Failure, Result, ok, err, threadwire_error, operation_aborted, operation_timeout,
  turn_state_uncertain, runtime_generation_changed, cdp_readiness_failed, range_error,
  existing_route_readiness_timeout, fresh_route_readiness_timeout,
}
use threadwire.Domain.Runtime.{RuntimeLease, same_runtime_lease}
use threadwire.Exec.{Exec, pure, raise, throws, lift, gets, modify, attempt, ◌>>=◌, ◌>>◌}
use threadwire.Turn.{RouteExpectation, on_thread, on_fresh_root, on_project_root}
use threadwire.Readiness.Gate as Gate
use threadwire.Readiness.Gate.{
  Snapshot, EditableTarget, BlockingNotice, absent, known_fresh_notice, Gate, new_gate,
  ReadinessAction, wait, ready, focus,
}
use threadwire.Readiness.Fresh as Fresh
use threadwire.Readiness.Fresh.{FreshGate}

pub data Policy : Type 0 where
  existing_policy fresh_policy : Policy

-- The options of the two policies, which their constructors have checked.
pub record Policies : Type 0 where
  pub required_frame : Policy → ℕ
  pub required_focus : Policy → ℕ
  pub guard_duration_ms : ℕ

pub data ActiveGate : Type 0 where
  existing_gate : Gate → ActiveGate
  fresh_gate : FreshGate → ActiveGate

abbrev pub below_gate : Policies → Policy → Gate
below_gate policies p = new_gate (policies.required_frame p) (policies.required_focus p)

-- `createGate` of the policy
unfoldable pub create : Policies → Policy → ActiveGate
create policies existing_policy = existing_gate (below_gate policies existing_policy)
create policies fresh_policy = fresh_gate (record {
  existing = below_gate policies fresh_policy;
  guard_duration_ms = policies.guard_duration_ms;
  guard_start_time = none;
})

abbrev on_existing : Gate × ReadinessAction → ActiveGate × ReadinessAction
on_existing (g, action) = (existing_gate g, action)

abbrev on_fresh : FreshGate × ReadinessAction → ActiveGate × ReadinessAction
on_fresh (g, action) = (fresh_gate g, action)

unfoldable pub observe : Snapshot → ℕ → ActiveGate → ActiveGate × ReadinessAction
observe s now (existing_gate g) = on_existing (Gate.observe s g)
observe s now (fresh_gate g) = on_fresh (Fresh.observe s now g)

pub record FreshReadinessProof : Type 0 where
  pub lease : RuntimeLease
  pub expected_route : RouteExpectation
  pub frame_id : Text
  pub loader_id : Text
  pub backend_dom_node_id : ℕ

pub data SignalEvent : Type 0 where
  timer_fires caller_aborts : SignalEvent

-- What `focusBackendNode` does: `candidate_changed` is a `ReadinessCandidateChangedError`.
pub data FocusAnswer : Type 0 where
  focused candidate_changed : FocusAnswer
  focus_fails : Failure → FocusAnswer

pub record ReadinessPort : Type 0 where
  pub happens : ℕ → List SignalEvent
  pub aborted_by_timeout : Bool
  pub clock : ℕ → ℕ
  -- whether there is a `dismissKnownFreshNotice`
  pub dismisses_notices : Bool
  pub dismiss_known_fresh_notice : ℕ → Result (Unit {0})
  pub readiness_snapshot : ℕ → Result Snapshot
  pub focus_backend_node : ℕ → FocusAnswer
  pub sleep : ℕ → Result (Unit {0})

-- `caller_aborted` is the caller's signal, `deadline` what `deadline.signal` of the latest wait was
-- aborted with; `observed` lists the snapshots that were answered, newest first, each with the
-- clock's value then.
pub record Waiting : Type 0 where
  pub tick : ℕ
  pub caller_aborted : Bool
  pub deadline : Option ErrorCode
  pub fresh_readiness_proof : Option FreshReadinessProof
  pub observed : List (Snapshot × ℕ)

abbrev pub default_existing_readiness_timeout_ms : ℕ
default_existing_readiness_timeout_ms = 20000

abbrev pub default_existing_readiness_poll_interval_ms : ℕ
default_existing_readiness_poll_interval_ms = 100

-- The constructor, which checks the timeout; no natural number is refused as a poll interval.
unfoldable pub new_controller : ℕ → Result Waiting
new_controller timeout_ms =
    if not (ltb 0 timeout_ms)
    then err range_error
    else ok (record {
      tick = 0;
      caller_aborted = false;
      deadline = none;
      fresh_readiness_proof = none;
      observed = [];
    })

abbrev pub Act : Type 0 → Type 0
Act A = Exec Waiting A

-- `controller.abort(error)`, of which only the first call counts
abbrev abort_with : Option ErrorCode → ErrorCode → ErrorCode
abort_with none c = c
abort_with (some first) c = first

unfoldable pub abort_by : SignalEvent → Waiting → Waiting
abort_by timer_fires w = record w { deadline = some (abort_with w.deadline operation_timeout) }
abort_by caller_aborts w = record w {
  caller_aborted = true;
  deadline = some (abort_with w.deadline operation_aborted);
}

unfoldable pub abort_by_each : List SignalEvent → Waiting → Waiting
unfolding abort_by
abort_by_each [] w = w
abort_by_each (e ∷ events) w = abort_by_each events (abort_by e w)

abbrev pub clear_proof : Act (Unit {0})
clear_proof = modify λ w. record w { fresh_readiness_proof = none }

-- `throwIfAborted(deadline.signal)`
abbrev pub deadline_result : Option ErrorCode → Result (Unit {0})
deadline_result none = ok tt
deadline_result (some c) = err (threadwire_error c)

unfoldable pub throw_if_expired : Act (Unit {0})
throw_if_expired w = (w, deadline_result w.deadline)

unfoldable pub is_blocking : Option BlockingNotice → Bool
is_blocking none = false
is_blocking (some absent) = false
is_blocking (some notice) = true

unfoldable pub is_known_fresh : Option BlockingNotice → Bool
is_known_fresh (some (known_fresh_notice dialog close)) = true
is_known_fresh notice = false

unfoldable pub is_fresh_root : RouteExpectation → Bool
is_fresh_root on_fresh_root = true
is_fresh_root route = false

module _ (port : ReadinessPort) where
  -- A call that the port answers.
  unfoldable pub ask : {A : Type 0} → (ℕ → A) → Act A
  ask answer w =
      (abort_by_each (port.happens w.tick) (record w { tick = w.tick + 1 }), ok (answer w.tick))

  abbrev pub call : {A : Type 0} → (ℕ → Result A) → Act A
  call answer = do r ← ask answer; lift r

  -- `throwIfAborted(signal)`
  unfoldable pub throw_if_aborted : Act (Unit {0})
  throw_if_aborted w = (
    w,
    if w.caller_aborted
        then err (
            threadwire_error
              (if port.aborted_by_timeout then operation_timeout else operation_aborted))
        else ok tt,
  )

  abbrev pub answered_at : Snapshot → Waiting → Waiting
  answered_at s w = record w { observed = (s, port.clock w.tick) ∷ w.observed }

  -- `getReadinessSnapshot`, with the clock's value
  unfoldable pub take_snapshot : Act (Snapshot × ℕ)
  take_snapshot = do
    s ← call port.readiness_snapshot
    now ← gets (λ w. port.clock w.tick)
    modify (answered_at s)
    pure (s, now)
