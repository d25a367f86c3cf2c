-- ===== src/Turn.antt =====
-- turn/types.ts and the data of turn/TurnExecutor.ts. A turn runs as one method over the state
-- below. What answers it from outside (the CDP session behind `TurnCdpPort`, the preflight, the
-- caller's signal and listener, the clock) is a `TurnPort`: each call is answered as a function of
-- `tick`, the number of calls made before it, so a port is any behaviour whatever of these. The
-- causes and messages of errors are not modelled. Times are whole milliseconds.
pub mod Delivery
pub mod Completion
pub mod Outcome
pub mod Submission
pub mod Closed
pub mod Protocol
pub mod Passing
pub mod Decision
use threadwire.Prelude.{
  ℕ, ◌+◌, ◌≡◌, Bool, true, false, ◌&&◌, Option, none, some, List, [], ◌∷◌, ◌++◌, Text, ltb, leb,
  if◌then◌else◌,
}
use threadwire.Prelude.Dict.{Dict, get, put, delete}
use threadwire.Domain.Errors.{
  ErrorCode, Failure, Result, ok, err, threadwire_error, operation_aborted, operation_timeout,
  turn_state_uncertain, runtime_generation_changed, cdp_disconnected, type_error, range_error,
}
use threadwire.Domain.Runtime.{RuntimeLease}
use threadwire.Exec.{Exec, pure, throws, lift, gets, modify, ◌>>=◌, ◌>>◌}
use threadwire.Routing.Registry.{ThreadRegistry}
use threadwire.Routing.Scheduler.{OperationScheduler, mark_runtime_mutation_state_uncertain}
use threadwire.Cdp.TurnTracker.{Snapshot, WriteLifecycle}
use threadwire.Response.Consumer.{StreamEvent}

pub data TurnTarget : Type 0 where
  thread : Text → TurnTarget
  fresh : TurnTarget
  project : Text → TurnTarget

-- `id` is the identity of the object, which the executor's `WeakMap` reads.
pub record TurnResult : Type 0 where
  pub id : ℕ
  pub thread_handle : Text
  pub created : Bool

pub data RouteExpectation : Type 0 where
  on_thread : Text → RouteExpectation
  on_fresh_root : RouteExpectation
  on_project_root : Text → RouteExpectation

-- What the caller's listener is given.
pub data ResponseEvent : Type 0 where
  delta final_text : Text → ResponseEvent
  response_completed : ResponseEvent

pub record TurnOptions : Type 0 where
  pub write_observation_timeout_ms : ℕ
  pub write_settlement_timeout_ms : ℕ
  pub response_completion_timeout_ms : ℕ
  pub max_accumulated_text_chars : ℕ
  pub fresh_conversation_timeout_ms : ℕ

abbrev pub default_turn_options : TurnOptions
default_turn_options = record {
  write_observation_timeout_ms = 15000;
  write_settlement_timeout_ms = 120000;
  response_completion_timeout_ms = 120000;
  max_accumulated_text_chars = 1048576;
  fresh_conversation_timeout_ms = 15000;
}

-- The listener is the port's.
pub record ResponseDeliveryState : Type 0 where
  pub delivery_deferred : Bool
  pub semantic_completed : Bool
  pub finalized : Bool
  pub terminal_error : Option ErrorCode
  pub discarded : Bool
  pub accumulated_text : Text

abbrev pub new_response_state : Bool → ResponseDeliveryState
new_response_state deferred = record {
  delivery_deferred = deferred;
  semantic_completed = false;
  finalized = false;
  terminal_error = none;
  discarded = false;
  accumulated_text = [];
}

pub record PendingProjectCompletion : Type 0 where
  pub lease : RuntimeLease
  pub transaction : ℕ

pub record ComposerState : Type 0 where
  pub expected_route : Bool
  pub eligible : Bool
  pub focused : Bool
  pub empty : Bool
  pub backend_dom_node_id : Option ℕ

-- What `withTimeout` sees of a call: it ends, or the deadline's controller aborts first.
pub data Race (A : Type 0) : Type 0 where
  ends : Result A → Race A
  deadline : Race A

pub record TurnPort : Type 0 where
  -- from which call on the caller's signal is aborted, and whether its reason is a timeout error
  pub aborted_from : Option ℕ
  pub aborted_by_timeout : Bool
  pub clock : ℕ → ℕ
  pub bound_mutation_cancellation : Bool
  -- whether the caller passed a listener, and which of the optional methods there are
  pub streaming : Bool
  pub takes_response_events : Bool
  pub discards_responses : Bool
  pub inserts_into_project : Bool
  pub clicks_send_button : Bool
  pub clicks_existing_send_button : Bool
  pub wait_for_turn_composer : ℕ → Result (Unit {0})
  pub composer_state : ℕ → Race ComposerState
  pub arm_turn_observation : ℕ → Result (Unit {0})
  pub turn_observation : ℕ → Result Snapshot
  pub take_turn_response_events : ℕ → Result (List StreamEvent)
  pub discard_turn_response : ℕ → Result (Unit {0})
  pub insert_text : ℕ → Race (Unit {0})
  pub insert_text_into_project_composer : ℕ → Race ℕ
  pub dispatch_enter_key_down : ℕ → Race (Unit {0})
  pub dispatch_enter_key_up : ℕ → Race (Unit {0})
  pub click_turn_send_button : ℕ → Race (Unit {0})
  pub click_existing_turn_send_button : ℕ → Race (Unit {0})
  pub current_conversation_locator : ℕ → Race (Option Text)
  pub listener_throws : ℕ → ResponseEvent → Bool

-- `delivered` lists the calls of the listener, oldest first, those that threw included; `response`
-- is the local `responseState`, which is null unless the port has a listener; `released` counts the
-- releases of the observation.
pub record Turn : Type 0 where
  pub tick : ℕ
  pub registry : ThreadRegistry
  pub scheduler : OperationScheduler
  pub response : ResponseDeliveryState
  pub delivered : List ResponseEvent
  pub pending_project_completions : Dict ℕ PendingProjectCompletion
  pub next_result : ℕ
  pub released : ℕ

abbrev pub Act : Type 0 → Type 0
Act A = Exec Turn A

abbrev pub advance : Turn → Turn
advance t = record t { tick = t.tick + 1 }

-- `error instanceof RuntimeGenerationChangedError`, and so on
unfoldable pub is_generation_changed : Failure → Bool
is_generation_changed (threadwire_error runtime_generation_changed) = true
is_generation_changed e = false

unfoldable pub is_disconnected : Failure → Bool
is_disconnected (threadwire_error cdp_disconnected) = true
is_disconnected e = false

-- `await this.sleep(…)`
abbrev pub sleep : Act (Unit {0})
sleep = modify advance

abbrev pub at_or_after : Option ℕ → ℕ → Bool
at_or_after none now = false
at_or_after (some start) now = leb start now

module _ (port : TurnPort) where
  -- A call that the port answers.
  unfoldable pub ask : {A : Type 0} → (ℕ → Result A) → Act A
  ask answer t = (advance t, answer t.tick)

  -- `signal?.aborted`
  unfoldable pub is_aborted : Turn → Bool
  is_aborted t = at_or_after port.aborted_from t.tick

  abbrev pub abort_error : ErrorCode
  abort_error = if port.aborted_by_timeout then operation_timeout else operation_aborted

  -- `throwIfAborted(signal)`
  unfoldable pub throw_if_aborted : Act (Unit {0})
  unfolding is_aborted
  throw_if_aborted t = (t, if is_aborted t then err (threadwire_error abort_error) else ok tt)

  -- What the race of `withTimeout` throws when its controller is aborted: by the signal that it
  -- watches, if it watches one, or by its timer.
  unfoldable pub settle_race : {A : Type 0} → Bool → Race A → Act A
  unfolding is_aborted
  settle_race watched (ends r) t = (t, r)
  settle_race watched deadline t = (
    t,
    err (
        threadwire_error
          (if watched && is_aborted t then operation_aborted else operation_timeout)),
  )

  -- `withTimeout(operation, timeoutMs, { signal })`, where `watched` says that a signal is passed
  unfoldable pub with_timeout : {A : Type 0} → Bool → (ℕ → Race A) → Act A
  unfolding ask is_aborted throw_if_aborted settle_race
  with_timeout watched answer = do
    aborted ← gets is_aborted
    if watched && aborted
        then throws abort_error
        else do race ← ask (λ now. ok (answer now)); settle_race watched race

  -- `this.clock()`
  unfoldable pub now : Act ℕ
  unfolding ask
  now = ask (λ tick. ok (port.clock tick))

module _ (lease : RuntimeLease) where
  abbrev pub mark_uncertain : Turn → Turn
  mark_uncertain t = record t {
    scheduler = mark_runtime_mutation_state_uncertain lease t.scheduler;
  }

  -- `failClosed`, for any cause
  unfoldable pub fail_closed : {A : Type 0} → Act A
  fail_closed = do modify mark_uncertain; throws turn_state_uncertain
