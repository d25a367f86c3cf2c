-- ===== src/Turn/Completion.antt =====
-- turn/TurnExecutor.ts: how a turn that made a conversation is completed, and how a completed turn
-- is confirmed or rolled back.
use threadwire.Prelude.{
  ℕ, ◌+◌, Bool, true, false, not, ◌&&◌, Option, none, some, Text, nat_eq, if◌then◌else◌,
}
use threadwire.Prelude.Dict.{get, put, delete}
use threadwire.Domain.Errors.{ErrorCode, Result, ok, err}
use threadwire.Domain.Runtime.{RuntimeLease}
use threadwire.Domain.Identity.{Url}
use threadwire.Exec.{pure, throws, lift, gets, modify, when, ◌>>=◌, ◌>>◌}
use threadwire.Routing.Registry.{
  ThreadRegistry, ThreadRegistrationResult, ProvisionalThreadRegistrationResult, existing, reserved,
  register_with_status, reserve_provisional_with_status, rollback_provisional, commit_provisional,
  has_locator,
}
use threadwire.Cdp.TurnTracker.{WriteLifecycle}
use threadwire.Turn.{
  TurnTarget, project, TurnResult, TurnPort, ResponseDeliveryState, Turn, Act, is_aborted,
  mark_uncertain, fail_closed, sleep,
}
use threadwire.Turn.Delivery.{has_failed, finalize_response_delivery}

-- The loop's variables; `lastFreshRouteError` is only a cause.
pub record Polling : Type 0 where
  pub committed_at : ℕ
  pub write_observed_at : Option ℕ
  pub previous_lifecycle : Option WriteLifecycle
  pub fresh_locator : Option Text
  pub caller_cancelled : Bool

-- A round of the loop: the variables of the next, or the result.
pub data Poll : Type 0 where
  again : Polling → Poll
  done : TurnResult → Poll

-- `await this.sleep(this.pollIntervalMs); continue;`
unfoldable pub wait : Polling → Act Poll
wait p = do sleep; pure (again p)

abbrev pub is_project : TurnTarget → Bool
is_project (project locator) = true
is_project target = false

-- `Object.freeze({ kind: "THREAD", … })`
unfoldable pub new_result : Text → Bool → Act TurnResult
new_result handle created t = (
  record t { next_result = t.next_result + 1 },
  ok (record { id = t.next_result; thread_handle = handle; created = created }),
)

-- `if (target.kind === "PROJECT") this.failClosed(…); throw …`
unfoldable pub fail_turn : {A : Type 0} → RuntimeLease → TurnTarget → ErrorCode → Act A
fail_turn lease target c = if is_project target then fail_closed lease else throws c

-- `responseState?.terminalError`
unfoldable pub terminal_error : TurnPort → Act (Option ErrorCode)
terminal_error port = gets λ t. if port.streaming then t.response.terminal_error else none

unfoldable pub throw_terminal : RuntimeLease → TurnTarget → Option ErrorCode → Act (Unit {0})
throw_terminal lease target none = pure tt
throw_terminal lease target (some c) = fail_turn lease target c

-- A call of the registry, which is a field of the executor, with what it returns or throws.
unfoldable pub on_registry : {A : Type 0} → (ThreadRegistry → ThreadRegistry × A) → Act A
on_registry f t = (record t { registry = (f t.registry).0 }, ok (f t.registry).1)

module _ (lease : RuntimeLease) where
  unfoldable pub reserve_answered :
      Result ProvisionalThreadRegistrationResult → Act ProvisionalThreadRegistrationResult
  reserve_answered (ok (reserved handle transaction)) = pure (reserved handle transaction)
  reserve_answered (ok (existing handle)) = fail_closed lease
  reserve_answered (err e) = fail_closed lease

  unfoldable pub register_answered : Result ThreadRegistrationResult → Act ThreadRegistrationResult
  register_answered (ok registration) =
      if registration.created then pure registration else fail_closed lease
  register_answered (err e) = fail_closed lease

  unfoldable pub create_pending_project_result : Text → ℕ → Act TurnResult
  create_pending_project_result handle transaction = do
    result ← new_result handle true
    modify (λ t. record t {
      pending_project_completions =
          put t.pending_project_completions result.id
            (record { lease = lease; transaction = transaction });
    })
    pure result

-- The rollback of what `beforeCompleted` had reserved.
unfoldable pub roll_back : Option (Option ProvisionalThreadRegistrationResult) → Act (Unit {0})
roll_back (some (some (reserved handle transaction))) = do
  was_open ← on_registry (λ r. rollback_provisional r transaction)
  pure tt
roll_back left = pure tt

unfoldable pub throw_undelivered :
    RuntimeLease
    → TurnTarget
    → Option (Option ProvisionalThreadRegistrationResult)
    → Option ErrorCode
    → Act (Unit {0})
throw_undelivered lease target left none = pure tt
throw_undelivered lease target left (some c) = do roll_back left; fail_turn lease target c

module _ (parse_url : Text → Option Url) (factory : ℕ → Text) (port : TurnPort)
    (lease : RuntimeLease) where
  unfoldable pub reserve_project_conversation : Text → Act ProvisionalThreadRegistrationResult
  reserve_project_conversation locator = do
    answer ← on_registry (λ r. reserve_provisional_with_status parse_url factory r locator)
    reserve_answered lease answer

  unfoldable pub register_project_conversation : Text → Act ThreadRegistrationResult
  register_project_conversation locator = do
    answer ← on_registry (λ r. register_with_status parse_url factory r locator)
    register_answered lease answer

  -- Before the last event of a Project's turn; nothing for other targets.
  unfoldable pub before_completed :
      TurnTarget → Text → Act (Option ProvisionalThreadRegistrationResult)
  before_completed (project home) locator = do
    aborted ← gets (is_aborted port)
    when aborted (fail_closed lease)
    registration ← reserve_project_conversation locator
    pure (some registration)
  before_completed target locator = pure none

  -- `freshRegistration`
  unfoldable pub register_fresh : TurnTarget → Text → Act (Option ThreadRegistrationResult)
  register_fresh (project home) locator = pure none
  register_fresh target locator = do
    answer ← on_registry (λ r. register_with_status parse_url factory r locator)
    registration ← lift answer
    pure (some registration)

  unfoldable pub refuse_known : TurnTarget → Text → Act (Unit {0})
  refuse_known (project home) locator = do
    answer ← gets (λ t. has_locator parse_url t.registry locator)
    known ← lift answer
    when known (fail_closed lease)
  refuse_known target locator = pure tt

  unfoldable pub registered : Option ThreadRegistrationResult → Text → Act ThreadRegistrationResult
  registered (some registration) locator = pure registration
  registered none locator = register_project_conversation locator

  unfoldable pub complete_result : TurnTarget → Text → Option ThreadRegistrationResult → Act Poll
  complete_result target locator fresh_registration = do
    aborted ← gets (is_aborted port)
    when (is_project target && not port.streaming && aborted) (fail_closed lease)
    registration ← registered fresh_registration locator
    result ← new_result registration.thread_handle registration.created
    pure (done result)

  unfoldable pub complete_delivered :
      TurnTarget
      → Text
      → Option ThreadRegistrationResult
      → Option (Option ProvisionalThreadRegistrationResult)
      → Act Poll
  complete_delivered target locator registration (some (some (reserved handle transaction))) = do
    result ← create_pending_project_result lease handle transaction
    pure (done result)
  complete_delivered target locator registration (some (some (existing handle))) = fail_closed lease
  complete_delivered target locator registration (some none) =
      complete_result target locator registration
  complete_delivered target locator registration none = complete_result target locator registration

  unfoldable pub finish_delivery :
      TurnTarget
      → Polling
      → Text
      → Option ThreadRegistrationResult
      → Bool × Option (Option ProvisionalThreadRegistrationResult)
      → Act Poll
  finish_delivery target p locator registration (finalized, left) = do
    terminal ← terminal_error port
    throw_undelivered lease target left terminal
    if finalized then complete_delivered target locator registration left else wait p

  unfoldable pub complete_registered :
      TurnTarget → Polling → Text → Option ThreadRegistrationResult → Act Poll
  complete_registered target p locator registration = do
    terminal ← terminal_error port
    throw_terminal lease target terminal
    if not port.streaming then complete_result target locator registration else do
      finalized ← finalize_response_delivery port (before_completed target locator)
      finish_delivery target p locator registration finalized

  -- Whether the response is still to be waited for.
  unfoldable pub awaits_response : ResponseDeliveryState → Bool
  awaits_response r = port.streaming && not (has_failed r) && not r.semantic_completed

  -- The conversation is there and its write has finished.
  unfoldable pub complete_turn : TurnTarget → Polling → Text → Act Poll
  complete_turn target p locator = do
    r ← gets (λ t. t.response)
    if awaits_response r then wait p else do
      registration ← register_fresh target locator
      refuse_known target locator
      complete_registered target p locator registration

-- `confirmCompletedTurn`
unfoldable pub confirm_completed_turn : TurnResult → Turn → Turn
confirm_completed_turn result t = elim (get t.pending_project_completions result.id) [
  | none ↦ t
  | some pending ↦ record t {
    pending_project_completions = delete t.pending_project_completions result.id;
    registry = (commit_provisional t.registry pending.transaction).0;
  }
]

-- `rollbackCompletedTurn`
unfoldable pub rollback_completed_turn : TurnResult → Turn → Turn
rollback_completed_turn result t = elim (get t.pending_project_completions result.id) [
  | none ↦ t
  | some pending ↦
      let (registry, was_open) = rollback_provisional t.registry pending.transaction in
      let forgotten = record t {
        pending_project_completions = delete t.pending_project_completions result.id;
        registry = registry;
      } in
      if was_open then mark_uncertain pending.lease forgotten else forgotten
]
