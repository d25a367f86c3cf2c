-- ===== src/Turn/Submission.antt =====
-- turn/TurnExecutor.ts: `executeScheduled`, from the preflight to the outcome. What the source keeps
-- as `callerCancelled` from the commit on is the signal's state when the loop begins.
use threadwire.Prelude.{
  ℕ, suc, Bool, true, false, not, ◌&&◌, ◌||◌, Option, none, some, Text, leb, if◌then◌else◌,
}
use threadwire.Domain.Errors.{
  Failure, Result, ok, err, threadwire_error, turn_input_failed, response_stream_unavailable,
  runtime_generation_changed, operation_aborted, cdp_disconnected, operation_timeout,
}
use threadwire.Domain.Runtime.{RuntimeLease}
use threadwire.Domain.Identity.{Url, is_empty}
use threadwire.Exec.{pure, raise, throws, lift, gets, modify, attempt, when, ◌>>=◌, ◌>>◌}
use threadwire.Routing.Registry.{resolve}
use threadwire.Cdp.TurnTracker.{WriteLifecycle, is_active}
use threadwire.Turn.{
  TurnTarget, thread, fresh, project, RouteExpectation, on_thread, on_fresh_root, on_project_root,
  TurnOptions, TurnPort, Turn, Act, ask, is_aborted, is_generation_changed, is_disconnected,
  with_timeout, throw_if_aborted, fail_closed, new_response_state,
}
use threadwire.Turn.Completion.{Poll, again, done, is_project}
use threadwire.Turn.Outcome.{read_turn_observation, wait_for_turn_outcome}

-- `Number.MAX_SAFE_INTEGER`
abbrev pub max_safe_integer : ℕ
max_safe_integer = 9007199254740991

unfoldable pub is_timeout : Failure → Bool
is_timeout (threadwire_error operation_timeout) = true
is_timeout e = false

unfoldable pub is_pre_commit : Failure → Bool
is_pre_commit (threadwire_error runtime_generation_changed) = true
is_pre_commit (threadwire_error operation_aborted) = true
is_pre_commit (threadwire_error cdp_disconnected) = true
is_pre_commit (threadwire_error response_stream_unavailable) = true
is_pre_commit (threadwire_error turn_input_failed) = true
is_pre_commit e = false

unfoldable pub rethrow_pre_commit : {A : Type 0} → Failure → Act A
rethrow_pre_commit e = if is_pre_commit e then raise e else throws turn_input_failed

-- A `catch` whose handler is `rethrowPreCommit`.
unfoldable pub pre_commit : {A : Type 0} → Result A → Act A
pre_commit (ok a) = pure a
pre_commit (err e) = rethrow_pre_commit e

unfoldable pub resolve_expected_route : TurnTarget → Act RouteExpectation
resolve_expected_route (thread handle) = do
  answer ← gets (λ t. resolve t.registry handle)
  locator ← lift answer
  pure (on_thread locator)
resolve_expected_route fresh = pure on_fresh_root
resolve_expected_route (project home) = pure (on_project_root home)

unfoldable pub composer_node : Option ℕ → Act (Option ℕ)
composer_node none = throws turn_input_failed
composer_node (some n) =
    if leb 1 n && leb n max_safe_integer then pure (some n) else throws turn_input_failed

unfoldable pub rethrow_post_commit : RuntimeLease → Failure → Act (Unit {0})
rethrow_post_commit lease e =
    if is_generation_changed e
    then raise e
    else if is_disconnected e || is_timeout e
    then fail_closed lease
    else pure tt

-- A turn that has ended has released its observation.
unfoldable pub release_observation : Turn × Result Poll → Turn × Result Poll
release_observation (t, ok (again p)) = (t, ok (again p))
release_observation (t, ok (done result)) =
    (record t { released = suc t.released }, ok (done result))
release_observation (t, err e) = (record t { released = suc t.released }, err e)

module _ (port : TurnPort) where
  unfoldable pub target_node : TurnTarget → Option ℕ → Act (Option ℕ)
  target_node (project home) backend =
      if not port.inserts_into_project || not port.clicks_send_button
      then throws turn_input_failed
      else composer_node backend
  target_node (thread handle) backend =
      if not port.clicks_existing_send_button
      then throws turn_input_failed
      else composer_node backend
  target_node fresh backend = pure none

  -- The first `try`: the composer's node for the targets that need one.
  unfoldable pub prepare : TurnTarget → Act (Option ℕ)
  prepare target = do
    ask port port.wait_for_turn_composer
    composer ← with_timeout port true port.composer_state
    if not composer.expected_route
          || not composer.eligible
          || not composer.focused
          || not composer.empty
        then throws turn_input_failed
        else if port.streaming && (not port.takes_response_events || not port.discards_responses)
        then throws response_stream_unavailable
        else target_node target composer.backend_dom_node_id

module _ (parse_url : Text → Option Url) (factory : ℕ → Text) (port : TurnPort)
    (options : TurnOptions) (lease : RuntimeLease) where
  unfoldable pub refuse_write : Bool → Option WriteLifecycle → Act (Unit {0})
  refuse_write fail_closed_on_any_write none = pure tt
  refuse_write fail_closed_on_any_write (some lifecycle) =
      if fail_closed_on_any_write || is_active (some lifecycle)
      then fail_closed lease
      else throws turn_input_failed

  unfoldable pub assert_no_observed_pre_submit_write : Bool → Act (Unit {0})
  assert_no_observed_pre_submit_write fail_closed_on_any_write = do
    snapshot ← read_turn_observation parse_url factory port options lease
    refuse_write fail_closed_on_any_write snapshot.written

  -- The `catch` of the input command.
  unfoldable pub inserted : {A : Type 0} → TurnTarget → Result A → Act (Unit {0})
  inserted target (ok a) = pure tt
  inserted target (err e) =
      if is_generation_changed e
      then raise e
      else if is_project target || is_disconnected e || is_timeout e
      then fail_closed lease
      else do assert_no_observed_pre_submit_write false; throws turn_input_failed

  unfoldable pub insert : TurnTarget → Act (Unit {0})
  insert (project home) = do
    answer ←
        attempt (
          with_timeout port port.bound_mutation_cancellation port.insert_text_into_project_composer)
    inserted (project home) answer
  insert target = do
    answer ← attempt (with_timeout port port.bound_mutation_cancellation port.insert_text)
    inserted target answer

  unfoldable pub project_sent : Result (Unit {0}) → Act (Unit {0})
  project_sent (ok sent) = pure tt
  project_sent (err e) = if is_generation_changed e then raise e else fail_closed lease

  unfoldable pub sent : Result (Unit {0}) → Act Bool
  sent (ok accepted) = pure true
  sent (err e) = do rethrow_post_commit lease e; pure false

  -- What submits the turn.
  unfoldable pub send : TurnTarget → Act (Unit {0})
  send (project home) = do
    answer ←
        attempt (with_timeout port port.bound_mutation_cancellation port.click_turn_send_button)
    project_sent answer
  send (thread handle) = do
    answer ←
        attempt
          (with_timeout port port.bound_mutation_cancellation port.click_existing_turn_send_button)
    accepted ← sent answer
    pure tt
  send fresh = do
    down ← attempt (with_timeout port port.bound_mutation_cancellation port.dispatch_enter_key_down)
    key_down_accepted ← sent down
    when key_down_accepted (do
      up ← attempt (with_timeout port port.bound_mutation_cancellation port.dispatch_enter_key_up)
      released ← sent up
      pure tt)

  -- The text goes into the composer, and the last checks before the submission.
  unfoldable pub fill_composer : TurnTarget → Act (Unit {0})
  fill_composer target = do
    throw_if_aborted port
    insert target
    assert_no_observed_pre_submit_write (is_project target)
    aborted ← gets (is_aborted port)
    when (is_project target && aborted) (fail_closed lease)
    throw_if_aborted port

  -- From the armed observation to the submission.
  unfoldable pub commit : TurnTarget → Act (Unit {0})
  commit target = do
    throw_if_aborted port
    when port.streaming (do
      assert_no_observed_pre_submit_write false
      modify (λ t. record t { response = new_response_state (is_project target) }))
    fill_composer target

  -- From the submission on.
  unfoldable pub follow : ℕ → TurnTarget → Act Poll
  follow rounds target = do
    send target
    caller_cancelled ← gets (is_aborted port)
    wait_for_turn_outcome parse_url factory port options lease rounds target caller_cancelled

  unfoldable pub submit : ℕ → TurnTarget → Act Poll
  submit rounds target = do commit target; follow rounds target

  unfoldable pub execute_scheduled : ℕ → TurnTarget → Act Poll
  execute_scheduled rounds target = do
    expected_route ← resolve_expected_route target
    prepared ← attempt (prepare port target)
    node ← pre_commit prepared
    armed ← attempt (ask port port.arm_turn_observation)
    observation ← pre_commit armed
    λ t. release_observation (submit rounds target t)

  -- The operation that `executeInternal` schedules, and its check before it.
  unfoldable pub execute_internal : ℕ → TurnTarget → Text → Act Poll
  execute_internal rounds target text =
      if is_empty text then throws turn_input_failed else execute_scheduled rounds target
