-- ===== src/Tests/Turn.antt =====
-- The turn executor at a concrete session.
use threadwire.Prelude.{
  ℕ, ◌≡◌, ◌⊎◌, refl, Bool, true, false, Option, none, some, [], ◌∷◌, Text, text, text_beq, ltb,
  if◌then◌else◌,
}
use threadwire.Domain.Errors.{
  Result, ok, err, threadwire_error, turn_state_uncertain, runtime_generation_changed,
}
use threadwire.Domain.Runtime.{RuntimeLease}
use threadwire.Domain.Identity.{Url}
use threadwire.Routing.Registry.{new_registry, resolve}
use threadwire.Routing.Scheduler.{new_scheduler}
use threadwire.Cdp.TurnTracker.{finished, write_failed}
use threadwire.Cdp.ResponseTracker.{completed}
use threadwire.Response.Consumer.{text_delta, completed_event}
use threadwire.Prelude.Dict.{get}
use threadwire.Exec.{◌>>=◌, attempt}
use threadwire.Turn.{
  TurnPort, Turn, thread, project, Race, ends, default_turn_options, new_response_state, ask,
  is_aborted, throw_if_aborted, settle_race, with_timeout, now, fail_closed,
}
use threadwire.Turn.Delivery.{
  is_blank, notify, deliver_delta, flush_deferred, announce_completed, announce_final,
  finalize_response_delivery, exceeds, deliver_each, deliver_taken, deliver_normalized_events,
  follow_response, update_streamed, update_response_delivery, apply_response_deadline,
}
use threadwire.Turn.Completion.{
  Poll, done, wait, new_result, terminal_error, throw_terminal, fail_turn,
}
use threadwire.Turn.Submission.{
  pre_commit, resolve_expected_route, composer_node, release_observation, target_node, prepare,
  assert_no_observed_pre_submit_write, inserted, insert, sent, send, fill_composer, commit, follow,
  submit, execute_scheduled, execute_internal, refuse_write, project_sent,
}
use threadwire.Turn.Outcome.{
  read_answered, read_turn_observation, finish_delivered, deliver_thread, finish_thread,
  follow_write, follow_observation, poll, poll_loop, wait_for_turn_outcome,
}
use threadwire.Turn.Closed.Outcome.{follow-Closes}
use threadwire.Turn.Protocol.{Completes, Begins}
use threadwire.Turn.Protocol.Execution.{execute_internal-Completes, execute_internal-Begins}
use threadwire.Turn.Passing.{Decided}
use threadwire.Turn.Decision.Execution.{execute_internal-Decided}

-- Every call succeeds, a write that has finished is seen from the ninth call on, and the response is
-- there at once. The clock counts the calls.
abbrev session : Bool → TurnPort
session streaming = record {
  aborted_from = none;
  aborted_by_timeout = false;
  clock = λ n. n;
  bound_mutation_cancellation = true;
  streaming = streaming;
  takes_response_events = true;
  discards_responses = true;
  inserts_into_project = true;
  clicks_send_button = true;
  clicks_existing_send_button = true;
  wait_for_turn_composer = λ n. ok tt;
  composer_state = λ n. ends (
      ok (record {
        expected_route = true;
        eligible = true;
        focused = true;
        empty = true;
        backend_dom_node_id = some 5;
      }));
  arm_turn_observation = λ n. ok tt;
  turn_observation = λ n. ok (record {
    prepared = 1;
    written = if ltb n 7 then none else some finished;
    streamed = some (completed, none);
  });
  take_turn_response_events = λ n. ok (text_delta (text "hi") ∷ completed_event ∷ []);
  discard_turn_response = λ n. ok tt;
  insert_text = λ n. ends (ok tt);
  insert_text_into_project_composer = λ n. ends (ok 7);
  dispatch_enter_key_down = λ n. ends (ok tt);
  dispatch_enter_key_up = λ n. ends (ok tt);
  click_turn_send_button = λ n. ends (ok tt);
  click_existing_turn_send_button = λ n. ends (ok tt);
  current_conversation_locator = λ n. ends (ok none);
  listener_throws = λ n e. false;
}

abbrev lease : RuntimeLease
lease = record { generation = 1; identity = record { pid = 4; creation_time = text "c" } }

abbrev no_url : Text → Option Url
no_url s = none

abbrev names : ℕ → Text
names n = text "x"

abbrev handle : Text
handle = text "tw_a"

abbrev start : Turn
start = record {
  tick = 0;
  registry = record new_registry {
    committed_handle_to_locator = (handle, text "https://chatgpt.com/c/1") ∷ [];
    locator_to_handle = (text "https://chatgpt.com/c/1", handle) ∷ [];
  };
  scheduler = new_scheduler;
  response = new_response_state false;
  delivered = [];
  pending_project_completions = [];
  next_result = 0;
  released = 0;
}

abbrev streamed : Turn × Result Poll
streamed =
    execute_internal no_url names (session true) default_turn_options lease 1 (thread handle)
      (text "hello") start

abbrev answer : Poll
answer = done (record { id = 0; thread_handle = handle; created = false })

streamed_returns : streamed ≡ (streamed.0, ok answer)
unfolding ask is_aborted throw_if_aborted settle_race with_timeout now is_blank notify deliver_delta
    flush_deferred announce_completed announce_final finalize_response_delivery exceeds deliver_each
    deliver_taken deliver_normalized_events follow_response update_streamed update_response_delivery
    apply_response_deadline wait new_result terminal_error throw_terminal read_answered
    read_turn_observation finish_delivered deliver_thread finish_thread follow_write
    follow_observation poll poll_loop wait_for_turn_outcome pre_commit resolve_expected_route
    composer_node release_observation target_node prepare assert_no_observed_pre_submit_write
    inserted insert sent send fill_composer commit follow submit execute_scheduled execute_internal
    refuse_write ◌>>=◌ attempt resolve get text_beq
streamed_returns = refl

execute_internal-Completes_example : Completes default_turn_options streamed.0.delivered
execute_internal-Completes_example =
    execute_internal-Completes no_url names (session true) default_turn_options lease refl 1
      (thread handle) (text "hello") start streamed.0
      (record { id = 0; thread_handle = handle; created = false }) refl streamed_returns

execute_internal-Begins_example : Begins streamed.0.delivered
execute_internal-Begins_example =
    execute_internal-Begins no_url names (session true) default_turn_options lease refl 1
      (thread handle) (text "hello") start refl

execute_internal-Decided_example :
    (rounds : ℕ) × Decided (
      execute_internal no_url names
        (session false)
        default_turn_options
        lease
        rounds
        (thread handle)
        (text "hello")
        start)
execute_internal-Decided_example =
    execute_internal-Decided no_url names (session false) default_turn_options lease refl
      (λ bound. bound) (λ bound n h. h) handle (text "hello") start

-- The same session with a write that fails.
abbrev failing : TurnPort
failing = record (session false) {
  turn_observation =
      λ n. ok (record { prepared = 1; written = some write_failed; streamed = none });
}

abbrev home : Text
home = text "https://chatgpt.com/g/g-p-0/project"

abbrev nowhere : Race (Option Text)
nowhere = ends (ok none)

none-some : {l : Text} → nowhere ≡ ends (ok (some l)) → ⊥
none-some p = cc

abbrev followed : Turn × Result Poll
followed = follow no_url names failing default_turn_options lease 1 (project home) start

followed_throws : followed ≡ (followed.0, err (threadwire_error turn_state_uncertain))
unfolding follow send project_sent with_timeout settle_race ask is_aborted now wait_for_turn_outcome
    poll_loop poll read_turn_observation read_answered update_response_delivery follow_observation
    apply_response_deadline follow_write fail_turn fail_closed attempt ◌>>=◌
followed_throws = refl

follow-Closes_example :
    (threadwire_error turn_state_uncertain ≡ threadwire_error runtime_generation_changed)
    ⊎ (followed.0.scheduler.uncertain_lease ≡ some lease)
follow-Closes_example =
    follow-Closes no_url names failing default_turn_options lease (λ n l p. absurd (none-some p)) 1
      home start followed.0 (threadwire_error turn_state_uncertain) followed_throws
