-- ===== src/Turn/Outcome.antt =====
-- turn/TurnExecutor.ts: `waitForTurnOutcome`, one round of its loop at a time, from the local
-- variables to those of the next round or to the result.
use threadwire.Prelude.{
  ℕ, zero, suc, ◌+◌, Bool, true, false, not, ◌&&◌, ◌||◌, Option, none, some, Text, leb, ◌==◌,
  text_eq, if◌then◌else◌, is_some,
}
use threadwire.Domain.Errors.{
  Result, ok, err, operation_aborted, fresh_conversation_not_created, turn_write_failed,
}
use threadwire.Domain.Runtime.{RuntimeLease}
use threadwire.Domain.Identity.{
  Url, conversation_belongs_to_project, is_unscoped_conversation_locator,
}
use threadwire.Exec.{pure, raise, throws, gets, attempt, when, ◌>>=◌, ◌>>◌}
use threadwire.Cdp.TurnTracker.{Snapshot, WriteLifecycle, active, finished, write_failed, is_active}
use threadwire.Turn.{
  TurnTarget, thread, fresh, project, TurnOptions, TurnPort, Act, ask, is_aborted,
  is_generation_changed, is_disconnected, with_timeout, now, fail_closed,
}
use threadwire.Turn.Delivery.{
  update_response_delivery, apply_response_deadline, finalize_response_delivery,
}
use threadwire.Turn.Completion.{
  Polling, Poll, again, done, wait, fail_turn, new_result, terminal_error, throw_terminal,
  complete_turn,
}

-- What a check of a locator that may throw leaves in the variable: a throw leaves the locator.
abbrev pub unless_refused : Option Bool → Text → Option Text
unless_refused (some false) locator = none
unless_refused _ locator = some locator

abbrev pub unless_other : Option Bool → Bool → Text → Option Text
unless_other (some true) same locator = if same then some locator else none
unless_other (some false) same locator = none
unless_other none same locator = some locator

abbrev pub is_finished : WriteLifecycle → Bool
is_finished finished = true
is_finished lifecycle = false

abbrev pub observed_time : Polling → WriteLifecycle → ℕ → ℕ
observed_time p lifecycle time =
    if not (is_active p.previous_lifecycle) && is_active (some lifecycle)
    then time
    else (elim p.write_observed_at [ none ↦ time | some start ↦ start ])

-- The variables before the first round.
abbrev pub new_polling : ℕ → Bool → Polling
new_polling committed_at cancelled = record {
  committed_at = committed_at;
  write_observed_at = none;
  previous_lifecycle = none;
  fresh_locator = none;
  caller_cancelled = cancelled;
}

abbrev pub next_round : (Polling → Act Poll) → Poll → Act Poll
next_round continue (done result) = pure (done result)
next_round continue (again p) = continue p

module _ (parse_url : Text → Option Url) (factory : ℕ → Text) (port : TurnPort)
    (options : TurnOptions) (lease : RuntimeLease) where
  unfoldable pub read_answered : Result Snapshot → Act Snapshot
  read_answered (ok snapshot) = pure snapshot
  read_answered (err e) = if is_generation_changed e then raise e else fail_closed lease

  unfoldable pub read_turn_observation : Act Snapshot
  read_turn_observation = do answer ← attempt (ask port port.turn_observation); read_answered answer

  -- `freshLocator` once the route has been read
  unfoldable pub accept_locator : TurnTarget → Option Text → Option Text
  accept_locator target none = none
  accept_locator (project home) (some locator) =
      unless_refused (conversation_belongs_to_project parse_url locator home) locator
  accept_locator fresh (some locator) =
      unless_refused (is_unscoped_conversation_locator parse_url locator) locator
  accept_locator (thread handle) (some locator) = some locator

  -- `currentFreshLocator`: a Project's conversation must also be the one found before
  unfoldable pub same_locator : TurnTarget → Text → Option Text → Option Text
  same_locator target found none = none
  same_locator (project home) found (some current) =
      unless_other (conversation_belongs_to_project parse_url current home) (current == found)
        current
  same_locator target found (some current) = accept_locator target (some current)

  unfoldable pub route_answered : WriteLifecycle → Result (Option Text) → Act (Option Text)
  route_answered lifecycle (ok locator) = pure locator
  route_answered lifecycle (err e) =
      if is_generation_changed e
      then raise e
      else if is_disconnected e && is_active (some lifecycle)
      then fail_closed lease
      else pure none

  unfoldable pub route_revalidated : Result (Option Text) → Act (Option Text)
  route_revalidated (ok locator) = pure locator
  route_revalidated (err e) = if is_generation_changed e then raise e else pure none

  -- `if (callerCancelled) …`
  unfoldable pub throw_if_cancelled : TurnTarget → Bool → Act (Unit {0})
  throw_if_cancelled target cancelled = when cancelled (fail_turn lease target operation_aborted)

  unfoldable pub conversation_not_created : {A : Type 0} → TurnTarget → Act A
  conversation_not_created target = fail_turn lease target fresh_conversation_not_created

  unfoldable pub finish_delivered : Text → Polling → Bool × Option (Unit {0}) → Act Poll
  finish_delivered handle p (finalized, left) = do
    terminal ← terminal_error port
    throw_terminal lease (thread handle) terminal
    if not finalized then wait p else do result ← new_result handle false; pure (done result)

  unfoldable pub deliver_thread : Text → Polling → Act Poll
  deliver_thread handle p = do
    terminal ← terminal_error port
    throw_terminal lease (thread handle) terminal
    r ← gets (λ t. t.response)
    if not r.semantic_completed then wait p else do
      finalized ← finalize_response_delivery port (pure tt)
      finish_delivered handle p finalized

  -- An existing thread, once the write has finished.
  unfoldable pub finish_thread : Text → Polling → Act Poll
  finish_thread handle p = do
    aborted ← gets (is_aborted port)
    when (p.caller_cancelled || aborted) (throws operation_aborted)
    if port.streaming
        then deliver_thread handle p
        else do result ← new_result handle false; pure (done result)

  -- What follows the second look at the route, which left `current`.
  unfoldable pub settle_route : TurnTarget → Polling → ℕ → Option Text → Act Poll
  settle_route target p write_observed_at (some current) =
      complete_turn parse_url factory port lease target p current
  settle_route target p write_observed_at none = do
    time ← now port
    if leb (options.fresh_conversation_timeout_ms + write_observed_at) time
        then conversation_not_created target
        else wait p

  unfoldable pub finalize_write :
      TurnTarget → Polling → ℕ → Option Text → Option WriteLifecycle → Act Poll
  finalize_write target p write_observed_at current (some finished) = do
    aborted ← gets (is_aborted port)
    throw_if_cancelled target (p.caller_cancelled || aborted)
    settle_route target (record p { caller_cancelled = p.caller_cancelled || aborted })
        write_observed_at current
  finalize_write target p write_observed_at current (some write_failed) =
      fail_turn lease target turn_write_failed
  finalize_write target p write_observed_at current _ = fail_closed lease

  -- `if (freshLocator !== null) { … }`
  unfoldable pub finalize_route : TurnTarget → Polling → ℕ → Text → Act Poll
  finalize_route target p write_observed_at found = do
    answer ← attempt (with_timeout port false port.current_conversation_locator)
    locator ← route_revalidated answer
    snapshot ← read_turn_observation
    aborted ← gets (is_aborted port)
    update_response_delivery port options lease snapshot aborted
    finalize_write target p write_observed_at (same_locator target found locator) snapshot.written

  unfoldable pub end_located :
      TurnTarget → Polling → WriteLifecycle → ℕ → ℕ → Option Text → Act Poll
  end_located target p lifecycle write_observed_at time (some found) =
      finalize_route target p write_observed_at found
  end_located target p lifecycle write_observed_at time none =
      if is_finished lifecycle
        && leb (options.fresh_conversation_timeout_ms + write_observed_at) time
      then conversation_not_created target
      else wait p

  -- From the check of `callerCancelled` to the end of the loop's body.
  unfoldable pub end_round : TurnTarget → Polling → WriteLifecycle → ℕ → ℕ → Act Poll
  end_round target p lifecycle write_observed_at time = do
    aborted ← gets (is_aborted port)
    let cancelled = p.caller_cancelled || aborted
    throw_if_cancelled target cancelled
    end_located target (record p { caller_cancelled = cancelled }) lifecycle write_observed_at time
        p.fresh_locator

  -- The end of the first look at the route: the write may have moved meanwhile.
  unfoldable pub after_route :
      TurnTarget → Polling → WriteLifecycle → ℕ → ℕ → Option WriteLifecycle → Act Poll
  after_route target p lifecycle write_observed_at time none = fail_closed lease
  after_route target p lifecycle write_observed_at time (some write_failed) =
      fail_turn lease target turn_write_failed
  after_route target p lifecycle write_observed_at time (some active) =
      if is_active p.previous_lifecycle then wait p else do
        restarted ← now port
        wait (record p { write_observed_at = some restarted; previous_lifecycle = some active })
  after_route target p lifecycle write_observed_at time (some finished) =
      if is_some p.fresh_locator && is_active (some lifecycle)
      then wait p
      else end_round target p lifecycle write_observed_at time

  unfoldable pub read_route : TurnTarget → Polling → WriteLifecycle → ℕ → ℕ → Act Poll
  read_route target p lifecycle write_observed_at time = do
    answer ← attempt (with_timeout port false port.current_conversation_locator)
    locator ← route_answered lifecycle answer
    snapshot ← read_turn_observation
    aborted ← gets (is_aborted port)
    update_response_delivery port options lease snapshot (p.caller_cancelled || aborted)
    after_route target (record p { fresh_locator = accept_locator target locator }) lifecycle
        write_observed_at time snapshot.written

  unfoldable pub follow_route : TurnTarget → Polling → WriteLifecycle → ℕ → ℕ → Act Poll
  follow_route (thread handle) p lifecycle write_observed_at time =
      end_round (thread handle) p lifecycle write_observed_at time
  follow_route target p lifecycle write_observed_at time =
      if not (is_some p.fresh_locator)
      then read_route target p lifecycle write_observed_at time
      else if is_active (some lifecycle)
      then wait p
      else end_round target p lifecycle write_observed_at time

  unfoldable pub follow_write : TurnTarget → Polling → WriteLifecycle → ℕ → ℕ → Act Poll
  follow_write target p write_failed write_observed_at time =
      fail_turn lease target turn_write_failed
  follow_write target p active write_observed_at time =
      if leb (options.write_settlement_timeout_ms + write_observed_at) time
      then fail_closed lease
      else follow_route target p active write_observed_at time
  follow_write (thread handle) p finished write_observed_at time = finish_thread handle p
  follow_write target p finished write_observed_at time =
      follow_route target p finished write_observed_at time

  unfoldable pub follow_observation : TurnTarget → Polling → ℕ → Option WriteLifecycle → Act Poll
  follow_observation target p time none =
      if leb (options.write_observation_timeout_ms + p.committed_at) time
      then fail_closed lease
      else wait p
  follow_observation target p time (some lifecycle) = do
    let start = observed_time p lifecycle time
    apply_response_deadline port options lease p.caller_cancelled start time
    follow_write target
        (record p { write_observed_at = some start; previous_lifecycle = some lifecycle }) lifecycle
        start time

  unfoldable pub poll : TurnTarget → Polling → Act Poll
  poll target p = do
    aborted ← gets (is_aborted port)
    let cancelled = p.caller_cancelled || aborted
    time ← now port
    snapshot ← read_turn_observation
    update_response_delivery port options lease snapshot cancelled
    follow_observation target (record p { caller_cancelled = cancelled }) time snapshot.written

  -- At most `rounds` rounds of the loop; `again` if the turn is still undecided after them.
  unfoldable pub poll_loop : ℕ → TurnTarget → Polling → Act Poll
  poll_loop zero target p = pure (again p)
  poll_loop (suc rounds) target p = do
    result ← poll target p
    next_round (poll_loop rounds target) result

  unfoldable pub wait_for_turn_outcome : ℕ → TurnTarget → Bool → Act Poll
  wait_for_turn_outcome rounds target initially_cancelled = do
    committed_at ← now port
    poll_loop rounds target (new_polling committed_at initially_cancelled)
