-- ===== src/Turn/Protocol/Outcome.antt =====
-- The listener of a streamed turn is given deltas, their join and the end, and the turn returns only
-- after all of these.
use threadwire.Prelude.{
  ℕ, zero, suc, ◌+◌, ◌≡◌, sym, ◌∙◌, Bool, true, false, not, ◌&&◌, ◌||◌, Option, none, some, Text,
  leb, if◌then◌else◌, is_some,
}
use threadwire.Domain.Errors.{
  ErrorCode, operation_aborted, turn_write_failed, fresh_conversation_not_created,
}
use threadwire.Domain.Runtime.{RuntimeLease}
use threadwire.Domain.Identity.{Url}
use threadwire.Exec.{pure, throws, attempt, when, ◌>>=◌}
use threadwire.Exec.Rules.{Triple, Triple-bind, Triple-if}
use threadwire.Cdp.TurnTracker.{WriteLifecycle, active, finished, write_failed, is_active}
use threadwire.Turn.{
  Act, TurnPort, TurnOptions, TurnTarget, thread, fresh, project, is_aborted, fail_closed,
  with_timeout,
}
use threadwire.Turn.Completion.{Polling, Poll, again, done, wait, new_result, fail_turn}
use threadwire.Turn.Outcome.{
  is_finished, finish_delivered, deliver_thread, finish_thread, settle_route, finalize_write,
  finalize_route, end_located, end_round, after_route, read_route, follow_route, follow_write,
  follow_observation, poll, next_round, poll_loop, wait_for_turn_outcome, conversation_not_created,
}
use threadwire.Turn.Protocol.{Stage, Stage-Begins}
use threadwire.Turn.Protocol.Rules.{On, Quiet, quiet_rules, Quiet-pure, Quiet-gets, Quiet-attempt}
use threadwire.Turn.Protocol.Quiet.{
  Quiet-with_timeout, Quiet-now, Quiet-new_result, Quiet-terminal_error, Quiet-throw_terminal,
}
use threadwire.Turn.Protocol.Quiet.Round.{
  read-Quiet, route_answered-Quiet, revalidated-Quiet, cancelled-Quiet,
}
use threadwire.Turn.Protocol.Delivery.{
  Started, Staged, Staged-Quiet, true-false, update-Staged, deadline-Staged,
}
use threadwire.Turn.Protocol.Finish.{Answer, finalize-Triple}
use threadwire.Turn.Protocol.Round.{
  Polled, Whole, wait-Triple, Quiet-Whole, done-Triple, fail-Triple, Passed, Left, read_terminal,
  throw-Triple,
}
use threadwire.Turn.Protocol.Completion.{complete_turn-Polled}

module _ (parse_url : Text → Option Url) (factory : ℕ → Text) (port : TurnPort)
    (options : TurnOptions) (lease : RuntimeLease) (streaming : port.streaming ≡ true) where
  abbrev Round : Act Poll → Type 0
  Round m = Triple (On (Stage options)) m (Polled options) Started

  fail-Round : (target : TurnTarget) (c : ErrorCode) → Round (fail_turn lease target c)
  fail-Round target c =
      fail-Triple lease target c λ t stage. Stage-Begins options t.response t.delivered stage

  closed-Round : Round (fail_closed lease)
  unfolding fail_closed ◌>>=◌
  closed-Round = record { at = λ t stage. Stage-Begins options t.response t.delivered stage }

  not_created-Round :
      (target : TurnTarget)
      → Round (conversation_not_created parse_url factory port options lease target)
  unfolding conversation_not_created
  not_created-Round target = fail-Round target fresh_conversation_not_created

  -- First what neither delivers nor returns, then the rest of the round.
  first :
      {A : Type 0} (m : Act A) (f : A → Act Poll)
      → Quiet m
      → ((a : A) → Round (f a))
      → Round (m >>= f)
  first m f q k = Triple-bind (λ a. On (Stage options)) (Staged-Quiet options m q) k

  first-Staged :
      {A : Type 0} (m : Act A) (f : A → Act Poll)
      → Staged options m
      → ((a : A) → Round (f a))
      → Round (m >>= f)
  first-Staged m f q k = Triple-bind (λ a. On (Stage options)) q k

  either : (b : Bool) (m n : Act Poll) → Round m → Round n → Round (if b then m else n)
  either b m n hm hn = Triple-if b (λ p. hm) (λ p. hn)

  ruleset rounds = (first, either)

  delivered-Round :
      (handle : Text) (b : Bool) (p : Polling)
      → Triple
          (On (Passed options b))
          (if not b then wait p else do r ← new_result handle false; pure (done r))
          (Polled options)
          Started
  delivered-Round handle true p =
      Triple-bind (λ r. On (Whole options)) (Quiet-Whole options _ (Quiet-new_result handle false))
        (done-Triple options)
  delivered-Round handle false p = wait-Triple options p

  finish_delivered-Polled :
      (handle : Text) (p : Polling) (answer : Bool × Option (Unit {0}))
      → Triple
          (Answer options answer)
          (finish_delivered parse_url factory port options lease handle p answer)
          (Polled options)
          Started
  unfolding finish_delivered
  finish_delivered-Polled handle p (b, left) =
      Triple-bind (Left options port lease (thread handle) streaming b)
        (read_terminal options port lease (thread handle) streaming b)
        λ c.
          Triple-bind (λ u. On (Passed options b))
            (throw-Triple options port lease (thread handle) streaming b c)
            λ u. delivered-Round handle b p

  deliver_thread-Round :
      (handle : Text) (p : Polling)
      → Round (deliver_thread parse_url factory port options lease handle p)
  unfolding deliver_thread
  deliver_thread-Round handle p = first _ _ (Quiet-terminal_error port) λ c.
      first _ _ (Quiet-throw_terminal lease (thread handle) c) λ u.
        first _ _ (Quiet-gets (λ t. t.response)) λ r.
          either (not r.semantic_completed) _ _ (wait-Triple options p) (
            Triple-bind (Answer options) (finalize-Triple options port (pure tt) (Quiet-pure tt))
              (finish_delivered-Polled handle p))

  Quiet-cancel : (b : Bool) → Quiet (when b (throws operation_aborted))
  Quiet-cancel b = search quiet_rules

  finish_thread-Round :
      (handle : Text) (p : Polling)
      → Round (finish_thread parse_url factory port options lease handle p)
  unfolding finish_thread
  finish_thread-Round handle p = first _ _ (Quiet-gets (is_aborted port)) λ a.
      first _ _ (Quiet-cancel (p.caller_cancelled || a)) λ u.
        Triple-if port.streaming (λ s. deliver_thread-Round handle p)
          (λ silent. absurd (true-false (sym streaming ∙ silent)))

  module _ (target : TurnTarget) where
    settle_route-Round :
        (p : Polling) (since : ℕ) (o : Option Text)
        → Round (settle_route parse_url factory port options lease target p since o)
    unfolding settle_route
    settle_route-Round p since (some l) =
        complete_turn-Polled parse_url factory port options lease target streaming p l
    settle_route-Round p since none = first _ _ (Quiet-now port) λ time.
        either (leb (options.fresh_conversation_timeout_ms + since) time) _ _
          (not_created-Round target) (wait-Triple options p)

    finalize_write-Round :
        (p : Polling) (since : ℕ) (o : Option Text) (l : Option WriteLifecycle)
        → Round (finalize_write parse_url factory port options lease target p since o l)
    unfolding finalize_write
    finalize_write-Round p since o (some finished) = first _ _ (Quiet-gets (is_aborted port)) λ a.
        first _ _ (cancelled-Quiet parse_url factory port options lease target _)
          λ u. settle_route-Round _ since o
    finalize_write-Round p since o (some write_failed) = fail-Round target turn_write_failed
    finalize_write-Round p since o (some active) = closed-Round
    finalize_write-Round p since o none = closed-Round

    Quiet-look : Quiet (attempt (with_timeout port false port.current_conversation_locator))
    Quiet-look = Quiet-attempt _ (Quiet-with_timeout port false port.current_conversation_locator)

    finalize_route-Round :
        (p : Polling) (since : ℕ) (l : Text)
        → Round (finalize_route parse_url factory port options lease target p since l)
    unfolding finalize_route
    finalize_route-Round p since l = first _ _ Quiet-look λ answer.
        first _ _ (revalidated-Quiet parse_url factory port options lease answer) λ o.
          first _ _ (read-Quiet parse_url factory port options lease) λ s.
            first _ _ (Quiet-gets (is_aborted port)) λ a.
              first-Staged _ _ (update-Staged options port lease s a)
                λ u. finalize_write-Round p since _ s.written

    end_located-Round :
        (p : Polling) (l : WriteLifecycle) (since time : ℕ) (o : Option Text)
        → Round (end_located parse_url factory port options lease target p l since time o)
    unfolding end_located
    end_located-Round p l since time (some found) = finalize_route-Round p since found
    end_located-Round p l since time none =
        either (is_finished l && leb (options.fresh_conversation_timeout_ms + since) time) _ _
          (not_created-Round target) (wait-Triple options p)

    end_round-Round :
        (p : Polling) (l : WriteLifecycle) (since time : ℕ)
        → Round (end_round parse_url factory port options lease target p l since time)
    unfolding end_round
    end_round-Round p l since time = first _ _ (Quiet-gets (is_aborted port)) λ a.
        first _ _ (cancelled-Quiet parse_url factory port options lease target _)
          λ u. end_located-Round _ l since time _

    after_route-Round :
        (p : Polling) (l : WriteLifecycle) (since time : ℕ) (o : Option WriteLifecycle)
        → Round (after_route parse_url factory port options lease target p l since time o)
    unfolding after_route
    after_route-Round p l since time none = closed-Round
    after_route-Round p l since time (some write_failed) = fail-Round target turn_write_failed
    after_route-Round p l since time (some active) =
        either (is_active p.previous_lifecycle) _ _ (wait-Triple options p)
          (first _ _ (Quiet-now port) λ restarted. wait-Triple options _)
    after_route-Round p l since time (some finished) =
        either (is_some p.fresh_locator && is_active (some l)) _ _ (wait-Triple options p)
          (end_round-Round p l since time)

    read_route-Round :
        (p : Polling) (l : WriteLifecycle) (since time : ℕ)
        → Round (read_route parse_url factory port options lease target p l since time)
    unfolding read_route
    read_route-Round p l since time = first _ _ Quiet-look λ answer.
        first _ _ (route_answered-Quiet parse_url factory port options lease l answer) λ o.
          first _ _ (read-Quiet parse_url factory port options lease) λ s.
            first _ _ (Quiet-gets (is_aborted port)) λ a.
              first-Staged _ _ (update-Staged options port lease s _)
                λ u. after_route-Round _ l since time s.written

    to_route-Round :
        (p : Polling) (l : WriteLifecycle) (since time : ℕ)
        → Round (
            if not (is_some p.fresh_locator)
            then read_route parse_url factory port options lease target p l since time
            else if is_active (some l)
            then wait p
            else end_round parse_url factory port options lease target p l since time)
    to_route-Round p l since time =
        either (not (is_some p.fresh_locator)) _ _ (read_route-Round p l since time)
          (either (is_active (some l)) _ _ (wait-Triple options p) (end_round-Round p l since time))

  follow_route-Round :
      (target : TurnTarget) (p : Polling) (l : WriteLifecycle) (since time : ℕ)
      → Round (follow_route parse_url factory port options lease target p l since time)
  unfolding follow_route
  follow_route-Round (thread h) p l since time = end_round-Round (thread h) p l since time
  follow_route-Round fresh p l since time = to_route-Round fresh p l since time
  follow_route-Round (project home) p l since time = to_route-Round (project home) p l since time

  follow_write-Round :
      (target : TurnTarget) (p : Polling) (l : WriteLifecycle) (since time : ℕ)
      → Round (follow_write parse_url factory port options lease target p l since time)
  unfolding follow_write
  follow_write-Round target p write_failed since time = fail-Round target turn_write_failed
  follow_write-Round target p active since time =
      either (leb (options.write_settlement_timeout_ms + since) time) _ _ closed-Round
        (follow_route-Round target p active since time)
  follow_write-Round (thread h) p finished since time = finish_thread-Round h p
  follow_write-Round fresh p finished since time = follow_route-Round fresh p finished since time
  follow_write-Round (project home) p finished since time =
      follow_route-Round (project home) p finished since time

  follow_observation-Round :
      (target : TurnTarget) (p : Polling) (time : ℕ) (o : Option WriteLifecycle)
      → Round (follow_observation parse_url factory port options lease target p time o)
  unfolding follow_observation
  follow_observation-Round target p time none =
      either (leb (options.write_observation_timeout_ms + p.committed_at) time) _ _ closed-Round
        (wait-Triple options p)
  follow_observation-Round target p time (some l) =
      first-Staged _ _ (deadline-Staged options port lease _ _ _)
        λ u. follow_write-Round target _ l _ time

  poll-Round :
      (target : TurnTarget) (p : Polling)
      → Round (poll parse_url factory port options lease target p)
  unfolding poll
  poll-Round target p = first _ _ (Quiet-gets (is_aborted port)) λ a.
      first _ _ (Quiet-now port) λ time.
        first _ _ (read-Quiet parse_url factory port options lease) λ s.
          first-Staged _ _ (update-Staged options port lease s _)
            λ u. follow_observation-Round target _ time s.written

  next-Triple :
      (k : Polling → Act Poll)
      → ((p : Polling) → Round (k p))
      → (r : Poll) → Triple (Polled options r) (next_round k r) (Polled options) Started
  next-Triple k h (done r) = done-Triple options r
  next-Triple k h (again p) = h p

  poll_loop-Round :
      (rounds : ℕ) (target : TurnTarget) (p : Polling)
      → Round (poll_loop parse_url factory port options lease rounds target p)
  unfolding poll_loop pure
  poll_loop-Round zero target p = record { at = λ t stage. stage }
  poll_loop-Round (suc rounds) target p =
      Triple-bind (Polled options) (poll-Round target p)
        (next-Triple _ (poll_loop-Round rounds target))

  pub outcome-Round :
      (rounds : ℕ) (target : TurnTarget) (c : Bool)
      → Round (wait_for_turn_outcome parse_url factory port options lease rounds target c)
  unfolding wait_for_turn_outcome
  outcome-Round rounds target c = first _ _ (Quiet-now port) λ time. poll_loop-Round rounds target _
