-- ===== src/Turn/Decision.antt =====
-- A turn on an existing thread whose caller does not listen is decided after some number of rounds.
pub mod Execution
use threadwire.Prelude.{
  ℕ, zero, suc, ◌+◌, ◌≤◌, ◌<◌, ◌≡◌, ◌⊎◌, refl, sym, ap, ◌∙◌, subst, inl, inr, Bool, true, false,
  not, ◌||◌, ◌&&◌, Option, none, some, Text, leb, if◌then◌else◌, arith, Bool-cases,
}
use threadwire.Domain.Errors.{Failure, Result, ok, err, ErrorCode, operation_aborted}
use threadwire.Domain.Runtime.{RuntimeLease}
use threadwire.Domain.Identity.{Url}
use threadwire.Exec.{pure, raise, throws, gets, attempt, when, modify, continue, ◌>>=◌, ◌>>◌}
use threadwire.Exec.Rules.{
  Ends, Triple, Triple-bind, Triple-if, Triple-before, Triple-fact, Triple-gets,
}
use threadwire.Cdp.TurnTracker.{Snapshot, WriteLifecycle, active, finished, write_failed, is_active}
use threadwire.Turn.{
  Turn, Act, TurnPort, TurnOptions, TurnTarget, thread, fresh, project, is_aborted, fail_closed,
  now, ask, is_generation_changed,
}
use threadwire.Turn.Delivery.{update_response_delivery, apply_response_deadline}
use threadwire.Turn.Completion.{Polling, Poll, again, done, wait, new_result, fail_turn}
use threadwire.Turn.Outcome.{
  is_finished, observed_time, read_answered, read_turn_observation, throw_if_cancelled,
  finish_thread, end_located, end_round, follow_route, follow_write, follow_observation, poll,
  next_round, poll_loop, wait_for_turn_outcome,
}
use threadwire.Turn.Passing.{
  Thrown, fail-Thrown, closed-Thrown, leb-false, true-false, some-none, result-Later, Decided,
  Later, Goes, After, wait-After, gets-Later, cancel-Later, now-Later, asked-Later, read-Later,
  update-Later, deadline-Later,
}

module _ (parse_url : Text → Option Url) (factory : ℕ → Text) (port : TurnPort)
    (options : TurnOptions) (lease : RuntimeLease) (silent : port.streaming ≡ false)
    (handle : Text) where
  cancelled-Later :
      (n : ℕ) (b : Bool)
      → Triple
          (Later n)
          (throw_if_cancelled parse_url factory port options lease (thread handle) b)
          (λ u. Later n)
          Thrown
  unfolding throw_if_cancelled pure
  cancelled-Later n b =
      Triple-if b (λ p. fail-Thrown lease (thread handle) operation_aborted)
        (λ p. record { at = λ t later. later })

  finish-After :
      (p q : Polling) (n : ℕ)
      → Triple
          (Later n)
          (finish_thread parse_url factory port options lease handle q)
          (After port options p n)
          Thrown
  unfolding finish_thread pure
  finish-After p q n =
      Triple-bind (λ a. Later n) (gets-Later n (is_aborted port))
        λ a.
          Triple-bind (λ u. Later n) (cancel-Later n _)
            λ u.
              Triple-if port.streaming (λ listens. absurd (true-false (sym listens ∙ silent)))
                (λ q.
                  Triple-bind (λ r. Later n) (result-Later n handle)
                    λ r. record { at = λ t later. tt })

  end_located-After :
      (p q : Polling) (n since : ℕ) (o : Option Text)
      → o ≡ none
      → Goes port options p n q
      → Triple
          (Later n)
          (end_located parse_url factory port options lease
            (thread handle)
            q
            active
            since
            (port.clock n)
            o)
          (After port options p n)
          Thrown
  unfolding end_located
  end_located-After p q n since none e goes = wait-After port options p q n goes
  end_located-After p q n since (some l) e goes = absurd (some-none e)

  end_round-After :
      (p q : Polling) (n since : ℕ)
      → Goes port options p n q
      → Triple
          (Later n)
          (end_round parse_url factory port options lease
            (thread handle)
            q
            active
            since
            (port.clock n))
          (After port options p n)
          Thrown
  unfolding end_round
  end_round-After p q n since goes =
      Triple-bind (λ a. Later n) (gets-Later n (is_aborted port))
        λ a.
          Triple-bind (λ u. Later n) (cancelled-Later n _)
            λ u. end_located-After p _ n since q.fresh_locator goes.0 goes

  write-After :
      (p q : Polling) (n : ℕ) (l : WriteLifecycle)
      → (l ≡ active
          → port.clock n
            < options.write_settlement_timeout_ms + observed_time p active (port.clock n)
          → Goes port options p n q)
      → Triple
          (Later n)
          (follow_write parse_url factory port options lease
            (thread handle)
            q
            l
            (observed_time p l (port.clock n))
            (port.clock n))
          (After port options p n)
          Thrown
  unfolding follow_write follow_route
  write-After p q n write_failed goes = fail-Thrown lease (thread handle) _
  write-After p q n finished goes = finish-After p q n
  write-After p q n active goes =
      Triple-if
        (leb (options.write_settlement_timeout_ms + observed_time p active (port.clock n))
          (port.clock n))
        (λ over. closed-Thrown lease)
        (λ within. end_round-After p q n _ (goes refl (leb-false _ _ within)))

  observation-After :
      (p : Polling) (c : Bool) (n : ℕ) (o : Option WriteLifecycle)
      → p.fresh_locator ≡ none
      → Triple
          (Later n)
          (follow_observation parse_url factory port options lease
            (thread handle)
            (record p { caller_cancelled = c })
            (port.clock n)
            o)
          (After port options p n)
          Thrown
  unfolding follow_observation
  observation-After p c n none f =
      Triple-if (leb (options.write_observation_timeout_ms + p.committed_at) (port.clock n))
        (λ over. closed-Thrown lease)
        (λ within.
          wait-After port options p (record p { caller_cancelled = c }) n
            (f, refl, inl (leb-false _ _ within, refl, refl)))
  observation-After p c n (some lifecycle) f =
      Triple-bind (λ u. Later n) (deadline-Later port options lease silent n _ _ _)
        λ u. write-After p _ n lifecycle λ acts within. (
          f,
          refl,
          inr (ap some acts, ap (λ l. some (observed_time p l (port.clock n))) acts, within),
        )

  timed-After :
      (p : Polling) (c : Bool) (n time : ℕ)
      → p.fresh_locator ≡ none
      → time ≡ port.clock n
      → Triple
          (Later n)
          (do
            snapshot ← read_turn_observation parse_url factory port options lease
            update_response_delivery port options lease snapshot c
            follow_observation parse_url factory port options lease
                (thread handle)
                (record p { caller_cancelled = c })
                time
                snapshot.written)
          (After port options p n)
          Thrown
  timed-After p c n time f same = rw same (
      Triple-bind (λ s. Later n) (read-Later parse_url factory port options lease n)
        λ s.
          Triple-bind (λ u. Later n) (update-Later port options lease silent n s c)
            λ u. observation-After p c n s.written f)

  round-After :
      (p : Polling) (n : ℕ)
      → p.fresh_locator ≡ none
      → Triple
          (λ t. t.tick ≡ n)
          (poll parse_url factory port options lease (thread handle) p)
          (After port options p n)
          Thrown
  unfolding poll
  round-After p n f =
      Triple-bind (λ a t. t.tick ≡ n) (Triple-gets (is_aborted port) (λ t p. p))
        λ a.
          Triple-bind (λ time t. (time ≡ port.clock n) × Later n t) (now-Later port n)
            λ time.
              Triple-fact (λ t k. k.0)
                λ same. Triple-before (λ t k. k.1) (timed-After p _ n time f same)

  abbrev rounds_from : ℕ → Polling → Act Poll
  rounds_from = λ rounds p. poll_loop parse_url factory port options lease rounds (thread handle) p

  next-Decided :
      (p : Polling) (n : ℕ) (r : Turn × Result Poll)
      → Ends (After port options p n) Thrown r
      → ((q : Polling) (u : Turn)
          → Later n u
          → Goes port options p n q
          → (rounds : ℕ) × Decided (rounds_from rounds q u))
      → (rounds : ℕ) × Decided (continue r (next_round (rounds_from rounds)))
  unfolding pure
  next-Decided p n (u, ok (again q)) (later, goes) k = k q u later goes
  next-Decided p n (u, ok (done r)) h k = (0, tt)
  next-Decided p n (u, err e) h k = (0, tt)

  step-Decided :
      (p : Polling) (t : Turn)
      → p.fresh_locator ≡ none
      → ((q : Polling) (u : Turn)
          → Later t.tick u
          → Goes port options p t.tick q
          → (rounds : ℕ) × Decided (rounds_from rounds q u))
      → (rounds : ℕ) × Decided (rounds_from rounds p t)
  unfolding poll_loop ◌>>=◌
  step-Decided p t f k =
      let (rounds, decided) =
        next-Decided p t.tick (poll parse_url factory port options lease (thread handle) p t)
          ((round-After p t.tick f).at t refl) k in
      (suc rounds, decided)

  module _ (later : ℕ → ℕ) (passes : (bound n : ℕ) → later bound ≤ n → bound ≤ port.clock n) where
    -- With an active write that was first seen at the time `s`.
    abbrev AtWrite : ℕ → ℕ → Polling → Type 0
    AtWrite s c p =
        (p.fresh_locator ≡ none)
        × (p.committed_at ≡ c)
        × (p.previous_lifecycle ≡ some active)
        × (p.write_observed_at ≡ some s)

    abbrev last : ℕ → ℕ → ℕ
    last s c =
        later (options.write_observation_timeout_ms + c)
        + later (options.write_settlement_timeout_ms + s)

    observed-AtWrite :
        (s c time : ℕ) (p : Polling) → AtWrite s c p → observed_time p active time ≡ s
    observed-AtWrite s c time p (f, e, l, o) = rw (l, o)

    Goes-AtWrite :
        (s c n : ℕ) (p q : Polling)
        → AtWrite s c p
        → Goes port options p n q
        → AtWrite s c q
          × ((port.clock n < options.write_observation_timeout_ms + c)
              ⊎ (port.clock n < options.write_settlement_timeout_ms + s))
    Goes-AtWrite s c n p q (f, e, l, o) (g, same, inl (early, w, v)) = (
      (g, same ∙ e, v ∙ l, w ∙ o),
      inl (subst (λ c. port.clock n < options.write_observation_timeout_ms + c) e early),
    )
    Goes-AtWrite s c n p q (f, e, l, o) (g, same, inr (v, w, early)) =
        let seen = observed-AtWrite s c (port.clock n) p (f, e, l, o) in
        (
          (g, same ∙ e, v, w ∙ ap some seen),
          inr (subst (λ s. port.clock n < options.write_settlement_timeout_ms + s) seen early),
        )

    overdue :
        (s c n : ℕ)
        → last s c ≤ n
        → (port.clock n < options.write_observation_timeout_ms + c)
          ⊎ (port.clock n < options.write_settlement_timeout_ms + s)
        → ⊥
    overdue s c n h (inl early) =
        absurd (omega (arith, passes (options.write_observation_timeout_ms + c) n (omega arith)))
    overdue s c n h (inr early) =
        absurd (omega (arith, passes (options.write_settlement_timeout_ms + s) n (omega arith)))

    write-Decided :
        (k s c : ℕ) (p : Polling) (t : Turn)
        → last s c ≤ k + t.tick
        → AtWrite s c p
        → (rounds : ℕ) × Decided (rounds_from rounds p t)
    write-Decided zero s c p t h a = step-Decided p t a.0 λ q u after goes.
        absurd (overdue s c t.tick (omega arith) (Goes-AtWrite s c t.tick p q a goes).1)
    write-Decided (suc k) s c p t h a = step-Decided p t a.0 λ q u after goes.
        write-Decided k s c q u (omega arith) (Goes-AtWrite s c t.tick p q a goes).0

    -- The first active write, after which the loop ends.
    seen-Decided :
        (p q : Polling) (n : ℕ) (u : Turn)
        → q.fresh_locator ≡ none
        → q.previous_lifecycle ≡ some active
        → q.write_observed_at ≡ some (observed_time p active (port.clock n))
        → (rounds : ℕ) × Decided (rounds_from rounds q u)
    seen-Decided p q n u f l w =
        let s = observed_time p active (port.clock n) in
        write-Decided (last s q.committed_at) s q.committed_at q u (omega arith) (f, refl, l, w)

    unseen-or-Decided :
        (p q : Polling) (n : ℕ) (u : Turn)
        → Goes port options p n q
        → (port.clock n < options.write_observation_timeout_ms + p.committed_at
            → (rounds : ℕ) × Decided (rounds_from rounds q u))
        → (rounds : ℕ) × Decided (rounds_from rounds q u)
    unseen-or-Decided p q n u (f, same, inl (early, w, l)) k = k early
    unseen-or-Decided p q n u (f, same, inr (l, w, early)) k = seen-Decided p q n u f l w

    pub poll-Decided :
        (k : ℕ) (p : Polling) (t : Turn)
        → later (options.write_observation_timeout_ms + p.committed_at) ≤ k + t.tick
        → p.fresh_locator ≡ none
        → (rounds : ℕ) × Decided (rounds_from rounds p t)
    poll-Decided zero p t h f = step-Decided p t f λ q u after goes.
        unseen-or-Decided p q t.tick u goes λ early. absurd (
          omega (
            arith,
            passes (options.write_observation_timeout_ms + p.committed_at) t.tick (omega arith),
          ))
    poll-Decided (suc k) p t h f = step-Decided p t f λ q u after goes.
        unseen-or-Decided p q t.tick u goes
          λ early. poll-Decided k q u (rw goes.1 (omega arith)) goes.0
