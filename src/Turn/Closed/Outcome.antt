-- ===== src/Turn/Closed/Outcome.antt =====
-- From its submission on, a Project's turn throws only if the runtime has changed or is marked as
-- uncertain.
use threadwire.Prelude.{
  ℕ, zero, suc, ◌+◌, ◌≡◌, ◌⊎◌, subst, refl, Bool, true, false, Option, none, ◌==◌, text_eq, inl,
  some, Text,
}
use threadwire.Domain.Errors.{
  Failure, threadwire_error, runtime_generation_changed, Result, ok, err,
}
use threadwire.Domain.Runtime.{RuntimeLease}
use threadwire.Domain.Identity.{Url, create_conversation_locator, conversation_belongs_to_project}
use threadwire.Exec.{◌>>=◌, attempt, pure, raise}
use threadwire.Exec.Rules.{Triple, Triple-if, Triple-bind, Ends}
use threadwire.Cdp.TurnTracker.{Snapshot, WriteLifecycle, active, finished, write_failed}
use threadwire.Turn.{
  Turn, Act, TurnPort, TurnOptions, project, Race, ends, deadline, with_timeout, now, ask,
  settle_race, is_generation_changed,
}
use threadwire.Turn.Completion.{Polling, Poll, again, done}
use threadwire.Turn.Outcome.{
  read_answered, read_turn_observation, same_locator, route_answered, route_revalidated,
  throw_if_cancelled, conversation_not_created, settle_route, finalize_write, finalize_route,
  end_located, end_round, after_route, read_route, follow_route, follow_write, follow_observation,
  poll, next_round, poll_loop, wait_for_turn_outcome, unless_other,
}
use threadwire.Turn.Submission.{project_sent, send, follow}
use threadwire.Turn.Closed.{
  Closes, Closed, generation_changed, Closed-bind, Closed-pure, Closed-gets, Closed-attempt,
  closed_rules,
}
use threadwire.Turn.Closed.Delivery.{update-Closed, deadline-Closed}
use threadwire.Turn.Closed.Completion.{Located, complete_turn-Closed, wait-Closed, fail_turn-Closed}

-- A call whose result is known to lie in `R`.
bind-Closed :
    {A B : Type 0} {lease : RuntimeLease} (R : A → Type 0) {m : Act A} {f : A → Act B}
    → Triple (λ t. Unit {0}) m (λ a t. R a) (Closes lease)
    → ((a : A) → R a → Closed lease (f a))
    → Closed lease (m >>= f)
bind-Closed R h k = Triple-bind (λ a t. R a) h λ a. record { at = λ t r. (k a r).at t tt }

module _ (parse_url : Text → Option Url) (factory : ℕ → Text) (port : TurnPort)
    (options : TurnOptions) (lease : RuntimeLease) where
  now-Closed : Closed lease (now port)
  unfolding now ask
  now-Closed = record { at = λ t p. tt }

  read_answered-Closed :
      (r : Result Snapshot) → Closed lease (read_answered parse_url factory port options lease r)
  unfolding read_answered
  read_answered-Closed (ok s) = search closed_rules
  read_answered-Closed (err e) = search closed_rules depth 14

  read-Closed : Closed lease (read_turn_observation parse_url factory port options lease)
  unfolding read_turn_observation
  read-Closed = search (closed_rules, read_answered-Closed) depth 14

  route_answered-Closed :
      (l : WriteLifecycle) (r : Result (Option Text))
      → Closed lease (route_answered parse_url factory port options lease l r)
  unfolding route_answered
  route_answered-Closed l (ok s) = search closed_rules
  route_answered-Closed l (err e) = search closed_rules depth 14

  cancelled-Closed :
      (home : Text) (c : Bool)
      → Closed lease (throw_if_cancelled parse_url factory port options lease (project home) c)
  unfolding throw_if_cancelled
  cancelled-Closed home c = search (closed_rules, fail_turn-Closed) depth 14

  not_created-Closed :
      {A : Type 0} (home : Text)
      → Closed lease
          (conversation_not_created parse_url factory port options lease {A = A} (project home))
  unfolding conversation_not_created
  not_created-Closed home = fail_turn-Closed lease home _

  settle_route-Closed :
      (home : Text) (p : Polling) (since : ℕ) (o : Option Text)
      → Located parse_url factory port lease o
      → Closed lease (settle_route parse_url factory port options lease (project home) p since o)
  unfolding settle_route
  settle_route-Closed home p since (some l) located =
      complete_turn-Closed parse_url factory port lease home p l located
  settle_route-Closed home p since none located =
      Closed-bind lease _ _ now-Closed
        λ time. search (closed_rules, wait-Closed, not_created-Closed) depth 14

  finalize_write-Closed :
      (home : Text) (p : Polling) (since : ℕ) (o : Option Text) (l : Option WriteLifecycle)
      → Located parse_url factory port lease o
      → Closed lease
          (finalize_write parse_url factory port options lease (project home) p since o l)
  unfolding finalize_write
  finalize_write-Closed home p since o (some finished) located =
      Closed-bind lease _ _ (Closed-gets lease _) λ a.
        Closed-bind lease _ _ (cancelled-Closed home _)
          λ u. settle_route-Closed home _ since o located
  finalize_write-Closed home p since o (some write_failed) located = fail_turn-Closed lease home _
  finalize_write-Closed home p since o (some active) located = search closed_rules
  finalize_write-Closed home p since o none located = search closed_rules

  abbrev Answered : Result (Option Text) → Type 0
  Answered (ok o) = Located parse_url factory port lease o
  Answered (err e) = Unit {0}

  revalidated-Located :
      (a : Result (Option Text))
      → Answered a
      → Triple
          (λ t. Unit {0})
          (route_revalidated parse_url factory port options lease a)
          (λ o t. Located parse_url factory port lease o)
          (Closes lease)
  unfolding route_revalidated pure raise
  revalidated-Located (ok o) located = record { at = λ t p. located }
  revalidated-Located (err e) located =
      Triple-if (is_generation_changed e) (λ p. record { at = λ t q. inl (generation_changed e p) })
        λ p. record { at = λ t q. tt }

  other-Located :
      (l : Text) (b : Option Bool) (same : Bool)
      → Located parse_url factory port lease (some l)
      → Located parse_url factory port lease (unless_other b same l)
  other-Located l (some true) true located = located
  other-Located l (some true) false located = tt
  other-Located l (some false) same located = tt
  other-Located l none same located = located

  same-Located :
      (home found : Text) (o : Option Text)
      → Located parse_url factory port lease o
      → Located parse_url factory port lease
          (same_locator parse_url factory port options lease (project home) found o)
  unfolding same_locator
  same-Located home found none located = tt
  same-Located home found (some l) located =
      other-Located l (conversation_belongs_to_project parse_url l home) (l == found) located

  module _
      (locates : (n : ℕ) (l : Text)
        → port.current_conversation_locator n ≡ ends (ok (some l))
        → (m : Text) × (create_conversation_locator parse_url l ≡ ok m)) where
    raced :
        (t : Turn) (r : Race (Option Text))
        → port.current_conversation_locator t.tick ≡ r
        → Answered (settle_race port false r (record t { tick = t.tick + 1 })).1
    unfolding settle_race
    raced t (ends (ok none)) p = tt
    raced t (ends (ok (some l))) p = locates t.tick l p
    raced t (ends (err e)) p = tt
    raced t deadline p = tt

    look-Located :
        Triple
          (λ t. Unit {0})
          (attempt (with_timeout port false port.current_conversation_locator))
          (λ a t. Answered a)
          (Closes lease)
    unfolding attempt with_timeout ask ◌>>=◌
    look-Located = record { at = λ t p. raced t _ refl }

    finalize_route-Closed :
        (home : Text) (p : Polling) (since : ℕ) (l : Text)
        → Closed lease
            (finalize_route parse_url factory port options lease (project home) p since l)
    unfolding finalize_route
    finalize_route-Closed home p since l = bind-Closed Answered look-Located λ a answered.
        bind-Closed (Located parse_url factory port lease) (revalidated-Located a answered)
          λ o located. Closed-bind lease _ _ read-Closed λ s.
            Closed-bind lease _ _ (Closed-gets lease _) λ c.
              Closed-bind lease _ _ (update-Closed port options lease s c)
                λ u. finalize_write-Closed home p since _ s.written (same-Located home l o located)

    end_located-Closed :
        (home : Text) (p : Polling) (l : WriteLifecycle) (since time : ℕ) (o : Option Text)
        → Closed lease
            (end_located parse_url factory port options lease (project home) p l since time o)
    unfolding end_located
    end_located-Closed home p l since time (some found) = finalize_route-Closed home p since found
    end_located-Closed home p l since time none =
        search (closed_rules, not_created-Closed, wait-Closed) depth 14

    end_round-Closed :
        (home : Text) (p : Polling) (l : WriteLifecycle) (since time : ℕ)
        → Closed lease
            (end_round parse_url factory port options lease (project home) p l since time)
    unfolding end_round
    end_round-Closed home p l since time = Closed-bind lease _ _ (Closed-gets lease _) λ c.
        Closed-bind lease _ _ (cancelled-Closed home _)
          λ u. end_located-Closed home _ l since time _

    after_route-Closed :
        (home : Text) (p : Polling) (l : WriteLifecycle) (since time : ℕ)
        (o : Option WriteLifecycle)
        → Closed lease
            (after_route parse_url factory port options lease (project home) p l since time o)
    unfolding after_route
    after_route-Closed home p l since time none = search closed_rules
    after_route-Closed home p l since time (some write_failed) = fail_turn-Closed lease home _
    after_route-Closed home p l since time (some active) =
        search (closed_rules, wait-Closed, now-Closed) depth 14
    after_route-Closed home p l since time (some finished) =
        search (closed_rules, wait-Closed, end_round-Closed) depth 14

    read_route-Closed :
        (home : Text) (p : Polling) (l : WriteLifecycle) (since time : ℕ)
        → Closed lease
            (read_route parse_url factory port options lease (project home) p l since time)
    unfolding read_route
    read_route-Closed home p l since time = Closed-bind lease _ _ (Closed-attempt lease _) λ a.
        Closed-bind lease _ _ (route_answered-Closed l a) λ o.
          Closed-bind lease _ _ read-Closed λ s. Closed-bind lease _ _ (Closed-gets lease _) λ c.
            Closed-bind lease _ _ (update-Closed port options lease s _)
              λ u. after_route-Closed home _ l since time s.written

    follow_route-Closed :
        (home : Text) (p : Polling) (l : WriteLifecycle) (since time : ℕ)
        → Closed lease
            (follow_route parse_url factory port options lease (project home) p l since time)
    unfolding follow_route
    follow_route-Closed home p l since time =
        search (closed_rules, wait-Closed, read_route-Closed, end_round-Closed) depth 14

    follow_write-Closed :
        (home : Text) (p : Polling) (l : WriteLifecycle) (since time : ℕ)
        → Closed lease
            (follow_write parse_url factory port options lease (project home) p l since time)
    unfolding follow_write
    follow_write-Closed home p write_failed since time = fail_turn-Closed lease home _
    follow_write-Closed home p finished since time = follow_route-Closed home p finished since time
    follow_write-Closed home p active since time =
        search (closed_rules, follow_route-Closed) depth 14

    follow_observation-Closed :
        (home : Text) (p : Polling) (time : ℕ) (o : Option WriteLifecycle)
        → Closed lease
            (follow_observation parse_url factory port options lease (project home) p time o)
    unfolding follow_observation
    follow_observation-Closed home p time none = search (closed_rules, wait-Closed) depth 14
    follow_observation-Closed home p time (some l) =
        Closed-bind lease _ _ (deadline-Closed port options lease _ _ _)
          λ u. follow_write-Closed home _ l _ time

    poll-Closed :
        (home : Text) (p : Polling)
        → Closed lease (poll parse_url factory port options lease (project home) p)
    unfolding poll
    poll-Closed home p = Closed-bind lease _ _ (Closed-gets lease _) λ c.
        Closed-bind lease _ _ now-Closed λ time. Closed-bind lease _ _ read-Closed λ s.
          Closed-bind lease _ _ (update-Closed port options lease s _)
            λ u. follow_observation-Closed home _ time s.written

    next_round-Closed :
        (k : Polling → Act Poll)
        → ((p : Polling) → Closed lease (k p))
        → (r : Poll) → Closed lease (next_round k r)
    next_round-Closed k h (done r) = Closed-pure lease (done r)
    next_round-Closed k h (again p) = h p

    poll_loop-Closed :
        (rounds : ℕ) (home : Text) (p : Polling)
        → Closed lease (poll_loop parse_url factory port options lease rounds (project home) p)
    unfolding poll_loop
    poll_loop-Closed zero home p = Closed-pure lease (again p)
    poll_loop-Closed (suc rounds) home p =
        Closed-bind lease _ _ (poll-Closed home p)
          (next_round-Closed _ (poll_loop-Closed rounds home))

    outcome-Closed :
        (rounds : ℕ) (home : Text) (c : Bool)
        → Closed lease
            (wait_for_turn_outcome parse_url factory port options lease rounds (project home) c)
    unfolding wait_for_turn_outcome
    outcome-Closed rounds home c =
        Closed-bind lease _ _ now-Closed λ time. poll_loop-Closed rounds home _

    project_sent-Closed :
        (r : Result (Unit {0})) → Closed lease (project_sent parse_url factory port options lease r)
    unfolding project_sent
    project_sent-Closed (ok u) = search closed_rules
    project_sent-Closed (err e) = search closed_rules depth 14

    send-Closed :
        (home : Text) → Closed lease (send parse_url factory port options lease (project home))
    unfolding send
    send-Closed home = search (closed_rules, project_sent-Closed) depth 14

    follow-Closed :
        (rounds : ℕ) (home : Text)
        → Closed lease (follow parse_url factory port options lease rounds (project home))
    unfolding follow
    follow-Closed rounds home =
        Closed-bind lease _ _ (send-Closed home)
          λ u. Closed-bind lease _ _ (Closed-gets lease _) λ c. outcome-Closed rounds home c

    -- From its submission on, a Project's turn throws only an error of a runtime that has changed, or
    -- with its lease marked as uncertain at the scheduler, provided that the conversation locators
    -- that the session returns have a normal form.
    pub follow-Closes :
        (rounds : ℕ) (home : Text) (t t' : Turn) (e : Failure)
        → follow parse_url factory port options lease rounds (project home) t ≡ (t', err e)
        → (e ≡ threadwire_error runtime_generation_changed)
          ⊎ (t'.scheduler.uncertain_lease ≡ some lease)
    follow-Closes rounds home t t' e p =
        subst (Ends (λ a t. Unit {0}) (Closes lease)) p ((follow-Closed rounds home).at t tt)
