-- ===== src/Controller/TurnQueue/Awake.antt =====
-- A queue with a turn in it has something that will drain it.
use threadwire.Prelude.{
  ℕ, ◌<◌, ◌≡◌, refl, ◌⊎◌, inl, inr, true, Option, none, some, List, [], ◌∷◌, leb, ltb, nat_eq,
  is_some, arith, if_cases, if_some, subst,
}
use threadwire.Controller.TurnQueue.{
  PendingTurn, Settlement, TurnQueue, new_queue, drain, schedule, on_abort, on_aborts, abort_signal,
  listeners, operation_ended, run_microtask, finish_turn, Event, scheduled, signal_aborted,
  turn_ended, microtask_ran, step, steps, is_aborted, outstanding, withdraw, release, push_turn,
  take_microtask, is_pending, drain_when, drain_idle, ScheduleAnswer,
}

-- No turn is pending, or one is active, or a microtask is queued that drains.
pub Awake : TurnQueue → Type 0
Awake q = (q.pending ≡ []) ⊎ ((is_some q.active ≡ true) ⊎ (0 < q.microtasks))

drain_idle-Awake :
    (ps : List PendingTurn) (q : TurnQueue) → q.pending ≡ ps → Awake (drain_idle ps q)
unfolding Awake
drain_idle-Awake [] q p = inl p
drain_idle-Awake (entry ∷ rest) q p =
    if_cases Awake (is_aborted entry.signal q.aborted_signals) (λ stale. inr (inr (omega arith)))
      (λ live. inr (inl refl))

drain_when-Awake : (o : Option ℕ) (q : TurnQueue) → q.active ≡ o → Awake (drain_when o q)
unfolding Awake
drain_when-Awake none q p = drain_idle-Awake q.pending q refl
drain_when-Awake (some i) q p = inr (inl (rw p refl))

drain-Awake : (q : TurnQueue) → Awake (drain q)
unfolding drain
drain-Awake q = drain_when-Awake q.active q refl

on_abort-Awake : (i : ℕ) (q : TurnQueue) → Awake q → Awake (on_abort i q)
unfolding on_abort
on_abort-Awake i q a =
    if_cases Awake (is_pending i q.pending) (λ p. drain-Awake (withdraw i q)) (λ p. a)

on_aborts-Awake : (is : List ℕ) (q : TurnQueue) → Awake q → Awake (on_aborts is q)
unfolding on_aborts
on_aborts-Awake [] q a = a
on_aborts-Awake (i ∷ is) q a = on_aborts-Awake is (on_abort i q) (on_abort-Awake i q a)

finish_turn-Awake :
    (o : Option ℕ) (how : Settlement) (q : TurnQueue) → Awake q → Awake (finish_turn o how q)
finish_turn-Awake none how q a = a
finish_turn-Awake (some i) how q a = drain-Awake (release i how q)

abbrev Scheduled : TurnQueue × ScheduleAnswer → Type 0
Scheduled r = Awake r.0

step-Awake : (e : Event) (q : TurnQueue) → Awake q → Awake (step e q)
unfolding step schedule abort_signal operation_ended run_microtask Awake
step-Awake (scheduled signal) q a =
    if_cases Scheduled (leb q.max_outstanding_turns (outstanding q)) (λ full. a)
      (λ room.
        if_cases Scheduled (is_aborted signal q.aborted_signals) (λ late. a)
          (λ live. drain-Awake (push_turn signal q)))
step-Awake (signal_aborted s) q a = on_aborts-Awake (listeners s q.pending) _ a
step-Awake (turn_ended how) q a = finish_turn-Awake q.active how q a
step-Awake microtask_ran q a =
    if_cases Awake (ltb 0 q.microtasks) (λ p. drain-Awake (take_microtask q)) (λ p. a)

steps-Awake : (es : List Event) (q : TurnQueue) → Awake q → Awake (steps es q)
unfolding steps
steps-Awake [] q a = a
steps-Awake (e ∷ es) q a = steps-Awake es (step e q) (step-Awake e q a)

-- After any events, a queue that was created with its capacity never has a turn pending while no
-- turn is active and no drain is queued.
pub turns-Awake :
    (capacity : ℕ) (q : TurnQueue) (es : List Event)
    → new_queue capacity ≡ some q
    → Awake (steps es q)
unfolding new_queue Awake
turns-Awake capacity q es made =
    steps-Awake es q (subst Awake (if_some (ltb 0 capacity) made).1 (inl refl))
