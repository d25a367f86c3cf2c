-- ===== src/Controller/TurnQueue/Induction.antt =====
-- Induction over the queue's events: what the parts of each operation keep, all events keep.
use threadwire.Prelude.{
  ℕ, ◌<◌, ◌≡◌, refl, true, Option, none, some, List, [], ◌∷◌, leb, ltb, nat_eq, arith, if_cases,
}
use threadwire.Controller.TurnQueue.{
  Settlement, aborted, TurnQueue, drain, schedule, on_abort, on_aborts, abort_signal, listeners,
  operation_ended, run_microtask, finish_turn, Event, scheduled, signal_aborted, turn_ended,
  microtask_ran, step, steps, is_aborted, outstanding, is_pending, settle, ScheduleAnswer, withdraw,
  release, push_turn, take_microtask, name_turn,
}

-- A property that every part of an operation keeps.
pub record Preserved (P : TurnQueue → Type 0) : Type 0 where
  pub drains : (q : TurnQueue) → P q → P (drain q)
  pub withdraws : (i : ℕ) (q : TurnQueue) → is_pending i q.pending ≡ true → P q → P (withdraw i q)
  pub releases :
      (i : ℕ) (how : Settlement) (q : TurnQueue) → q.active ≡ some i → P q → P (release i how q)
  pub pushes :
      (signal : Option ℕ) (q : TurnQueue)
      → outstanding q < q.max_outstanding_turns
      → P q
      → P (push_turn signal q)
  pub refuses : (q : TurnQueue) → P q → P (settle q.next_id aborted (name_turn q))
  pub marks :
      (s : ℕ) (q : TurnQueue) → P q → P (record q { aborted_signals = s ∷ q.aborted_signals })
  pub takes : (q : TurnQueue) → P q → P (take_microtask q)

module _ (P : TurnQueue → Type 0) (keeps : Preserved P) where
  on_aborts-P : (is : List ℕ) (q : TurnQueue) → P q → P (on_aborts is q)
  unfolding on_aborts on_abort
  on_aborts-P [] q p = p
  on_aborts-P (i ∷ is) q p = on_aborts-P is (on_abort i q) (
      if_cases P (is_pending i q.pending)
        (λ h. keeps.drains (withdraw i q) (keeps.withdraws i q h p)) (λ h. p))

  finish_turn-P :
      (o : Option ℕ) (how : Settlement) (q : TurnQueue)
      → q.active ≡ o
      → P q
      → P (finish_turn o how q)
  finish_turn-P none how q a p = p
  finish_turn-P (some i) how q a p = keeps.drains (release i how q) (keeps.releases i how q a p)

  abbrev Scheduled : TurnQueue × ScheduleAnswer → Type 0
  Scheduled r = P r.0

  step-P : (e : Event) (q : TurnQueue) → P q → P (step e q)
  unfolding step schedule abort_signal operation_ended run_microtask
  step-P (scheduled signal) q p =
      if_cases Scheduled (leb q.max_outstanding_turns (outstanding q)) (λ full. p)
        (λ room.
          if_cases Scheduled (is_aborted signal q.aborted_signals) (λ late. keeps.refuses q p)
            (λ live. keeps.drains (push_turn signal q) (keeps.pushes signal q (ground arith) p)))
  step-P (signal_aborted s) q p = on_aborts-P (listeners s q.pending) _ (keeps.marks s q p)
  step-P (turn_ended how) q p = finish_turn-P q.active how q refl p
  step-P microtask_ran q p =
      if_cases P (ltb 0 q.microtasks) (λ h. keeps.drains (take_microtask q) (keeps.takes q p))
        (λ h. p)

  pub steps-P : (es : List Event) (q : TurnQueue) → P q → P (steps es q)
  unfolding steps
  steps-P [] q p = p
  steps-P (e ∷ es) q p = steps-P es (step e q) (step-P e q p)
