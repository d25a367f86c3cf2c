-- ===== src/Routing/Scheduler/Progress.antt =====
-- The queue always drains: no operation waits for ever once those before it end.
use threadwire.Prelude.{
  ℕ, suc, ◌≡◌, refl, ◌<◌, ◌⊎◌, inl, inr, Bool, true, false, Option, none, some, List, [], ◌∷◌,
  arith, if_cases, length, ◌∙◌, ap,
}
use threadwire.Domain.Errors.{Result, ok, err, Failure, ◌>>◌}
use threadwire.Domain.Runtime.{RuntimeLease, get_current_runtime_lease}
use threadwire.Routing.Scheduler.{
  OperationScheduler, QueueEntry, Settlement, settle, start_if_safe, run_entry, drain_loop, drain,
  enqueue, refuse, schedule_if_safe, schedule, abort, abort_queued, complete, complete_active,
  resume, resume_idle, Step, schedules, aborts, completes, resumes, marks, observes, step, steps,
  new_scheduler, is_pending, MutationOperationKind, assert_mutation_state_safe, throw_if_aborted,
  mark_runtime_mutation_state_uncertain,
}

-- Nothing is queued and nothing runs.
pub record IsStopped (s : OperationScheduler) : Type 0 where
  pub queue : s.queue ≡ []
  pub active : s.active ≡ none
  pub running : s.running ≡ false

-- A loop that is not running has nothing left to do.
abbrev pub IsLive : OperationScheduler → Type 0
IsLive s = (s.running ≡ true) ⊎ IsStopped s

start_if_safe-frame :
    (e : QueueEntry) (c : Option RuntimeLease × Result (Unit {0})) (s : OperationScheduler)
    → ((start_if_safe e c s).queue ≡ s.queue) × ((start_if_safe e c s).running ≡ s.running)
unfolding start_if_safe
start_if_safe-frame e (u, err x) s = (refl, refl)
start_if_safe-frame e (u, ok _) s = (refl, refl)

run_entry-frame :
    (e : QueueEntry) (s : OperationScheduler)
    → ((run_entry e s).queue ≡ s.queue) × ((run_entry e s).running ≡ s.running)
unfolding run_entry settle
run_entry-frame e s =
    ground (arith, start_if_safe-frame e (assert_mutation_state_safe s.uncertain_lease e.lease) s)

-- The loop runs an entry of the queue, or comes to its end.
drain_loop-Progress :
    (q : List QueueEntry) (s : OperationScheduler)
    → s.active ≡ none
    → s.running ≡ true
    → ((length (drain_loop q s).queue < length q) × ((drain_loop q s).running ≡ true))
      ⊎ IsStopped (drain_loop q s)
unfolding drain_loop
drain_loop-Progress [] s a r = inr (record { queue = refl; active = a; running = refl })
drain_loop-Progress (e ∷ es) s a r =
    if_cases (λ t. ((length t.queue < suc (length es)) × (t.running ≡ true)) ⊎ IsStopped t)
      e.is_settled
      (λ _. elim (drain_loop-Progress es s a r) [
        | inl (shorter, on) ↦ inl (omega arith, on)
        | inr stopped ↦ inr stopped
      ])
      (λ _. inl (ground (arith, run_entry-frame e (record s { queue = es }))))

drain_loop-IsLive :
    (q : List QueueEntry) (s : OperationScheduler)
    → s.active ≡ none
    → s.running ≡ true
    → IsLive (drain_loop q s)
drain_loop-IsLive q s a r = elim (drain_loop-Progress q s a r) [
  | inl (_, on) ↦ inl on
  | inr stopped ↦ inr stopped
]

-- The running operation ends, and the loop goes on.
pub round : Settlement → OperationScheduler → OperationScheduler
round o s = resume (complete o s)

pub rounds : List Settlement → OperationScheduler → OperationScheduler
rounds [] s = s
rounds (o ∷ os) s = rounds os (round o s)

complete-frame :
    (o : Settlement) (s : OperationScheduler)
    → ((complete o s).queue ≡ s.queue)
      × ((complete o s).running ≡ s.running)
      × ((complete o s).active ≡ none)
unfolding complete complete_active settle
complete-frame o s = ground arith

resume_idle-Progress :
    (a : Option QueueEntry) (s : OperationScheduler)
    → a ≡ none
    → s.active ≡ none
    → s.running ≡ true
    → ((length (resume_idle a s).queue < length s.queue) × ((resume_idle a s).running ≡ true))
      ⊎ IsStopped (resume_idle a s)
unfolding resume_idle
resume_idle-Progress (some e) s p v r = cc
resume_idle-Progress none s p v r =
    if_cases (λ t. ((length t.queue < length s.queue) × (t.running ≡ true)) ⊎ IsStopped t) s.running
      (λ _. drain_loop-Progress s.queue s v r) (λ off. cc)

round-Progress :
    (o : Settlement) (s : OperationScheduler)
    → s.running ≡ true
    → ((length (round o s).queue < length s.queue) × ((round o s).running ≡ true))
      ⊎ IsStopped (round o s)
unfolding round resume
round-Progress o s r =
    let (queue, running, active) = complete-frame o s in
    elim (resume_idle-Progress (complete o s).active (complete o s) active active (running ∙ r)) [
      | inl (shorter, on) ↦ inl (omega (arith, ap length queue), on)
      | inr stopped ↦ inr stopped
    ]

round-IsStopped : (o : Settlement) (s : OperationScheduler) → IsStopped s → IsStopped (round o s)
unfolding round resume resume_idle complete complete_active
round-IsStopped o s v = ground arith

rounds-IsStopped :
    (os : List Settlement) (s : OperationScheduler) → IsStopped s → IsStopped (rounds os s)
unfolding rounds
rounds-IsStopped [] s v = v
rounds-IsStopped (o ∷ os) s v = rounds-IsStopped os (round o s) (round-IsStopped o s v)

rounds-drain :
    (os : List Settlement) (s : OperationScheduler)
    → s.running ≡ true
    → length s.queue < length os
    → IsStopped (rounds os s)
unfolding rounds
rounds-drain [] s r h = absurd (omega arith)
rounds-drain (o ∷ os) s r h = elim (round-Progress o s r) [
  | inl (shorter, on) ↦ rounds-drain os (round o s) on (omega arith)
  | inr stopped ↦ rounds-IsStopped os (round o s) stopped
]

resume_idle-IsLive :
    (a : Option QueueEntry) (s : OperationScheduler)
    → s.active ≡ a
    → IsLive s
    → IsLive (resume_idle a s)
unfolding resume_idle
resume_idle-IsLive (some e) s p v = v
resume_idle-IsLive none s p v = if_cases IsLive s.running (drain_loop-IsLive s.queue s p) (λ _. v)

drain-IsLive : (s : OperationScheduler) → (s.running ≡ false → s.active ≡ none) → IsLive (drain s)
unfolding drain
drain-IsLive s idle =
    if_cases IsLive s.running inl
      (λ off. drain_loop-IsLive s.queue (record s { running = true }) (idle off) refl)

schedule_if_safe-IsLive :
    (kind : MutationOperationKind) (lease : RuntimeLease)
    (c : Option RuntimeLease × Result (Unit {0})) (s : OperationScheduler)
    → IsLive s
    → IsLive (schedule_if_safe kind lease c s)
unfolding schedule_if_safe enqueue refuse settle
schedule_if_safe-IsLive kind lease (u, err x) s v = ground arith
schedule_if_safe-IsLive kind lease (u, ok _) s v = drain-IsLive _ (λ off. ground arith)

refuse-IsLive : (x : Failure) (s : OperationScheduler) → IsLive s → IsLive (refuse x s)
unfolding refuse settle
refuse-IsLive x s v = ground arith

schedule_checks-IsLive :
    (kind : MutationOperationKind) (aborted : Bool) (c : Result RuntimeLease)
    (s : OperationScheduler)
    → IsLive s
    → (elim c as (λ _. OperationScheduler) [
      | err x ↦ refuse x s
      | ok lease ↦
          schedule_if_safe kind lease (assert_mutation_state_safe s.uncertain_lease lease) s
    ]
        ≡ schedule kind aborted s)
    → IsLive (schedule kind aborted s)
schedule_checks-IsLive kind aborted (err x) s v p = rw (← p) (refuse-IsLive x s v)
schedule_checks-IsLive kind aborted (ok lease) s v p =
    rw (← p) (schedule_if_safe-IsLive kind lease _ s v)

abort-IsLive : (i : ℕ) (s : OperationScheduler) → IsLive s → IsLive (abort i s)
unfolding abort abort_queued settle
abort-IsLive i s (inl on) = if_cases IsLive (is_pending i s.queue) (λ _. inl on) (λ _. inl on)
abort-IsLive i s (inr v) =
    if_cases IsLive (is_pending i s.queue)
      (λ _.
        inr (record { queue = rw (v.queue, abort_queued); active = v.active; running = v.running }))
      (λ _. inr v)

complete-IsLive : (o : Settlement) (s : OperationScheduler) → IsLive s → IsLive (complete o s)
unfolding complete complete_active settle
complete-IsLive o s v = ground arith

step-IsLive : (s : OperationScheduler) (x : Step) → IsLive s → IsLive (step s x)
unfolding step mark_runtime_mutation_state_uncertain schedule resume
step-IsLive s (schedules kind aborted) v =
    schedule_checks-IsLive kind aborted
      (do throw_if_aborted aborted; get_current_runtime_lease s.runtime) s v refl
step-IsLive s (aborts id) v = abort-IsLive id s v
step-IsLive s (completes outcome) v = complete-IsLive outcome s v
step-IsLive s resumes v = resume_idle-IsLive s.active s refl v
step-IsLive s (marks lease) v = ground arith
step-IsLive s (observes identity) v = ground arith

steps-IsLive : (s : OperationScheduler) (xs : List Step) → IsLive s → IsLive (steps s xs)
unfolding steps
steps-IsLive s [] v = v
steps-IsLive s (x ∷ xs) v = steps-IsLive (step s x) xs (step-IsLive s x v)

-- After any history, ending the running operation and letting the loop go on, once more than there
-- are queued entries and with any outcomes, empties the queue and leaves the loop at rest.
pub rounds-drain_reachable :
    (xs : List Step) (os : List Settlement)
    → length (steps new_scheduler xs).queue < length os
    → IsStopped (rounds os (steps new_scheduler xs))
rounds-drain_reachable xs os h =
    elim (steps-IsLive new_scheduler xs
      (inr (record { queue = refl; active = refl; running = refl }))) [
        | inl on ↦ rounds-drain os (steps new_scheduler xs) on h
        | inr stopped ↦ rounds-IsStopped os (steps new_scheduler xs) stopped
      ]
