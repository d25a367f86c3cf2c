-- ===== src/Routing/Scheduler/Serial/Steps.antt =====
-- Every step of the scheduler keeps its log serial.
use threadwire.Prelude.{
  ℕ, ◌+◌, ◌≡◌, refl, ◌≤◌, Bool, Option, none, some, List, [], ◌∷◌, arith, if_cases,
}
use threadwire.Domain.Errors.{Result, ok, err, Failure, ◌>>◌}
use threadwire.Domain.Runtime.{RuntimeLease, get_current_runtime_lease}
use threadwire.Routing.Scheduler.{
  OperationScheduler, QueueEntry, LogEntry, settled, Settlement, rejected, resolved, enqueue,
  refuse, schedule_if_safe, schedule, abort, complete, complete_active, Step, schedules, aborts,
  completes, resumes, marks, observes, step, steps, new_scheduler, is_pending,
  MutationOperationKind, assert_mutation_state_safe, throw_if_aborted,
  mark_runtime_mutation_state_uncertain,
}
use threadwire.Routing.Scheduler.Serial.{is_settled_in, floor, Activity, Inv, IsSerial}
use threadwire.Routing.Scheduler.Serial.Queue.{
  AllDone-mono, settled_mono, FreshLog-unsettled, FreshLog-mono, QueueOk-settled, QueueOk-le,
  QueueOk-snoc, pending-unsettled, QueueOk-aborted, QueueOk-refused,
}
use threadwire.Routing.Scheduler.Serial.Entries.{drain-Inv, resume-Inv}

-- A settlement of a number that nothing holds.
Activity-settled :
    (a : Option QueueEntry) (log : List LogEntry) (i : ℕ) (o : Settlement)
    → floor log ≤ i
    → Activity a log
    → Activity a (settled i o ∷ log)
Activity-settled none log i o h v =
    AllDone-mono (λ j. is_settled_in j log) _ log (settled_mono i o log) v
Activity-settled (some e) log i o h (v, u, b) = (
  AllDone-mono (λ j. is_settled_in j (settled e.id resolved ∷ log)) _ log (λ j k. ground arith) v,
  ground arith,
  b,
)

with_uncertain-Inv :
    (s : OperationScheduler) (u : Option RuntimeLease)
    → Inv s
    → Inv (record s { uncertain_lease = u })
with_uncertain-Inv s u v = record {
  serial = v.serial;
  queued = v.queued;
  fresh = v.fresh;
  activity = v.activity;
  idle = v.idle;
}

refuse-Inv : (x : Failure) (s : OperationScheduler) → Inv s → Inv (refuse x s)
unfolding refuse
refuse-Inv x s v =
    let low = QueueOk-le (floor s.log) s.next_id s.log s.queue v.queued in
    let unused = FreshLog-unsettled s.next_id s.next_id s.log (omega arith) v.fresh in
    record {
      serial = (unused, v.serial);
      queued = QueueOk-refused (floor s.log) s.next_id s.log s.queue (rejected x) v.queued;
      fresh = (omega arith, FreshLog-mono s.next_id (s.next_id + 1) s.log (omega arith) v.fresh);
      activity = Activity-settled s.active s.log s.next_id (rejected x) low v.activity;
      idle = v.idle;
    }

enqueue-Inv :
    (kind : MutationOperationKind) (lease : RuntimeLease) (s : OperationScheduler)
    → Inv s
    → Inv (enqueue kind lease s)
unfolding enqueue
enqueue-Inv kind lease s v =
    let unused = FreshLog-unsettled s.next_id s.next_id s.log (omega arith) v.fresh in
    record {
      serial = v.serial;
      queued = QueueOk-snoc (floor s.log) s.next_id s.log s.queue _ refl unused v.queued;
      fresh = FreshLog-mono s.next_id (s.next_id + 1) s.log (omega arith) v.fresh;
      activity = v.activity;
      idle = v.idle;
    }

abort-Inv : (i : ℕ) (s : OperationScheduler) → Inv s → Inv (abort i s)
unfolding abort
abort-Inv i s v =
    if_cases Inv (is_pending i s.queue)
      (λ p.
        let (unused, above, below) =
          pending-unsettled (floor s.log) s.next_id s.log s.queue i v.queued p in
        record {
          serial = (unused, v.serial);
          queued = QueueOk-aborted (floor s.log) s.next_id s.log s.queue i _ v.queued;
          fresh = (below, v.fresh);
          activity = Activity-settled s.active s.log i _ above v.activity;
          idle = v.idle;
        })
      (λ _. v)

complete_active-Inv :
    (o : Settlement) (a : Option QueueEntry) (s : OperationScheduler)
    → s.active ≡ a
    → Inv s
    → Inv (complete_active o a s)
unfolding complete_active
complete_active-Inv o none s p v = v
complete_active-Inv o (some e) s p v =
    let (done, unsettled, below) = rw (p, Activity) at v.activity in
    record {
      serial = (unsettled, v.serial);
      queued = QueueOk-settled (floor s.log) s.next_id s.log s.queue e.id o below v.queued;
      fresh = (omega (arith, QueueOk-le (floor s.log) s.next_id s.log s.queue v.queued), v.fresh);
      activity = done;
      idle = λ _. refl;
    }

schedule_if_safe-Inv :
    (kind : MutationOperationKind) (lease : RuntimeLease)
    (c : Option RuntimeLease × Result (Unit {0})) (s : OperationScheduler)
    → Inv s
    → Inv (schedule_if_safe kind lease c s)
unfolding schedule_if_safe
schedule_if_safe-Inv kind lease (u, err x) s v =
    refuse-Inv x (record s { uncertain_lease = u }) (with_uncertain-Inv s u v)
schedule_if_safe-Inv kind lease (u, ok _) s v =
    drain-Inv (enqueue kind lease (record s { uncertain_lease = u }))
      (enqueue-Inv kind lease (record s { uncertain_lease = u }) (with_uncertain-Inv s u v))

schedule_checks-Inv :
    (kind : MutationOperationKind) (aborted : Bool) (c : Result RuntimeLease)
    (s : OperationScheduler)
    → Inv s
    → (elim c as (λ _. OperationScheduler) [
      | err x ↦ refuse x s
      | ok lease ↦
          schedule_if_safe kind lease (assert_mutation_state_safe s.uncertain_lease lease) s
    ]
        ≡ schedule kind aborted s)
    → Inv (schedule kind aborted s)
schedule_checks-Inv kind aborted (err x) s v p = rw (← p) (refuse-Inv x s v)
schedule_checks-Inv kind aborted (ok lease) s v p = rw (← p) (schedule_if_safe-Inv kind lease _ s v)

schedule-Inv :
    (kind : MutationOperationKind) (aborted : Bool) (s : OperationScheduler)
    → Inv s
    → Inv (schedule kind aborted s)
unfolding schedule
schedule-Inv kind aborted s v =
    schedule_checks-Inv kind aborted
      (do throw_if_aborted aborted; get_current_runtime_lease s.runtime) s v refl

step-Inv : (s : OperationScheduler) (x : Step) → Inv s → Inv (step s x)
unfolding step mark_runtime_mutation_state_uncertain complete
step-Inv s (schedules kind aborted) v = schedule-Inv kind aborted s v
step-Inv s (aborts id) v = abort-Inv id s v
step-Inv s (completes outcome) v = complete_active-Inv outcome s.active s refl v
step-Inv s resumes v = resume-Inv s v
step-Inv s (marks lease) v = with_uncertain-Inv s (some lease) v
step-Inv s (observes identity) v = record {
  serial = v.serial;
  queued = v.queued;
  fresh = v.fresh;
  activity = v.activity;
  idle = v.idle;
}

steps-Inv : (s : OperationScheduler) (xs : List Step) → Inv s → Inv (steps s xs)
unfolding steps
steps-Inv s [] v = v
steps-Inv s (x ∷ xs) v = steps-Inv (step s x) xs (step-Inv s x v)

pub reachable-Inv : (xs : List Step) → Inv (steps new_scheduler xs)
reachable-Inv xs =
    steps-Inv new_scheduler xs
      (record { serial = tt; queued = omega arith; fresh = tt; activity = tt; idle = λ _. refl })

-- In every history of a scheduler the operations start in the order of their calls, each only once
-- every operation started before it has settled and before its own promise does, and no promise
-- settles twice.
pub log-IsSerial : (xs : List Step) → IsSerial (steps new_scheduler xs).log
log-IsSerial xs = (reachable-Inv xs).serial
