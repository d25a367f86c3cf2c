-- ===== src/Routing/Scheduler.antt =====
-- routing/OperationScheduler.ts, as a state machine over what the event loop delivers. Each step is
-- the code that runs without yielding: `schedule`, an abort of a queued operation's signal, the end
-- of the running operation, and the `drain` loop going on after an `await`. An operation's promise
-- is its number; `log`, newest first, records its start and its settlement. The runtime that issues
-- leases is the tracker of domain/RuntimeGeneration.ts, which runtime/ClassicSupervisor.ts wraps.
pub mod Serial
pub mod Progress
pub mod Uncertainty
use threadwire.Prelude.{
  ℕ, ◌+◌, Bool, true, false, not, ◌&&◌, ◌||◌, Option, none, some, List, [], ◌∷◌, ◌++◌, ◌==◌, nat_eq,
  if◌then◌else◌,
}
use threadwire.Domain.Errors.{
  Result, Failure, threadwire_error, ok, err, throw, ◌>>=◌, ◌>>◌, operation_aborted,
  turn_state_uncertain,
}
use threadwire.Domain.Runtime.{
  RuntimeIdentity, RuntimeLease, RuntimeGenerationTracker, new_tracker, same_runtime_lease, observe,
  get_current_runtime_lease, assert_runtime_lease_current,
}

pub data MutationOperationKind : Type 0 where
  route turn project : MutationOperationKind

pub data Settlement : Type 0 where
  resolved : Settlement
  rejected : Failure → Settlement

pub data LogEntry : Type 0 where
  started : ℕ → RuntimeLease → LogEntry
  settled : ℕ → Settlement → LogEntry

-- A queued operation; `aborted` is the state of its signal.
pub record QueueEntry : Type 0 where
  pub id : ℕ
  pub kind : MutationOperationKind
  pub lease : RuntimeLease
  pub aborted : Bool
  pub is_settled : Bool

pub record OperationScheduler : Type 0 where
  pub queue : List QueueEntry
  pub active : Option QueueEntry
  pub running : Bool
  pub uncertain_lease : Option RuntimeLease
  pub runtime : RuntimeGenerationTracker
  pub next_id : ℕ
  pub log : List LogEntry

abbrev pub new_scheduler : OperationScheduler
new_scheduler = record {
  queue = [];
  active = none;
  running = false;
  uncertain_lease = none;
  runtime = new_tracker;
  next_id = 0;
  log = [];
}

abbrev pub throw_if_aborted : Bool → Result (Unit {0})
throw_if_aborted true = throw operation_aborted
throw_if_aborted false = ok tt

-- `assertMutationStateSafeForLease`: the new `uncertainLease`, and whether it throws
unfoldable pub assert_mutation_state_safe :
    Option RuntimeLease → RuntimeLease → Option RuntimeLease × Result (Unit {0})
assert_mutation_state_safe none lease = (none, ok tt)
assert_mutation_state_safe (some uncertain) lease =
    if same_runtime_lease uncertain lease
    then (some uncertain, throw turn_state_uncertain)
    else (none, ok tt)

unfoldable pub settle : ℕ → Settlement → OperationScheduler → OperationScheduler
settle id outcome s = record s { log = settled id outcome ∷ s.log }

unfoldable pub start : QueueEntry → OperationScheduler → OperationScheduler
start e s = record s { active = some e; log = started e.id e.lease ∷ s.log }

-- The last check of `run`, with what it leaves in `uncertainLease`.
start_if_safe :
    QueueEntry → Option RuntimeLease × Result (Unit {0}) → OperationScheduler → OperationScheduler
unfolding start settle
start_if_safe e (uncertain, err x) s =
    settle e.id (rejected x) (record s { uncertain_lease = uncertain })
start_if_safe e (uncertain, ok _) s = start e (record s { uncertain_lease = uncertain })

-- `run` of an entry that is not settled, up to the operation's first `await`
unfoldable pub run_entry : QueueEntry → OperationScheduler → OperationScheduler
unfolding start_if_safe settle
run_entry e s =
    elim (do throw_if_aborted e.aborted; assert_runtime_lease_current s.runtime e.lease) [
      | err x ↦ settle e.id (rejected x) s
      | ok _ ↦ start_if_safe e (assert_mutation_state_safe s.uncertain_lease e.lease) s
    ]

-- The loop of `drain` over the queue, up to an `await`.
unfoldable pub drain_loop : List QueueEntry → OperationScheduler → OperationScheduler
drain_loop [] s = record s { queue = []; running = false }
drain_loop (e ∷ es) s =
    let rest = drain_loop es s in
    if e.is_settled then rest else run_entry e (record s { queue = es })

unfoldable pub drain : OperationScheduler → OperationScheduler
drain s = if s.running then s else drain_loop s.queue (record s { running = true })

enqueue : MutationOperationKind → RuntimeLease → OperationScheduler → OperationScheduler
enqueue kind lease s = record s {
  queue =
      s.queue
      ++ record { id = s.next_id; kind = kind; lease = lease; aborted = false; is_settled = false }
        ∷ [];
  next_id = s.next_id + 1;
}

-- A call that is rejected at once takes a number too.
refuse : Failure → OperationScheduler → OperationScheduler
unfolding settle
refuse x s = settle s.next_id (rejected x) (record s { next_id = s.next_id + 1 })

schedule_if_safe :
    MutationOperationKind
    → RuntimeLease
    → Option RuntimeLease × Result (Unit {0})
    → OperationScheduler
    → OperationScheduler
unfolding enqueue refuse
schedule_if_safe kind lease (uncertain, err x) s =
    refuse x (record s { uncertain_lease = uncertain })
schedule_if_safe kind lease (uncertain, ok _) s =
    drain (enqueue kind lease (record s { uncertain_lease = uncertain }))

unfoldable pub schedule : MutationOperationKind → Bool → OperationScheduler → OperationScheduler
unfolding schedule_if_safe refuse
schedule kind aborted s = elim (do throw_if_aborted aborted; get_current_runtime_lease s.runtime) [
  | err x ↦ refuse x s
  | ok lease ↦ schedule_if_safe kind lease (assert_mutation_state_safe s.uncertain_lease lease) s
]

-- `onQueuedAbort` of the entry with this number; a queued entry has not started
abbrev abort_entry : ℕ → QueueEntry → QueueEntry
abort_entry id e = record e {
  aborted = e.id == id || e.aborted;
  is_settled = e.id == id || e.is_settled;
}

unfoldable pub abort_queued : ℕ → List QueueEntry → List QueueEntry
abort_queued id [] = []
abort_queued id (e ∷ es) = abort_entry id e ∷ abort_queued id es

-- Whether an entry with this number is queued and not settled.
unfoldable pub is_pending : ℕ → List QueueEntry → Bool
is_pending id [] = false
is_pending id (e ∷ es) = (e.id == id && not e.is_settled) || is_pending id es

unfoldable pub abort : ℕ → OperationScheduler → OperationScheduler
unfolding abort_queued is_pending settle
abort id s =
    if is_pending id s.queue
    then settle id (rejected (threadwire_error operation_aborted))
        (record s { queue = abort_queued id s.queue })
    else s

-- The running operation's promise settles.
complete_active : Settlement → Option QueueEntry → OperationScheduler → OperationScheduler
unfolding settle
complete_active outcome none s = s
complete_active outcome (some e) s = settle e.id outcome (record s { active = none })

unfoldable pub complete : Settlement → OperationScheduler → OperationScheduler
unfolding complete_active
complete outcome s = complete_active outcome s.active s

-- `drain` goes on once the entry that it awaits has run.
resume_idle : Option QueueEntry → OperationScheduler → OperationScheduler
resume_idle (some e) s = s
resume_idle none s = if s.running then drain_loop s.queue s else s

unfoldable pub resume : OperationScheduler → OperationScheduler
unfolding resume_idle
resume s = resume_idle s.active s

unfoldable pub mark_runtime_mutation_state_uncertain :
    RuntimeLease → OperationScheduler → OperationScheduler
mark_runtime_mutation_state_uncertain lease s = record s { uncertain_lease = some lease }

pub data Step : Type 0 where
  schedules : MutationOperationKind → Bool → Step
  aborts : ℕ → Step
  completes : Settlement → Step
  resumes : Step
  marks : RuntimeLease → Step
  observes : Option RuntimeIdentity → Step

unfoldable pub step : OperationScheduler → Step → OperationScheduler
step s (schedules kind aborted) = schedule kind aborted s
step s (aborts id) = abort id s
step s (completes outcome) = complete outcome s
step s resumes = resume s
step s (marks lease) = mark_runtime_mutation_state_uncertain lease s
step s (observes identity) = record s { runtime = observe s.runtime identity }

unfoldable pub steps : OperationScheduler → List Step → OperationScheduler
steps s [] = s
steps s (x ∷ xs) = steps (step s x) xs
