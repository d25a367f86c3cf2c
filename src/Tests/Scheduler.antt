-- ===== src/Tests/Scheduler.antt =====
-- The scheduler at a concrete history.
use threadwire.Prelude.{◌≡◌, refl, some, List, [], ◌∷◌, text, false, arith, text_beq}
use threadwire.Domain.Runtime.{
  RuntimeIdentity, RuntimeLease, get_current_runtime_lease, observe, new_tracker,
  assert_runtime_lease_current, same_runtime_lease, same_runtime_identity,
}
use threadwire.Domain.Runtime.Fence as Fence
use threadwire.Routing.Scheduler.{
  OperationScheduler, new_scheduler, Step, steps, step, schedules, aborts, completes, resumes,
  marks, observes, turn, route, resolved, Settlement, schedule, drain, drain_loop, run_entry,
  assert_mutation_state_safe, start, settle,
}
use threadwire.Routing.Scheduler.Serial.{IsSerial}
use threadwire.Routing.Scheduler.Serial.Steps.{log-IsSerial}
use threadwire.Routing.Scheduler.Progress.{IsStopped, rounds, rounds-drain_reachable}
use threadwire.Routing.Scheduler.Uncertainty.{starts_of, uncertain-no_start}

abbrev process : RuntimeIdentity
process = record { pid = 7; creation_time = text "t" }

abbrev lease : RuntimeLease
lease = record { generation = 1; identity = process }

-- Two turns, the second of which is aborted while the first runs.
abbrev history : List Step
history =
    observes (some process)
    ∷ schedules turn false
    ∷ schedules turn false
    ∷ aborts 1
    ∷ completes resolved
    ∷ resumes
    ∷ []

log-IsSerial_example : IsSerial (steps new_scheduler history).log
log-IsSerial_example = log-IsSerial history

abbrev outcomes : List Settlement
outcomes = resolved ∷ resolved ∷ resolved ∷ []

abbrev queued : List Step
queued = observes (some process) ∷ schedules turn false ∷ schedules route false ∷ []

rounds-drain_reachable_example : IsStopped (rounds outcomes (steps new_scheduler queued))
unfolding steps step schedule get_current_runtime_lease observe drain drain_loop run_entry
    assert_mutation_state_safe assert_runtime_lease_current same_runtime_lease same_runtime_identity
    text_beq start settle
rounds-drain_reachable_example = rounds-drain_reachable queued outcomes (omega arith)

abbrev observed : OperationScheduler
observed = steps new_scheduler (observes (some process) ∷ [])

uncertain-no_start_example :
    starts_of lease (steps (step observed (marks lease)) (schedules turn false ∷ resumes ∷ [])).log
    ≡ starts_of lease observed.log
unfolding steps step get_current_runtime_lease observe
uncertain-no_start_example =
    uncertain-no_start lease observed (schedules turn false ∷ resumes ∷ [])
      (Fence.observe-Inv new_tracker (some process) Fence.new_tracker-Inv) refl (tt, (tt, tt))
