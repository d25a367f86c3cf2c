-- ===== src/Tests/Runtime.antt =====
-- Leases of the runtime tracker at concrete observations.
use threadwire.Prelude.{◌≡◌, refl, some, none, Option, List, [], ◌∷◌, text, true, ◌↔◌, All, arith}
use threadwire.Domain.Errors.{ok}
use threadwire.Domain.Runtime.{
  RuntimeIdentity, RuntimeLease, RuntimeGenerationTracker, new_tracker, observe, observe_all,
  get_current_runtime_lease, assert_runtime_lease_current,
}
use threadwire.Domain.Runtime.Fence.{IsSame, is_present, lease_fence}

abbrev first_process : RuntimeIdentity
first_process = record { pid = 41; creation_time = text "a" }

abbrev tracked : RuntimeGenerationTracker
tracked = record {
  generation = 1;
  current_identity = some first_process;
  last_identity = some first_process;
}

abbrev first_lease : RuntimeLease
first_lease = record { generation = 1; identity = first_process }

abbrev restarts : List (Option RuntimeIdentity)
restarts = none ∷ some first_process ∷ []

observe_first : observe new_tracker (some first_process) ≡ tracked
unfolding observe
observe_first = refl

lease_fence_example :
    (assert_runtime_lease_current (observe_all tracked restarts) first_lease ≡ ok tt)
    ↔ (All (IsSame first_lease) restarts × (is_present true restarts ≡ true))
unfolding get_current_runtime_lease
lease_fence_example = lease_fence tracked restarts first_lease (ground arith) refl
