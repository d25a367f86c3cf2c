-- ===== src/Readiness/Controller/Routes.antt =====
-- readiness/ReadinessController.ts: the methods that wait for one kind of page, and the proof that
-- they keep of a fresh one.
use threadwire.Prelude.{
  ℕ, Bool, true, false, ◌&&◌, Option, none, some, List, [], ◌∷◌, Text, ◌==◌, nat_eq, text_eq,
  if◌then◌else◌,
}
use threadwire.Domain.Errors.{
  ErrorCode, Failure, Result, ok, err, threadwire_error, operation_timeout, turn_state_uncertain,
  cdp_readiness_failed, existing_route_readiness_timeout, fresh_route_readiness_timeout,
}
use threadwire.Domain.Runtime.{RuntimeLease, same_runtime_lease}
use threadwire.Exec.{pure, raise, throws, gets, modify, attempt, ◌>>=◌, ◌>>◌}
use threadwire.Turn.{RouteExpectation, on_thread, on_fresh_root, on_project_root}
use threadwire.Readiness.Gate.{Snapshot, EditableTarget}
use threadwire.Readiness.Controller.{
  Act, FreshReadinessProof, Policies, ReadinessPort, clear_proof, existing_policy, fresh_policy,
  take_snapshot, throw_if_aborted,
}
use threadwire.Readiness.Controller.Wait.{wait_for_route, readiness_failure}

unfoldable pub is_thread : RouteExpectation → Bool
is_thread (on_thread locator) = true
is_thread route = false

unfoldable pub same_route_expectation : RouteExpectation → RouteExpectation → Bool
same_route_expectation (on_thread left) (on_thread right) = left == right
same_route_expectation on_fresh_root on_fresh_root = true
same_route_expectation (on_project_root left) (on_project_root right) = left == right
same_route_expectation left right = false

-- `eligibleEditables[0]`
abbrev pub composer_of : Snapshot → Option ℕ
composer_of s = first s.eligible_editables
  where
    first : List EditableTarget → Option ℕ
    first [] = none
    first (target ∷ targets) = some target.backend_dom_node_id

abbrev pub proof_at : RuntimeLease → RouteExpectation → Snapshot → ℕ → FreshReadinessProof
proof_at lease route s node = record {
  lease = lease;
  expected_route = route;
  frame_id = s.main_frame.frame_id;
  loader_id = s.main_frame.loader_id;
  backend_dom_node_id = node;
}

abbrev pub proves_at :
    FreshReadinessProof → RuntimeLease → RouteExpectation → Snapshot → Option ℕ → Bool
proves_at proof lease route s none = false
proves_at proof lease route s (some node) =
    same_runtime_lease proof.lease lease
    && same_route_expectation proof.expected_route route
    && proof.frame_id == s.main_frame.frame_id
    && proof.loader_id == s.main_frame.loader_id
    && proof.backend_dom_node_id == node

unfoldable pub proves :
    Option FreshReadinessProof → RuntimeLease → RouteExpectation → Snapshot → Bool
proves none lease route s = false
proves (some proof) lease route s = proves_at proof lease route s (composer_of s)

-- `throw new …TimeoutError(undefined, { cause: error })` for a timeout, and any other error as it is
unfoldable pub timeout_as : ErrorCode → Failure → Failure
timeout_as c (threadwire_error operation_timeout) = threadwire_error c
timeout_as c e = e

abbrev pub rethrow_timeout : {A : Type 0} → ErrorCode → Result A → Act A
rethrow_timeout c (ok a) = pure a
rethrow_timeout c (err e) = raise (timeout_as c e)

module _ (lease : RuntimeLease) (route : RouteExpectation) where
  abbrev pub keep_proof_at : Snapshot → Option ℕ → Act (Option (Unit {0}))
  keep_proof_at s none = throws cdp_readiness_failed
  keep_proof_at s (some node) = do
    modify (λ w. record w { fresh_readiness_proof = some (proof_at lease route s node) })
    pure (some tt)

  unfoldable pub keep_proof : Option Snapshot → Act (Option (Unit {0}))
  keep_proof none = pure none
  keep_proof (some s) = keep_proof_at s (composer_of s)

abbrev pub returned : Option Snapshot → Option (Unit {0})
returned none = none
returned (some s) = some tt

module _ (port : ReadinessPort) (policies : Policies) (rounds : ℕ) (lease : RuntimeLease) where
  unfoldable pub wait_for_existing_route : Text → Act (Option (Unit {0}))
  wait_for_existing_route locator = do
    clear_proof
    outcome ← attempt (wait_for_route port policies (on_thread locator) rounds existing_policy)
    s ← rethrow_timeout existing_route_readiness_timeout outcome
    pure (returned s)

  -- What `waitForFreshRoute` and `waitForProjectRoute` do with their expected route.
  abbrev pub wait_for_fresh_page : RouteExpectation → Act (Option (Unit {0}))
  wait_for_fresh_page route = do
    clear_proof
    outcome ←
        attempt
          (do s ← wait_for_route port policies route rounds fresh_policy; keep_proof lease route s)
    rethrow_timeout fresh_route_readiness_timeout outcome

  unfoldable pub wait_for_fresh_route : Act (Option (Unit {0}))
  wait_for_fresh_route = wait_for_fresh_page on_fresh_root

  unfoldable pub wait_for_project_route : Text → Act (Option (Unit {0}))
  wait_for_project_route locator = wait_for_fresh_page (on_project_root locator)

  module _ (route : RouteExpectation) where
    unfoldable pub prove_composer : Snapshot → Act (Option (Unit {0}))
    prove_composer s = do
      proof ← gets (λ w. w.fresh_readiness_proof)
      clear_proof
      if proves proof lease route s then pure (some tt) else do
        second ← wait_for_route port policies route rounds fresh_policy
        pure (returned second)

    unfoldable pub finish_composer : Option Snapshot → Act (Option (Unit {0}))
    finish_composer none = pure none
    finish_composer (some s) =
        if is_thread route then clear_proof >> pure (some tt) else prove_composer s

    unfoldable pub wait_for_turn_composer : Act (Option (Unit {0}))
    wait_for_turn_composer = do
      s ← wait_for_route port policies route rounds existing_policy
      finish_composer s

abbrev observed_failure : Failure → Failure
observed_failure (threadwire_error turn_state_uncertain) = threadwire_error cdp_readiness_failed
observed_failure e = readiness_failure e

module _ (port : ReadinessPort) where
  abbrev rethrow_observed : Result Bool → Act Bool
  rethrow_observed (ok b) = pure b
  rethrow_observed (err e) = raise (observed_failure e)

  unfoldable pub is_project_route_current : Act Bool
  is_project_route_current = do
    clear_proof
    throw_if_aborted port
    outcome ←
        attempt (do
          (s, now) ← take_snapshot port
          throw_if_aborted port
          pure s.main_frame.expected_route)
    rethrow_observed outcome
