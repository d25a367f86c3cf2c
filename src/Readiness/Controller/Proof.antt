-- ===== src/Readiness/Controller/Proof.antt =====
-- The proof that the controller keeps of a fresh page, and the test that compares one.
use threadwire.Prelude.{
  ℕ, ◌≡◌, refl, ap, ◌&&◌, Bool, true, false, Option, none, some, nat_eq, text_eq, text_beq_iff,
  nat_beq_iff,
}
use threadwire.Domain.Runtime.{RuntimeLease}
use threadwire.Domain.Runtime.Fence.{same_runtime_lease_iff}
use threadwire.Turn.{RouteExpectation, on_thread, on_fresh_root, on_project_root}
use threadwire.Readiness.Gate.{Snapshot}
use threadwire.Readiness.Controller.{FreshReadinessProof}
use threadwire.Readiness.Controller.Routes.{
  same_route_expectation, composer_of, proof_at, proves, proves_at,
}

same_route_expectation-is :
    (left right : RouteExpectation) → same_route_expectation left right ≡ true → left ≡ right
unfolding same_route_expectation
same_route_expectation-is (on_thread a) (on_thread b) p = ap on_thread ((text_beq_iff a b).0 p)
same_route_expectation-is on_fresh_root on_fresh_root p = refl
same_route_expectation-is (on_project_root a) (on_project_root b) p =
    ap on_project_root ((text_beq_iff a b).0 p)
same_route_expectation-is (on_thread a) on_fresh_root p = cc
same_route_expectation-is (on_thread a) (on_project_root b) p = cc
same_route_expectation-is on_fresh_root (on_thread b) p = cc
same_route_expectation-is on_fresh_root (on_project_root b) p = cc
same_route_expectation-is (on_project_root a) (on_thread b) p = cc
same_route_expectation-is (on_project_root a) on_fresh_root p = cc

both : (a b : Bool) → (a && b) ≡ true → (a ≡ true) × (b ≡ true)
both true b p = (refl, p)
both false b p = cc

proof_fields-is :
    (proof : FreshReadinessProof) (lease : RuntimeLease) (route : RouteExpectation) (s : Snapshot)
    (node : ℕ)
    → proof.lease ≡ lease
    → proof.expected_route ≡ route
    → proof.frame_id ≡ s.main_frame.frame_id
    → proof.loader_id ≡ s.main_frame.loader_id
    → proof.backend_dom_node_id ≡ node
    → proof ≡ proof_at lease route s node
proof_fields-is proof lease route s node p q r u v = cc

-- The proof held is the one that a wait for a fresh page with this lease and route keeps of `s`.
abbrev pub IsProofOf :
    Option FreshReadinessProof → RuntimeLease → RouteExpectation → Snapshot → Type 0
IsProofOf held lease route s =
    (node : ℕ) × (held ≡ some (proof_at lease route s node)) × (composer_of s ≡ some node)

proves_at-is :
    (proof : FreshReadinessProof) (lease : RuntimeLease) (route : RouteExpectation) (s : Snapshot)
    (o : Option ℕ)
    → proves_at proof lease route s o ≡ true
    → (node : ℕ) × (some proof ≡ some (proof_at lease route s node)) × (o ≡ some node)
proves_at-is proof lease route s none p = cc
proves_at-is proof lease route s (some node) p =
    let (p, nodes) = both _ _ p in
    let (p, loaders) = both _ _ p in
    let (p, frames) = both _ _ p in
    let (leases, routes) = both _ _ p in
    (
      node,
      ap some (
          proof_fields-is proof lease route s node
            ((same_runtime_lease_iff proof.lease lease).0 leases)
            (same_route_expectation-is proof.expected_route route routes)
            ((text_beq_iff _ _).0 frames) ((text_beq_iff _ _).0 loaders)
            ((nat_beq_iff _ _).0 nodes)),
      refl,
    )

pub proves-is :
    (held : Option FreshReadinessProof) (lease : RuntimeLease) (route : RouteExpectation)
    (s : Snapshot)
    → proves held lease route s ≡ true
    → IsProofOf held lease route s
unfolding proves
proves-is none lease route s p = cc
proves-is (some proof) lease route s p = proves_at-is proof lease route s (composer_of s) p
