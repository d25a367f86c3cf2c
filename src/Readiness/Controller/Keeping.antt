-- ===== src/Readiness/Controller/Keeping.antt =====
-- The wait for a fresh page, which keeps a proof of it.
use threadwire.Prelude.{ℕ, ◌≡◌, refl, inl, Option, none, some, nat_eq, text_eq}
use threadwire.Domain.Errors.{ErrorCode, Result, ok, err, fresh_route_readiness_timeout}
use threadwire.Domain.Runtime.{RuntimeLease}
use threadwire.Exec.Rules.{
  Ends, Triple, Triple-pure, Triple-modify, Triple-raise, Triple-bind, Triple-before,
  Triple-attempt,
}
use threadwire.Turn.{RouteExpectation}
use threadwire.Readiness.Gate.{Snapshot}
use threadwire.Readiness.Controller.{
  fresh_policy, Policies, FreshReadinessProof, ReadinessPort, Waiting,
}
use threadwire.Readiness.Controller.Routes.{
  composer_of, keep_proof, keep_proof_at, rethrow_timeout, wait_for_fresh_page,
}
use threadwire.Readiness.Controller.Seen.{Sees, Anything, Kept, ReadyAfter, ended}
use threadwire.Readiness.Controller.Ready.{Returned, wait_for_route-Returned}
use threadwire.Readiness.Controller.Settled.{ValidPolicies, Settled, ReadyAfter-Settled}
use threadwire.Readiness.Controller.Proof.{IsProofOf}

module _ (port : ReadinessPort) (policies : Policies) (rounds : ℕ) (lease : RuntimeLease)
    (route : RouteExpectation) (held : Option FreshReadinessProof) where
  -- A wait for a fresh page that returns has found one and keeps its proof.
  Keeps : Option (Unit {0}) → Waiting → Type 0
  Keeps none w = Unit {0}
  Keeps (some done) w =
      (s : Snapshot) × ReadyAfter policies fresh_policy s w.observed
      × IsProofOf w.fresh_readiness_proof lease route s

  keep_proof_at-Keeps :
      (s : Snapshot) (o : Option ℕ)
      → composer_of s ≡ o
      → Triple
          (λ w. ReadyAfter policies fresh_policy s w.observed)
          (keep_proof_at lease route s o)
          Keeps
          Anything
  unfolding Keeps
  keep_proof_at-Keeps s none none_there = Triple-raise _ (λ w h. tt)
  keep_proof_at-Keeps s (some node) there =
      Triple-bind (λ done w. Keeps (some tt) w)
        (Triple-modify _ (λ w h. (s, h, (node, refl, there))))
        (λ done. Triple-pure (some tt) (λ w h. h))

  keep_proof-Keeps :
      (found : Option Snapshot)
      → Triple
          (Sees (Returned port policies route fresh_policy held found))
          (keep_proof lease route found)
          Keeps
          Anything
  unfolding keep_proof Keeps
  keep_proof-Keeps none = Triple-pure none (λ w h. tt)
  keep_proof-Keeps (some s) =
      Triple-before (λ w h. h.0) (keep_proof_at-Keeps s (composer_of s) refl)

  rethrow-Keeps :
      (c : ErrorCode) (r : Result (Option (Unit {0})))
      → Triple (λ w. Ends Keeps Anything (w, r)) (rethrow_timeout c r) Keeps Anything
  rethrow-Keeps c (ok done) = Triple-pure done (λ w h. h)
  rethrow-Keeps c (err e) = Triple-raise _ (λ w h. tt)

  fresh_page-Keeps :
      Triple (λ w. Unit {0}) (wait_for_fresh_page port policies rounds lease route) Keeps Anything
  fresh_page-Keeps =
      Triple-bind (λ done w. Sees (λ proof observed. Kept held proof) w)
        (Triple-modify _ (λ w h. inl refl))
        λ done.
          Triple-bind _
            (Triple-attempt Anything (
              Triple-bind (λ found w. Sees (Returned port policies route fresh_policy held found) w)
                (wait_for_route-Returned port policies route fresh_policy held rounds)
                (λ found. keep_proof-Keeps found)))
            (λ r. rethrow-Keeps fresh_route_readiness_timeout r)

module _ (port : ReadinessPort) (policies : Policies) (rounds : ℕ) (lease : RuntimeLease)
    (route : RouteExpectation) where
  -- When the policies ask for at least one observation of each kind: if the wait for a fresh page,
  -- which is what the waits for the fresh root and for a project's page are, returns, then the newest
  -- snapshots show a settled page as the policy for a fresh page asks, and the controller holds the
  -- proof of this lease, route, frame, document and composer.
  pub wait_for_fresh_page-Keeps :
      (w w1 : Waiting)
      → ValidPolicies policies
      → wait_for_fresh_page port policies rounds lease route w ≡ (w1, ok (some tt))
      → (s : Snapshot) × Settled policies fresh_policy s w1.observed
        × IsProofOf w1.fresh_readiness_proof lease route s
  unfolding Keeps
  wait_for_fresh_page-Keeps w w1 valid is =
      let (s, found, proof) =
        ended (Keeps port policies rounds lease route none) _ w1 (some tt)
          ((fresh_page-Keeps port policies rounds lease route none).at w tt) is in
      (s, ReadyAfter-Settled policies fresh_policy s w1.observed valid found, proof)
