-- ===== src/Readiness/Controller/Proven.antt =====
-- What lets a turn's composer through on a page that has no conversation yet.
use threadwire.Prelude.{
  ℕ, ◌≡◌, refl, sym, ◌∙◌, ◌⊎◌, inl, inr, false, Option, none, some, nat_eq, text_eq,
}
use threadwire.Domain.Errors.{ok}
use threadwire.Domain.Runtime.{RuntimeLease}
use threadwire.Exec.{pure}
use threadwire.Exec.Rules.{
  Triple, Triple-pure, Triple-gets, Triple-modify, Triple-bind, Triple-if, Triple-before,
}
use threadwire.Turn.{RouteExpectation}
use threadwire.Readiness.Gate.{Snapshot}
use threadwire.Readiness.Controller.{
  existing_policy, fresh_policy, Policies, FreshReadinessProof, ReadinessPort, Waiting,
}
use threadwire.Readiness.Controller.Routes.{
  is_thread, proves, returned, prove_composer, finish_composer, wait_for_turn_composer,
}
use threadwire.Readiness.Controller.Seen.{Sees, Anything, Kept, ReadyAfter, ended}
use threadwire.Readiness.Controller.Ready.{Returned, wait_for_route-Returned}
use threadwire.Readiness.Controller.Settled.{ValidPolicies, Settled, ReadyAfter-Settled}
use threadwire.Readiness.Controller.Proof.{IsProofOf, proves-is}

Kept-proved :
    (held proof : Option FreshReadinessProof) (lease : RuntimeLease) (route : RouteExpectation)
    (s : Snapshot)
    → Kept held proof
    → IsProofOf proof lease route s
    → IsProofOf held lease route s
Kept-proved held proof lease route s (inl empty) (node, is, composer) = cc
Kept-proved held proof lease route s (inr same) (node, is, composer) =
    (node, sym same ∙ is, composer)

module _ (port : ReadinessPort) (policies : Policies) (rounds : ℕ) (lease : RuntimeLease)
    (route : RouteExpectation) (held : Option FreshReadinessProof) where
  -- The proof that was held is that of the page found ready, or the page was found ready as a fresh
  -- page is.
  Proven : Option (Unit {0}) → Waiting → Type 0
  Proven none w = Unit {0}
  Proven (some done) w =
      ((s : Snapshot) × ReadyAfter policies existing_policy s w.observed
        × IsProofOf held lease route s)
      ⊎ ((s : Snapshot) × ReadyAfter policies fresh_policy s w.observed)

  returned-Proven :
      (s : Option Snapshot)
      → Triple
          (Sees (Returned port policies route fresh_policy held s))
          (pure (returned s))
          Proven
          Anything
  unfolding Proven
  returned-Proven none = Triple-pure none (λ w h. tt)
  returned-Proven (some s) = Triple-pure (some tt) (λ w h. inr (s, h.0))

  prove_composer-Proven :
      (s : Snapshot)
      → Triple
          (Sees (Returned port policies route existing_policy held (some s)))
          (prove_composer port policies rounds lease route s)
          Proven
          Anything
  unfolding prove_composer Proven
  prove_composer-Proven s =
      let Known : Option FreshReadinessProof → Waiting → Type 0 =
        λ proof w. ReadyAfter policies existing_policy s w.observed × Kept held proof in
      Triple-bind Known (Triple-gets _ (λ w h. h)) λ proof.
        Triple-bind (λ done w. Known proof w × (w.fresh_readiness_proof ≡ none))
          (Triple-modify _ (λ w h. (h, refl)))
          λ done.
            Triple-if (proves proof lease route s)
              (λ proved. Triple-pure (some tt) (λ w h. inl (
                s,
                h.0.0,
                Kept-proved held proof lease route s h.0.1 (proves-is proof lease route s proved),
              )))
              (λ unproved.
                Triple-bind
                  (λ found w. Sees (Returned port policies route fresh_policy held found) w)
                  (Triple-before (λ w h. inl h.1)
                    (wait_for_route-Returned port policies route fresh_policy held rounds))
                  (λ found. returned-Proven found))

  finish_composer-Proven :
      (found : Option Snapshot)
      → is_thread route ≡ false
      → Triple
          (Sees (Returned port policies route existing_policy held found))
          (finish_composer port policies rounds lease route found)
          Proven
          Anything
  unfolding finish_composer Proven
  finish_composer-Proven none p = Triple-pure none (λ w h. tt)
  finish_composer-Proven (some s) p =
      Triple-if (is_thread route) (λ q. cc) (λ q. prove_composer-Proven s)

  composer-Proven :
      is_thread route ≡ false
      → Triple
          (Sees (λ proof observed. Kept held proof))
          (wait_for_turn_composer port policies rounds lease route)
          Proven
          Anything
  unfolding wait_for_turn_composer
  composer-Proven p =
      Triple-bind (λ found w. Sees (Returned port policies route existing_policy held found) w)
        (wait_for_route-Returned port policies route existing_policy held rounds)
        (λ found. finish_composer-Proven found p)

module _ (port : ReadinessPort) (policies : Policies) (rounds : ℕ) (lease : RuntimeLease)
    (route : RouteExpectation) where
  -- When the policies ask for at least one observation of each kind and the route is not a thread's:
  -- if the wait for a turn's composer returns, then either the newest snapshots show a settled page as
  -- the policy for an existing page asks, and the proof that was held before the call is the one of
  -- this lease, route, frame, document and composer; or they show one as the policy for a fresh page
  -- asks, its guard duration included.
  pub wait_for_turn_composer-Proven :
      (w w1 : Waiting)
      → ValidPolicies policies
      → is_thread route ≡ false
      → wait_for_turn_composer port policies rounds lease route w ≡ (w1, ok (some tt))
      → ((s : Snapshot) × Settled policies existing_policy s w1.observed
          × IsProofOf w.fresh_readiness_proof lease route s)
        ⊎ ((s : Snapshot) × Settled policies fresh_policy s w1.observed)
  unfolding Proven
  wait_for_turn_composer-Proven w w1 valid no_thread is =
      let held = w.fresh_readiness_proof in
      elim (ended (Proven port policies rounds lease route held) _ w1 (some tt)
        ((composer-Proven port policies rounds lease route held no_thread).at w (inr refl)) is) [
          | inl (s, found, proof) ↦
              inl (s, ReadyAfter-Settled policies existing_policy s w1.observed valid found, proof)
          | inr (s, found) ↦
              inr (s, ReadyAfter-Settled policies fresh_policy s w1.observed valid found)
        ]
