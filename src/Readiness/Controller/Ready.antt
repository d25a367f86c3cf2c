-- ===== src/Readiness/Controller/Ready.antt =====
-- What the controller knows of the snapshots that it took when the wait for a page returns.
use threadwire.Prelude.{
  ℕ, zero, suc, ◌≡◌, refl, sym, ap, ◌∙◌, inl, inr, false, Option, none, some, [], ◌∷◌,
}
use threadwire.Domain.Errors.{Result, ok, err}
use threadwire.Exec.{pure, ◌>>◌}
use threadwire.Exec.Rules.{
  Ends, Triple, Triple-pure, Triple-modify, Triple-raise, Triple-bind, Triple-if, Triple-before,
  Triple-fact, Triple-attempt,
}
use threadwire.Turn.{RouteExpectation}
use threadwire.Readiness.Gate.{Snapshot, ReadinessAction, wait, ready, focus}
use threadwire.Readiness.Controller.{
  Policy, fresh_policy, Policies, ActiveGate, observe, FreshReadinessProof, ReadinessPort, Waiting,
  Act, clear_proof, FocusAnswer, focused, candidate_changed, focus_fails, is_blocking, call,
  throw_if_expired,
}
use threadwire.Readiness.Controller.Wait.{
  Wait, Round, found, again, follow_focus, new_wait, handle_notice, act_on, handle_snapshot, round,
  next_round, wait_loop, wait_for_route, rethrow, may_dismiss,
}
use threadwire.Readiness.Controller.Seen.{
  Observed, Sees, Anything, ask-Sees, call-Sees, expired-Sees, aborted-Sees, Took,
  take_snapshot-Took, observe_seen, Follows, MayBe, Kept, ReadyAfter,
}

module _ (port : ReadinessPort) (policies : Policies) (route : RouteExpectation) (p : Policy)
    (held : Option FreshReadinessProof) where
  Watched : Wait → Option FreshReadinessProof → Observed → Type 0
  Watched w proof observed = MayBe p w.policy × Follows policies w observed × Kept held proof

  abbrev pub Returned : Option Snapshot → Option FreshReadinessProof → Observed → Type 0
  Returned none proof observed = Unit {0}
  Returned (some s) proof observed = ReadyAfter policies p s observed × Kept held proof

  After : Round → Option FreshReadinessProof → Observed → Type 0
  After (found s) proof observed = Returned (some s) proof observed
  After (again w) proof observed = Watched w proof observed

  new-Watched :
      (q : Policy) (proof : Option FreshReadinessProof) (observed : Observed)
      → MayBe p q
      → Kept held proof
      → Watched (new_wait port policies route q) proof observed
  unfolding Watched observe_seen
  new-Watched q proof observed m k =
      (m, record { seen = []; before = observed; newest = refl; calm = tt; gate = refl }, k)

  Cleared : Option FreshReadinessProof → Observed → Type 0
  Cleared proof observed = proof ≡ none

  clear-Cleared : {P : Waiting → Type 0} → Triple P clear_proof (λ done w. Sees Cleared w) Anything
  unfolding Cleared
  clear-Cleared = Triple-modify _ (λ w h. refl)

  renewed :
      (q : Policy)
      → MayBe p q
      → Triple
          (Sees Cleared)
          (pure (again (new_wait port policies route q)))
          (λ r w. Sees (After r) w)
          Anything
  unfolding After Cleared
  renewed q m =
      Triple-pure (again (new_wait port policies route q)) (λ w h. new-Watched q _ _ m (inl h))

  handle_notice-After :
      {P : Waiting → Type 0} (s : Snapshot) (q : Policy)
      → MayBe p q
      → Triple P (handle_notice port policies route s q) (λ r w. Sees (After r) w) Anything
  unfolding handle_notice
  handle_notice-After s q m =
      Triple-bind (λ done w. Sees Cleared w) clear-Cleared
        λ done.
          Triple-if (may_dismiss port policies route s)
            (λ yes.
              Triple-bind (λ done w. Sees Cleared w)
                (call-Sees Cleared port port.dismiss_known_fresh_notice)
                (λ done. renewed fresh_policy (inr refl)))
            (λ no.
              Triple-bind (λ done w. Sees Cleared w) (call-Sees Cleared port port.sleep)
                (λ done. renewed q m))

  slept-Watched :
      (w : Wait)
      → Triple
          (Sees (Watched w))
          (do call port port.sleep; pure (again w))
          (λ r v. Sees (After r) v)
          Anything
  unfolding After
  slept-Watched w =
      Triple-bind (λ done v. Sees (Watched w) v) (call-Sees (Watched w) port port.sleep)
        (λ done. Triple-pure (again w) (λ v h. h))

  follow_focus-Watched :
      (q : Policy) (g : ActiveGate) (answer : FocusAnswer)
      → Triple
          (Sees (Watched (record { policy = q; gate = g })))
          (follow_focus (record { policy = q; gate = g }) (new_wait port policies route q) answer)
          (λ next v. Sees (Watched next) v)
          Anything
  unfolding follow_focus Watched Cleared
  follow_focus-Watched q g focused = Triple-pure _ (λ v h. h)
  follow_focus-Watched q g candidate_changed =
      Triple-bind (λ done v. MayBe p q × Sees Cleared v) (Triple-modify _ (λ v h. (h.0, refl)))
        λ done. Triple-pure _ (λ v h. new-Watched q _ _ h.0 (inl h.1))
  follow_focus-Watched q g (focus_fails e) = Triple-raise e (λ v h. tt)

  -- What is known once the gate has answered.
  Told :
      Snapshot
      → Policy
      → ActiveGate × ReadinessAction
      → Option FreshReadinessProof
      → Observed
      → Type 0
  Told s q (g, action) proof observed =
      Watched (record { policy = q; gate = g }) proof observed
      × (action ≡ ready → ReadyAfter policies p s observed)

  act_on-After :
      (s : Snapshot) (q : Policy) (told : ActiveGate × ReadinessAction)
      → Triple
          (Sees (Told s q told))
          (act_on port policies route s q told)
          (λ r v. Sees (After r) v)
          Anything
  unfolding act_on Told After Watched
  act_on-After s q (g, ready) = Triple-pure (found s) (λ v h. (h.1 refl, h.0.2))
  act_on-After s q (g, wait) =
      Triple-before (λ v h. h.0) (slept-Watched (record { policy = q; gate = g }))
  act_on-After s q (g, focus node) =
      let this : Wait = record { policy = q; gate = g } in
      Triple-before (λ v h. h.0)
        (Triple-bind (λ answer v. Sees (Watched this) v)
          (ask-Sees (Watched this) port port.focus_backend_node)
          λ answer.
            Triple-bind (λ next v. Sees (Watched next) v) (follow_focus-Watched q g answer)
              (λ next. slept-Watched next))

  observed-Told :
      (w : Wait) (s : Snapshot) (now : ℕ)
      → is_blocking s.blocking_notice ≡ false
      → (proof : Option FreshReadinessProof) (observed : Observed)
      → Took (Watched w) (s, now) proof observed
      → Told s w.policy (observe s now w.gate) proof observed
  unfolding Told Watched observe_seen
  observed-Told w s now calm proof observed (before, newest, (m, f, k)) =
      let same = ap (λ g. observe s now g) f.gate in
      let shown = newest ∙ ap (λ o. (s, now) ∷ o) f.newest in
      (
        (
          m,
          record {
            seen = (s, now) ∷ f.seen;
            before = f.before;
            newest = shown;
            calm = (calm, f.calm);
            gate = ap (λ r. r.0) same;
          },
          k,
        ),
        λ is_ready. record {
          policy = w.policy;
          may_be = m;
          now = now;
          seen = f.seen;
          before = f.before;
          newest = shown;
          calm = (calm, f.calm);
          is_ready = sym (ap (λ r. r.1) same) ∙ is_ready;
        },
      )

  handle_snapshot-After :
      (w : Wait) (taken : Snapshot × ℕ)
      → Triple
          (Sees (Took (Watched w) taken))
          (handle_snapshot port policies route w taken)
          (λ r v. Sees (After r) v)
          Anything
  unfolding handle_snapshot Watched
  handle_snapshot-After w (s, now) =
      Triple-if (is_blocking s.blocking_notice)
        (λ blocked.
          Triple-fact {F = MayBe p w.policy} (λ v h. h.2.0) (λ m. handle_notice-After s w.policy m))
        (λ calm.
          Triple-before (λ v h. observed-Told w s now calm _ _ h)
            (act_on-After s w.policy (observe s now w.gate)))

  round-After :
      (w : Wait)
      → Triple (Sees (Watched w)) (round port policies route w) (λ r v. Sees (After r) v) Anything
  unfolding round throw_if_expired
  round-After w =
      Triple-bind (λ done v. Sees (Watched w) v) (expired-Sees (Watched w))
        λ done.
          Triple-bind (λ taken v. Sees (Took (Watched w) taken) v)
            (take_snapshot-Took (Watched w) port) (λ taken. handle_snapshot-After w taken)

  next_round-Returned :
      (loop : Wait → Act (Option Snapshot)) (r : Round)
      → ((w : Wait) → Triple (Sees (Watched w)) (loop w) (λ s v. Sees (Returned s) v) Anything)
      → Triple
          (Sees (After r))
          (next_round port policies route loop r)
          (λ s v. Sees (Returned s) v)
          Anything
  unfolding After
  next_round-Returned loop (found s) h = Triple-pure (some s) (λ v h. h)
  next_round-Returned loop (again w) h = h w

  wait_loop-Returned :
      (rounds : ℕ) (w : Wait)
      → Triple
          (Sees (Watched w))
          (wait_loop port policies route rounds w)
          (λ s v. Sees (Returned s) v)
          Anything
  unfolding wait_loop
  wait_loop-Returned zero w = Triple-pure none (λ v h. tt)
  wait_loop-Returned (suc rounds) w =
      Triple-bind (λ r v. Sees (After r) v) (round-After w)
        λ r.
          next_round-Returned (wait_loop port policies route rounds) r
            (λ w. wait_loop-Returned rounds w)

  rethrow-Returned :
      (r : Result (Option Snapshot))
      → Triple
          (λ v. Ends (λ s v. Sees (Returned s) v) Anything (v, r))
          (rethrow port policies route r)
          (λ s v. Sees (Returned s) v)
          Anything
  rethrow-Returned (ok s) = Triple-pure s (λ v h. h)
  rethrow-Returned (err e) = Triple-raise _ (λ v h. tt)

  -- A wait that starts with a proof `held`, or with none.
  pub wait_for_route-Returned :
      (rounds : ℕ)
      → Triple
          (Sees (λ proof observed. Kept held proof))
          (wait_for_route port policies route rounds p)
          (λ s v. Sees (Returned s) v)
          Anything
  unfolding wait_for_route
  wait_for_route-Returned rounds =
      let start = new_wait port policies route p in
      Triple-bind (λ done v. Sees (λ proof observed. Kept held proof) v)
        (aborted-Sees (λ proof observed. Kept held proof) port)
        λ done.
          Triple-bind (λ done v. Sees (Watched start) v)
            (Triple-modify _ (λ v h. new-Watched p _ _ (inl refl) h))
            λ done.
              Triple-bind _ (Triple-attempt Anything (wait_loop-Returned rounds start))
                (λ r. rethrow-Returned r)
