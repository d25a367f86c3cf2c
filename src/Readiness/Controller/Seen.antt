-- ===== src/Readiness/Controller/Seen.antt =====
-- What the snapshots that the controller took say of the gate, and rules for the calls that keep it.
use threadwire.Prelude.{ℕ, ◌≡◌, refl, sym, ap, subst, ◌⊎◌, false, Option, none, List, [], ◌∷◌, ◌++◌}
use threadwire.Domain.Errors.{Failure, Result, ok, err}
use threadwire.Exec.{lift}
use threadwire.Exec.Rules.{Ends, Triple, Triple-pure, Triple-gets, Triple-modify, Triple-bind}
use threadwire.Readiness.Gate.{Snapshot, ready}
use threadwire.Readiness.Controller.{
  Policy, fresh_policy, Policies, ActiveGate, create, observe, FreshReadinessProof, SignalEvent,
  timer_fires, caller_aborts, ReadinessPort, Waiting, abort_by_each, is_blocking, ask, call,
  answered_at, take_snapshot, throw_if_expired, throw_if_aborted,
}
use threadwire.Readiness.Controller.Wait.{Wait}

abbrev pub Observed : Type 0
Observed = List (Snapshot × ℕ)

-- A property of the proof that is held and of the snapshots taken.
abbrev pub Sees : (Option FreshReadinessProof → Observed → Type 0) → Waiting → Type 0
Sees P w = P w.fresh_readiness_proof w.observed

-- Errors are not looked at.
abbrev pub Anything : Failure → Waiting → Type 0
Anything e w = Unit {0}

module _ (P : Option FreshReadinessProof → Observed → Type 0) where
  abort_by_each-Sees :
      (events : List SignalEvent) (w : Waiting) → Sees P w → Sees P (abort_by_each events w)
  unfolding abort_by_each
  abort_by_each-Sees [] w h = h
  abort_by_each-Sees (timer_fires ∷ events) w h = abort_by_each-Sees events _ h
  abort_by_each-Sees (caller_aborts ∷ events) w h = abort_by_each-Sees events _ h

  pub ask-Sees :
      {A : Type 0} (port : ReadinessPort) (answer : ℕ → A)
      → Triple (Sees P) (ask port answer) (λ a w. Sees P w) Anything
  unfolding ask
  ask-Sees port answer = record { at = λ w h. abort_by_each-Sees (port.happens w.tick) _ h }

  lift-Sees : {A : Type 0} (r : Result A) → Triple (Sees P) (lift r) (λ a w. Sees P w) Anything
  unfolding lift
  lift-Sees (ok a) = record { at = λ w h. h }
  lift-Sees (err e) = record { at = λ w h. tt }

  pub call-Sees :
      {A : Type 0} (port : ReadinessPort) (answer : ℕ → Result A)
      → Triple (Sees P) (call port answer) (λ a w. Sees P w) Anything
  call-Sees port answer = Triple-bind (λ a w. Sees P w) (ask-Sees port answer) (λ r. lift-Sees r)

  deadline_result-Sees :
      (r : Result (Unit {0})) (w : Waiting) → Sees P w → Ends (λ done v. Sees P v) Anything (w, r)
  deadline_result-Sees (ok done) w h = h
  deadline_result-Sees (err e) w h = tt

  pub expired-Sees : Triple (Sees P) throw_if_expired (λ done v. Sees P v) Anything
  unfolding throw_if_expired
  expired-Sees = record { at = λ w h. deadline_result-Sees _ w h }

  pub aborted-Sees :
      (port : ReadinessPort) → Triple (Sees P) (throw_if_aborted port) (λ done v. Sees P v) Anything
  unfolding throw_if_aborted
  aborted-Sees port = record { at = λ w h. deadline_result-Sees _ w h }

-- The newest snapshot is the one just taken.
abbrev pub Took :
    (Option FreshReadinessProof → Observed → Type 0)
    → Snapshot × ℕ
    → Option FreshReadinessProof
    → Observed
    → Type 0
Took P taken proof observed = (before : Observed) × (observed ≡ taken ∷ before) × P proof before

pub take_snapshot-Took :
    (P : Option FreshReadinessProof → Observed → Type 0) (port : ReadinessPort)
    → Triple (Sees P) (take_snapshot port) (λ taken w. Sees (Took P taken) w) Anything
unfolding take_snapshot
take_snapshot-Took P port =
    Triple-bind (λ s w. Sees P w) (call-Sees P port port.readiness_snapshot)
      λ s.
        Triple-bind (λ now w. Sees P w × (now ≡ port.clock w.tick))
          (Triple-gets (λ w. port.clock w.tick) (λ w h. (h, refl)))
          λ now.
            Triple-bind (λ done w. Sees (Took P (s, now)) w)
              (Triple-modify (answered_at port s)
                (λ w h. (w.observed, ap (λ t. (s, t) ∷ w.observed) (sym h.1), h.0)))
              λ done. Triple-pure (s, now) (λ w h. h)

-- None of the snapshots shows a notice that blocks the page.
abbrev pub Calm : Observed → Type 0
Calm [] = Unit {0}
Calm ((s, now) ∷ seen) = (is_blocking s.blocking_notice ≡ false) × Calm seen

unfoldable pub observe_seen : ActiveGate → Observed → ActiveGate
observe_seen g [] = g
observe_seen g ((s, now) ∷ seen) = (observe s now (observe_seen g seen)).0

-- The gate has been shown `seen`, the newest of the snapshots taken, since the policy created it.
pub record Follows (policies : Policies) (w : Wait) (observed : Observed) : Type 0 where
  pub seen : Observed
  pub before : Observed
  pub newest : observed ≡ seen ++ before
  pub calm : Calm seen
  pub gate : w.gate ≡ observe_seen (create policies w.policy) seen

abbrev pub MayBe : Policy → Policy → Type 0
MayBe p q = (q ≡ p) ⊎ (q ≡ fresh_policy)

abbrev pub Kept : Option FreshReadinessProof → Option FreshReadinessProof → Type 0
Kept held proof = (proof ≡ none) ⊎ (proof ≡ held)

-- The gate of a policy, which is `p` or the one of a fresh page, was created by that policy, has been
-- shown exactly `seen`, which no notice blocks, and now answers READY to the newest snapshot, `s`.
pub record ReadyAfter (policies : Policies) (p : Policy) (s : Snapshot) (observed : Observed)
    : Type 0 where
  pub policy : Policy
  pub may_be : MayBe p policy
  pub now : ℕ
  pub seen : Observed
  pub before : Observed
  pub newest : observed ≡ (s, now) ∷ (seen ++ before)
  pub calm : Calm ((s, now) ∷ seen)
  pub is_ready : (observe s now (observe_seen (create policies policy) seen)).1 ≡ ready

-- What a run that has returned `a` says.
pub ended :
    {A : Type 0} (Q : A → Waiting → Type 0) (r : Waiting × Result A) (w1 : Waiting) (a : A)
    → Ends Q Anything r
    → r ≡ (w1, ok a)
    → Q a w1
ended Q r w1 a h same = subst (λ r. Ends Q Anything r) same h
