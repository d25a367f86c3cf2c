-- ===== src/Readiness/Controller/Later.antt =====
-- Once a call has been made while which the timer fires, the deadline has passed.
use threadwire.Prelude.{
  ℕ, ◌+◌, ◌≤◌, ◌<◌, ◌≡◌, ◌⊎◌, inl, inr, refl, sym, subst, true, List, [], ◌∷◌, arith, is_some,
}
use threadwire.Domain.Errors.{Result, ok, err}
use threadwire.Exec.{pure, lift, ◌>>◌}
use threadwire.Exec.Rules.{Triple, Triple-pure, Triple-modify, Triple-bind}
use threadwire.Readiness.Controller.{
  SignalEvent, timer_fires, caller_aborts, ReadinessPort, Waiting, abort_by_each, clear_proof, ask,
  call,
}
use threadwire.Readiness.Controller.Seen.{Anything}

-- The timer's callback is among the events.
abbrev pub Fires : List SignalEvent → Type 0
Fires [] = ⊥
Fires (timer_fires ∷ events) = Unit {0}
Fires (caller_aborts ∷ events) = Fires events

abort_by_each-tick :
    (events : List SignalEvent) (w : Waiting) → (abort_by_each events w).tick ≡ w.tick
unfolding abort_by_each
abort_by_each-tick [] w = refl
abort_by_each-tick (timer_fires ∷ events) w = abort_by_each-tick events _
abort_by_each-tick (caller_aborts ∷ events) w = abort_by_each-tick events _

abort_by_each-expired :
    (events : List SignalEvent) (w : Waiting)
    → is_some w.deadline ≡ true
    → is_some (abort_by_each events w).deadline ≡ true
unfolding abort_by_each
abort_by_each-expired [] w h = h
abort_by_each-expired (timer_fires ∷ events) w h = abort_by_each-expired events _ refl
abort_by_each-expired (caller_aborts ∷ events) w h = abort_by_each-expired events _ refl

abort_by_each-Fires :
    (events : List SignalEvent) (w : Waiting)
    → Fires events
    → is_some (abort_by_each events w).deadline ≡ true
unfolding abort_by_each
abort_by_each-Fires [] w h = absurd h
abort_by_each-Fires (timer_fires ∷ events) w h = abort_by_each-expired events _ refl
abort_by_each-Fires (caller_aborts ∷ events) w h = abort_by_each-expired events _ refl

-- At least `k` calls have been made, and after the call `n` the deadline has passed.
pub record Later (n k : ℕ) (w : Waiting) : Type 0 where
  pub calls : k ≤ w.tick
  pub due : n < w.tick → is_some w.deadline ≡ true

module _ {n : ℕ} where
  pub sooner : (k : ℕ) (w : Waiting) → Later n (k + 1) w → Later n k w
  sooner k w h = record { calls = omega (arith, h.calls); due = h.due }

  pub result-Later :
      {A : Type 0} (k : ℕ) (r : Result A)
      → Triple (Later n k) (lift r) (λ a w. Later n k w) Anything
  unfolding lift
  result-Later k (ok a) = record { at = λ w h. h }
  result-Later k (err e) = record { at = λ w h. tt }

  pub clear-Later : (k : ℕ) → Triple (Later n k) clear_proof (λ done w. Later n k w) Anything
  clear-Later k = Triple-modify _ (λ w h. record { calls = h.calls; due = h.due })

module _ (port : ReadinessPort) {n : ℕ} (fires : Fires (port.happens n)) where
  ask-due :
      (w : Waiting)
      → (n < w.tick → is_some w.deadline ≡ true)
      → n < w.tick + 1
      → is_some (abort_by_each (port.happens w.tick) (record w { tick = w.tick + 1 })).deadline
        ≡ true
  ask-due w due h =
      let split : (n < w.tick) ⊎ (w.tick ≡ n) = ground arith in
      elim split [
        | inl past ↦ abort_by_each-expired (port.happens w.tick) _ (due past)
        | inr now ↦
            abort_by_each-Fires (port.happens w.tick) _
              (subst (λ k. Fires (port.happens k)) (sym now) fires)
      ]

  pub ask-Later :
      {A : Type 0} (k : ℕ) (answer : ℕ → A)
      → Triple (Later n k) (ask port answer) (λ a w. Later n (k + 1) w) Anything
  unfolding ask
  ask-Later k answer = record {
    at = λ w h.
        let ticks = abort_by_each-tick (port.happens w.tick) (record w { tick = w.tick + 1 }) in
        record {
          calls = subst (λ m. k + 1 ≤ m) (sym ticks) (omega (arith, h.calls));
          due = λ p. ask-due w h.due (subst (λ m. n < m) ticks p);
        };
  }

  pub call-Later :
      {A : Type 0} (k : ℕ) (answer : ℕ → Result A)
      → Triple (Later n k) (call port answer) (λ a w. Later n (k + 1) w) Anything
  call-Later k answer =
      Triple-bind (λ r w. Later n (k + 1) w) (ask-Later k answer) (λ r. result-Later (k + 1) r)

  pub asked-Later :
      {A : Type 0} (k : ℕ) (answer : ℕ → A)
      → Triple (Later n k) (ask port answer) (λ a w. Later n k w) Anything
  unfolding ask
  asked-Later k answer = record { at = λ w h. sooner k _ ((ask-Later k answer).at w h) }

  -- A call whose answer is followed by `a`.
  pub then-Later :
      {A : Type 0} (k : ℕ) (answer : ℕ → Result (Unit {0})) (a : A)
      → Triple (Later n k) (do call port answer; pure a) (λ a w. Later n k w) Anything
  then-Later k answer a =
      Triple-bind (λ done w. Later n (k + 1) w) (call-Later k answer)
        (λ done. Triple-pure a (λ w h. sooner k w h))
