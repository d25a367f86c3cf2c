-- ===== src/Readiness/Controller/Deadline.antt =====
-- The deadline ends a wait for a page.
use threadwire.Prelude.{
  ℕ, zero, suc, ◌+◌, ◌≤◌, ◌<◌, ◌≡◌, ◌⊎◌, inl, inr, refl, subst, true, false, Option, none, some,
  arith, is_some,
}
use threadwire.Domain.Errors.{ErrorCode, Result, ok, err}
use threadwire.Exec.Rules.{
  Ends, Triple, Triple-pure, Triple-gets, Triple-modify, Triple-raise, Triple-bind, Triple-if,
  Triple-before, Triple-attempt,
}
use threadwire.Turn.{RouteExpectation}
use threadwire.Readiness.Gate.{Snapshot, ReadinessAction, wait, ready, focus}
use threadwire.Readiness.Controller.{
  Policy, Policies, ActiveGate, observe, ReadinessPort, Waiting, Act, FocusAnswer, focused,
  candidate_changed, focus_fails, is_blocking, answered_at, take_snapshot, throw_if_expired,
  deadline_result, throw_if_aborted,
}
use threadwire.Readiness.Controller.Wait.{
  Wait, Round, found, again, follow_focus, new_wait, handle_notice, act_on, handle_snapshot, round,
  next_round, wait_loop, wait_for_route, rethrow, may_dismiss,
}
use threadwire.Readiness.Controller.Seen.{Anything}
use threadwire.Readiness.Controller.Later.{
  Fires, Later, clear-Later, call-Later, asked-Later, then-Later,
}

not_some : false ≡ true → ⊥
not_some p = cc

still :
    (P : Waiting → Type 0) (r : Result (Unit {0})) (w : Waiting)
    → P w
    → Ends (λ done w. P w) Anything (w, r)
still P (ok done) w h = h
still P (err e) w h = tt

-- The wait has returned a snapshot or thrown.
abbrev Decided : Option Snapshot → Waiting → Type 0
Decided s w = is_some s ≡ true

module _ (port : ReadinessPort) (n : ℕ) (fires : Fires (port.happens n)) (policies : Policies)
    (route : RouteExpectation) where
  handle_notice-Later :
      (k : ℕ) (s : Snapshot) (p : Policy)
      → Triple (Later n k) (handle_notice port policies route s p) (λ r w. Later n k w) Anything
  unfolding handle_notice
  handle_notice-Later k s p =
      Triple-bind (λ done w. Later n k w) (clear-Later k)
        λ done.
          Triple-if (may_dismiss port policies route s)
            (λ yes. then-Later port fires k port.dismiss_known_fresh_notice _)
            (λ no. then-Later port fires k port.sleep _)

  follow_focus-Later :
      (k : ℕ) (kept renewed : Wait) (answer : FocusAnswer)
      → Triple (Later n k) (follow_focus kept renewed answer) (λ next w. Later n k w) Anything
  unfolding follow_focus
  follow_focus-Later k kept renewed focused = Triple-pure _ (λ w h. h)
  follow_focus-Later k kept renewed candidate_changed =
      Triple-bind (λ done w. Later n k w) (clear-Later k) (λ done. Triple-pure _ (λ w h. h))
  follow_focus-Later k kept renewed (focus_fails e) = Triple-raise e (λ w h. tt)

  act_on-Later :
      (k : ℕ) (s : Snapshot) (p : Policy) (told : ActiveGate × ReadinessAction)
      → Triple (Later n k) (act_on port policies route s p told) (λ r w. Later n k w) Anything
  unfolding act_on
  act_on-Later k s p (g, ready) = Triple-pure _ (λ w h. h)
  act_on-Later k s p (g, wait) = then-Later port fires k port.sleep _
  act_on-Later k s p (g, focus node) =
      Triple-bind (λ answer w. Later n k w) (asked-Later port fires k port.focus_backend_node)
        λ answer.
          Triple-bind (λ next w. Later n k w) (follow_focus-Later k _ _ answer)
            (λ next. then-Later port fires k port.sleep _)

  handle_snapshot-Later :
      (k : ℕ) (w : Wait) (taken : Snapshot × ℕ)
      → Triple
          (Later n k)
          (handle_snapshot port policies route w taken)
          (λ r v. Later n k v)
          Anything
  unfolding handle_snapshot
  handle_snapshot-Later k w (s, now) =
      Triple-if (is_blocking s.blocking_notice) (λ blocked. handle_notice-Later k s w.policy)
        (λ calm. act_on-Later k s w.policy (observe s now w.gate))

  take_snapshot-Later :
      (k : ℕ) → Triple (Later n k) (take_snapshot port) (λ taken w. Later n (k + 1) w) Anything
  unfolding take_snapshot
  take_snapshot-Later k =
      Triple-bind (λ s w. Later n (k + 1) w) (call-Later port fires k port.readiness_snapshot)
        λ s.
          Triple-bind (λ now w. Later n (k + 1) w) (Triple-gets _ (λ w h. h))
            λ now.
              Triple-bind (λ done w. Later n (k + 1) w)
                (Triple-modify (answered_at port s)
                  (λ w h. record { calls = h.calls; due = h.due }))
                λ done. Triple-pure (s, now) (λ w h. h)

  -- A round goes on only while the call `n` is still to be made.
  OnTime : ℕ → Waiting → Type 0
  OnTime k w = Later n k w × (w.tick ≤ n)

  not_expired :
      (k : ℕ) (o : Option ErrorCode) (w : Waiting)
      → Later n k w
      → w.deadline ≡ o
      → Ends (λ done v. OnTime k v) Anything (w, deadline_result o)
  unfolding OnTime
  not_expired k none w h empty =
      let split : (w.tick ≤ n) ⊎ (n < w.tick) = ground arith in
      (
        h,
        elim split [
          | inl early ↦ early
          | inr late ↦ absurd (not_some (subst (λ o. is_some o ≡ true) empty (h.due late)))
        ],
      )
  not_expired k (some c) w h expired = tt

  expired-OnTime : (k : ℕ) → Triple (Later n k) throw_if_expired (λ done w. OnTime k w) Anything
  unfolding throw_if_expired
  expired-OnTime k = record { at = λ w h. not_expired k w.deadline w h refl }

  next_round-Decided :
      (k : ℕ) (loop : Wait → Act (Option Snapshot)) (r : Round)
      → ((w : Wait) → Triple (Later n k) (loop w) Decided Anything)
      → Triple (Later n k) (next_round port policies route loop r) Decided Anything
  next_round-Decided k loop (found s) h = Triple-pure (some s) (λ v p. refl)
  next_round-Decided k loop (again w) h = h w

  wait_loop-Decided :
      (rounds k : ℕ) (w : Wait)
      → n < rounds + k
      → Triple (Later n k) (wait_loop port policies route (suc rounds) w) Decided Anything
  unfolding wait_loop round OnTime
  wait_loop-Decided zero k w enough =
      Triple-bind (λ r v. ⊥)
        (Triple-bind (λ done v. OnTime k v) (expired-OnTime k)
          (λ done. record { at = λ v h. absurd (omega (arith, enough, h.0.calls, h.1)) }))
        (λ r. record { at = λ v h. absurd h })
  wait_loop-Decided (suc rounds) k w enough =
      Triple-bind (λ r v. Later n (k + 1) v)
        (Triple-bind (λ done v. OnTime k v) (expired-OnTime k)
          λ done.
            Triple-bind (λ taken v. Later n (k + 1) v)
              (Triple-before (λ v h. h.0) (take_snapshot-Later k))
              (λ taken. handle_snapshot-Later (k + 1) w taken))
        λ r.
          next_round-Decided (k + 1) (wait_loop port policies route (suc rounds)) r
            (λ w. wait_loop-Decided rounds (k + 1) w (omega (arith, enough)))

  rethrow-Decided :
      (r : Result (Option Snapshot))
      → Triple (λ v. Ends Decided Anything (v, r)) (rethrow port policies route r) Decided Anything
  rethrow-Decided (ok s) = Triple-pure s (λ v h. h)
  rethrow-Decided (err e) = Triple-raise _ (λ v h. tt)

  wait-Decided :
      (k rounds : ℕ) (p : Policy)
      → n < rounds + k
      → Triple
          (λ w. (k ≤ w.tick) × (w.tick ≤ n))
          (wait_for_route port policies route (suc rounds) p)
          Decided
          Anything
  unfolding wait_for_route throw_if_aborted
  wait-Decided k rounds p enough =
      Triple-bind (λ done w. (k ≤ w.tick) × (w.tick ≤ n))
        (record { at = λ w h. still (λ w. (k ≤ w.tick) × (w.tick ≤ n)) _ w h })
        λ done.
          Triple-bind (λ done w. Later n k w)
            (Triple-modify _
              (λ w h. record { calls = h.0; due = λ late. absurd (omega (arith, h.1, late)) }))
            λ done.
              Triple-bind _
                (Triple-attempt Anything
                  (wait_loop-Decided rounds k (new_wait port policies route p) enough))
                (λ r. rethrow-Decided r)

-- If the deadline's timer fires while some call `n` runs, the wait has not begun later than that call,
-- and there are more rounds, one apart, than calls from the beginning of the wait to that one, then
-- the wait for a route returns a snapshot or throws, whatever the port answers.
pub wait_for_route-Decided :
    (port : ReadinessPort) (policies : Policies) (route : RouteExpectation) (p : Policy)
    (w : Waiting) (n rounds : ℕ)
    → Fires (port.happens n)
    → w.tick ≤ n
    → n < rounds + w.tick
    → Ends (λ s v. is_some s ≡ true) Anything (wait_for_route port policies route (suc rounds) p w)
wait_for_route-Decided port policies route p w n rounds fires begun enough =
    (wait-Decided port n fires policies route w.tick rounds p enough).at w (omega arith, begun)
