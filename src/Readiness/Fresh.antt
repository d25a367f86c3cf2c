-- ===== src/Readiness/Fresh.antt =====
-- readiness/FreshReadinessPolicy.ts: a gate that lets READY through once the gate below it has
-- answered READY for long enough. The clock's value is passed with the snapshot.
pub mod Guard
use threadwire.Prelude.{
  ℕ, ◌+◌, ◌≤◌, ◌<◌, ◌≡◌, refl, ◌≢◌, ap, sym, subst, ◌∙◌, Bool, true, false, Option, none, some,
  List, [], ◌∷◌, leb, if◌then◌else◌, arith, if_cases, map, Bool-cases, Option-cases, inl, inr,
}
use threadwire.Readiness.Gate as Gate
use threadwire.Readiness.Gate.{Snapshot, Gate, ReadinessAction, wait, ready, focus, observe_history}

pub record FreshGate : Type 0 where
  pub existing : Gate
  pub guard_duration_ms : ℕ
  pub guard_start_time : Option ℕ

-- `this.guardStartTime` once it has been set to `now` if it was null
abbrev pub start_time : Option ℕ → ℕ → ℕ
start_time none now = now
start_time (some start) now = start

-- `now - start >= guard` on numbers of either sign
unfoldable pub guard_answer : ReadinessAction → ℕ → FreshGate → FreshGate × ReadinessAction
guard_answer ready now g =
    let start = start_time g.guard_start_time now in
    (
      record g { guard_start_time = some start },
      if leb (g.guard_duration_ms + start) now then ready else wait,
    )
guard_answer wait now g = (record g { guard_start_time = none }, wait)
guard_answer (focus target) now g = (record g { guard_start_time = none }, focus target)

unfoldable pub observe : Snapshot → ℕ → FreshGate → FreshGate × ReadinessAction
unfolding guard_answer
observe s now g =
    let (existing, action) = Gate.observe s g.existing in
    guard_answer action now (record g { existing = existing })

unfoldable pub observe_timed : FreshGate → List (Snapshot × ℕ) → FreshGate
observe_timed g [] = g
observe_timed g ((s, now) ∷ seen) = (observe s now (observe_timed g seen)).0
