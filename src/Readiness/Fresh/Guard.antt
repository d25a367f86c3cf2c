-- ===== src/Readiness/Fresh/Guard.antt =====
-- How long the gate for a fresh page has seen READY below it before it answers READY.
use threadwire.Prelude.{
  ℕ, ◌+◌, ◌≤◌, ◌≡◌, refl, ap, sym, subst, ◌∙◌, Bool, true, false, none, some, List, [], ◌∷◌, leb,
  if◌then◌else◌, arith, Option-cases, inl, inr,
}
use threadwire.Readiness.Gate as Gate
use threadwire.Readiness.Gate.{Snapshot, Gate, ReadinessAction, wait, ready, focus, observe_history}
use threadwire.Readiness.Fresh.{FreshGate, guard_answer, observe, observe_timed, start_time}

abbrev pub snapshots : List (Snapshot × ℕ) → List Snapshot
snapshots [] = []
snapshots ((s, now) ∷ seen) = s ∷ snapshots seen

-- The gate below answers READY to the newest snapshot of a history.
unfoldable pub BelowReady : Gate → Snapshot → List (Snapshot × ℕ) → Type 0
BelowReady g s seen = (Gate.observe s (observe_history g (snapshots seen))).1 ≡ ready

-- It has done so for each of the newest snapshots, the oldest of which came at the time `t`.
pub data ReadySince (g : Gate) (t : ℕ) : List (Snapshot × ℕ) → Type 0 where
  began :
      (s : Snapshot) (seen : List (Snapshot × ℕ))
      → BelowReady g s seen
      → ReadySince g t ((s, t) ∷ seen)
  kept :
      (s : Snapshot) (now : ℕ) (seen : List (Snapshot × ℕ))
      → BelowReady g s seen
      → ReadySince g t seen
      → ReadySince g t ((s, now) ∷ seen)

record Inv (g g1 : FreshGate) (seen : List (Snapshot × ℕ)) : Type 0 where
  pub existing : g1.existing ≡ observe_history g.existing (snapshots seen)
  pub guard : g1.guard_duration_ms ≡ g.guard_duration_ms
  pub since : (t : ℕ) → g1.guard_start_time ≡ some t → ReadySince g.existing t seen

start_time-since :
    (g g1 : FreshGate) (s : Snapshot) (now : ℕ) (seen : List (Snapshot × ℕ))
    → Inv g g1 seen
    → BelowReady g.existing s seen
    → ReadySince g.existing (start_time g1.guard_start_time now) ((s, now) ∷ seen)
start_time-since g g1 s now seen inv below = elim (Option-cases g1.guard_start_time) [
  | inl unset ↦ rw unset (began s seen below)
  | inr (t, set) ↦ rw set (kept s now seen below (inv.since t set))
]

guard_answer-Inv :
    (g g1 : FreshGate) (s : Snapshot) (now : ℕ) (seen : List (Snapshot × ℕ)) (a : ReadinessAction)
    (h : Gate)
    → Inv g g1 seen
    → (a ≡ ready → BelowReady g.existing s seen)
    → h ≡ observe_history g.existing (snapshots ((s, now) ∷ seen))
    → Inv g (guard_answer a now (record g1 { existing = h })).0 ((s, now) ∷ seen)
unfolding guard_answer
guard_answer-Inv g g1 s now seen ready h inv below same = record {
  existing = same;
  guard = inv.guard;
  since = λ t p.
      subst (λ t. ReadySince g.existing t ((s, now) ∷ seen)) (cc)
        (start_time-since g g1 s now seen inv (below refl));
}
guard_answer-Inv g g1 s now seen wait h inv below same = record {
  existing = same;
  guard = inv.guard;
  since = λ t p. cc;
}
guard_answer-Inv g g1 s now seen (focus target) h inv below same = record {
  existing = same;
  guard = inv.guard;
  since = λ t p. cc;
}

none-some : {A : Type 0} {a : A} → none ≡ some a → ⊥
none-some p = cc

observe_timed-Inv :
    (g : FreshGate) (seen : List (Snapshot × ℕ))
    → g.guard_start_time ≡ none
    → Inv g (observe_timed g seen) seen
unfolding observe_timed observe observe_history BelowReady
observe_timed-Inv g [] fresh = record {
  existing = refl;
  guard = refl;
  since = λ t p. absurd (none-some (sym fresh ∙ p));
}
observe_timed-Inv g ((s, now) ∷ seen) fresh =
    let inv = observe_timed-Inv g seen fresh in
    let same = ap (λ h. Gate.observe s h) inv.existing in
    guard_answer-Inv g (observe_timed g seen) s now seen
      (Gate.observe s (observe_timed g seen).existing).1
      (Gate.observe s (observe_timed g seen).existing).0 inv (λ p. sym (ap (λ r. r.1) same) ∙ p)
      (ap (λ r. r.0) same)

ready-if : (b : Bool) → (if b then ready else wait) ≡ ready → b ≡ true
ready-if true p = refl
ready-if false p = cc

guard_answer-ready :
    (a : ReadinessAction) (now : ℕ) (g : FreshGate)
    → (guard_answer a now g).1 ≡ ready
    → (guard_answer a now g).0.guard_start_time ≡ some (start_time g.guard_start_time now)
      × (g.guard_duration_ms + start_time g.guard_start_time now ≤ now)
unfolding guard_answer
guard_answer-ready ready now g p =
    let elapsed = ready-if (leb (g.guard_duration_ms + start_time g.guard_start_time now) now) p in
    (refl, ground arith)
guard_answer-ready wait now g p = cc
guard_answer-ready (focus target) now g p = cc

-- A fresh page's gate, as it is created, answers READY to a snapshot taken at the time `now` after
-- any history only if, for some time `t` at least the guard duration before `now`, the gate below
-- it has answered READY to every one of the newest snapshots, this one included, back to one that
-- was taken at `t`.
pub ready-guarded :
    (g : FreshGate) (s : Snapshot) (now : ℕ) (seen : List (Snapshot × ℕ))
    → g.guard_start_time ≡ none
    → (observe s now (observe_timed g seen)).1 ≡ ready
    → (t : ℕ) × (g.guard_duration_ms + t ≤ now) × ReadySince g.existing t ((s, now) ∷ seen)
unfolding observe observe_timed
ready-guarded g s now seen fresh is_ready =
    let before = observe_timed g seen in
    let below = (Gate.observe s before.existing).1 in
    let h = (Gate.observe s before.existing).0 in
    let started = guard_answer-ready below now (record before { existing = h }) is_ready in
    let start = start_time before.guard_start_time now in
    (
      start,
      subst (λ d. d + start ≤ now) (observe_timed-Inv g seen fresh).guard started.1,
      (observe_timed-Inv g ((s, now) ∷ seen) fresh).since start started.0,
    )
