-- ===== src/Readiness/Controller/Settled.antt =====
-- The page on which the controller's wait returns, described by the snapshots that it took.
use threadwire.Prelude.{
  ℕ, zero, suc, ◌+◌, ◌≤◌, ◌<◌, ◌≡◌, refl, sym, ap, subst, ◌∙◌, ◌&&◌, inr, true, false, Option, none,
  some, List, [], ◌∷◌, ◌++◌, arith, ltb, if◌then◌else◌,
}
use threadwire.Domain.Errors.{Result, ok}
use threadwire.Exec.Rules.{Ends}
use threadwire.Turn.{RouteExpectation}
use threadwire.Readiness.Gate.{
  Snapshot, Gate, ready, create_gate, new_gate, observe_history, frame_key_of,
}
use threadwire.Readiness.Gate.Counts.{Recent, InFrame, Focused}
use threadwire.Readiness.Gate.Stable.{ready-stable}
use threadwire.Readiness.Fresh.{FreshGate, observe_timed}
use threadwire.Readiness.Fresh.Guard.{snapshots, BelowReady, ReadySince, began, kept, ready-guarded}
use threadwire.Readiness.Controller.{
  Policy, existing_policy, fresh_policy, Policies, existing_gate, fresh_gate, create,
  FreshReadinessProof, below_gate, observe, ReadinessPort, Waiting, is_blocking,
}
use threadwire.Readiness.Controller.Wait.{wait_for_route}
use threadwire.Readiness.Controller.Seen.{
  Observed, Sees, Anything, Calm, observe_seen, MayBe, ReadyAfter,
}
use threadwire.Readiness.Controller.Ready.{Returned, wait_for_route-Returned}

-- No notice blocks the page, and `P` holds of it.
abbrev pub Free : (Snapshot → Type 0) → Snapshot → Type 0
Free P s = (is_blocking s.blocking_notice ≡ false) × P s

Recent-Free :
    (P : Snapshot → Type 0) (n : ℕ) (seen before : Observed)
    → Calm seen
    → Recent P n (snapshots seen)
    → Recent (Free P) n (snapshots (seen ++ before))
unfolding Recent
Recent-Free P zero seen before calm r = tt
Recent-Free P (suc n) [] before calm r = absurd r
Recent-Free P (suc n) ((s, now) ∷ seen) before (free, calm) (p, r) =
    ((free, p), Recent-Free P n seen before calm r)

observe_seen-existing :
    (g : Gate) (seen : Observed)
    → observe_seen (existing_gate g) seen ≡ existing_gate (observe_history g (snapshots seen))
unfolding observe_seen observe observe_history
observe_seen-existing g [] = refl
observe_seen-existing g ((s, now) ∷ seen) =
    ap (λ h. (observe s now h).0) (observe_seen-existing g seen)

observe_seen-fresh :
    (g : FreshGate) (seen : Observed)
    → observe_seen (fresh_gate g) seen ≡ fresh_gate (observe_timed g seen)
unfolding observe_seen observe observe_timed
observe_seen-fresh g [] = refl
observe_seen-fresh g ((s, now) ∷ seen) = ap (λ h. (observe s now h).0) (observe_seen-fresh g seen)

ReadySince-below :
    (g : Gate) (t now : ℕ) (s : Snapshot) (seen : Observed)
    → ReadySince g t ((s, now) ∷ seen)
    → BelowReady g s seen
ReadySince-below g _ now _ _ (began s seen below) = below
ReadySince-below g t now _ _ (kept s _ seen below since) = below

-- The page has been ready, as a gate of the policy judges it, for the guard duration.
unfoldable pub Guarded : Policies → Policy → ℕ → Observed → Type 0
Guarded policies existing_policy now shown = Unit {0}
Guarded policies fresh_policy now shown =
    (t : ℕ) × (policies.guard_duration_ms + t ≤ now)
    × ReadySince (below_gate policies fresh_policy) t shown

create-ready :
    (policies : Policies) (p : Policy) (s : Snapshot) (now : ℕ) (seen : Observed)
    → (observe s now (observe_seen (create policies p) seen)).1 ≡ ready
    → BelowReady (below_gate policies p) s seen × Guarded policies p now ((s, now) ∷ seen)
unfolding create observe BelowReady Guarded
create-ready policies existing_policy s now seen is_ready = (
  sym (
        ap (λ g. (observe s now g).1)
          (observe_seen-existing (below_gate policies existing_policy) seen))
      ∙ is_ready,
  tt,
)
create-ready policies fresh_policy s now seen is_ready =
    let g : FreshGate = record {
      existing = below_gate policies fresh_policy;
      guard_duration_ms = policies.guard_duration_ms;
      guard_start_time = none;
    } in
    let (t, passed, since) =
      ready-guarded g s now seen refl
        (sym (ap (λ g. (observe s now g).1) (observe_seen-fresh g seen)) ∙ is_ready) in
    (ReadySince-below g.existing t now s seen since, (t, passed, since))

-- The page `s`, the newest snapshot: the newest snapshots that the policy `policy` asks for are free
-- of blocking notices, show the expected route in one frame and document, and have one focused
-- editable at one activity epoch. It was taken at the time `now`; for a fresh page, the gate has
-- judged every snapshot ready since one taken at least the guard duration before `now`.
pub record Settled (policies : Policies) (p : Policy) (s : Snapshot) (observed : Observed)
    : Type 0 where
  pub policy : Policy
  pub may_be : MayBe p policy
  pub earlier : List Snapshot
  pub newest : snapshots observed ≡ s ∷ earlier
  pub frame :
      Recent (Free (InFrame (frame_key_of s))) (policies.required_frame policy) (s ∷ earlier)
  pub target : ℕ
  pub epoch : ℕ
  pub focus : Recent (Free (Focused target epoch)) (policies.required_focus policy) (s ∷ earlier)
  pub now : ℕ
  pub seen : Observed
  pub before : Observed
  pub since_created : observed ≡ (s, now) ∷ (seen ++ before)
  pub guarded : Guarded policies policy now ((s, now) ∷ seen)

-- What the constructors of the policies check.
abbrev pub ValidPolicies : Policies → Type 0
ValidPolicies policies =
    (p : Policy) → (0 < policies.required_frame p) × (0 < policies.required_focus p)

created : (f q : ℕ) → 0 < f → 0 < q → create_gate f q ≡ some (new_gate f q)
unfolding create_gate
created f q hf hq = ap (λ b. if b then some (new_gate f q) else none) (both_true f q hf hq)
  where
    both_true : (f q : ℕ) → 0 < f → 0 < q → (ltb 0 f && ltb 0 q) ≡ true
    both_true f q hf hq = ground arith

pub ReadyAfter-Settled :
    (policies : Policies) (p : Policy) (s : Snapshot) (observed : Observed)
    → ValidPolicies policies
    → ReadyAfter policies p s observed
    → Settled policies p s observed
unfolding BelowReady
ReadyAfter-Settled policies p s observed valid r =
    let f = policies.required_frame r.policy in
    let q = policies.required_focus r.policy in
    let answered = create-ready policies r.policy s r.now r.seen r.is_ready in
    let (hf, hq, frames, target, epoch, focuses) =
      ready-stable f q (new_gate f q) s (snapshots r.seen)
        (created f q (valid r.policy).0 (valid r.policy).1) answered.0 in
    record {
      policy = r.policy;
      may_be = r.may_be;
      earlier = snapshots (r.seen ++ r.before);
      newest = ap snapshots r.newest;
      frame = Recent-Free (InFrame (frame_key_of s)) f ((s, r.now) ∷ r.seen) r.before r.calm frames;
      target = target;
      epoch = epoch;
      focus = Recent-Free (Focused target epoch) q ((s, r.now) ∷ r.seen) r.before r.calm focuses;
      now = r.now;
      seen = r.seen;
      before = r.before;
      since_created = r.newest;
      guarded = answered.1;
    }

module _ (port : ReadinessPort) (policies : Policies) (route : RouteExpectation) (rounds : ℕ)
    (p : Policy) where
  Returned-Settled :
      (r : Waiting × Result (Option Snapshot)) (held : Option FreshReadinessProof) (w1 : Waiting)
      (s : Snapshot)
      → ValidPolicies policies
      → Ends (λ found w. Sees (Returned port policies route p held found) w) Anything r
      → r ≡ (w1, ok (some s))
      → Settled policies p s w1.observed
  Returned-Settled r held w1 s valid h same =
      ReadyAfter-Settled policies p s w1.observed valid
        (subst
          (λ r. Ends (λ found w. Sees (Returned port policies route p held found) w) Anything r)
          same h).0

  -- When the policies ask for at least one observation of each kind and the wait for a route returns
  -- a snapshot, for whatever number of rounds and with whatever port: the snapshot is the newest one
  -- taken; as many of the newest snapshots as the waited policy, or the one for a fresh page, asks
  -- for show no blocking notice and show the expected route in the frame and document of the one
  -- returned, and as many as it asks for have one eligible editable, the same in each, focused, at
  -- one activity epoch; and if that policy is the one for a fresh page, its gate has judged every
  -- snapshot ready since a time at least the guard duration before the newest one.
  pub wait_for_route-Settled :
      (w w1 : Waiting) (s : Snapshot)
      → ValidPolicies policies
      → wait_for_route port policies route rounds p w ≡ (w1, ok (some s))
      → Settled policies p s w1.observed
  wait_for_route-Settled w w1 s valid is =
      let held = w.fresh_readiness_proof in
      Returned-Settled (wait_for_route port policies route rounds p w) held w1 s valid
        ((wait_for_route-Returned port policies route p held rounds).at w (inr refl)) is
