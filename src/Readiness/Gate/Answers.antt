-- ===== src/Readiness/Gate/Answers.antt =====
-- The invariant that one answer to a snapshot keeps, and what it says if it is READY.
use threadwire.Prelude.{
  ℕ, ◌+◌, ◌≤◌, ◌<◌, ◌≡◌, refl, ◌∙◌, ap, true, Option, none, some, List, [], ◌∷◌, arith, ◌==◌,
  nat_eq, text_eq, ltb, if_cases, is_the, is_the-some, ◌≢◌,
}
use threadwire.Readiness.Gate.{
  Snapshot, EditableTarget, Gate, ReadinessAction, ready, count_frame, count_epoch, observe_target,
  frame_key_of, answer, reset_ready_epoch,
}
use threadwire.Readiness.Gate.Counts.{
  Recent, InFrame, Focused, FocusCounted, Inv, Recent-suc, FrameCounted-key, FrameCounted-of,
  FocusCounted-keys, FocusCounted-of, FocusCounted-none, if-ready,
}

-- A gate whose frame has been counted with `s`, before its focus has.
pub record Counted (g : Gate) (s : Snapshot) (ss : List Snapshot) : Type 0 where
  pub route : s.main_frame.expected_route ≡ true
  pub key : g.frame_key ≡ some (frame_key_of s)
  pub frames : Recent (InFrame (frame_key_of s)) g.frame_stable_count (s ∷ ss)
  pub focuses : FocusCounted g.focus_target_id g.ready_activity_epoch g.focus_stable_count ss
  pub young : g.frame_stable_count < g.required_frame → g.ready_activity_epoch ≡ none

pub count_frame-Counted :
    (s : Snapshot) (g : Gate) (ss : List Snapshot)
    → s.main_frame.expected_route ≡ true
    → Inv g ss
    → Counted (count_frame s g) s ss
unfolding count_frame Recent InFrame
count_frame-Counted s g ss route inv =
    if_cases (λ g1. Counted g1 s ss) (is_the ◌==◌ g.frame_key (frame_key_of s))
      (λ same.
        let key = is_the-some g.frame_key (frame_key_of s) same in
        record {
          route = route;
          key = key;
          frames =
              Recent-suc (InFrame (frame_key_of s)) g.frame_stable_count s ss (route, refl)
                (FrameCounted-key g.frame_key g.frame_stable_count ss (frame_key_of s) key
                  inv.frames);
          focuses = inv.focuses;
          young = λ h. inv.young (omega arith);
        })
      (λ other. record {
        route = route;
        key = refl;
        frames = ((route, refl), tt);
        focuses = FocusCounted-none none 0 ss;
        young = λ h. refl;
      })

-- The answer `r` to the snapshot `s`.
pub record Answered (g : Gate) (s : Snapshot) (ss : List Snapshot) (r : Gate × ReadinessAction)
    : Type 0 where
  pub inv : Inv r.0 (s ∷ ss)
  pub same_frame : r.0.required_frame ≡ g.required_frame
  pub same_focus : r.0.required_focus ≡ g.required_focus
  pub counts :
      r.1 ≡ ready
      → (r.0.frame_key ≡ some (frame_key_of s))
        × (r.0.required_frame ≤ r.0.frame_stable_count)
        × (r.0.required_focus ≤ r.0.focus_stable_count)
        × (target : ℕ) × (epoch : ℕ) × (r.0.focus_target_id ≡ some target)
        × (r.0.ready_activity_epoch ≡ some epoch)

pub answer-Answered :
    (s : Snapshot) (g : Gate) (ss : List Snapshot) (e : Option ℕ) (target epoch n : ℕ)
    → Counted g s ss
    → g.required_frame ≤ g.frame_stable_count
    → g.focus_target_id ≡ some target
    → e ≡ some epoch
    → Recent (Focused target epoch) n (s ∷ ss)
    → Answered g s ss (answer (record g { ready_activity_epoch = e; focus_stable_count = n }))
answer-Answered s g ss e target epoch n c enough same_target same_epoch seen = record {
  inv = record {
    frames =
        FrameCounted-of g.frame_key g.frame_stable_count (s ∷ ss) (frame_key_of s) c.key c.frames;
    focuses =
        FocusCounted-of g.focus_target_id e n (s ∷ ss) target epoch same_target same_epoch seen;
    young = λ h. absurd (omega arith);
  };
  same_frame = refl;
  same_focus = refl;
  counts = λ p.
      let stable = if-ready (ltb n g.required_focus) p in
      (c.key, enough, ground arith, target, epoch, same_target, same_epoch);
}

pub wait-Answered :
    (s : Snapshot) (g g1 : Gate) (ss : List Snapshot) (a : ReadinessAction)
    → Inv g1 (s ∷ ss)
    → g1.required_frame ≡ g.required_frame
    → g1.required_focus ≡ g.required_focus
    → a ≢ ready
    → Answered g s ss (g1, a)
wait-Answered s g g1 ss a i p q not_ready = record {
  inv = i;
  same_frame = p;
  same_focus = q;
  counts = λ r. absurd (not_ready r);
}

pub count_epoch-Answered :
    (s : Snapshot) (g : Gate) (ss : List Snapshot) (target : EditableTarget)
    → Counted g s ss
    → s.eligible_editables ≡ target ∷ []
    → target.focused ≡ true
    → g.focus_target_id ≡ some target.backend_dom_node_id
    → g.required_frame ≤ g.frame_stable_count
    → Answered g s ss (answer (count_epoch s.backend_activity.activity_epoch g))
unfolding count_epoch Recent Focused
count_epoch-Answered s g ss target c only focused same enough =
    let epoch = s.backend_activity.activity_epoch in
    let this : Focused target.backend_dom_node_id epoch s =
      (only ∙ ap (λ f. record target { focused = f } ∷ []) focused, refl) in
    if_cases (λ g1. Answered g s ss (answer g1)) (is_the ◌==◌ g.ready_activity_epoch epoch)
      (λ again.
        let known = is_the-some g.ready_activity_epoch epoch again in
        answer-Answered s g ss g.ready_activity_epoch target.backend_dom_node_id epoch
          (g.focus_stable_count + 1) c enough same known
          (Recent-suc (Focused target.backend_dom_node_id epoch) g.focus_stable_count s ss this (
            FocusCounted-keys g.focus_target_id g.ready_activity_epoch g.focus_stable_count ss
              target.backend_dom_node_id epoch same known c.focuses)))
      (λ first.
        answer-Answered s g ss (some epoch) target.backend_dom_node_id epoch 1 c enough same refl
          (this, tt))

pub Counted-Inv :
    (s : Snapshot) (g : Gate) (ss : List Snapshot) (target : Option ℕ)
    → Counted g s ss
    → Inv (reset_ready_epoch (record g { focus_target_id = target })) (s ∷ ss)
Counted-Inv s g ss target c = record {
  frames =
      FrameCounted-of g.frame_key g.frame_stable_count (s ∷ ss) (frame_key_of s) c.key c.frames;
  focuses = FocusCounted-none target 0 (s ∷ ss);
  young = λ h. refl;
}

pub observe_target-Answered :
    (s : Snapshot) (g : Gate) (ss : List Snapshot) (target : EditableTarget)
    → Counted g s ss
    → s.eligible_editables ≡ target ∷ []
    → g.required_frame ≤ g.frame_stable_count
    → Answered g s ss (observe_target s.backend_activity.activity_epoch target g)
unfolding observe_target
observe_target-Answered s g ss target c only enough =
    if_cases (Answered g s ss) (is_the ◌==◌ g.focus_target_id target.backend_dom_node_id)
      (λ same.
        if_cases (Answered g s ss) target.focused
          (λ focused.
            count_epoch-Answered s g ss target c only focused
              (is_the-some g.focus_target_id target.backend_dom_node_id same) enough)
          (λ blurred.
            wait-Answered s g _ ss _ (Counted-Inv s g ss g.focus_target_id c) refl refl
              (λ p. ground arith)))
      (λ moved.
        wait-Answered s g _ ss _ (Counted-Inv s g ss (some target.backend_dom_node_id) c) refl refl
          (λ p. ground arith))
