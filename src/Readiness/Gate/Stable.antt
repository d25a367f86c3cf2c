-- ===== src/Readiness/Gate/Stable.antt =====
-- What a gate's READY says of the snapshots that it has seen.
use threadwire.Prelude.{
  ℕ, ◌≤◌, ◌<◌, ◌≡◌, refl, sym, ◌∙◌, subst, ◌&&◌, none, some, List, [], ◌∷◌, arith, ◌==◌, nat_eq,
  text_eq, ltb, if_cases, is_the, if_some,
}
use threadwire.Readiness.Gate.{
  Snapshot, EditableTarget, Gate, wait, ready, create_gate, count_frame, observe_targets,
  observe_counted, observe, observe_history, frame_key_of, reset_all,
}
use threadwire.Readiness.Gate.Counts.{
  Recent, InFrame, Focused, FrameCounted, FocusCounted, Inv, Recent-le, FrameCounted-key,
  FrameCounted-of, FocusCounted-keys, FocusCounted-none,
}
use threadwire.Readiness.Gate.Answers.{
  Counted, Answered, count_frame-Counted, wait-Answered, observe_target-Answered, Counted-Inv,
}

observe_targets-Answered :
    (s : Snapshot) (g : Gate) (ss : List Snapshot) (targets : List EditableTarget)
    → Counted g s ss
    → s.eligible_editables ≡ targets
    → g.required_frame ≤ g.frame_stable_count
    → Answered g s ss (observe_targets s.backend_activity.activity_epoch targets g)
observe_targets-Answered s g ss [] c only enough =
    wait-Answered s g _ ss _ (Counted-Inv s g ss none c) refl refl (λ p. ground arith)
observe_targets-Answered s g ss (target ∷ []) c only enough =
    observe_target-Answered s g ss target c only enough
observe_targets-Answered s g ss (target ∷ other ∷ more) c only enough =
    wait-Answered s g _ ss _ (Counted-Inv s g ss none c) refl refl (λ p. ground arith)

observe_counted-Answered :
    (s : Snapshot) (g : Gate) (ss : List Snapshot)
    → Counted g s ss
    → Answered g s ss (observe_counted s g)
observe_counted-Answered s g ss c =
    if_cases (Answered g s ss) (ltb g.frame_stable_count g.required_frame)
      (λ young.
        wait-Answered s g g ss wait
          (record {
            frames =
                FrameCounted-of g.frame_key g.frame_stable_count (s ∷ ss) (frame_key_of s) c.key
                  c.frames;
            focuses =
                subst (λ e. FocusCounted g.focus_target_id e g.focus_stable_count (s ∷ ss))
                  (sym (c.young (ground arith)))
                  (FocusCounted-none g.focus_target_id g.focus_stable_count (s ∷ ss));
            young = c.young;
          })
          refl refl (λ p. ground arith))
      (λ stable. observe_targets-Answered s g ss s.eligible_editables c refl (ground arith))

KeepsRequired : Gate → Gate → Type 0
KeepsRequired g g1 = (g1.required_frame ≡ g.required_frame) × (g1.required_focus ≡ g.required_focus)

count_frame-required : (s : Snapshot) (g : Gate) → KeepsRequired g (count_frame s g)
unfolding count_frame KeepsRequired
count_frame-required s g =
    if_cases (KeepsRequired g) (is_the ◌==◌ g.frame_key (frame_key_of s)) (λ p. (refl, refl))
      (λ p. (refl, refl))

observe-Answered :
    (s : Snapshot) (g : Gate) (ss : List Snapshot) → Inv g ss → Answered g s ss (observe s g)
unfolding observe FrameCounted KeepsRequired
observe-Answered s g ss inv =
    if_cases (Answered g s ss) s.main_frame.expected_route
      (λ route.
        let c = count_frame-Counted s g ss route inv in
        let r = observe_counted-Answered s (count_frame s g) ss c in
        let kept = count_frame-required s g in
        record {
          inv = r.inv;
          same_frame = r.same_frame ∙ kept.0;
          same_focus = r.same_focus ∙ kept.1;
          counts = r.counts;
        })
      (λ strayed.
        wait-Answered s g (reset_all g) ss wait
          (record { frames = tt; focuses = FocusCounted-none none 0 (s ∷ ss); young = λ h. refl })
          refl refl (λ p. ground arith))

record History (g g1 : Gate) (ss : List Snapshot) : Type 0 where
  pub inv : Inv g1 ss
  pub same_frame : g1.required_frame ≡ g.required_frame
  pub same_focus : g1.required_focus ≡ g.required_focus

observe_history-History :
    (g : Gate) (ss : List Snapshot) → Inv g [] → History g (observe_history g ss) ss
unfolding observe_history
observe_history-History g [] inv = record { inv = inv; same_frame = refl; same_focus = refl }
observe_history-History g (s ∷ ss) inv =
    let before = observe_history-History g ss inv in
    let now = observe-Answered s (observe_history g ss) ss before.inv in
    record {
      inv = now.inv;
      same_frame = now.same_frame ∙ before.same_frame;
      same_focus = now.same_focus ∙ before.same_focus;
    }

new_frames : FrameCounted none 0 []
unfolding FrameCounted
new_frames = tt

create_gate-Inv :
    (f q : ℕ) (g : Gate)
    → create_gate f q ≡ some g
    → Inv g [] × (g.required_frame ≡ f) × (g.required_focus ≡ q) × (0 < f) × (0 < q)
unfolding create_gate
create_gate-Inv f q g made =
    let (valid, is) = if_some (ltb 0 f && ltb 0 q) made in
    subst (λ g. Inv g [] × (g.required_frame ≡ f) × (g.required_focus ≡ q) × (0 < f) × (0 < q)) is
      (
        record { frames = new_frames; focuses = FocusCounted-none none 0 []; young = λ h. refl },
        refl,
        refl,
        ground arith,
        ground arith,
      )

-- A gate of a policy that asks for `f` observations of the frame and `q` of the focus answers READY
-- to a snapshot, after any history, only if the newest `f` snapshots, this one included, are on the
-- expected route in this one's frame and document, and the newest `q` each have one eligible
-- editable, the same in each, focused, at one activity epoch; and `f` and `q` are positive.
pub ready-stable :
    (f q : ℕ) (g : Gate) (s : Snapshot) (ss : List Snapshot)
    → create_gate f q ≡ some g
    → (observe s (observe_history g ss)).1 ≡ ready
    → (0 < f)
      × (0 < q)
      × Recent (InFrame (frame_key_of s)) f (s ∷ ss)
      × (target : ℕ) × (epoch : ℕ) × Recent (Focused target epoch) q (s ∷ ss)
ready-stable f q g s ss made is_ready =
    let (inv, is_f, is_q, f_pos, q_pos) = create_gate-Inv f q g made in
    let before = observe_history-History g ss inv in
    let now = observe-Answered s (observe_history g ss) ss before.inv in
    let (key, frames, focuses, target, epoch, at_target, at_epoch) = now.counts is_ready in
    let g1 = (observe s (observe_history g ss)).0 in
    (
      f_pos,
      q_pos,
      Recent-le (InFrame (frame_key_of s)) f g1.frame_stable_count (s ∷ ss)
          (subst (λ k. k ≤ g1.frame_stable_count) (now.same_frame ∙ before.same_frame ∙ is_f)
            frames)
          (FrameCounted-key g1.frame_key g1.frame_stable_count (s ∷ ss) (frame_key_of s) key
            now.inv.frames),
      target,
      epoch,
      Recent-le (Focused target epoch) q g1.focus_stable_count (s ∷ ss)
          (subst (λ k. k ≤ g1.focus_stable_count) (now.same_focus ∙ before.same_focus ∙ is_q)
            focuses)
          (FocusCounted-keys g1.focus_target_id g1.ready_activity_epoch g1.focus_stable_count
            (s ∷ ss) target epoch at_target at_epoch now.inv.focuses),
    )
