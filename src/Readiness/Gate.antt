-- ===== src/Readiness/Gate.antt =====
-- readiness/types.ts and readiness/ExistingReadinessPolicy.ts: what a snapshot of the page holds,
-- and the gate that answers each snapshot with an action.
pub mod Counts
pub mod Answers
pub mod Stable
use threadwire.Prelude.{
  ℕ, zero, suc, ◌+◌, Bool, true, false, not, ◌&&◌, Option, none, some, List, [], ◌∷◌, ◌++◌, Text,
  ◌==◌, nat_eq, text_eq, ltb, is_the, if◌then◌else◌,
}

pub record MainFrame : Type 0 where
  pub frame_id : Text
  pub loader_id : Text
  pub expected_route : Bool

pub record EditableTarget : Type 0 where
  pub backend_dom_node_id : ℕ
  pub focused : Bool

pub record BackendActivity : Type 0 where
  pub active_count : ℕ
  pub activity_epoch : ℕ

pub data BlockingNotice : Type 0 where
  absent unknown : BlockingNotice
  known_fresh_notice : ℕ → ℕ → BlockingNotice

pub record Snapshot : Type 0 where
  pub main_frame : MainFrame
  pub eligible_editables : List EditableTarget
  pub backend_activity : BackendActivity
  pub blocking_notice : Option BlockingNotice

pub data ReadinessAction : Type 0 where
  wait ready : ReadinessAction
  focus : ℕ → ReadinessAction

pub record Gate : Type 0 where
  pub required_frame : ℕ
  pub required_focus : ℕ
  pub frame_key : Option Text
  pub frame_stable_count : ℕ
  pub focus_target_id : Option ℕ
  pub ready_activity_epoch : Option ℕ
  pub focus_stable_count : ℕ

abbrev pub new_gate : ℕ → ℕ → Gate
new_gate frames focuses = record {
  required_frame = frames;
  required_focus = focuses;
  frame_key = none;
  frame_stable_count = 0;
  focus_target_id = none;
  ready_activity_epoch = none;
  focus_stable_count = 0;
}

-- `createGate`, with the two checks of the policy's constructor.
unfoldable pub create_gate : ℕ → ℕ → Option Gate
create_gate frames focuses =
    if ltb 0 frames && ltb 0 focuses then some (new_gate frames focuses) else none

abbrev pub reset_ready_epoch : Gate → Gate
reset_ready_epoch g = record g { ready_activity_epoch = none; focus_stable_count = 0 }

abbrev pub reset_focus : Gate → Gate
reset_focus g = reset_ready_epoch (record g { focus_target_id = none })

abbrev pub reset_all : Gate → Gate
reset_all g = reset_focus (record g { frame_key = none; frame_stable_count = 0 })

-- `${frameId}\u0000${loaderId}`
abbrev pub frame_key_of : Snapshot → Text
frame_key_of s = s.main_frame.frame_id ++ 0 ∷ s.main_frame.loader_id

unfoldable pub count_frame : Snapshot → Gate → Gate
count_frame s g =
    if is_the ◌==◌ g.frame_key (frame_key_of s)
    then record g { frame_stable_count = g.frame_stable_count + 1 }
    else reset_focus (record g { frame_key = some (frame_key_of s); frame_stable_count = 1 })

unfoldable pub count_epoch : ℕ → Gate → Gate
count_epoch epoch g =
    if is_the ◌==◌ g.ready_activity_epoch epoch
    then record g { focus_stable_count = g.focus_stable_count + 1 }
    else record g { ready_activity_epoch = some epoch; focus_stable_count = 1 }

abbrev pub answer : Gate → Gate × ReadinessAction
answer g = (g, if ltb g.focus_stable_count g.required_focus then wait else ready)

unfoldable pub observe_target : ℕ → EditableTarget → Gate → Gate × ReadinessAction
unfolding count_epoch
observe_target epoch target g =
    if is_the ◌==◌ g.focus_target_id target.backend_dom_node_id
    then if target.focused
      then answer (count_epoch epoch g)
      else (reset_ready_epoch g, focus target.backend_dom_node_id)
    else (
      reset_ready_epoch (record g { focus_target_id = some target.backend_dom_node_id }),
      focus target.backend_dom_node_id,
    )

-- The rest of `observe` once the frame has been counted: only one eligible target will do.
abbrev pub observe_targets : ℕ → List EditableTarget → Gate → Gate × ReadinessAction
observe_targets epoch (target ∷ []) g = observe_target epoch target g
observe_targets epoch _ g = (reset_focus g, wait)

abbrev pub observe_counted : Snapshot → Gate → Gate × ReadinessAction
observe_counted s g =
    if ltb g.frame_stable_count g.required_frame
    then (g, wait)
    else observe_targets s.backend_activity.activity_epoch s.eligible_editables g

unfoldable pub observe : Snapshot → Gate → Gate × ReadinessAction
unfolding count_frame observe_target
observe s g =
    if s.main_frame.expected_route then observe_counted s (count_frame s g) else (reset_all g, wait)

-- The gate after a history, the newest snapshot first.
unfoldable pub observe_history : Gate → List Snapshot → Gate
observe_history g [] = g
observe_history g (s ∷ ss) = (observe s (observe_history g ss)).0
