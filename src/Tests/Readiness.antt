-- ===== src/Tests/Readiness.antt =====
-- The readiness gates at concrete snapshots.
use threadwire.Prelude.{refl, ℕ, ◌+◌, ◌≤◌, ◌<◌, none, [], ◌∷◌, text, true, text_beq}
use threadwire.Readiness.Gate.{
  Snapshot, create_gate, new_gate, observe, observe_history, frame_key_of,
}
use threadwire.Readiness.Gate.Counts.{Recent, InFrame, Focused}
use threadwire.Readiness.Gate.Stable.{ready-stable}
use threadwire.Readiness.Fresh as Fresh
use threadwire.Readiness.Fresh.{FreshGate, observe_timed, guard_answer}
use threadwire.Readiness.Fresh.Guard.{ReadySince, ready-guarded}

abbrev page : Snapshot
page = record {
  main_frame = record { frame_id = text "f"; loader_id = text "l"; expected_route = true };
  eligible_editables = record { backend_dom_node_id = 5; focused = true } ∷ [];
  backend_activity = record { active_count = 0; activity_epoch = 3 };
  blocking_notice = none;
}

ready-stable_example :
    (0 < 2)
    × (0 < 1)
    × Recent (InFrame (frame_key_of page)) 2 (page ∷ page ∷ page ∷ [])
    × (target : ℕ) × (epoch : ℕ) × Recent (Focused target epoch) 1 (page ∷ page ∷ page ∷ [])
unfolding create_gate observe observe_history text_beq
ready-stable_example = ready-stable 2 1 (new_gate 2 1) page (page ∷ page ∷ []) refl refl

abbrev fresh_gate : FreshGate
fresh_gate = record { existing = new_gate 1 1; guard_duration_ms = 500; guard_start_time = none }

ready-guarded_example :
    (t : ℕ) × (500 + t ≤ 1600)
    × ReadySince (new_gate 1 1) t ((page, 1600) ∷ (page, 1100) ∷ (page, 1000) ∷ [])
unfolding Fresh.observe observe_timed observe text_beq
ready-guarded_example =
    ready-guarded fresh_gate page 1600 ((page, 1100) ∷ (page, 1000) ∷ []) refl refl
