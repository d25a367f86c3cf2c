-- ===== src/Tests/TurnQueue.antt =====
-- The controller's queue at a concrete history.
use threadwire.Prelude.{◌≡◌, refl, ◌≤◌, none, some, List, [], ◌∷◌, ltb, ◌++◌, if◌then◌else◌}
use threadwire.Controller.TurnQueue.{
  TurnQueue, new_queue, Event, scheduled, signal_aborted, turn_ended, resolved, steps, outstanding,
}
use threadwire.Controller.TurnQueue.Awake.{Awake, turns-Awake}
use threadwire.Controller.TurnQueue.Ledger.{places, turns-kept}
use threadwire.Controller.TurnQueue.Order.{Ascending, ids, turns-ordered}

abbrev pair_queue : TurnQueue
pair_queue = record {
  max_outstanding_turns = 2;
  pending = [];
  active = none;
  aborted_signals = [];
  microtasks = 0;
  next_id = 0;
  started = [];
  settled = [];
}

-- The second of two turns is aborted, and a third takes its place.
abbrev events : List Event
events =
    scheduled none
    ∷ scheduled (some 4)
    ∷ signal_aborted 4
    ∷ scheduled none
    ∷ turn_ended resolved
    ∷ []

turns-kept_example :
    places 2 (steps events pair_queue) ≡ (if ltb 2 (steps events pair_queue).next_id then 1 else 0)
unfolding new_queue
turns-kept_example = turns-kept 2 pair_queue events 2 refl

turns-ordered_example :
    (outstanding (steps events pair_queue) ≤ 2)
    × Ascending 0
        (steps events pair_queue).next_id
        ((steps events pair_queue).started ++ ids (steps events pair_queue).pending)
unfolding new_queue
turns-ordered_example = turns-ordered 2 pair_queue events refl

turns-Awake_example : Awake (steps events pair_queue)
unfolding new_queue
turns-Awake_example = turns-Awake 2 pair_queue events refl
