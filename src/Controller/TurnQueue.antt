-- ===== src/Controller/TurnQueue.antt =====
-- controller/ControllerTurnQueue.ts. The queue numbers the promises that it returns; `settled` lists
-- how each was settled and `started` the turns whose operation was begun, in order. What happens
-- outside is an event: a signal aborts, the active operation ends, a queued microtask runs.
pub mod Awake
pub mod Induction
pub mod Ledger
pub mod Order
use threadwire.Prelude.{
  ℕ, zero, suc, ◌+◌, ◌-◌, Bool, true, false, ◌||◌, Option, none, some, List, [], ◌∷◌, ◌++◌, leb,
  ltb, ◌==◌, nat_eq, if◌then◌else◌, is_some, length,
}

pub record PendingTurn : Type 0 where
  pub id : ℕ
  pub signal : Option ℕ

pub data Settlement : Type 0 where
  resolved rejected aborted : Settlement

pub record TurnQueue : Type 0 where
  pub max_outstanding_turns : ℕ
  pub pending : List PendingTurn
  pub active : Option ℕ
  pub aborted_signals : List ℕ
  pub microtasks : ℕ
  pub next_id : ℕ
  pub started : List ℕ
  pub settled : List (ℕ × Settlement)

-- The constructor, which refuses a capacity of 0.
unfoldable pub new_queue : ℕ → Option TurnQueue
new_queue capacity =
    if ltb 0 capacity
    then some record {
      max_outstanding_turns = capacity;
      pending = [];
      active = none;
      aborted_signals = [];
      microtasks = 0;
      next_id = 0;
      started = [];
      settled = [];
    }
    else none

abbrev pub elem : ℕ → List ℕ → Bool
elem x [] = false
elem x (y ∷ ys) = x == y || elem x ys

abbrev pub is_aborted : Option ℕ → List ℕ → Bool
is_aborted none signals = false
is_aborted (some s) signals = elem s signals

abbrev pub outstanding : TurnQueue → ℕ
outstanding q = length q.pending + (if is_some q.active then 1 else 0)

abbrev pub settle : ℕ → Settlement → TurnQueue → TurnQueue
settle i how q = record q { settled = q.settled ++ (i, how) ∷ [] }

-- `drain` once a turn has been shifted off the queue
abbrev pub start : PendingTurn → TurnQueue → TurnQueue
start entry q =
    if is_aborted entry.signal q.aborted_signals
    then settle entry.id aborted (record q { microtasks = q.microtasks + 1 })
    else record q { active = some entry.id; started = q.started ++ entry.id ∷ [] }

abbrev pub drain_idle : List PendingTurn → TurnQueue → TurnQueue
drain_idle [] q = q
drain_idle (entry ∷ rest) q = start entry (record q { pending = rest })

abbrev pub drain_when : Option ℕ → TurnQueue → TurnQueue
drain_when (some i) q = q
drain_when none q = drain_idle q.pending q

unfoldable pub drain : TurnQueue → TurnQueue
drain q = drain_when q.active q

pub data ScheduleAnswer : Type 0 where
  controller_busy : ScheduleAnswer
  promised : ℕ → ScheduleAnswer

abbrev pub name_turn : TurnQueue → TurnQueue
name_turn q = record q { next_id = q.next_id + 1 }

abbrev pub push_turn : Option ℕ → TurnQueue → TurnQueue
push_turn signal q = record (name_turn q) {
  pending = q.pending ++ record { id = q.next_id; signal = signal } ∷ [];
}

unfoldable pub schedule : Option ℕ → TurnQueue → TurnQueue × ScheduleAnswer
unfolding drain
schedule signal q =
    if leb q.max_outstanding_turns (outstanding q)
    then (q, controller_busy)
    else if is_aborted signal q.aborted_signals
    then (settle q.next_id aborted (name_turn q), promised q.next_id)
    else (drain (push_turn signal q), promised q.next_id)

abbrev pub remove : ℕ → List PendingTurn → List PendingTurn
remove i [] = []
remove i (entry ∷ rest) = if entry.id == i then rest else entry ∷ remove i rest

abbrev pub is_pending : ℕ → List PendingTurn → Bool
is_pending i [] = false
is_pending i (entry ∷ rest) = entry.id == i || is_pending i rest

abbrev pub withdraw : ℕ → TurnQueue → TurnQueue
withdraw i q = settle i aborted (record q { pending = remove i q.pending })

-- The abort listener of one turn, which is removed when the turn leaves the queue.
unfoldable pub on_abort : ℕ → TurnQueue → TurnQueue
unfolding drain
on_abort i q = if is_pending i q.pending then drain (withdraw i q) else q

unfoldable pub on_aborts : List ℕ → TurnQueue → TurnQueue
on_aborts [] q = q
on_aborts (i ∷ rest) q = on_aborts rest (on_abort i q)

-- The listeners of a signal, in the order in which they were added.
abbrev pub listeners : ℕ → List PendingTurn → List ℕ
listeners s [] = []
listeners s (entry ∷ rest) =
    if is_aborted entry.signal (s ∷ []) then entry.id ∷ listeners s rest else listeners s rest

unfoldable pub abort_signal : ℕ → TurnQueue → TurnQueue
abort_signal s q =
    on_aborts (listeners s q.pending) (record q { aborted_signals = s ∷ q.aborted_signals })

-- The operation of the active turn ends: its promise is settled, and the next turn may start.
abbrev pub release : ℕ → Settlement → TurnQueue → TurnQueue
release i how q = settle i how (record q { active = none })

abbrev pub finish_turn : Option ℕ → Settlement → TurnQueue → TurnQueue
finish_turn none how q = q
finish_turn (some i) how q = drain (release i how q)

unfoldable pub operation_ended : Settlement → TurnQueue → TurnQueue
operation_ended how q = finish_turn q.active how q

abbrev pub take_microtask : TurnQueue → TurnQueue
take_microtask q = record q { microtasks = q.microtasks - 1 }

unfoldable pub run_microtask : TurnQueue → TurnQueue
run_microtask q = if ltb 0 q.microtasks then drain (take_microtask q) else q

pub data Event : Type 0 where
  scheduled : Option ℕ → Event
  signal_aborted : ℕ → Event
  turn_ended : Settlement → Event
  microtask_ran : Event

unfoldable pub step : Event → TurnQueue → TurnQueue
step (scheduled signal) q = (schedule signal q).0
step (signal_aborted s) q = abort_signal s q
step (turn_ended how) q = operation_ended how q
step microtask_ran q = run_microtask q

unfoldable pub steps : List Event → TurnQueue → TurnQueue
steps [] q = q
steps (e ∷ es) q = steps es (step e q)
