-- ===== src/Routing/Scheduler/Serial.antt =====
-- The order of starts and settlements in a scheduler's log.
pub mod Queue
pub mod Entries
pub mod Steps
use threadwire.Prelude.{
  ℕ, suc, ◌≡◌, ◌≤◌, ◌<◌, Bool, true, false, ◌||◌, List, [], ◌∷◌, ◌==◌, nat_eq, Option, none, some,
}
use threadwire.Routing.Scheduler.{
  OperationScheduler, QueueEntry, LogEntry, started, settled, resolved,
}

abbrev pub is_settled_in : ℕ → List LogEntry → Bool
is_settled_in i [] = false
is_settled_in i (started j l ∷ log) = is_settled_in i log
is_settled_in i (settled j o ∷ log) = j == i || is_settled_in i log

-- Every operation started in the log is done, by the test `p`.
abbrev pub AllDone : (ℕ → Bool) → List LogEntry → Type 0
AllDone p [] = Unit {0}
AllDone p (started i l ∷ log) = (p i ≡ true) × AllDone p log
AllDone p (settled i o ∷ log) = AllDone p log

-- One more than the number started last.
abbrev pub floor : List LogEntry → ℕ
floor [] = 0
floor (started i l ∷ log) = suc i
floor (settled i o ∷ log) = floor log

-- An operation starts after all that were called before it, once each started one has settled, and
-- before it has itself settled; and nothing settles twice.
abbrev pub IsSerial : List LogEntry → Type 0
IsSerial [] = Unit {0}
IsSerial (started i l ∷ log) =
    (floor log ≤ i)
    × AllDone (λ j. is_settled_in j log) log
    × (is_settled_in i log ≡ false)
    × IsSerial log
IsSerial (settled i o ∷ log) = (is_settled_in i log ≡ false) × IsSerial log

-- The numbers settled so far are below `n`.
abbrev pub FreshLog : ℕ → List LogEntry → Type 0
FreshLog n [] = Unit {0}
FreshLog n (started i l ∷ log) = FreshLog n log
FreshLog n (settled i o ∷ log) = (i < n) × FreshLog n log

-- The numbers in the queue rise from `lo` and stay below `n`, and `is_settled` is what the log says.
abbrev pub QueueOk : ℕ → ℕ → List LogEntry → List QueueEntry → Type 0
QueueOk lo n log [] = lo ≤ n
QueueOk lo n log (e ∷ es) =
    (lo ≤ e.id) × (e.id < n) × (is_settled_in e.id log ≡ e.is_settled) × QueueOk (suc e.id) n log es

abbrev pub Activity : Option QueueEntry → List LogEntry → Type 0
Activity none log = AllDone (λ j. is_settled_in j log) log
Activity (some e) log =
    AllDone (λ j. is_settled_in j (settled e.id resolved ∷ log)) log
    × (is_settled_in e.id log ≡ false)
    × (e.id < floor log)

pub record Inv (s : OperationScheduler) : Type 0 where
  pub serial : IsSerial s.log
  pub queued : QueueOk (floor s.log) s.next_id s.log s.queue
  pub fresh : FreshLog s.next_id s.log
  pub activity : Activity s.active s.log
  pub idle : s.running ≡ false → s.active ≡ none
