-- ===== src/Routing/Scheduler/Serial/Queue.antt =====
-- Lemmas on the queue and the log.
use threadwire.Prelude.{
  ℕ, suc, ◌+◌, ◌≡◌, refl, ◌≤◌, ◌<◌, Bool, true, false, List, [], ◌∷◌, ◌++◌, arith,
}
use threadwire.Domain.Runtime.{RuntimeLease}
use threadwire.Routing.Scheduler.{
  QueueEntry, LogEntry, started, settled, Settlement, abort_queued, is_pending,
}
use threadwire.Routing.Scheduler.Serial.{is_settled_in, AllDone, FreshLog, QueueOk}

pub AllDone-mono :
    (p q : ℕ → Bool) (log : List LogEntry)
    → ((j : ℕ) → p j ≡ true → q j ≡ true)
    → AllDone p log
    → AllDone q log
AllDone-mono p q [] f h = tt
AllDone-mono p q (started i l ∷ log) f (a, h) = (f i a, AllDone-mono p q log f h)
AllDone-mono p q (settled i o ∷ log) f h = AllDone-mono p q log f h

pub settled_mono :
    (i : ℕ) (o : Settlement) (log : List LogEntry) (j : ℕ)
    → is_settled_in j log ≡ true
    → is_settled_in j (settled i o ∷ log) ≡ true
settled_mono i o log j h = ground arith

pub FreshLog-unsettled :
    (n i : ℕ) (log : List LogEntry) → n ≤ i → FreshLog n log → is_settled_in i log ≡ false
FreshLog-unsettled n i [] h f = refl
FreshLog-unsettled n i (started j l ∷ log) h f = FreshLog-unsettled n i log h f
FreshLog-unsettled n i (settled j o ∷ log) h f = ground (arith, FreshLog-unsettled n i log h f.1)

pub FreshLog-mono : (n m : ℕ) (log : List LogEntry) → n ≤ m → FreshLog n log → FreshLog m log
FreshLog-mono n m [] h f = tt
FreshLog-mono n m (started j l ∷ log) h f = FreshLog-mono n m log h f
FreshLog-mono n m (settled j o ∷ log) h f = (omega arith, FreshLog-mono n m log h f.1)

pub QueueOk-lower :
    (lo lo' n : ℕ) (log : List LogEntry) (q : List QueueEntry)
    → lo' ≤ lo
    → QueueOk lo n log q
    → QueueOk lo' n log q
QueueOk-lower lo lo' n log [] h k = omega arith
QueueOk-lower lo lo' n log (e ∷ es) h k = (omega arith, k.1, k.2, k.3)

-- A settlement below the queue does not touch it.
pub QueueOk-settled :
    (lo n : ℕ) (log : List LogEntry) (q : List QueueEntry) (i : ℕ) (o : Settlement)
    → i < lo
    → QueueOk lo n log q
    → QueueOk lo n (settled i o ∷ log) q
QueueOk-settled lo n log [] i o h k = k
QueueOk-settled lo n log (e ∷ es) i o h k =
    (k.0, k.1, ground arith, QueueOk-settled (suc e.id) n log es i o (omega arith) k.3)

pub QueueOk-started :
    (lo n : ℕ) (log : List LogEntry) (q : List QueueEntry) (i : ℕ) (l : RuntimeLease)
    → QueueOk lo n log q
    → QueueOk lo n (started i l ∷ log) q
QueueOk-started lo n log [] i l k = k
QueueOk-started lo n log (e ∷ es) i l k =
    (k.0, k.1, k.2, QueueOk-started (suc e.id) n log es i l k.3)

pub QueueOk-le :
    (lo n : ℕ) (log : List LogEntry) (q : List QueueEntry) → QueueOk lo n log q → lo ≤ n
QueueOk-le lo n log [] k = k
QueueOk-le lo n log (e ∷ es) k = omega arith

pub QueueOk-snoc :
    (lo n : ℕ) (log : List LogEntry) (q : List QueueEntry) (e : QueueEntry)
    → e.id ≡ n
    → is_settled_in n log ≡ e.is_settled
    → QueueOk lo n log q
    → QueueOk lo (n + 1) log (q ++ e ∷ [])
QueueOk-snoc lo n log [] e h u k = ground arith
QueueOk-snoc lo n log (d ∷ ds) e h u k =
    (k.0, omega arith, k.2, QueueOk-snoc (suc d.id) n log ds e h u k.3)

-- What an abort finds pending is in the queue, unsettled.
pub pending-unsettled :
    (lo n : ℕ) (log : List LogEntry) (q : List QueueEntry) (i : ℕ)
    → QueueOk lo n log q
    → is_pending i q ≡ true
    → (is_settled_in i log ≡ false) × (lo ≤ i) × (i < n)
unfolding is_pending
pending-unsettled lo n log [] i k p = ground arith
pending-unsettled lo n log (e ∷ es) i k p =
    ground (arith, pending-unsettled (suc e.id) n log es i k.3)

pub QueueOk-aborted :
    (lo n : ℕ) (log : List LogEntry) (q : List QueueEntry) (i : ℕ) (o : Settlement)
    → QueueOk lo n log q
    → QueueOk lo n (settled i o ∷ log) (abort_queued i q)
unfolding abort_queued
QueueOk-aborted lo n log [] i o k = k
QueueOk-aborted lo n log (e ∷ es) i o k =
    (k.0, k.1, ground arith, QueueOk-aborted (suc e.id) n log es i o k.3)

-- A number that is refused at once is above the queue.
pub QueueOk-refused :
    (lo n : ℕ) (log : List LogEntry) (q : List QueueEntry) (o : Settlement)
    → QueueOk lo n log q
    → QueueOk lo (n + 1) (settled n o ∷ log) q
QueueOk-refused lo n log [] o k = omega arith
QueueOk-refused lo n log (e ∷ es) o k =
    (k.0, omega arith, ground arith, QueueOk-refused (suc e.id) n log es o k.3)
