-- ===== src/Routing/Scheduler/Serial/Entries.antt =====
-- Running the entries of the queue keeps the log serial.
use threadwire.Prelude.{
  suc, ◌≡◌, refl, ◌≤◌, ◌<◌, true, false, Option, none, some, List, [], ◌∷◌, arith, if_cases, ◌∙◌,
}
use threadwire.Domain.Errors.{Result, ok, err, Failure, ◌>>◌}
use threadwire.Domain.Runtime.{RuntimeLease, assert_runtime_lease_current}
use threadwire.Routing.Scheduler.{
  OperationScheduler, QueueEntry, rejected, resolved, settle, start, start_if_safe, run_entry,
  drain_loop, drain, resume, resume_idle, assert_mutation_state_safe, throw_if_aborted,
}
use threadwire.Routing.Scheduler.Serial.{
  is_settled_in, AllDone, floor, FreshLog, QueueOk, Activity, Inv, IsSerial,
}
use threadwire.Routing.Scheduler.Serial.Queue.{
  AllDone-mono, settled_mono, QueueOk-lower, QueueOk-settled, QueueOk-started,
}

-- Between two operations, with `q` for the queue.
record Idle (q : List QueueEntry) (s : OperationScheduler) : Type 0 where
  serial : IsSerial s.log
  queued : QueueOk (floor s.log) s.next_id s.log q
  fresh : FreshLog s.next_id s.log
  done : AllDone (λ j. is_settled_in j s.log) s.log
  vacant : s.active ≡ none

-- An entry that is about to run, and the queue behind it.
record Next (e : QueueEntry) (s : OperationScheduler) : Type 0 where
  serial : IsSerial s.log
  above : floor s.log ≤ e.id
  below : e.id < s.next_id
  unsettled : is_settled_in e.id s.log ≡ false
  queued : QueueOk (suc e.id) s.next_id s.log s.queue
  fresh : FreshLog s.next_id s.log
  done : AllDone (λ j. is_settled_in j s.log) s.log
  vacant : s.active ≡ none
  runs : s.running ≡ true

reject-Inv :
    (e : QueueEntry) (x : Failure) (s : OperationScheduler)
    → Next e s
    → Inv (settle e.id (rejected x) s)
unfolding settle
reject-Inv e x s v = record {
  serial = (v.unsettled, v.serial);
  queued =
      QueueOk-lower (suc e.id) (floor s.log) s.next_id _ s.queue (omega arith) (
        QueueOk-settled (suc e.id) s.next_id s.log s.queue e.id (rejected x) (omega arith)
          v.queued);
  fresh = (v.below, v.fresh);
  activity =
      rw (v.vacant, Activity)
        (AllDone-mono (λ j. is_settled_in j s.log) _ s.log (settled_mono e.id (rejected x) s.log)
          v.done);
  idle = λ _. v.vacant;
}

start-Inv : (e : QueueEntry) (s : OperationScheduler) → Next e s → Inv (start e s)
unfolding start
start-Inv e s v = record {
  serial = (v.above, v.done, v.unsettled, v.serial);
  queued = QueueOk-started (suc e.id) s.next_id s.log s.queue e.id e.lease v.queued;
  fresh = v.fresh;
  activity = (
    (
      ground arith,
      AllDone-mono (λ j. is_settled_in j s.log) _ s.log (settled_mono e.id resolved s.log) v.done,
    ),
    v.unsettled,
    omega arith,
  );
  idle = λ h. ground arith;
}

-- The checks of `run` read and write `uncertainLease` only.
Next-uncertain :
    (e : QueueEntry) (s : OperationScheduler) (u : Option RuntimeLease)
    → Next e s
    → Next e (record s { uncertain_lease = u })
Next-uncertain e s u v = record {
  serial = v.serial;
  above = v.above;
  below = v.below;
  unsettled = v.unsettled;
  queued = v.queued;
  fresh = v.fresh;
  done = v.done;
  vacant = v.vacant;
  runs = v.runs;
}

start_if_safe-Inv :
    (e : QueueEntry) (c : Option RuntimeLease × Result (Unit {0})) (s : OperationScheduler)
    → Next e s
    → Inv (start_if_safe e c s)
unfolding start_if_safe
start_if_safe-Inv e (u, err x) s v =
    reject-Inv e x (record s { uncertain_lease = u }) (Next-uncertain e s u v)
start_if_safe-Inv e (u, ok _) s v =
    start-Inv e (record s { uncertain_lease = u }) (Next-uncertain e s u v)

run_checks-Inv :
    (e : QueueEntry) (c : Result (Unit {0})) (s : OperationScheduler)
    → Next e s
    → (elim c as (λ _. OperationScheduler) [
      | err x ↦ settle e.id (rejected x) s
      | ok _ ↦ start_if_safe e (assert_mutation_state_safe s.uncertain_lease e.lease) s
    ]
        ≡ run_entry e s)
    → Inv (run_entry e s)
run_checks-Inv e (err x) s v p = rw (← p) (reject-Inv e x s v)
run_checks-Inv e (ok _) s v p = rw (← p) (start_if_safe-Inv e _ s v)

run_entry-Inv : (e : QueueEntry) (s : OperationScheduler) → Next e s → Inv (run_entry e s)
unfolding run_entry
run_entry-Inv e s v =
    run_checks-Inv e (do throw_if_aborted e.aborted; assert_runtime_lease_current s.runtime e.lease)
      s v refl

drain_loop-Inv :
    (q : List QueueEntry) (s : OperationScheduler)
    → Idle q s
    → s.running ≡ true
    → Inv (drain_loop q s)
unfolding drain_loop
drain_loop-Inv [] s v r = record {
  serial = v.serial;
  queued = v.queued;
  fresh = v.fresh;
  activity = rw (v.vacant, Activity) v.done;
  idle = λ _. v.vacant;
}
drain_loop-Inv (e ∷ es) s v r =
    if_cases Inv e.is_settled
      (λ _.
        drain_loop-Inv es s
          (record {
            serial = v.serial;
            queued =
                QueueOk-lower (suc e.id) (floor s.log) s.next_id s.log es (omega arith) v.queued.3;
            fresh = v.fresh;
            done = v.done;
            vacant = v.vacant;
          })
          r)
      (λ waits.
        run_entry-Inv e (record s { queue = es })
          (record {
            serial = v.serial;
            above = v.queued.0;
            below = v.queued.1;
            unsettled = v.queued.2 ∙ waits;
            queued = v.queued.3;
            fresh = v.fresh;
            done = v.done;
            vacant = v.vacant;
            runs = r;
          }))

resume_idle-Inv :
    (a : Option QueueEntry) (s : OperationScheduler) → s.active ≡ a → Inv s → Inv (resume_idle a s)
unfolding resume_idle
resume_idle-Inv (some e) s p v = v
resume_idle-Inv none s p v =
    if_cases Inv s.running
      (drain_loop-Inv s.queue s (record {
        serial = v.serial;
        queued = v.queued;
        fresh = v.fresh;
        done = rw (p, Activity) at v.activity;
        vacant = p;
      }))
      (λ _. v)

pub resume-Inv : (s : OperationScheduler) → Inv s → Inv (resume s)
unfolding resume
resume-Inv s v = resume_idle-Inv s.active s refl v

pub drain-Inv : (s : OperationScheduler) → Inv s → Inv (drain s)
unfolding drain
drain-Inv s v =
    if_cases Inv s.running (λ _. v)
      (λ stopped.
        drain_loop-Inv s.queue (record s { running = true })
          (record {
            serial = v.serial;
            queued = v.queued;
            fresh = v.fresh;
            done = rw (v.idle stopped, Activity) at v.activity;
            vacant = v.idle stopped;
          })
          refl)
