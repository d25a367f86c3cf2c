-- ===== src/Routing/Scheduler/Uncertainty.antt =====
-- A lease marked uncertain starts nothing again.
use threadwire.Prelude.{
  ℕ, suc, ◌≡◌, refl, ◌<◌, ◌⊎◌, inl, inr, Bool, false, Option, none, some, List, [], ◌∷◌, arith,
  if_cases, Bool-cases, if◌then◌else◌, All, sym, ap, ◌∙◌,
}
use mathlib.Core.Bool.{false≢true}
use threadwire.Domain.Errors.{Result, ok, err, ◌>>◌}
use threadwire.Domain.Runtime.{
  RuntimeLease, RuntimeGenerationTracker, same_runtime_lease, assert_runtime_lease_current,
  get_current_runtime_lease,
}
use threadwire.Domain.Runtime.Fence
use threadwire.Domain.Runtime.Fence.{
  IsIssued, same_runtime_lease_iff, assert-eq_current, current_other-IsStale, assert-IsStale,
  observe-IsIssued, observe-Inv, observe-generation_le, current-generation, get_current-IsIssued,
}
use threadwire.Routing.Scheduler.{
  OperationScheduler, QueueEntry, LogEntry, started, settled, settle, start, start_if_safe,
  run_entry, drain_loop, drain, enqueue, refuse, schedule_if_safe, schedule, abort, complete,
  complete_active, resume, resume_idle, Step, schedules, aborts, completes, resumes, marks,
  observes, step, steps, is_pending, MutationOperationKind, Settlement, assert_mutation_state_safe,
  throw_if_aborted, mark_runtime_mutation_state_uncertain,
}

-- How many operations have started under the lease.
abbrev pub starts_of : RuntimeLease → List LogEntry → ℕ
starts_of l [] = 0
starts_of l (started i m ∷ log) =
    if same_runtime_lease m l then suc (starts_of l log) else starts_of l log
starts_of l (settled i o ∷ log) = starts_of l log

-- The lease is marked, or its generation is over; and `n` operations have started under it.
record IsBarred (l : RuntimeLease) (n : ℕ) (s : OperationScheduler) : Type 0 where
  tracked : Fence.Inv s.runtime
  issued : IsIssued s.runtime l
  barred : (s.uncertain_lease ≡ some l) ⊎ (l.generation < s.runtime.generation)
  count : starts_of l s.log ≡ n

-- The safety check passes only another lease, and what it forgets is over then.
safe_cases :
    (u : Option RuntimeLease) (t : RuntimeGenerationTracker) (l m : RuntimeLease)
    → Fence.Inv t
    → IsIssued t l
    → (u ≡ some l) ⊎ (l.generation < t.generation)
    → get_current_runtime_lease t ≡ ok m
    → let c = assert_mutation_state_safe u m in
      ((c.0 ≡ some l) ⊎ (l.generation < t.generation))
      × (c.1 ≡ ok tt → same_runtime_lease m l ≡ false)
unfolding assert_mutation_state_safe
safe_cases u t l m v issued barred h = elim (Bool-cases (same_runtime_lease m l)) [
  | inl same ↦
      let equal : m ≡ l = (same_runtime_lease_iff m l).0 same in
      let marked : u ≡ some l = ground (arith, current-generation t m h) in
      (ground (arith, same_runtime_lease_iff l m), ground (arith, same_runtime_lease_iff l m))
  | inr other ↦
      let unequal =
        λ (p : l ≡ m). false≢true (sym other ∙ (same_runtime_lease_iff m l).1 (sym p)) in
      (inr (current_other-IsStale t l m v issued h unequal), λ _. other)
]

settle-IsBarred :
    (l : RuntimeLease) (n i : ℕ) (o : Settlement) (s : OperationScheduler)
    → IsBarred l n s
    → IsBarred l n (settle i o s)
unfolding settle
settle-IsBarred l n i o s v = record {
  tracked = v.tracked;
  issued = v.issued;
  barred = v.barred;
  count = v.count;
}

-- The check of an entry whose lease is current.
start_if_safe-IsBarred :
    (l : RuntimeLease) (n : ℕ) (e : QueueEntry) (c : Option RuntimeLease × Result (Unit {0}))
    (s : OperationScheduler)
    → IsBarred l n s
    → (c.0 ≡ some l) ⊎ (l.generation < s.runtime.generation)
    → (c.1 ≡ ok tt → same_runtime_lease e.lease l ≡ false)
    → IsBarred l n (start_if_safe e c s)
unfolding start_if_safe start
start_if_safe-IsBarred l n e (u, err x) s v b f =
    settle-IsBarred l n e.id _ _
      (record { tracked = v.tracked; issued = v.issued; barred = b; count = v.count })
start_if_safe-IsBarred l n e (u, ok _) s v b f = record {
  tracked = v.tracked;
  issued = v.issued;
  barred = b;
  count = rw (f refl) v.count;
}

run_checks-IsBarred :
    (l : RuntimeLease) (n : ℕ) (e : QueueEntry) (c : Result (Unit {0})) (s : OperationScheduler)
    → IsBarred l n s
    → (do throw_if_aborted e.aborted; assert_runtime_lease_current s.runtime e.lease) ≡ c
    → IsBarred l n (run_entry e s)
unfolding run_entry
run_checks-IsBarred l n e (err x) s v p = rw (p, run_entry) (settle-IsBarred l n e.id _ s v)
run_checks-IsBarred l n e (ok _) s v p =
    let current = assert-eq_current s.runtime e.lease (ground arith) in
    let (b, f) =
      safe_cases s.uncertain_lease s.runtime l e.lease v.tracked v.issued v.barred current in
    rw (p, run_entry) (start_if_safe-IsBarred l n e _ s v b f)

drain_loop-IsBarred :
    (l : RuntimeLease) (n : ℕ) (q : List QueueEntry) (s : OperationScheduler)
    → IsBarred l n s
    → IsBarred l n (drain_loop q s)
unfolding drain_loop
drain_loop-IsBarred l n [] s v = record {
  tracked = v.tracked;
  issued = v.issued;
  barred = v.barred;
  count = v.count;
}
drain_loop-IsBarred l n (e ∷ es) s v =
    if_cases (IsBarred l n) e.is_settled (λ _. drain_loop-IsBarred l n es s v)
      (λ _.
        run_checks-IsBarred l n e _ (record s { queue = es })
          (record { tracked = v.tracked; issued = v.issued; barred = v.barred; count = v.count })
          refl)

schedule_if_safe-IsBarred :
    (l : RuntimeLease) (n : ℕ) (kind : MutationOperationKind) (lease : RuntimeLease)
    (c : Option RuntimeLease × Result (Unit {0})) (s : OperationScheduler)
    → IsBarred l n s
    → (c.0 ≡ some l) ⊎ (l.generation < s.runtime.generation)
    → IsBarred l n (schedule_if_safe kind lease c s)
unfolding schedule_if_safe refuse enqueue drain
schedule_if_safe-IsBarred l n kind lease (u, err x) s v b =
    settle-IsBarred l n s.next_id _ _
      (record { tracked = v.tracked; issued = v.issued; barred = b; count = v.count })
schedule_if_safe-IsBarred l n kind lease (u, ok _) s v b =
    if_cases (IsBarred l n) s.running
      (λ _. record { tracked = v.tracked; issued = v.issued; barred = b; count = v.count })
      (λ _.
        drain_loop-IsBarred l n _ _
          (record { tracked = v.tracked; issued = v.issued; barred = b; count = v.count }))

schedule_checks-IsBarred :
    (l : RuntimeLease) (n : ℕ) (kind : MutationOperationKind) (aborted : Bool)
    (c : Result RuntimeLease) (s : OperationScheduler)
    → IsBarred l n s
    → (do throw_if_aborted aborted; get_current_runtime_lease s.runtime) ≡ c
    → IsBarred l n (schedule kind aborted s)
unfolding schedule refuse
schedule_checks-IsBarred l n kind aborted (err x) s v p =
    rw (p, schedule)
      (settle-IsBarred l n s.next_id _ _
        (record { tracked = v.tracked; issued = v.issued; barred = v.barred; count = v.count }))
schedule_checks-IsBarred l n kind aborted (ok m) s v p =
    let current : get_current_runtime_lease s.runtime ≡ ok m = ground arith in
    let (b, _) = safe_cases s.uncertain_lease s.runtime l m v.tracked v.issued v.barred current in
    rw (p, schedule) (schedule_if_safe-IsBarred l n kind m _ s v b)

resume_idle-IsBarred :
    (l : RuntimeLease) (n : ℕ) (a : Option QueueEntry) (s : OperationScheduler)
    → IsBarred l n s
    → IsBarred l n (resume_idle a s)
unfolding resume_idle
resume_idle-IsBarred l n (some e) s v = v
resume_idle-IsBarred l n none s v =
    if_cases (IsBarred l n) s.running (λ _. drain_loop-IsBarred l n s.queue s v) (λ _. v)

complete_active-IsBarred :
    (l : RuntimeLease) (n : ℕ) (o : Settlement) (a : Option QueueEntry) (s : OperationScheduler)
    → IsBarred l n s
    → IsBarred l n (complete_active o a s)
unfolding complete_active
complete_active-IsBarred l n o none s v = v
complete_active-IsBarred l n o (some e) s v =
    settle-IsBarred l n e.id o _
      (record { tracked = v.tracked; issued = v.issued; barred = v.barred; count = v.count })

-- The step marks no lease but this one.
abbrev pub MarksOnly : RuntimeLease → Step → Type 0
MarksOnly l (marks m) = m ≡ l
MarksOnly l _ = Unit {0}

step-IsBarred :
    (l : RuntimeLease) (n : ℕ) (s : OperationScheduler) (x : Step)
    → MarksOnly l x
    → IsBarred l n s
    → IsBarred l n (step s x)
unfolding step mark_runtime_mutation_state_uncertain complete resume abort
step-IsBarred l n s (schedules kind aborted) h v =
    schedule_checks-IsBarred l n kind aborted _ s v refl
step-IsBarred l n s (aborts id) h v =
    if_cases (IsBarred l n) (is_pending id s.queue)
      (λ _.
        settle-IsBarred l n id _ _
          (record { tracked = v.tracked; issued = v.issued; barred = v.barred; count = v.count }))
      (λ _. v)
step-IsBarred l n s (completes outcome) h v = complete_active-IsBarred l n outcome s.active s v
step-IsBarred l n s resumes h v = resume_idle-IsBarred l n s.active s v
step-IsBarred l n s (marks m) h v = record {
  tracked = v.tracked;
  issued = v.issued;
  barred = inl (ap some h);
  count = v.count;
}
step-IsBarred l n s (observes o) h v = record {
  tracked = observe-Inv s.runtime o v.tracked;
  issued = observe-IsIssued s.runtime o l v.issued;
  barred = ground (arith, observe-generation_le s.runtime o);
  count = v.count;
}

steps-IsBarred :
    (l : RuntimeLease) (n : ℕ) (s : OperationScheduler) (xs : List Step)
    → All (MarksOnly l) xs
    → IsBarred l n s
    → IsBarred l n (steps s xs)
unfolding steps
steps-IsBarred l n s [] h v = v
steps-IsBarred l n s (x ∷ xs) h v =
    steps-IsBarred l n (step s x) xs h.1 (step-IsBarred l n s x h.0 v)

-- Once the current lease of a scheduler whose tracker of the runtime is consistent is marked
-- uncertain, no operation starts under it again in any later history in which no other lease is
-- marked. Another runtime generation may be used meanwhile.
pub uncertain-no_start :
    (l : RuntimeLease) (s : OperationScheduler) (xs : List Step)
    → Fence.Inv s.runtime
    → get_current_runtime_lease s.runtime ≡ ok l
    → All (MarksOnly l) xs
    → starts_of l (steps (step s (marks l)) xs).log ≡ starts_of l s.log
unfolding step mark_runtime_mutation_state_uncertain
uncertain-no_start l s xs v h only =
    (steps-IsBarred l (starts_of l s.log) (step s (marks l)) xs only (record {
      tracked = v;
      issued = get_current-IsIssued s.runtime l v h;
      barred = inl refl;
      count = refl;
    })).count
