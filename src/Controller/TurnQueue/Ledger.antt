-- ===== src/Controller/TurnQueue/Ledger.antt =====
-- The ledger of the promises: each stands in one place.
use threadwire.Prelude.{
  ℕ, ◌+◌, ◌≡◌, refl, subst, sym, true, Option, none, some, List, [], ◌∷◌, ◌++◌, ltb, ◌==◌, nat_eq,
  if◌then◌else◌, arith, if_cases, if_some,
}
use threadwire.Controller.TurnQueue.{
  PendingTurn, Settlement, aborted, TurnQueue, new_queue, drain, Event, steps, is_aborted,
  is_pending, remove, settle, drain_when, drain_idle, withdraw, release, push_turn, name_turn,
}
use threadwire.Controller.TurnQueue.Induction.{Preserved, steps-P}

abbrev one : ℕ → ℕ → ℕ
one i j = if i == j then 1 else 0

abbrev in_settled : ℕ → List (ℕ × Settlement) → ℕ
in_settled i [] = 0
in_settled i ((j, how) ∷ rest) = one i j + in_settled i rest

abbrev in_pending : ℕ → List PendingTurn → ℕ
in_pending i [] = 0
in_pending i (entry ∷ rest) = one i entry.id + in_pending i rest

abbrev in_active : ℕ → Option ℕ → ℕ
in_active i none = 0
in_active i (some j) = one i j

-- How often a promise stands in the queue: settled, active or pending.
abbrev pub places : ℕ → TurnQueue → ℕ
places i q = in_settled i q.settled + in_active i q.active + in_pending i q.pending

in_settled-append :
    (i : ℕ) (xs : List (ℕ × Settlement)) (j : ℕ) (how : Settlement)
    → in_settled i (xs ++ (j, how) ∷ []) ≡ in_settled i xs + one i j
in_settled-append i [] j how = ground arith
in_settled-append i ((k, h) ∷ xs) j how = ground (arith, in_settled-append i xs j how)

in_pending-append :
    (i : ℕ) (xs : List PendingTurn) (entry : PendingTurn)
    → in_pending i (xs ++ entry ∷ []) ≡ in_pending i xs + one i entry.id
in_pending-append i [] entry = ground arith
in_pending-append i (x ∷ xs) entry = ground (arith, in_pending-append i xs entry)

in_pending-remove :
    (i j : ℕ) (xs : List PendingTurn)
    → is_pending j xs ≡ true
    → in_pending i xs ≡ one i j + in_pending i (remove j xs)
in_pending-remove i j [] h = ground arith
in_pending-remove i j (x ∷ xs) h = ground (arith, in_pending-remove i j xs)

-- The promises that have been returned are those numbered below `next_id`.
abbrev issued : ℕ → ℕ → ℕ
issued i n = if ltb i n then 1 else 0

-- The queue holds each promise that it has returned once, and no other.
Kept : TurnQueue → Type 0
Kept q = (i : ℕ) → places i q ≡ issued i q.next_id

abbrev KeptAt : ℕ → TurnQueue → Type 0
KeptAt i q = places i q ≡ issued i q.next_id

drain_idle-Kept :
    (ps : List PendingTurn) (q : TurnQueue)
    → q.pending ≡ ps
    → q.active ≡ none
    → Kept q
    → Kept (drain_idle ps q)
unfolding Kept
drain_idle-Kept [] q p a k = k
drain_idle-Kept (entry ∷ rest) q p a k = λ i.
    let h1 =
      subst
        (λ ps. in_settled i q.settled + in_active i q.active + in_pending i ps ≡ issued i q.next_id)
        p (k i) in
    let h2 =
      subst
        (λ o.
          in_settled i q.settled + in_active i o + in_pending i (entry ∷ rest) ≡ issued i q.next_id)
        a h1 in
    if_cases (KeptAt i) (is_aborted entry.signal q.aborted_signals)
      (λ stale.
        let s = in_settled-append i q.settled entry.id aborted in
        subst
          (λ o.
            in_settled i (q.settled ++ (entry.id, aborted) ∷ []) + in_active i o + in_pending i rest
            ≡ issued i q.next_id)
          (sym a) (ground arith))
      (λ live. ground arith)

drain_when-Kept : (o : Option ℕ) (q : TurnQueue) → q.active ≡ o → Kept q → Kept (drain_when o q)
drain_when-Kept none q a k = drain_idle-Kept q.pending q refl a k
drain_when-Kept (some i) q a k = k

drain-Kept : (q : TurnQueue) → Kept q → Kept (drain q)
unfolding drain
drain-Kept q k = drain_when-Kept q.active q refl k

withdraw-Kept :
    (j : ℕ) (q : TurnQueue) → is_pending j q.pending ≡ true → Kept q → Kept (withdraw j q)
unfolding Kept
withdraw-Kept j q h k i =
    ground (arith, k i, in_settled-append i q.settled j aborted, in_pending-remove i j q.pending h)

release-Kept :
    (j : ℕ) (how : Settlement) (q : TurnQueue) → q.active ≡ some j → Kept q → Kept (release j how q)
unfolding Kept
release-Kept j how q a k i =
    let h =
      subst
        (λ o. in_settled i q.settled + in_active i o + in_pending i q.pending ≡ issued i q.next_id)
        a (k i) in
    ground (arith, h, in_settled-append i q.settled j how)

push_turn-Kept : (signal : Option ℕ) (q : TurnQueue) → Kept q → Kept (push_turn signal q)
unfolding Kept
push_turn-Kept signal q k i =
    ground (arith, k i, in_pending-append i q.pending record { id = q.next_id; signal = signal })

refused-Kept : (q : TurnQueue) → Kept q → Kept (settle q.next_id aborted (name_turn q))
unfolding Kept
refused-Kept q k i = ground (arith, k i, in_settled-append i q.settled q.next_id aborted)

Kept-Preserved : Preserved Kept
unfolding Kept
Kept-Preserved = record {
  drains = drain-Kept;
  withdraws = withdraw-Kept;
  releases = release-Kept;
  pushes = λ signal q room k. push_turn-Kept signal q k;
  refuses = refused-Kept;
  marks = λ s q k i. k i;
  takes = λ q k i. k i;
}

-- After any events, a queue that was created with its capacity holds each promise that it has
-- returned in exactly one place, settled, active or pending, and holds no other: no promise is lost
-- or settled twice.
pub turns-kept :
    (capacity : ℕ) (q : TurnQueue) (es : List Event) (i : ℕ)
    → new_queue capacity ≡ some q
    → places i (steps es q) ≡ (if ltb i (steps es q).next_id then 1 else 0)
unfolding new_queue Kept
turns-kept capacity q es i made =
    steps-P Kept Kept-Preserved es q
      (subst Kept (if_some (ltb 0 capacity) made).1 (λ i. ground arith)) i
