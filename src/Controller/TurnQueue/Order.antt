-- ===== src/Controller/TurnQueue/Order.antt =====
-- The turns start in the order in which they were scheduled, and no more are held than there is
-- room for.
use threadwire.Prelude.{
  ℕ, ◌+◌, ◌≤◌, ◌<◌, ◌≡◌, refl, subst, sym, ap, sym, true, Option, none, some, List, [], ◌∷◌, ◌++◌,
  ltb, ◌==◌, nat_eq, if◌then◌else◌, is_some, length, length-append, arith, if_cases, if_some,
}
use threadwire.Controller.TurnQueue.{
  PendingTurn, TurnQueue, new_queue, drain, Event, steps, is_aborted, outstanding, is_pending,
  remove, drain_when, drain_idle, withdraw, push_turn,
}
use threadwire.Controller.TurnQueue.Induction.{Preserved, steps-P}

pub ids : List PendingTurn → List ℕ
ids [] = []
ids (entry ∷ rest) = entry.id ∷ ids rest

-- An ascending list of numbers from `lo` on and below `hi`.
pub Ascending : ℕ → ℕ → List ℕ → Type 0
Ascending lo hi [] = lo ≤ hi
Ascending lo hi (x ∷ xs) = (lo ≤ x) × Ascending (x + 1) hi xs

-- The room that a queue has, and the order of its turns: those that were started, then the pending.
record Held (capacity : ℕ) (q : TurnQueue) : Type 0 where
  pub limit : q.max_outstanding_turns ≡ capacity
  pub room : outstanding q ≤ capacity
  pub order : Ascending 0 q.next_id (q.started ++ ids q.pending)

Ascending-lower : (a b hi : ℕ) (xs : List ℕ) → a ≤ b → Ascending b hi xs → Ascending a hi xs
unfolding Ascending
Ascending-lower a b hi [] h r = ground arith
Ascending-lower a b hi (x ∷ xs) h (le, r) = (ground arith, r)

-- One element less.
Ascending-drop :
    (lo hi : ℕ) (xs ys zs : List ℕ)
    → ((b : ℕ) → Ascending b hi ys → Ascending b hi zs)
    → Ascending lo hi (xs ++ ys)
    → Ascending lo hi (xs ++ zs)
unfolding Ascending
Ascending-drop lo hi [] ys zs f r = f lo r
Ascending-drop lo hi (x ∷ xs) ys zs f (le, r) = (le, Ascending-drop (x + 1) hi xs ys zs f r)

abbrev Listed : ℕ → ℕ → List PendingTurn → Type 0
Listed lo hi ps = Ascending lo hi (ids ps)

ids-remove :
    (i : ℕ) (ps : List PendingTurn) (lo hi : ℕ)
    → Ascending lo hi (ids ps)
    → Ascending lo hi (ids (remove i ps))
unfolding Ascending ids
ids-remove i [] lo hi r = r
ids-remove i (x ∷ ps) lo hi (le, r) =
    if_cases (Listed lo hi) (x.id == i)
      (λ p. Ascending-lower lo (x.id + 1) hi (ids ps) (ground arith) r)
      (λ p. (le, ids-remove i ps (x.id + 1) hi r))

Ascending-snoc :
    (lo hi : ℕ) (xs : List ℕ) → Ascending lo hi xs → Ascending lo (hi + 1) (xs ++ hi ∷ [])
unfolding Ascending
Ascending-snoc lo hi [] r = (r, ground arith)
Ascending-snoc lo hi (x ∷ xs) (le, r) = (le, Ascending-snoc (x + 1) hi xs r)

length-remove :
    (i : ℕ) (ps : List PendingTurn) → is_pending i ps ≡ true → length (remove i ps) + 1 ≡ length ps
length-remove i [] h = ground arith
length-remove i (x ∷ ps) h = ground (arith, length-remove i ps)

Ascending-upper : (lo hi : ℕ) (xs : List ℕ) → Ascending lo hi xs → Ascending lo (hi + 1) xs
unfolding Ascending
Ascending-upper lo hi [] r = ground arith
Ascending-upper lo hi (x ∷ xs) (le, r) = (le, Ascending-upper (x + 1) hi xs r)

ids-push :
    (started : List ℕ) (ps : List PendingTurn) (entry : PendingTurn)
    → started ++ ids (ps ++ entry ∷ []) ≡ (started ++ ids ps) ++ entry.id ∷ []
unfolding ids
ids-push [] [] entry = refl
ids-push [] (p ∷ ps) entry = ap (λ r. p.id ∷ r) (ids-push [] ps entry)
ids-push (x ∷ started) ps entry = ap (λ r. x ∷ r) (ids-push started ps entry)

start-append :
    (started : List ℕ) (i : ℕ) (rest : List ℕ) → (started ++ i ∷ []) ++ rest ≡ started ++ i ∷ rest
start-append [] i rest = refl
start-append (x ∷ started) i rest = ap (λ r. x ∷ r) (start-append started i rest)

push_room :
    (capacity : ℕ) (q : TurnQueue) (entry : PendingTurn)
    → outstanding q < q.max_outstanding_turns
    → Held capacity q
    → length (q.pending ++ entry ∷ []) + (if is_some q.active then 1 else 0) ≤ capacity
push_room capacity q entry free h =
    let limit = h.limit in let grown = length-append q.pending (entry ∷ []) in omega arith

release_room :
    (capacity i : ℕ) (q : TurnQueue)
    → q.active ≡ some i
    → outstanding q ≤ capacity
    → length q.pending + 0 ≤ capacity
release_room capacity i q a room = omega arith

idle_room :
    (capacity : ℕ) (entry : PendingTurn) (rest : List PendingTurn) (q : TurnQueue)
    → q.pending ≡ entry ∷ rest
    → q.active ≡ none
    → outstanding q ≤ capacity
    → length rest + 1 ≤ capacity
idle_room capacity entry rest q p a room =
    let here = subst (λ ps. length ps + (if is_some q.active then 1 else 0) ≤ capacity) p room in
    omega arith

Ascending-tail : (lo hi x : ℕ) (xs : List ℕ) → Ascending lo hi (x ∷ xs) → Ascending lo hi xs
unfolding Ascending
Ascending-tail lo hi x xs (le, r) = Ascending-lower lo (x + 1) hi xs (omega arith) r

-- A state before `drain`: no turn is active, or the queue is left alone.
drain_idle-Held :
    (capacity : ℕ) (ps : List PendingTurn) (q : TurnQueue)
    → q.pending ≡ ps
    → q.active ≡ none
    → Held capacity q
    → Held capacity (drain_idle ps q)
unfolding ids
drain_idle-Held capacity [] q p a h = h
drain_idle-Held capacity (entry ∷ rest) q p a h =
    let room = idle_room capacity entry rest q p a h.room in
    let order = subst (λ ps. Ascending 0 q.next_id (q.started ++ ids ps)) p h.order in
    if_cases (Held capacity) (is_aborted entry.signal q.aborted_signals)
      (λ stale. record {
        limit = h.limit;
        room =
            subst (λ o. length rest + (if is_some o then 1 else 0) ≤ capacity) (sym a)
              (omega arith);
        order =
            Ascending-drop 0 q.next_id q.started (ids (entry ∷ rest)) (ids rest)
              (λ lo r. Ascending-tail lo q.next_id entry.id (ids rest) r) order;
      })
      (λ live. record {
        limit = h.limit;
        room = omega arith;
        order =
            subst (Ascending 0 q.next_id) (sym (start-append q.started entry.id (ids rest))) order;
      })

drain_when-Held :
    (capacity : ℕ) (o : Option ℕ) (q : TurnQueue)
    → q.active ≡ o
    → Held capacity q
    → Held capacity (drain_when o q)
drain_when-Held capacity none q a h = drain_idle-Held capacity q.pending q refl a h
drain_when-Held capacity (some i) q a h = h

drain-Held : (capacity : ℕ) (q : TurnQueue) → Held capacity q → Held capacity (drain q)
unfolding drain
drain-Held capacity q h = drain_when-Held capacity q.active q refl h

withdraw-Held :
    (capacity i : ℕ) (q : TurnQueue)
    → is_pending i q.pending ≡ true
    → Held capacity q
    → Held capacity (withdraw i q)
withdraw-Held capacity i q pending h =
    let shorter = length-remove i q.pending pending in
    let room = h.room in
    record {
      limit = h.limit;
      room = omega arith;
      order =
          Ascending-drop 0 q.next_id q.started (ids q.pending) (ids (remove i q.pending))
            (λ lo r. ids-remove i q.pending lo q.next_id r) h.order;
    }

push_turn-Held :
    (capacity : ℕ) (signal : Option ℕ) (q : TurnQueue)
    → outstanding q < q.max_outstanding_turns
    → Held capacity q
    → Held capacity (push_turn signal q)
push_turn-Held capacity signal q free h = record {
  limit = h.limit;
  room = push_room capacity q record { id = q.next_id; signal = signal } free h;
  order =
      subst (Ascending 0 (q.next_id + 1))
        (sym (ids-push q.started q.pending record { id = q.next_id; signal = signal }))
        (Ascending-snoc 0 q.next_id (q.started ++ ids q.pending) h.order);
}

Held-Preserved : (capacity : ℕ) → Preserved (Held capacity)
Held-Preserved capacity = record {
  drains = drain-Held capacity;
  withdraws = withdraw-Held capacity;
  releases = λ i how q a h. record {
    limit = h.limit;
    room = release_room capacity i q a h.room;
    order = h.order;
  };
  pushes = push_turn-Held capacity;
  refuses = λ q h. record {
    limit = h.limit;
    room = h.room;
    order = Ascending-upper 0 q.next_id (q.started ++ ids q.pending) h.order;
  };
  marks = λ s q h. record { limit = h.limit; room = h.room; order = h.order };
  takes = λ q h. record { limit = h.limit; room = h.room; order = h.order };
}

-- After any events, a queue that was created with its capacity holds no more turns, active or
-- pending, than that; and the promises of the turns that were started and then of those that are
-- pending are in the order in which `schedule` returned them, with none twice.
pub turns-ordered :
    (capacity : ℕ) (q : TurnQueue) (es : List Event)
    → new_queue capacity ≡ some q
    → (outstanding (steps es q) ≤ capacity)
      × Ascending 0 (steps es q).next_id ((steps es q).started ++ ids (steps es q).pending)
unfolding new_queue Ascending ids
turns-ordered capacity q es made =
    let fresh =
      subst (Held capacity) (if_some (ltb 0 capacity) made).1
        (record { limit = refl; room = omega arith; order = omega arith }) in
    let held = steps-P (Held capacity) (Held-Preserved capacity) es q fresh in
    (held.room, held.order)
