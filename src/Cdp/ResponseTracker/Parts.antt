-- ===== src/Cdp/ResponseTracker/Parts.antt =====
-- What stays true of a tracker, and the parts of its calls that keep it.
use threadwire.Prelude.{
  ℕ, ◌+◌, ◌≤◌, ◌≡◌, refl, Bool, true, false, ◌||◌, Option, none, some, List, [], ◌∷◌, ◌++◌, Text,
  length, is_some, arith, if_cases, Bool-cases, inl, inr,
}
use threadwire.Response.Consumer.{Consumer, Outcome}
use threadwire.Cdp.ResponseTracker.{
  Lifecycle, pending, streaming, completed, failed, StreamFailure, incomplete, ResponseTracker,
  new_response_tracker, is_completed, is_failed, is_pending, is_streaming, fail, complete,
  after_push, after_finish, clear_live, max_pending_live_chunks, max_pending_live_base64_chars,
  failure_of,
}

abbrev pub total_chars : List Text → ℕ
total_chars [] = 0
total_chars (c ∷ cs) = length c + total_chars cs

pub total_chars-snoc :
    (cs : List Text) (c : Text) → total_chars (cs ++ c ∷ []) ≡ total_chars cs + length c
total_chars-snoc [] c = omega arith
total_chars-snoc (d ∷ cs) c = let h = total_chars-snoc cs c in omega arith

-- What is true of a tracker between two calls.
pub record Inv {D : Type 0} (t : ResponseTracker D) : Type 0 where
  pub failure_iff : is_some t.failure ≡ is_failed t.lifecycle
  pub activated_open :
      t.activated ≡ true → (is_failed t.lifecycle || is_pending t.lifecycle) ≡ false
  pub waiting : t.activation_pending ≡ true → is_pending t.lifecycle ≡ true
  pub promised :
      t.promise_outstanding ≡ true → (is_pending t.lifecycle || is_failed t.lifecycle) ≡ true
  pub chunks_bounded : length t.live_data ≤ max_pending_live_chunks
  pub chars_exact : t.live_chars ≡ total_chars t.live_data
  pub chars_bounded : t.live_chars ≤ max_pending_live_base64_chars

pub streaming-pending : (l : Lifecycle) → is_streaming l ≡ true → is_pending l ≡ true → ⊥
streaming-pending pending p q = cc
streaming-pending streaming p q = cc
streaming-pending completed p q = cc
streaming-pending failed p q = cc

pub streaming-pending_failed :
    (l : Lifecycle) → is_streaming l ≡ true → (is_pending l || is_failed l) ≡ true → ⊥
streaming-pending_failed pending p q = cc
streaming-pending_failed streaming p q = cc
streaming-pending_failed completed p q = cc
streaming-pending_failed failed p q = cc

module _ {D : Type 0} where
  pub new-Inv : (available : Bool) (c : Consumer D) → Inv (new_response_tracker available c)
  new-Inv available c = record {
    failure_iff = refl;
    activated_open = λ p. cc;
    waiting = λ p. cc;
    promised = λ p. cc;
    chunks_bounded = omega arith;
    chars_exact = refl;
    chars_bounded = omega arith;
  }

  -- The fields that `fail` leaves need not be consistent before it.
  pub fail-Inv :
      (kind : StreamFailure) (t : ResponseTracker D)
      → (t.disposed || is_completed t.lifecycle) ≡ false
      → Inv (fail kind t)
  unfolding fail
  fail-Inv kind t still =
      if_cases Inv (t.disposed || is_completed t.lifecycle) (λ h. cc)
        (λ h. record {
          failure_iff = refl;
          activated_open = λ p. cc;
          waiting = λ p. cc;
          promised = λ p. refl;
          chunks_bounded = omega arith;
          chars_exact = refl;
          chars_bounded = omega arith;
        })

  pub fail-keeps : (kind : StreamFailure) (t : ResponseTracker D) → Inv t → Inv (fail kind t)
  unfolding fail
  fail-keeps kind t inv = elim (Bool-cases (t.disposed || is_completed t.lifecycle)) [
    | inl closed ↦ rw closed inv
    | inr still ↦ fail-Inv kind t still
  ]

  pub with_consumer-Inv :
      (o : Option (Consumer D)) (t : ResponseTracker D) → Inv t → Inv (record t { consumer = o })
  with_consumer-Inv o t inv = record {
    failure_iff = inv.failure_iff;
    activated_open = inv.activated_open;
    waiting = inv.waiting;
    promised = inv.promised;
    chunks_bounded = inv.chunks_bounded;
    chars_exact = inv.chars_exact;
    chars_bounded = inv.chars_bounded;
  }

  pub streaming-waits :
      (t : ResponseTracker D)
      → is_streaming t.lifecycle ≡ true
      → Inv t
      → t.activation_pending ≡ true
      → ⊥
  streaming-waits t live inv p = streaming-pending t.lifecycle live (inv.waiting p)

  pub streaming-promises :
      (t : ResponseTracker D)
      → is_streaming t.lifecycle ≡ true
      → Inv t
      → t.promise_outstanding ≡ true
      → ⊥
  streaming-promises t live inv p = streaming-pending_failed t.lifecycle live (inv.promised p)

  -- A stream completes only from STREAMING.
  pub complete-Inv :
      (t : ResponseTracker D) → is_streaming t.lifecycle ≡ true → Inv t → Inv (complete t)
  complete-Inv t live inv = record {
    failure_iff = refl;
    activated_open = λ p. refl;
    waiting = λ p. absurd (streaming-waits t live inv p);
    promised = λ p. absurd (streaming-promises t live inv p);
    chunks_bounded = inv.chunks_bounded;
    chars_exact = inv.chars_exact;
    chars_bounded = inv.chars_bounded;
  }

  pub clear_live-Inv : (t : ResponseTracker D) → Inv t → Inv (clear_live t)
  clear_live-Inv t inv = record {
    failure_iff = inv.failure_iff;
    activated_open = inv.activated_open;
    waiting = inv.waiting;
    promised = inv.promised;
    chunks_bounded = omega arith;
    chars_exact = refl;
    chars_bounded = omega arith;
  }

  pub after_push-Inv :
      (r : Outcome D) (t : ResponseTracker D)
      → is_streaming t.lifecycle ≡ true
      → Inv t
      → Inv (after_push r t)
  after_push-Inv (c, none) t live inv =
      let keeps = with_consumer-Inv (some c) t inv in
      if_cases Inv c.completed
        (λ done.
          complete-Inv (clear_live (record t { consumer = some c })) live
            (clear_live-Inv (record t { consumer = some c }) keeps))
        (λ going. keeps)
  after_push-Inv (c, some f) t live inv =
      fail-keeps (failure_of f) (record t { consumer = some c }) (with_consumer-Inv (some c) t inv)

  pub after_finish-Inv :
      (r : Outcome D) (t : ResponseTracker D)
      → is_streaming t.lifecycle ≡ true
      → Inv t
      → Inv (after_finish r t)
  after_finish-Inv (c, none) t live inv =
      let keeps = with_consumer-Inv (some c) t inv in
      if_cases Inv c.completed (λ done. complete-Inv (record t { consumer = some c }) live keeps)
        (λ going. fail-keeps incomplete (record t { consumer = some c }) keeps)
  after_finish-Inv (c, some f) t live inv =
      fail-keeps (failure_of f) (record t { consumer = some c }) (with_consumer-Inv (some c) t inv)
