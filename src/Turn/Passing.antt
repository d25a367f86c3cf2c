-- ===== src/Turn/Passing.antt =====
-- The parts of a round on an existing thread, which let time pass.
use threadwire.Prelude.{
  ℕ, ◌+◌, ◌<◌, ◌≡◌, ◌⊎◌, ap, Bool, true, false, Option, none, some, Text, leb, arith,
}
use threadwire.Domain.Errors.{Failure, Result, ok, err, ErrorCode, operation_aborted}
use threadwire.Domain.Runtime.{RuntimeLease}
use threadwire.Domain.Identity.{Url}
use threadwire.Exec.{pure, raise, throws, gets, attempt, when, ◌>>=◌}
use threadwire.Exec.Rules.{Triple, Triple-bind, Triple-if}
use threadwire.Cdp.TurnTracker.{Snapshot, active}
use threadwire.Turn.{
  Turn, TurnPort, TurnOptions, TurnTarget, thread, fresh, project, fail_closed, now, ask,
  is_generation_changed,
}
use threadwire.Turn.Delivery.{update_response_delivery, apply_response_deadline}
use threadwire.Turn.Completion.{Polling, Poll, again, done, wait, new_result, fail_turn}
use threadwire.Turn.Outcome.{observed_time, read_answered, read_turn_observation}

-- A turn that throws is decided.
abbrev pub Thrown : Failure → Turn → Type 0
Thrown e t = Unit {0}

pub fail-Thrown :
    {A : Type 0} {P : Turn → Type 0} {Q : A → Turn → Type 0} (lease : RuntimeLease)
    (target : TurnTarget) (c : ErrorCode)
    → Triple P (fail_turn {A = A} lease target c) Q Thrown
unfolding fail_turn fail_closed ◌>>=◌
fail-Thrown lease (project home) c = record { at = λ t p. tt }
fail-Thrown lease (thread handle) c = record { at = λ t p. tt }
fail-Thrown lease fresh c = record { at = λ t p. tt }

pub closed-Thrown :
    {A : Type 0} {P : Turn → Type 0} {Q : A → Turn → Type 0} (lease : RuntimeLease)
    → Triple P (fail_closed lease {A = A}) Q Thrown
unfolding fail_closed ◌>>=◌
closed-Thrown lease = record { at = λ t p. tt }

pub leb-false : (a b : ℕ) → leb a b ≡ false → b < a
leb-false a b p = ground arith

pub true-false : true ≡ false → ⊥
true-false p = cc

pub some-none : {A : Type 0} {a : A} → some a ≡ none → ⊥
some-none p = cc

pub result-Later :
    (n : ℕ) (h : Text) → Triple (λ t. n < t.tick) (new_result h false) (λ r t. n < t.tick) Thrown
unfolding new_result
result-Later n h = record { at = λ t later. later }

-- The turn has returned or thrown.
abbrev pub Decided : Turn × Result Poll → Type 0
Decided (t, ok (again q)) = ⊥
Decided (t, ok (done r)) = Unit {0}
Decided (t, err e) = Unit {0}

abbrev pub Later : ℕ → Turn → Type 0
Later n t = n < t.tick

module _ (port : TurnPort) (options : TurnOptions) where
  -- What a round at the tick `n` leaves to the next one.
  abbrev pub Goes : Polling → ℕ → Polling → Type 0
  Goes p n q =
      (q.fresh_locator ≡ none)
      × (q.committed_at ≡ p.committed_at)
      × (((port.clock n < options.write_observation_timeout_ms + p.committed_at)
            × (q.write_observed_at ≡ p.write_observed_at)
            × (q.previous_lifecycle ≡ p.previous_lifecycle))
          ⊎ ((q.previous_lifecycle ≡ some active)
              × (q.write_observed_at ≡ some (observed_time p active (port.clock n)))
              × (port.clock n
                  < options.write_settlement_timeout_ms + observed_time p active (port.clock n))))

  abbrev pub After : Polling → ℕ → Poll → Turn → Type 0
  After p n (again q) t = Later n t × Goes p n q
  After p n (done r) t = Unit {0}

  pub wait-After :
      (p q : Polling) (n : ℕ) → Goes p n q → Triple (Later n) (wait q) (After p n) Thrown
  unfolding wait ◌>>=◌
  wait-After p q n goes = record { at = λ t later. (omega arith, goes) }

pub gets-Later :
    {A : Type 0} (n : ℕ) (f : Turn → A) → Triple (Later n) (gets f) (λ a. Later n) Thrown
unfolding gets
gets-Later n f = record { at = λ t later. later }

pub cancel-Later :
    (n : ℕ) (b : Bool) → Triple (Later n) (when b (throws operation_aborted)) (λ u. Later n) Thrown
unfolding pure raise
cancel-Later n b =
    Triple-if b (λ p. record { at = λ t later. tt }) (λ p. record { at = λ t later. later })

module _ (port : TurnPort) where
  pub now-Later :
      (n : ℕ)
      → Triple (λ t. t.tick ≡ n) (now port) (λ time t. (time ≡ port.clock n) × Later n t) Thrown
  unfolding now ask
  now-Later n = record { at = λ t same. (ap port.clock same, omega arith) }

  pub asked-Later :
      (n : ℕ) → Triple (Later n) (attempt (ask port port.turn_observation)) (λ a. Later n) Thrown
  unfolding attempt ask
  asked-Later n = record { at = λ t later. omega arith }

module _ (parse_url : Text → Option Url) (factory : ℕ → Text) (port : TurnPort)
    (options : TurnOptions) (lease : RuntimeLease) where
  answered-Later :
      (n : ℕ) (a : Result Snapshot)
      → Triple
          (Later n)
          (read_answered parse_url factory port options lease a)
          (λ s. Later n)
          Thrown
  unfolding read_answered pure raise
  answered-Later n (ok s) = record { at = λ t later. later }
  answered-Later n (err e) =
      Triple-if (is_generation_changed e) (λ p. record { at = λ t later. tt })
        (λ p. closed-Thrown lease)

  pub read-Later :
      (n : ℕ)
      → Triple
          (Later n)
          (read_turn_observation parse_url factory port options lease)
          (λ s. Later n)
          Thrown
  unfolding read_turn_observation
  read-Later n = Triple-bind (λ a. Later n) (asked-Later port n) λ a. answered-Later n a

module _ (port : TurnPort) (options : TurnOptions) (lease : RuntimeLease)
    (silent : port.streaming ≡ false) where
  pub update-Later :
      (n : ℕ) (s : Snapshot) (c : Bool)
      → Triple (Later n) (update_response_delivery port options lease s c) (λ u. Later n) Thrown
  unfolding update_response_delivery pure
  update-Later n s c = rw silent (record { at = λ t later. later })

  pub deadline-Later :
      (n : ℕ) (c : Bool) (since time : ℕ)
      → Triple
          (Later n)
          (apply_response_deadline port options lease c since time)
          (λ u. Later n)
          Thrown
  unfolding apply_response_deadline pure gets ◌>>=◌
  deadline-Later n c since time = rw silent (record { at = λ t later. later })
