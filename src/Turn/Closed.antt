-- ===== src/Turn/Closed.antt =====
-- Rules for methods of a turn that throw only if the runtime has changed or is marked as uncertain.
pub mod Delivery
pub mod Completion
pub mod Outcome
use threadwire.Prelude.{
  ℕ, zero, suc, ◌≡◌, refl, Bool, true, false, not, Option, none, some, Text, if◌then◌else◌, ◌⊎◌,
  inl, inr, arith,
}
use threadwire.Domain.Errors.{
  Failure, Result, ok, err, threadwire_error, runtime_generation_changed,
}
use threadwire.Domain.Runtime.{RuntimeLease}
use threadwire.Exec.{Exec, pure, raise, gets, modify, ◌>>=◌, attempt, settled}
use threadwire.Exec.Rules.{Ends, Triple, Triple-bind, Triple-if}
use threadwire.Routing.Scheduler.{mark_runtime_mutation_state_uncertain}
use threadwire.Turn.{
  Turn, Act, TurnPort, TurnOptions, fail_closed, mark_uncertain, is_generation_changed, ask,
}
use threadwire.Turn.Delivery.{discard_failed, discard_response, notify}

pub generation_changed :
    (e : Failure) → is_generation_changed e ≡ true → e ≡ threadwire_error runtime_generation_changed
unfolding is_generation_changed
generation_changed (threadwire_error runtime_generation_changed) p = refl
generation_changed _ p = cc

module _ (lease : RuntimeLease) where
  -- The runtime has changed, or it is marked as uncertain.
  abbrev pub Closes : Failure → Turn → Type 0
  Closes e t =
      (e ≡ threadwire_error runtime_generation_changed) ⊎ (t.scheduler.uncertain_lease ≡ some lease)

  abbrev pub Closed : {A : Type 0} → Act A → Type 0
  Closed m = Triple (λ t. Unit {0}) m (λ a t. Unit {0}) Closes

  -- A method that does not throw.
  module _ {A : Type 0} where
    pub Closed-pure : (a : A) → Closed (pure a)
    unfolding pure
    Closed-pure a = record { at = λ t p. tt }

    pub Closed-gets : (f : Turn → A) → Closed (gets f)
    unfolding gets
    Closed-gets f = record { at = λ t p. tt }

    settled-Ends : (r : Turn × Result A) → Ends (λ a t. Unit {0}) Closes (settled r)
    settled-Ends (t, r) = tt

    pub Closed-attempt : (m : Act A) → Closed (attempt m)
    unfolding attempt
    Closed-attempt m = record { at = λ t p. settled-Ends (m t) }

    pub Closed-fail_closed : Closed (fail_closed lease {A = A})
    unfolding fail_closed ◌>>=◌ mark_runtime_mutation_state_uncertain
    Closed-fail_closed = record { at = λ t p. inr refl }

    pub Closed-raise : (e : Failure) → is_generation_changed e ≡ true → Closed (raise {A = A} e)
    unfolding raise
    Closed-raise e p = record { at = λ t q. inl (generation_changed e p) }

    pub Closed-if :
        (b : Bool) (m n : Act A)
        → (b ≡ true → Closed m)
        → (b ≡ false → Closed n)
        → Closed (if b then m else n)
    Closed-if b m n hm hn = Triple-if b hm hn

  pub Closed-modify : (f : Turn → Turn) → Closed (modify f)
  unfolding modify
  Closed-modify f = record { at = λ t p. tt }

  pub Closed-bind :
      {A B : Type 0} (m : Act A) (f : A → Act B)
      → Closed m
      → ((a : A) → Closed (f a))
      → Closed (m >>= f)
  Closed-bind m f h k = Triple-bind (λ a t. Unit {0}) h k

  pub ruleset closed_rules = (
    Closed-pure, Closed-gets, Closed-modify, Closed-attempt, Closed-fail_closed, Closed-raise,
    Closed-if, Closed-bind,
  )
