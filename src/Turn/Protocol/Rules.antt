-- ===== src/Turn/Protocol/Rules.antt =====
-- Rules for methods of a turn over the response's state and the events delivered.
use threadwire.Prelude.{ℕ, ◌≡◌, refl, ap, ◌∙◌, Bool, true, false, if◌then◌else◌, List}
use threadwire.Domain.Errors.{Failure, Result, ok, err}
use threadwire.Domain.Runtime.{RuntimeLease}
use threadwire.Exec.{pure, raise, lift, gets, ◌>>=◌, attempt, settled, continue}
use threadwire.Exec.Rules.{Ends, Triple}
use threadwire.Turn.{Turn, Act, TurnPort, ResponseDeliveryState, ResponseEvent, fail_closed, ask}

abbrev pub Condition : Type 1
Condition = ResponseDeliveryState → List ResponseEvent → Type 0

abbrev pub On : Condition → Turn → Type 0
On P t = P t.response t.delivered

-- A method that changes neither, whether it returns or throws.
pub record Quiet {A : Type 0} (m : Act A) : Type 0 where
  pub response : (t : Turn) → (m t).0.response ≡ t.response
  pub delivered : (t : Turn) → (m t).0.delivered ≡ t.delivered

abbrev pub Same : Turn → Turn → Type 0
Same t u = (u.response ≡ t.response) × (u.delivered ≡ t.delivered)

module _ {A : Type 0} where
  pub Quiet-pure : (a : A) → Quiet (pure a)
  unfolding pure
  Quiet-pure a = record { response = λ t. refl; delivered = λ t. refl }

  pub Quiet-raise : (e : Failure) → Quiet (raise {A = A} e)
  unfolding raise
  Quiet-raise e = record { response = λ t. refl; delivered = λ t. refl }

  pub Quiet-lift : (r : Result A) → Quiet (lift r)
  unfolding lift
  Quiet-lift r = record { response = λ t. refl; delivered = λ t. refl }

  pub Quiet-gets : (f : Turn → A) → Quiet (gets f)
  unfolding gets
  Quiet-gets f = record { response = λ t. refl; delivered = λ t. refl }

  pub Quiet-fail_closed : (lease : RuntimeLease) → Quiet (fail_closed lease {A = A})
  unfolding fail_closed ◌>>=◌
  Quiet-fail_closed lease = record { response = λ t. refl; delivered = λ t. refl }

  pub Quiet-ask : (port : TurnPort) (answer : ℕ → Result A) → Quiet (ask port answer)
  unfolding ask
  Quiet-ask port answer = record { response = λ t. refl; delivered = λ t. refl }

  settled-state : (r : Turn × Result A) → (settled r).0 ≡ r.0
  settled-state (t, r) = refl

  pub Quiet-attempt : (m : Act A) → Quiet m → Quiet (attempt m)
  unfolding attempt
  Quiet-attempt m q = record {
    response = λ t. ap (λ t. t.response) (settled-state (m t)) ∙ q.response t;
    delivered = λ t. ap (λ t. t.delivered) (settled-state (m t)) ∙ q.delivered t;
  }

  pub Quiet-if : (b : Bool) (m n : Act A) → Quiet m → Quiet n → Quiet (if b then m else n)
  Quiet-if true m n hm hn = hm
  Quiet-if false m n hm hn = hn

module _ {A B : Type 0} where
  continue-Same :
      (t : Turn) (r : Turn × Result A) (f : A → Act B)
      → Same t r.0
      → ((a : A) → Quiet (f a))
      → Same t (continue r f).0
  continue-Same t (u, ok a) f (p, q) k = ((k a).response u ∙ p, (k a).delivered u ∙ q)
  continue-Same t (u, err e) f same k = same

  pub Quiet-bind : (m : Act A) (f : A → Act B) → Quiet m → ((a : A) → Quiet (f a)) → Quiet (m >>= f)
  unfolding ◌>>=◌
  Quiet-bind m f h k = record {
    response = λ t. (continue-Same t (m t) f (h.response t, h.delivered t) k).0;
    delivered = λ t. (continue-Same t (m t) f (h.response t, h.delivered t) k).1;
  }

pub ruleset quiet_rules = (
  Quiet-pure, Quiet-raise, Quiet-lift, Quiet-gets, Quiet-fail_closed, Quiet-ask, Quiet-attempt,
  Quiet-if, Quiet-bind,
)

-- A condition before a quiet method holds after it.
module _ {A : Type 0} (P : Condition) (E : Condition) where
  Quiet-Ends :
      (t : Turn) (r : Turn × Result A)
      → Same t r.0
      → ((s : ResponseDeliveryState) (l : List ResponseEvent) → P s l → E s l)
      → On P t
      → Ends (λ a. On P) (λ e. On E) r
  Quiet-Ends t (u, ok a) (p, q) weaken h = rw (p, q) h
  Quiet-Ends t (u, err e) (p, q) weaken h = rw (p, q) (weaken _ _ h)

  pub Quiet-Triple :
      (m : Act A)
      → Quiet m
      → ((s : ResponseDeliveryState) (l : List ResponseEvent) → P s l → E s l)
      → Triple (On P) m (λ a. On P) (λ e. On E)
  Quiet-Triple m q weaken = record {
    at = λ t h. Quiet-Ends t (m t) (q.response t, q.delivered t) weaken h;
  }
