-- ===== src/Turn/Closed/Completion.antt =====
-- The completion of a Project's turn throws only if the runtime has changed or is marked as
-- uncertain.
use threadwire.Prelude.{ℕ, ◌≡◌, refl, Bool, Bool-cases, inl, inr, Option, none, some, Text, text_eq}
use threadwire.Domain.Errors.{Result, ok, err, ErrorCode}
use threadwire.Domain.Runtime.{RuntimeLease}
use threadwire.Domain.Identity.{Url, create_conversation_locator}
use threadwire.Exec.{◌>>=◌}
use threadwire.Routing.Registry.{
  ThreadRegistry, ThreadRegistrationResult, ProvisionalThreadRegistrationResult, existing, reserved,
  has_locator,
}
use threadwire.Prelude.Dict.{has}
use threadwire.Routing.Scheduler.{mark_runtime_mutation_state_uncertain}
use threadwire.Turn.{TurnPort, project, fail_closed}
use threadwire.Turn.Completion.{
  Polling, wait, fail_turn, new_result, terminal_error, throw_terminal, on_registry,
  reserve_answered, register_answered, create_pending_project_result, roll_back,
  reserve_project_conversation, register_project_conversation, before_completed, register_fresh,
  refuse_known, registered, complete_result, awaits_response, complete_registered,
  complete_delivered, throw_undelivered, finish_delivery, complete_turn,
}
use threadwire.Turn.Closed.{Closed, Closed-bind, Closed-gets, Closed-if, closed_rules}
use threadwire.Turn.Closed.Delivery.{finalize-Closed}

module _ (lease : RuntimeLease) where
  pub wait-Closed : (p : Polling) → Closed lease (wait p)
  unfolding wait
  wait-Closed p = search closed_rules depth 14

  new_result-Closed : (h : Text) (c : Bool) → Closed lease (new_result h c)
  unfolding new_result
  new_result-Closed h c = record { at = λ t p. tt }

  pub fail_turn-Closed :
      {A : Type 0} (home : Text) (c : ErrorCode)
      → Closed lease (fail_turn {A = A} lease (project home) c)
  unfolding fail_turn
  fail_turn-Closed home c = search closed_rules

  on_registry-Closed :
      {A : Type 0} (f : ThreadRegistry → ThreadRegistry × A) → Closed lease (on_registry f)
  unfolding on_registry
  on_registry-Closed f = record { at = λ t p. tt }

  terminal_error-Closed : (port : TurnPort) → Closed lease (terminal_error port)
  unfolding terminal_error
  terminal_error-Closed port = search closed_rules

  throw_terminal-Closed :
      (home : Text) (o : Option ErrorCode) → Closed lease (throw_terminal lease (project home) o)
  unfolding throw_terminal
  throw_terminal-Closed home none = search closed_rules
  throw_terminal-Closed home (some c) = fail_turn-Closed home c

  reserve_answered-Closed :
      (r : Result ProvisionalThreadRegistrationResult) → Closed lease (reserve_answered lease r)
  unfolding reserve_answered
  reserve_answered-Closed (ok (reserved h x)) = search closed_rules
  reserve_answered-Closed (ok (existing h)) = search closed_rules
  reserve_answered-Closed (err e) = search closed_rules

  register_answered-Closed :
      (r : Result ThreadRegistrationResult) → Closed lease (register_answered lease r)
  unfolding register_answered
  register_answered-Closed (ok r) = search closed_rules depth 14
  register_answered-Closed (err e) = search closed_rules

  pending-Closed : (h : Text) (x : ℕ) → Closed lease (create_pending_project_result lease h x)
  unfolding create_pending_project_result
  pending-Closed h x = search (closed_rules, new_result-Closed) depth 14

  roll_back-Closed :
      (o : Option (Option ProvisionalThreadRegistrationResult)) → Closed lease (roll_back o)
  unfolding roll_back
  roll_back-Closed (some (some (reserved h x))) = search (closed_rules, on_registry-Closed) depth 14
  roll_back-Closed (some (some (existing h))) = search closed_rules
  roll_back-Closed (some none) = search closed_rules
  roll_back-Closed none = search closed_rules

  throw_undelivered-Closed :
      (home : Text) (o : Option (Option ProvisionalThreadRegistrationResult)) (c : Option ErrorCode)
      → Closed lease (throw_undelivered lease (project home) o c)
  unfolding throw_undelivered
  throw_undelivered-Closed home o none = search closed_rules
  throw_undelivered-Closed home o (some c) =
      search (closed_rules, roll_back-Closed, fail_turn-Closed) depth 14

module _ (parse_url : Text → Option Url) (factory : ℕ → Text) (port : TurnPort)
    (lease : RuntimeLease) where
  reserve-Closed :
      (l : Text) → Closed lease (reserve_project_conversation parse_url factory port lease l)
  unfolding reserve_project_conversation
  reserve-Closed l = search (closed_rules, on_registry-Closed, reserve_answered-Closed) depth 14

  register-Closed :
      (l : Text) → Closed lease (register_project_conversation parse_url factory port lease l)
  unfolding register_project_conversation
  register-Closed l = search (closed_rules, on_registry-Closed, register_answered-Closed) depth 14

  before_completed-Closed :
      (home l : Text)
      → Closed lease (before_completed parse_url factory port lease (project home) l)
  unfolding before_completed
  before_completed-Closed home l = search (closed_rules, reserve-Closed) depth 14

  registered-Closed :
      (o : Option ThreadRegistrationResult) (l : Text)
      → Closed lease (registered parse_url factory port lease o l)
  unfolding registered
  registered-Closed (some r) l = search closed_rules
  registered-Closed none l = register-Closed l

  complete_result-Closed :
      (home l : Text) (o : Option ThreadRegistrationResult)
      → Closed lease (complete_result parse_url factory port lease (project home) l o)
  unfolding complete_result
  complete_result-Closed home l o =
      search (closed_rules, registered-Closed, new_result-Closed) depth 14

  complete_delivered-Closed :
      (home l : Text) (o : Option ThreadRegistrationResult)
      (w : Option (Option ProvisionalThreadRegistrationResult))
      → Closed lease (complete_delivered parse_url factory port lease (project home) l o w)
  unfolding complete_delivered
  complete_delivered-Closed home l o (some (some (reserved h x))) =
      search (closed_rules, pending-Closed) depth 14
  complete_delivered-Closed home l o (some (some (existing h))) = search closed_rules
  complete_delivered-Closed home l o (some none) = complete_result-Closed home l o
  complete_delivered-Closed home l o none = complete_result-Closed home l o

  finish_delivery-Closed :
      (home : Text) (p : Polling) (l : Text) (o : Option ThreadRegistrationResult)
      (w : Bool × Option (Option ProvisionalThreadRegistrationResult))
      → Closed lease (finish_delivery parse_url factory port lease (project home) p l o w)
  unfolding finish_delivery
  finish_delivery-Closed home p l o (b, w) =
      search
        (
          closed_rules, terminal_error-Closed, throw_undelivered-Closed, complete_delivered-Closed,
          wait-Closed,
        )
        depth 14

  register_fresh-Closed :
      (home l : Text) → Closed lease (register_fresh parse_url factory port lease (project home) l)
  unfolding register_fresh
  register_fresh-Closed home l = search closed_rules

  -- The normal form of a locator, where the variable holds one.
  abbrev pub Located : Option Text → Type 0
  Located none = Unit {0}
  Located (some l) = (n : Text) × (create_conversation_locator parse_url l ≡ ok n)

  refuse_known-Closed :
      (home l : Text)
      → Located (some l)
      → Closed lease (refuse_known parse_url factory port lease (project home) l)
  unfolding refuse_known has_locator ◌>>=◌ fail_closed mark_runtime_mutation_state_uncertain
  refuse_known-Closed home l (n, normal) = record {
    at = λ t p. elim (Bool-cases (has t.registry.locator_to_handle n)) [
      | inl known ↦ rw (normal, known) (inr refl)
      | inr free ↦ rw (normal, free) tt
    ];
  }

  complete_registered-Closed :
      (home : Text) (p : Polling) (l : Text) (o : Option ThreadRegistrationResult)
      → Closed lease (complete_registered parse_url factory port lease (project home) p l o)
  unfolding complete_registered
  complete_registered-Closed home p l o =
      search
        (
          closed_rules, terminal_error-Closed, throw_terminal-Closed, complete_result-Closed,
          finish_delivery-Closed, finalize-Closed, before_completed-Closed,
        )
        depth 14

  pub complete_turn-Closed :
      (home : Text) (p : Polling) (l : Text)
      → Located (some l)
      → Closed lease (complete_turn parse_url factory port lease (project home) p l)
  unfolding complete_turn
  complete_turn-Closed home p l located = Closed-bind lease _ _ (Closed-gets lease _) λ r.
      Closed-if lease (awaits_response parse_url factory port lease r) _ _
        (λ h. wait-Closed lease p)
        λ h. Closed-bind lease _ _ (register_fresh-Closed home l) λ o.
          Closed-bind lease _ _ (refuse_known-Closed home l located)
            λ u. complete_registered-Closed home p l o
