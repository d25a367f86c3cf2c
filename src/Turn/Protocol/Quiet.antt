-- ===== src/Turn/Protocol/Quiet.antt =====
-- The methods of a turn that neither deliver an event nor change the state of the response.
pub mod Round
pub mod Submission
use threadwire.Prelude.{ℕ, ◌≡◌, refl, Bool, true, false, Option, none, some, Text}
use threadwire.Domain.Errors.{Failure, Result, ok, err, ErrorCode}
use threadwire.Domain.Runtime.{RuntimeLease}
use threadwire.Domain.Identity.{Url}
use threadwire.Exec.{◌>>=◌}
use threadwire.Routing.Registry.{
  ThreadRegistry, ThreadRegistrationResult, ProvisionalThreadRegistrationResult, existing, reserved,
}
use threadwire.Cdp.TurnTracker.{Snapshot, WriteLifecycle, active, finished, write_failed}
use threadwire.Turn.{
  Turn, Act, TurnPort, TurnOptions, TurnTarget, thread, fresh, project, Race, ends, deadline,
  with_timeout, settle_race, throw_if_aborted, now,
}
use threadwire.Turn.Completion.{
  Polling, Poll, wait, fail_turn, new_result, terminal_error, throw_terminal, on_registry,
  reserve_answered, register_answered, create_pending_project_result, roll_back, throw_undelivered,
  reserve_project_conversation, register_project_conversation, before_completed, register_fresh,
  refuse_known, registered, complete_result, complete_delivered,
}
use threadwire.Turn.Outcome.{
  read_answered, read_turn_observation, route_answered, route_revalidated, throw_if_cancelled,
  conversation_not_created,
}
use threadwire.Turn.Submission.{
  rethrow_pre_commit, pre_commit, resolve_expected_route, composer_node, rethrow_post_commit,
  target_node, prepare, refuse_write, assert_no_observed_pre_submit_write, inserted, insert,
  project_sent, sent, send,
}
use threadwire.Turn.Protocol.Rules.{Quiet, quiet_rules}

pub Quiet-settle_race :
    {A : Type 0} (port : TurnPort) (w : Bool) (r : Race A) → Quiet (settle_race port w r)
unfolding settle_race
Quiet-settle_race port w (ends r) = record { response = λ t. refl; delivered = λ t. refl }
Quiet-settle_race port w deadline = record { response = λ t. refl; delivered = λ t. refl }

pub Quiet-with_timeout :
    {A : Type 0} (port : TurnPort) (w : Bool) (f : ℕ → Race A) → Quiet (with_timeout port w f)
unfolding with_timeout
Quiet-with_timeout port w f = search (quiet_rules, Quiet-settle_race) depth 14

pub Quiet-throw_if_aborted : (port : TurnPort) → Quiet (throw_if_aborted port)
unfolding throw_if_aborted
Quiet-throw_if_aborted port = record { response = λ t. refl; delivered = λ t. refl }

pub Quiet-now : (port : TurnPort) → Quiet (now port)
unfolding now
Quiet-now port = search quiet_rules

pub Quiet-wait : (p : Polling) → Quiet (wait p)
unfolding wait ◌>>=◌
Quiet-wait p = record { response = λ t. refl; delivered = λ t. refl }

pub Quiet-new_result : (h : Text) (c : Bool) → Quiet (new_result h c)
unfolding new_result
Quiet-new_result h c = record { response = λ t. refl; delivered = λ t. refl }

pub Quiet-fail_turn :
    {A : Type 0} (lease : RuntimeLease) (target : TurnTarget) (c : ErrorCode)
    → Quiet (fail_turn {A = A} lease target c)
unfolding fail_turn
Quiet-fail_turn lease target c = search quiet_rules

Quiet-on_registry : {A : Type 0} (f : ThreadRegistry → ThreadRegistry × A) → Quiet (on_registry f)
unfolding on_registry
Quiet-on_registry f = record { response = λ t. refl; delivered = λ t. refl }

pub Quiet-terminal_error : (port : TurnPort) → Quiet (terminal_error port)
unfolding terminal_error
Quiet-terminal_error port = search quiet_rules

pub Quiet-throw_terminal :
    (lease : RuntimeLease) (target : TurnTarget) (o : Option ErrorCode)
    → Quiet (throw_terminal lease target o)
unfolding throw_terminal
Quiet-throw_terminal lease target none = search quiet_rules
Quiet-throw_terminal lease target (some c) = Quiet-fail_turn lease target c

module _ (lease : RuntimeLease) where
  reserve_answered-Quiet :
      (r : Result ProvisionalThreadRegistrationResult) → Quiet (reserve_answered lease r)
  unfolding reserve_answered
  reserve_answered-Quiet (ok (reserved h x)) = search quiet_rules
  reserve_answered-Quiet (ok (existing h)) = search quiet_rules
  reserve_answered-Quiet (err e) = search quiet_rules

  register_answered-Quiet :
      (r : Result ThreadRegistrationResult) → Quiet (register_answered lease r)
  unfolding register_answered
  register_answered-Quiet (ok r) = search quiet_rules
  register_answered-Quiet (err e) = search quiet_rules

  pub pending-Quiet : (h : Text) (x : ℕ) → Quiet (create_pending_project_result lease h x)
  unfolding create_pending_project_result ◌>>=◌ new_result
  pending-Quiet h x = record { response = λ t. refl; delivered = λ t. refl }

pub Quiet-roll_back :
    (o : Option (Option ProvisionalThreadRegistrationResult)) → Quiet (roll_back o)
unfolding roll_back
Quiet-roll_back (some (some (reserved h x))) = search (quiet_rules, Quiet-on_registry) depth 14
Quiet-roll_back (some (some (existing h))) = search quiet_rules
Quiet-roll_back (some none) = search quiet_rules
Quiet-roll_back none = search quiet_rules

pub Quiet-throw_undelivered :
    (lease : RuntimeLease) (target : TurnTarget)
    (o : Option (Option ProvisionalThreadRegistrationResult)) (c : Option ErrorCode)
    → Quiet (throw_undelivered lease target o c)
unfolding throw_undelivered
Quiet-throw_undelivered lease target o none = search quiet_rules
Quiet-throw_undelivered lease target o (some c) =
    search (quiet_rules, Quiet-roll_back, Quiet-fail_turn) depth 14

module _ (parse_url : Text → Option Url) (factory : ℕ → Text) (port : TurnPort)
    (lease : RuntimeLease) where
  reserve-Quiet : (l : Text) → Quiet (reserve_project_conversation parse_url factory port lease l)
  unfolding reserve_project_conversation
  reserve-Quiet l = search (quiet_rules, Quiet-on_registry, reserve_answered-Quiet) depth 14

  register-Quiet : (l : Text) → Quiet (register_project_conversation parse_url factory port lease l)
  unfolding register_project_conversation
  register-Quiet l = search (quiet_rules, Quiet-on_registry, register_answered-Quiet) depth 14

  pub before_completed-Quiet :
      (target : TurnTarget) (l : Text)
      → Quiet (before_completed parse_url factory port lease target l)
  unfolding before_completed
  before_completed-Quiet (project home) l = search (quiet_rules, reserve-Quiet) depth 14
  before_completed-Quiet (thread h) l = search quiet_rules
  before_completed-Quiet fresh l = search quiet_rules

  pub registered-Quiet :
      (o : Option ThreadRegistrationResult) (l : Text)
      → Quiet (registered parse_url factory port lease o l)
  unfolding registered
  registered-Quiet (some r) l = search quiet_rules
  registered-Quiet none l = register-Quiet l

  pub complete_result-Quiet :
      (target : TurnTarget) (l : Text) (o : Option ThreadRegistrationResult)
      → Quiet (complete_result parse_url factory port lease target l o)
  unfolding complete_result
  complete_result-Quiet target l o =
      search (quiet_rules, registered-Quiet, Quiet-new_result) depth 14

  pub complete_delivered-Quiet :
      (target : TurnTarget) (l : Text) (o : Option ThreadRegistrationResult)
      (w : Option (Option ProvisionalThreadRegistrationResult))
      → Quiet (complete_delivered parse_url factory port lease target l o w)
  unfolding complete_delivered
  complete_delivered-Quiet target l o (some (some (reserved h x))) =
      search (quiet_rules, pending-Quiet) depth 14
  complete_delivered-Quiet target l o (some (some (existing h))) = search quiet_rules
  complete_delivered-Quiet target l o (some none) = complete_result-Quiet target l o
  complete_delivered-Quiet target l o none = complete_result-Quiet target l o

  pub register_fresh-Quiet :
      (target : TurnTarget) (l : Text)
      → Quiet (register_fresh parse_url factory port lease target l)
  unfolding register_fresh
  register_fresh-Quiet (project home) l = search quiet_rules
  register_fresh-Quiet (thread h) l = search (quiet_rules, Quiet-on_registry) depth 14
  register_fresh-Quiet fresh l = search (quiet_rules, Quiet-on_registry) depth 14

  pub refuse_known-Quiet :
      (target : TurnTarget) (l : Text) → Quiet (refuse_known parse_url factory port lease target l)
  unfolding refuse_known
  refuse_known-Quiet (project home) l = search quiet_rules depth 14
  refuse_known-Quiet (thread h) l = search quiet_rules
  refuse_known-Quiet fresh l = search quiet_rules
