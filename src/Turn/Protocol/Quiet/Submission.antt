-- ===== src/Turn/Protocol/Quiet/Submission.antt =====
-- Before the loop nothing is delivered.
use threadwire.Prelude.{ℕ, Bool, Option, none, some, Text}
use threadwire.Domain.Errors.{Failure, Result, ok, err}
use threadwire.Domain.Runtime.{RuntimeLease}
use threadwire.Domain.Identity.{Url}
use threadwire.Cdp.TurnTracker.{WriteLifecycle}
use threadwire.Turn.{TurnPort, TurnOptions, TurnTarget, thread, fresh, project}
use threadwire.Turn.Submission.{
  rethrow_pre_commit, pre_commit, resolve_expected_route, composer_node, rethrow_post_commit,
  target_node, prepare, refuse_write, assert_no_observed_pre_submit_write, inserted, insert,
  project_sent, sent, send, fill_composer,
}
use threadwire.Turn.Protocol.Rules.{Quiet, quiet_rules}
use threadwire.Turn.Protocol.Quiet.{Quiet-with_timeout, Quiet-throw_if_aborted}
use threadwire.Turn.Protocol.Quiet.Round.{read-Quiet}

rethrow-Quiet : {A : Type 0} (e : Failure) → Quiet (rethrow_pre_commit {A = A} e)
unfolding rethrow_pre_commit
rethrow-Quiet e = search quiet_rules

pub pre_commit-Quiet : {A : Type 0} (r : Result A) → Quiet (pre_commit r)
unfolding pre_commit
pre_commit-Quiet (ok a) = search quiet_rules
pre_commit-Quiet (err e) = rethrow-Quiet e

pub resolve-Quiet : (target : TurnTarget) → Quiet (resolve_expected_route target)
unfolding resolve_expected_route
resolve-Quiet (thread h) = search quiet_rules depth 14
resolve-Quiet fresh = search quiet_rules
resolve-Quiet (project home) = search quiet_rules

composer_node-Quiet : (o : Option ℕ) → Quiet (composer_node o)
unfolding composer_node
composer_node-Quiet none = search quiet_rules
composer_node-Quiet (some n) = search quiet_rules

post_commit-Quiet : (lease : RuntimeLease) (e : Failure) → Quiet (rethrow_post_commit lease e)
unfolding rethrow_post_commit
post_commit-Quiet lease e = search quiet_rules depth 14

target_node-Quiet : (port : TurnPort) (t : TurnTarget) (o : Option ℕ) → Quiet (target_node port t o)
unfolding target_node
target_node-Quiet port (thread h) o = search (quiet_rules, composer_node-Quiet) depth 14
target_node-Quiet port fresh o = search quiet_rules
target_node-Quiet port (project home) o = search (quiet_rules, composer_node-Quiet) depth 14

pub prepare-Quiet : (port : TurnPort) (t : TurnTarget) → Quiet (prepare port t)
unfolding prepare
prepare-Quiet port t = search (quiet_rules, Quiet-with_timeout, target_node-Quiet) depth 14

module _ (parse_url : Text → Option Url) (factory : ℕ → Text) (port : TurnPort)
    (options : TurnOptions) (lease : RuntimeLease) where
  refuse_write-Quiet :
      (b : Bool) (o : Option WriteLifecycle)
      → Quiet (refuse_write parse_url factory port options lease b o)
  unfolding refuse_write
  refuse_write-Quiet b none = search quiet_rules
  refuse_write-Quiet b (some l) = search quiet_rules

  pub no_write-Quiet :
      (b : Bool)
      → Quiet (assert_no_observed_pre_submit_write parse_url factory port options lease b)
  unfolding assert_no_observed_pre_submit_write
  no_write-Quiet b = search (quiet_rules, read-Quiet, refuse_write-Quiet) depth 14

  inserted-Quiet :
      {A : Type 0} (t : TurnTarget) (r : Result A)
      → Quiet (inserted parse_url factory port options lease t r)
  unfolding inserted
  inserted-Quiet t (ok a) = search quiet_rules
  inserted-Quiet t (err e) = search (quiet_rules, no_write-Quiet) depth 14

  pub insert-Quiet : (t : TurnTarget) → Quiet (insert parse_url factory port options lease t)
  unfolding insert
  insert-Quiet (project home) = search (quiet_rules, Quiet-with_timeout, inserted-Quiet) depth 14
  insert-Quiet (thread h) = search (quiet_rules, Quiet-with_timeout, inserted-Quiet) depth 14
  insert-Quiet fresh = search (quiet_rules, Quiet-with_timeout, inserted-Quiet) depth 14

  project_sent-Quiet :
      (r : Result (Unit {0})) → Quiet (project_sent parse_url factory port options lease r)
  unfolding project_sent
  project_sent-Quiet (ok u) = search quiet_rules
  project_sent-Quiet (err e) = search quiet_rules

  sent-Quiet : (r : Result (Unit {0})) → Quiet (sent parse_url factory port options lease r)
  unfolding sent
  sent-Quiet (ok u) = search quiet_rules
  sent-Quiet (err e) = search (quiet_rules, post_commit-Quiet) depth 14

  pub send-Quiet : (t : TurnTarget) → Quiet (send parse_url factory port options lease t)
  unfolding send
  send-Quiet (project home) = search (quiet_rules, Quiet-with_timeout, project_sent-Quiet) depth 14
  send-Quiet (thread h) = search (quiet_rules, Quiet-with_timeout, sent-Quiet) depth 14
  send-Quiet fresh = search (quiet_rules, Quiet-with_timeout, sent-Quiet) depth 14

  pub fill_composer-Quiet :
      (t : TurnTarget) → Quiet (fill_composer parse_url factory port options lease t)
  unfolding fill_composer
  fill_composer-Quiet t =
      search (quiet_rules, Quiet-throw_if_aborted, insert-Quiet, no_write-Quiet) depth 14
