-- ===== src/Turn/Protocol/Quiet/Round.antt =====
-- The parts of a round that do not touch the response.
use threadwire.Prelude.{ℕ, Bool, Option, Text}
use threadwire.Domain.Errors.{Result, ok, err}
use threadwire.Domain.Runtime.{RuntimeLease}
use threadwire.Domain.Identity.{Url}
use threadwire.Cdp.TurnTracker.{Snapshot, WriteLifecycle}
use threadwire.Turn.{TurnPort, TurnOptions, TurnTarget}
use threadwire.Turn.Outcome.{
  read_answered, read_turn_observation, route_answered, route_revalidated, throw_if_cancelled,
  conversation_not_created,
}
use threadwire.Turn.Protocol.Rules.{Quiet, quiet_rules}
use threadwire.Turn.Protocol.Quiet.{Quiet-fail_turn}

module _ (parse_url : Text → Option Url) (factory : ℕ → Text) (port : TurnPort)
    (options : TurnOptions) (lease : RuntimeLease) where
  read_answered-Quiet :
      (r : Result Snapshot) → Quiet (read_answered parse_url factory port options lease r)
  unfolding read_answered
  read_answered-Quiet (ok s) = search quiet_rules
  read_answered-Quiet (err e) = search quiet_rules

  pub read-Quiet : Quiet (read_turn_observation parse_url factory port options lease)
  unfolding read_turn_observation
  read-Quiet = search (quiet_rules, read_answered-Quiet) depth 14

  pub route_answered-Quiet :
      (l : WriteLifecycle) (r : Result (Option Text))
      → Quiet (route_answered parse_url factory port options lease l r)
  unfolding route_answered
  route_answered-Quiet l (ok o) = search quiet_rules
  route_answered-Quiet l (err e) = search quiet_rules depth 14

  pub revalidated-Quiet :
      (r : Result (Option Text)) → Quiet (route_revalidated parse_url factory port options lease r)
  unfolding route_revalidated
  revalidated-Quiet (ok o) = search quiet_rules
  revalidated-Quiet (err e) = search quiet_rules

  pub cancelled-Quiet :
      (target : TurnTarget) (c : Bool)
      → Quiet (throw_if_cancelled parse_url factory port options lease target c)
  unfolding throw_if_cancelled
  cancelled-Quiet target c = search (quiet_rules, Quiet-fail_turn) depth 14

  pub not_created-Quiet :
      {A : Type 0} (target : TurnTarget)
      → Quiet (conversation_not_created parse_url factory port options lease {A = A} target)
  unfolding conversation_not_created
  not_created-Quiet target = Quiet-fail_turn lease target _
