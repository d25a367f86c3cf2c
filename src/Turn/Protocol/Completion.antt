-- ===== src/Turn/Protocol/Completion.antt =====
-- The completion of a turn delivers all of the sequence before it returns.
use threadwire.Prelude.{
  ℕ, ◌≡◌, sym, ◌∙◌, Bool, true, false, not, Option, none, some, Text, if◌then◌else◌,
}
use threadwire.Domain.Runtime.{RuntimeLease}
use threadwire.Domain.Identity.{Url}
use threadwire.Exec.{when, ◌>>=◌}
use threadwire.Exec.Rules.{Triple, Triple-bind, Triple-if}
use threadwire.Routing.Registry.{
  ThreadRegistrationResult, ProvisionalThreadRegistrationResult, existing, reserved,
}
use threadwire.Turn.{TurnPort, TurnOptions, TurnTarget, is_aborted, fail_closed}
use threadwire.Turn.Completion.{
  Polling, wait, complete_result, complete_delivered, finish_delivery, complete_registered,
  awaits_response, complete_turn,
}
use threadwire.Turn.Protocol.{Completes-Begins, Stage}
use threadwire.Turn.Protocol.Rules.{On, Quiet, quiet_rules, Quiet-gets}
use threadwire.Turn.Protocol.Quiet.{
  Quiet-new_result, Quiet-terminal_error, Quiet-throw_terminal, before_completed-Quiet,
  registered-Quiet, register_fresh-Quiet, refuse_known-Quiet, pending-Quiet,
}
use threadwire.Turn.Protocol.Delivery.{Started, Staged-Quiet, Staged-gets, true-false}
use threadwire.Turn.Protocol.Finish.{Answer, finalize-Triple, not-true}
use threadwire.Turn.Protocol.Round.{
  Polled, Whole, wait-Triple, Quiet-Whole, done-Triple, Passed, Left, read_terminal,
  undelivered-Triple,
}

module _ (parse_url : Text → Option Url) (factory : ℕ → Text) (port : TurnPort)
    (options : TurnOptions) (lease : RuntimeLease) (target : TurnTarget)
    (streaming : port.streaming ≡ true) where
  Quiet-refuse : (b : Bool) → Quiet (when b (fail_closed lease))
  Quiet-refuse b = search quiet_rules

  complete_result-Whole :
      (l : Text) (o : Option ThreadRegistrationResult)
      → Triple
          (On (Whole options))
          (complete_result parse_url factory port lease target l o)
          (Polled options)
          Started
  unfolding complete_result
  complete_result-Whole l o =
      Triple-bind (λ a. On (Whole options)) (Quiet-Whole options _ (Quiet-gets (is_aborted port)))
        λ aborted.
          Triple-bind (λ u. On (Whole options)) (Quiet-Whole options _ (Quiet-refuse _))
            λ u.
              Triple-bind (λ r. On (Whole options))
                (Quiet-Whole options _ (registered-Quiet parse_url factory port lease o l))
                λ r.
                  Triple-bind (λ r. On (Whole options))
                    (Quiet-Whole options _ (Quiet-new_result r.thread_handle r.created))
                    (done-Triple options)

  complete_delivered-Whole :
      (l : Text) (o : Option ThreadRegistrationResult)
      (w : Option (Option ProvisionalThreadRegistrationResult))
      → Triple
          (On (Whole options))
          (complete_delivered parse_url factory port lease target l o w)
          (Polled options)
          Started
  unfolding complete_delivered fail_closed ◌>>=◌
  complete_delivered-Whole l o (some (some (reserved h x))) =
      Triple-bind (λ r. On (Whole options)) (Quiet-Whole options _ (pending-Quiet lease h x))
        (done-Triple options)
  complete_delivered-Whole l o (some (some (existing h))) = record {
    at = λ t whole. Completes-Begins options t.delivered whole;
  }
  complete_delivered-Whole l o (some none) = complete_result-Whole l o
  complete_delivered-Whole l o none = complete_result-Whole l o

  settled-Polled :
      (b : Bool) (p : Polling) (l : Text) (o : Option ThreadRegistrationResult)
      (w : Option (Option ProvisionalThreadRegistrationResult))
      → Triple
          (On (Passed options b))
          (if b then complete_delivered parse_url factory port lease target l o w else wait p)
          (Polled options)
          Started
  settled-Polled true p l o w = complete_delivered-Whole l o w
  settled-Polled false p l o w = wait-Triple options p

  finish-Polled :
      (p : Polling) (l : Text) (o : Option ThreadRegistrationResult)
      (answer : Bool × Option (Option ProvisionalThreadRegistrationResult))
      → Triple
          (Answer options answer)
          (finish_delivery parse_url factory port lease target p l o answer)
          (Polled options)
          Started
  unfolding finish_delivery
  finish-Polled p l o (b, left) =
      Triple-bind (Left options port lease target streaming b)
        (read_terminal options port lease target streaming b)
        λ c.
          Triple-bind (λ u. On (Passed options b))
            (undelivered-Triple options port lease target streaming b left c)
            λ u. settled-Polled b p l o left

  complete_registered-Polled :
      (p : Polling) (l : Text) (o : Option ThreadRegistrationResult)
      → Triple
          (On (Stage options))
          (complete_registered parse_url factory port lease target p l o)
          (Polled options)
          Started
  unfolding complete_registered
  complete_registered-Polled p l o =
      Triple-bind (λ c. On (Stage options)) (Staged-Quiet options _ (Quiet-terminal_error port))
        λ c.
          Triple-bind (λ u. On (Stage options))
            (Staged-Quiet options _ (Quiet-throw_terminal lease target c))
            λ u.
              Triple-if (not port.streaming)
                (λ silent. absurd (true-false (sym streaming ∙ not-true _ silent)))
                (λ s.
                  Triple-bind (Answer options)
                    (finalize-Triple options port _
                      (before_completed-Quiet parse_url factory port lease target l))
                    (finish-Polled p l o))

  pub complete_turn-Polled :
      (p : Polling) (l : Text)
      → Triple
          (On (Stage options))
          (complete_turn parse_url factory port lease target p l)
          (Polled options)
          Started
  unfolding complete_turn
  complete_turn-Polled p l =
      Triple-bind (λ r. On (Stage options)) (Staged-gets options _)
        λ r.
          Triple-if (awaits_response parse_url factory port lease r) (λ h. wait-Triple options p)
            (λ h.
              Triple-bind (λ o. On (Stage options))
                (Staged-Quiet options _
                  (register_fresh-Quiet parse_url factory port lease target l))
                λ o.
                  Triple-bind (λ u. On (Stage options))
                    (Staged-Quiet options _
                      (refuse_known-Quiet parse_url factory port lease target l))
                    λ u. complete_registered-Polled p l o)
