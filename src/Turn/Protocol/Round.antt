-- ===== src/Turn/Protocol/Round.antt =====
-- A round of a turn's loop leaves deltas only, or returns once all has been delivered.
use threadwire.Prelude.{
  ◌≡◌, sym, ap, ◌∙◌, inl, inr, Bool, true, false, Option, none, some, List, is_some,
}
use threadwire.Domain.Errors.{ErrorCode}
use threadwire.Domain.Runtime.{RuntimeLease}
use threadwire.Exec.{pure, gets, ◌>>=◌}
use threadwire.Exec.Rules.{Triple, Triple-bind, Triple-before}
use threadwire.Routing.Registry.{ProvisionalThreadRegistrationResult}
use threadwire.Turn.{
  Turn, Act, TurnPort, TurnOptions, TurnTarget, thread, fresh, project, TurnResult,
  ResponseDeliveryState, ResponseEvent, fail_closed,
}
use threadwire.Turn.Completion.{
  Polling, Poll, again, done, wait, fail_turn, terminal_error, throw_terminal, throw_undelivered,
  roll_back,
}
use threadwire.Turn.Protocol.{Begins, Completes, Completes-Begins, Stage, Stage-Begins}
use threadwire.Turn.Protocol.Rules.{On, Quiet, Quiet-Triple}
use threadwire.Turn.Protocol.Quiet.{Quiet-roll_back}
use threadwire.Turn.Protocol.Delivery.{Started, true-false}
use threadwire.Turn.Protocol.Finish.{Settled}

-- A throw that ends a turn.
pub fail-Triple :
    {A : Type 0} {P : Turn → Type 0} {Q : A → Turn → Type 0} (lease : RuntimeLease)
    (target : TurnTarget) (c : ErrorCode)
    → ((t : Turn) → P t → Begins t.delivered)
    → Triple P (fail_turn {A = A} lease target c) Q Started
unfolding fail_turn fail_closed ◌>>=◌
fail-Triple lease (project home) c h = record { at = h }
fail-Triple lease (thread handle) c h = record { at = h }
fail-Triple lease fresh c h = record { at = h }

module _ (options : TurnOptions) where
  -- What a round leaves.
  abbrev pub Polled : Poll → Turn → Type 0
  Polled (again p) = On (Stage options)
  Polled (done r) = On (λ s l. Completes options l)

  abbrev pub Whole : ResponseDeliveryState → List ResponseEvent → Type 0
  Whole r l = Completes options l

  pub wait-Triple : (p : Polling) → Triple (On (Stage options)) (wait p) Polled Started
  unfolding wait ◌>>=◌
  wait-Triple p = record { at = λ t h. h }

  pub Quiet-Whole : {A : Type 0} (m : Act A) → Quiet m → Triple (On Whole) m (λ a. On Whole) Started
  Quiet-Whole m q = Quiet-Triple Whole (λ r l. Begins l) m q λ r l. Completes-Begins options l

  pub done-Triple : (r : TurnResult) → Triple (On Whole) (pure (done r)) Polled Started
  unfolding pure
  done-Triple r = record { at = λ t h. h }

  Settled-Begins :
      (b : Bool) (r : ResponseDeliveryState) (l : List ResponseEvent)
      → Settled options b r l
      → Begins l
  Settled-Begins b r l (inl (p, whole)) = Completes-Begins options l whole
  Settled-Begins b r l (inr (inl (p, stage))) = Stage-Begins options r l stage
  Settled-Begins b r l (inr (inr refused)) = refused.1

  -- No error was left behind.
  abbrev pub Passed : Bool → ResponseDeliveryState → List ResponseEvent → Type 0
  Passed true r l = Completes options l
  Passed false r l = Stage options r l

  passes :
      (b : Bool) (r : ResponseDeliveryState) (l : List ResponseEvent)
      → none ≡ r.terminal_error
      → Settled options b r l
      → Passed b r l
  passes true r l p (inl (e, whole)) = whole
  passes false r l p (inl (e, whole)) = absurd (true-false (sym e))
  passes true r l p (inr (inl (e, stage))) = absurd (true-false e)
  passes false r l p (inr (inl (e, stage))) = stage
  passes b r l p (inr (inr (broke, begun))) = absurd (true-false (sym broke ∙ sym (ap is_some p)))

  module _ (port : TurnPort) (lease : RuntimeLease) (target : TurnTarget)
      (streaming : port.streaming ≡ true) where
    abbrev pub Left : Bool → Option ErrorCode → Turn → Type 0
    Left b c t = (c ≡ t.response.terminal_error) × Settled options b t.response t.delivered

    pub read_terminal :
        (b : Bool) → Triple (On (Settled options b)) (terminal_error port) (Left b) Started
    unfolding terminal_error gets
    read_terminal b = record { at = λ t settled. (rw streaming, settled) }

    pub throw-Triple :
        (b : Bool) (c : Option ErrorCode)
        → Triple (Left b c) (throw_terminal lease target c) (λ u. On (Passed b)) Started
    unfolding throw_terminal pure
    throw-Triple b none = record {
      at = λ t (p, settled). passes b t.response t.delivered p settled;
    }
    throw-Triple b (some c) =
        fail-Triple lease target c λ t (p, settled). Settled-Begins b t.response t.delivered settled

    pub undelivered-Triple :
        (b : Bool) (left : Option (Option ProvisionalThreadRegistrationResult))
        (c : Option ErrorCode)
        → Triple (Left b c) (throw_undelivered lease target left c) (λ u. On (Passed b)) Started
    unfolding throw_undelivered pure
    undelivered-Triple b left none = record {
      at = λ t (p, settled). passes b t.response t.delivered p settled;
    }
    undelivered-Triple b left (some c) =
        Triple-bind (λ u. On (λ r l. Begins l))
          (Triple-before (λ t (p, settled). Settled-Begins b t.response t.delivered settled)
            (Quiet-Triple (λ r l. Begins l) (λ r l. Begins l) (roll_back left)
              (Quiet-roll_back left) λ r l h. h))
          λ u. fail-Triple lease target c λ t h. h
