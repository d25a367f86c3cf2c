-- ===== src/Turn/Protocol/Delivery.antt =====
-- Between the rounds of a turn's loop, and through each update of the response, only deltas have
-- been delivered, and they join to the text that has been accumulated.
use threadwire.Prelude.{
  ℕ, ◌+◌, ◌≤◌, ◌≡◌, refl, sym, ap, ◌∙◌, inl, inr, Bool, true, false, Option, none, some, List, [],
  ◌∷◌, ◌++◌, Text, length, length-append, if◌then◌else◌, arith,
}
use threadwire.Domain.Errors.{Failure, Result, ok, err, ErrorCode, response_stream_failed}
use threadwire.Domain.Runtime.{RuntimeLease}
use threadwire.Exec.{pure, gets, modify, ◌>>=◌, attempt}
use threadwire.Exec.Rules.{Triple, Triple-bind, Triple-if, Triple-before}
use threadwire.Cdp.TurnTracker.{Snapshot}
use threadwire.Cdp.ResponseTracker.{Lifecycle, completed, failed, StreamFailure}
use threadwire.Response.Consumer.{StreamEvent, text_delta, completed_event}
use threadwire.Turn.{
  Turn, Act, TurnPort, TurnOptions, ResponseDeliveryState, ResponseEvent, delta, ask,
}
use threadwire.Turn.Delivery.{
  complete_semantically, set_terminal_error, default_terminal_error, or_else, accumulate, exceeds,
  notify, deliver_delta, discard_failed, discard_response, stop_delivery, deliver_each,
  deliver_taken, deliver_normalized_events, follow_response, update_streamed,
  update_response_delivery, apply_response_deadline,
}
use threadwire.Turn.Protocol.{joined-snoc, snoc-delta, Begins, Streams, Stage, Stage-Begins}
use threadwire.Turn.Protocol.Rules.{
  On, Quiet, Quiet-Triple, Quiet-ask, Quiet-attempt, Quiet-raise, Quiet-fail_closed,
}

pub true-false : true ≡ false → ⊥
true-false p = cc

abbrev pub Started : Failure → Turn → Type 0
Started e = On (λ r l. Begins l)

module _ (options : TurnOptions) where
  abbrev pub Staged : {A : Type 0} → Act A → Type 0
  Staged m = Triple (On (Stage options)) m (λ a. On (Stage options)) Started

  module _ {A : Type 0} where
    pub Staged-Quiet : (m : Act A) → Quiet m → Staged m
    Staged-Quiet m q = Quiet-Triple (Stage options) (λ r l. Begins l) m q (Stage-Begins options)

    pub Staged-pure : (a : A) → Staged (pure a)
    unfolding pure
    Staged-pure a = record { at = λ t h. h }

    pub Staged-gets : (f : Turn → A) → Staged (gets f)
    unfolding gets
    Staged-gets f = record { at = λ t h. h }

    pub Staged-if :
        (b : Bool) (m n : Act A)
        → (b ≡ true → Staged m)
        → (b ≡ false → Staged n)
        → Staged (if b then m else n)
    Staged-if b m n hm hn = Triple-if b hm hn

  pub Staged-bind :
      {A B : Type 0} (m : Act A) (f : A → Act B)
      → Staged m
      → ((a : A) → Staged (f a))
      → Staged (m >>= f)
  Staged-bind m f h k = Triple-bind (λ a. On (Stage options)) h k

  -- A change of the response's state under which the stage persists.
  with_response-Staged :
      (f : ResponseDeliveryState → ResponseDeliveryState)
      → ((r : ResponseDeliveryState) (l : List ResponseEvent)
          → Stage options r l
          → Stage options (f r) l)
      → Staged (modify λ t. record t { response = f t.response })
  unfolding modify
  with_response-Staged f keep = record { at = λ t h. keep t.response t.delivered h }

  complete-Staged : Staged complete_semantically
  complete-Staged = with_response-Staged (λ r. record r { semantic_completed = true }) λ r l h. h

  discarded-Staged :
      Staged (modify λ t. record t { response = record t.response { discarded = true } })
  discarded-Staged = with_response-Staged (λ r. record r { discarded = true }) λ r l h. h

  set_error-Staged : (c : ErrorCode) → Staged (set_terminal_error c)
  set_error-Staged c =
      with_response-Staged (λ r. record r { terminal_error = some c })
        λ r l (ds, p, follows, fits). (ds, p, inl refl, fits)

  default_error-Staged : (c : ErrorCode) → Staged (default_terminal_error c)
  default_error-Staged c =
      with_response-Staged (λ r. record r { terminal_error = some (or_else r.terminal_error c) })
        λ r l (ds, p, follows, fits). (ds, p, inl refl, fits)

  ruleset staged_rules = (
    Staged-pure, Staged-gets, Staged-if, Staged-bind, complete-Staged, discarded-Staged,
    set_error-Staged, default_error-Staged,
  )

  pub read_response :
      Triple
        (On (Stage options))
        (gets (λ t. t.response))
        (λ r t. (t.response ≡ r) × Stage options r t.delivered)
        Started
  unfolding gets
  read_response = record { at = λ t stage. (refl, stage) }

  module _ (port : TurnPort) (lease : RuntimeLease) where
    discard_failed-Staged :
        (c : Bool) (r : Result (Unit {0})) → Staged (discard_failed port options lease c r)
    unfolding discard_failed
    discard_failed-Staged c (ok u) = Staged-pure tt
    discard_failed-Staged c (err e) =
        search (staged_rules, Staged-Quiet, Quiet-raise, Quiet-fail_closed) depth 14

    asked-Staged : {A : Type 0} (f : ℕ → Result A) → Staged (attempt (ask port f))
    asked-Staged f = Staged-Quiet _ (Quiet-attempt _ (Quiet-ask port f))

    pub discard_response-Staged : (c : Bool) → Staged (discard_response port options lease c)
    unfolding discard_response
    discard_response-Staged c = search (staged_rules, asked-Staged, discard_failed-Staged) depth 14

    stop-Staged : (c : ErrorCode) → Staged (stop_delivery port options lease c)
    stop-Staged c = search (staged_rules, discard_response-Staged) depth 14

    exceeds-le :
        (r : ResponseDeliveryState) (s : Text)
        → exceeds options r s ≡ false
        → length r.accumulated_text + length s ≤ options.max_accumulated_text_chars
    unfolding exceeds
    exceeds-le r s p = ground arith

    -- One delta on its way from the stream to the listener.
    module _ (r : ResponseDeliveryState) (s : Text) where
      deferred-Streams :
          (l : List ResponseEvent)
          → r.delivery_deferred ≡ true
          → Stage options r l
          → length r.accumulated_text + length s ≤ options.max_accumulated_text_chars
          → Streams options s r l
      deferred-Streams l d (ds, p, inl broke, fits) bound = (ds, p, inl broke, bound)
      deferred-Streams l d (ds, p, inr (open_, inl (direct, same)), fits) bound =
          absurd (true-false (sym d ∙ direct))
      deferred-Streams l d (ds, p, inr (open_, inr waits), fits) bound =
          (ds, p, inr (open_, inr waits), bound)

      sent-Streams :
          (l : List ResponseEvent)
          → r.delivery_deferred ≡ false
          → Stage options r l
          → length r.accumulated_text + length s ≤ options.max_accumulated_text_chars
          → Streams options s r (l ++ delta s ∷ [])
      sent-Streams l d (ds, p, inl broke, fits) bound =
          (ds ++ s ∷ [], snoc-delta ds s l p, inl broke, bound)
      sent-Streams l d (ds, p, inr (open_, inl (direct, same)), fits) bound = (
        ds ++ s ∷ [],
        snoc-delta ds s l p,
        inr (open_, inl (direct, ap (λ w. w ++ s) same ∙ sym (joined-snoc ds s))),
        bound,
      )
      sent-Streams l d (ds, p, inr (open_, inr (waits, e)), fits) bound =
          absurd (true-false (sym waits ∙ d))

      abbrev Ready : Turn → Type 0
      Ready t =
          (t.response ≡ r)
          × Stage options r t.delivered
          × (length r.accumulated_text + length s ≤ options.max_accumulated_text_chars)

      deliver_delta-Streams :
          Triple Ready (deliver_delta port r s) (λ thrown. On (Streams options s)) Started
      unfolding deliver_delta notify pure
      deliver_delta-Streams =
          Triple-if r.delivery_deferred
            (λ d. record {
              at = λ t (same, stage, bound). rw same (deferred-Streams t.delivered d stage bound);
            })
            (λ d. record {
              at = λ t (same, stage, bound). rw same (sent-Streams t.delivered d stage bound);
            })

    accumulate-Staged :
        (s : Text)
        → Triple (On (Streams options s)) (accumulate s) (λ u. On (Stage options)) Started
    unfolding modify
    accumulate-Staged s = record {
      at = λ t (ds, p, follows, bound).
          (ds, p, follows, omega (arith, length-append t.response.accumulated_text s));
    }

    stop-Streams :
        (s : Text) (c : ErrorCode)
        → Triple
            (On (Streams options s))
            (stop_delivery port options lease c)
            (λ u. On (Stage options))
            Started
    unfolding modify
    stop-Streams s c =
        Triple-bind (λ u. On (Stage options))
          (record { at = λ t (ds, p, follows, bound). (ds, p, inl refl, omega arith) })
          λ u. discard_response-Staged false

    deliver_each-Staged :
        (events : List StreamEvent) → Staged (deliver_each port options lease events)
    unfolding deliver_each
    deliver_each-Staged [] = Staged-pure tt
    deliver_each-Staged (completed_event ∷ events) =
        let later = deliver_each-Staged events in Staged-bind _ _ complete-Staged λ u. later
    deliver_each-Staged (text_delta s ∷ events) =
        let later = deliver_each-Staged events in
        Triple-bind (λ r t. (t.response ≡ r) × Stage options r t.delivered) read_response
          λ r.
            Triple-if (exceeds options r s)
              (λ over.
                Triple-before (λ t (same, stage). rw same stage)
                  (stop-Staged response_stream_failed))
              (λ fits.
                Triple-bind (λ thrown. On (Streams options s))
                  (Triple-before (λ t (same, stage). (same, stage, exceeds-le r s fits))
                    (deliver_delta-Streams r s))
                  λ thrown.
                    Triple-if thrown (λ p. stop-Streams s response_stream_failed)
                      (λ p. Triple-bind (λ u. On (Stage options)) (accumulate-Staged s) λ u. later))

    deliver_taken-Staged :
        (r : Result (List StreamEvent)) → Staged (deliver_taken port options lease r)
    unfolding deliver_taken
    deliver_taken-Staged (ok events) = deliver_each-Staged events
    deliver_taken-Staged (err e) =
        search (staged_rules, Staged-Quiet, Quiet-raise, Quiet-fail_closed, stop-Staged) depth 14

    deliver-Staged : Staged (deliver_normalized_events port options lease)
    unfolding deliver_normalized_events
    deliver-Staged = search (staged_rules, asked-Staged, deliver_taken-Staged, stop-Staged) depth 14

    follow_response-Staged :
        (l : Lifecycle) (f : Option StreamFailure) → Staged (follow_response port options lease l f)
    unfolding follow_response
    follow_response-Staged completed f = complete-Staged
    follow_response-Staged failed f = search (staged_rules, discard_response-Staged) depth 14
    follow_response-Staged _ f = Staged-pure tt

    update_streamed-Staged :
        (o : Option (Lifecycle × Option StreamFailure))
        → Staged (update_streamed port options lease o)
    unfolding update_streamed
    update_streamed-Staged none = search (staged_rules, discard_response-Staged) depth 14
    update_streamed-Staged (some (l, f)) =
        search (staged_rules, deliver-Staged, follow_response-Staged) depth 14

    pub update-Staged :
        (s : Snapshot) (c : Bool) → Staged (update_response_delivery port options lease s c)
    unfolding update_response_delivery
    update-Staged s c =
        search (staged_rules, discard_response-Staged, update_streamed-Staged) depth 14

    pub deadline-Staged :
        (c : Bool) (since time : ℕ)
        → Staged (apply_response_deadline port options lease c since time)
    unfolding apply_response_deadline
    deadline-Staged c since time = search (staged_rules, discard_response-Staged) depth 14
