-- ===== src/Turn/Closed/Delivery.antt =====
-- The delivery of the response never throws anything but a changed or an uncertain runtime.
use threadwire.Prelude.{ℕ, Bool, Option, none, some, List, [], ◌∷◌, Text}
use threadwire.Domain.Errors.{Result, ok, err, ErrorCode, response_stream_failed}
use threadwire.Domain.Runtime.{RuntimeLease}
use threadwire.Cdp.TurnTracker.{Snapshot}
use threadwire.Cdp.ResponseTracker.{Lifecycle, completed, failed, StreamFailure}
use threadwire.Response.Consumer.{StreamEvent, text_delta, completed_event}
use threadwire.Turn.{Act, TurnPort, TurnOptions, ResponseDeliveryState, ResponseEvent}
use threadwire.Turn.Delivery.{
  notify, deliver_delta, flush_deferred, announce_completed, announce_final,
  finalize_response_delivery, stop_delivery, accumulate, exceeds, stop_delivery, accumulate,
  exceeds, exceeds, discard_failed, discard_response, deliver_each, deliver_taken,
  deliver_normalized_events, follow_response, update_streamed, update_response_delivery,
  apply_response_deadline,
}
use threadwire.Turn.Closed.{
  Closed, Closed-bind, Closed-gets, Closed-if, Closed-modify, closed_rules,
}

module _ (lease : RuntimeLease) (port : TurnPort) where
  notify-Closed : (e : ResponseEvent) → Closed lease (notify port e)
  unfolding notify
  notify-Closed e = record { at = λ t p. tt }

  accumulate-Closed : (s : Text) → Closed lease (accumulate s)
  accumulate-Closed s = Closed-modify lease _

  deliver_delta-Closed :
      (r : ResponseDeliveryState) (s : Text) → Closed lease (deliver_delta port r s)
  unfolding deliver_delta
  deliver_delta-Closed r s = search (closed_rules, notify-Closed) depth 14

  flush_deferred-Closed : (r : ResponseDeliveryState) → Closed lease (flush_deferred port r)
  unfolding flush_deferred
  flush_deferred-Closed r = search (closed_rules, notify-Closed) depth 14

  announce_completed-Closed : {B : Type 0} (b : B) → Closed lease (announce_completed port b)
  unfolding announce_completed
  announce_completed-Closed b = search (closed_rules, notify-Closed) depth 14

  module _ {B : Type 0} (m : Act B) (closed : Closed lease m) where
    announce_final-Closed : (s : Text) → Closed lease (announce_final port m s)
    unfolding announce_final
    announce_final-Closed s =
        search (closed_rules, notify-Closed, announce_completed-Closed) depth 14

    pub finalize-Closed : Closed lease (finalize_response_delivery port m)
    unfolding finalize_response_delivery
    finalize-Closed = search (closed_rules, announce_final-Closed, flush_deferred-Closed) depth 14

module _ (port : TurnPort) (options : TurnOptions) (lease : RuntimeLease) where
  discard_failed-Closed :
      (c : Bool) (r : Result (Unit {0})) → Closed lease (discard_failed port options lease c r)
  unfolding discard_failed
  discard_failed-Closed c (ok a) = search closed_rules
  discard_failed-Closed c (err e) = search closed_rules depth 14

  discard_response-Closed : (c : Bool) → Closed lease (discard_response port options lease c)
  unfolding discard_response
  discard_response-Closed c = search (closed_rules, discard_failed-Closed) depth 14

  stop_delivery-Closed : (c : ErrorCode) → Closed lease (stop_delivery port options lease c)
  stop_delivery-Closed c = search (closed_rules, discard_response-Closed) depth 14

  deliver_each-Closed :
      (events : List StreamEvent) → Closed lease (deliver_each port options lease events)
  unfolding deliver_each
  deliver_each-Closed [] = search closed_rules
  deliver_each-Closed (completed_event ∷ events) =
      let later = deliver_each-Closed events in
      Closed-bind lease _ _ (search closed_rules) λ d. later
  deliver_each-Closed (text_delta s ∷ events) =
      let later = deliver_each-Closed events in
      Closed-bind lease _ _ (Closed-gets lease _) λ r.
        Closed-if lease (exceeds options r s) _ _ (λ p. stop_delivery-Closed response_stream_failed)
          λ p. Closed-bind lease _ _ (deliver_delta-Closed lease port r s) λ thrown.
            Closed-if lease thrown _ _ (λ q. stop_delivery-Closed response_stream_failed)
              λ q. Closed-bind lease _ _ (accumulate-Closed lease port s) λ d. later

  deliver_taken-Closed :
      (r : Result (List StreamEvent)) → Closed lease (deliver_taken port options lease r)
  unfolding deliver_taken
  deliver_taken-Closed (ok events) = deliver_each-Closed events
  deliver_taken-Closed (err e) = search (closed_rules, discard_response-Closed) depth 14

  deliver-Closed : Closed lease (deliver_normalized_events port options lease)
  unfolding deliver_normalized_events
  deliver-Closed = search (closed_rules, deliver_taken-Closed, discard_response-Closed) depth 14

  follow_response-Closed :
      (l : Lifecycle) (f : Option StreamFailure)
      → Closed lease (follow_response port options lease l f)
  unfolding follow_response
  follow_response-Closed completed f = search closed_rules
  follow_response-Closed failed f = search (closed_rules, discard_response-Closed) depth 14
  follow_response-Closed _ f = search closed_rules

  update_streamed-Closed :
      (o : Option (Lifecycle × Option StreamFailure))
      → Closed lease (update_streamed port options lease o)
  unfolding update_streamed
  update_streamed-Closed none = search (closed_rules, discard_response-Closed) depth 14
  update_streamed-Closed (some (l, f)) =
      search (closed_rules, deliver-Closed, follow_response-Closed) depth 14

  pub update-Closed :
      (s : Snapshot) (c : Bool) → Closed lease (update_response_delivery port options lease s c)
  unfolding update_response_delivery
  update-Closed s c =
      search (closed_rules, discard_response-Closed, update_streamed-Closed) depth 14

  pub deadline-Closed :
      (c : Bool) (since time : ℕ)
      → Closed lease (apply_response_deadline port options lease c since time)
  unfolding apply_response_deadline
  deadline-Closed c since time = search (closed_rules, discard_response-Closed) depth 14
