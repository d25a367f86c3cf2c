-- ===== src/Turn/Delivery.antt =====
-- turn/TurnExecutor.ts: the delivery of the response to the caller's listener.
use threadwire.Prelude.{
  ℕ, ◌+◌, Bool, true, false, not, ◌&&◌, ◌||◌, Option, none, some, List, [], ◌∷◌, ◌++◌, Text, ltb,
  leb, ◌==◌, nat_eq, if◌then◌else◌, is_some, length,
}
use threadwire.Domain.Errors.{
  ErrorCode, Result, ok, err, response_stream_unavailable, response_stream_failed,
  response_parse_failed,
}
use threadwire.Domain.Runtime.{RuntimeLease}
use threadwire.Exec.{pure, raise, gets, modify, attempt, when, ◌>>=◌, ◌>>◌}
use threadwire.Cdp.TurnTracker.{Snapshot}
use threadwire.Cdp.ResponseTracker.{
  Lifecycle, completed, failed, StreamFailure, unavailable, stream_parse_failed,
}
use threadwire.Response.Consumer.{StreamEvent, text_delta, completed_event}
use threadwire.Turn.{
  ResponseEvent, delta, final_text, response_completed, TurnOptions, ResponseDeliveryState,
  TurnPort, Act, advance, ask, is_generation_changed, is_disconnected, fail_closed,
}

unfoldable pub response_error_for_failure : Option StreamFailure → ErrorCode
response_error_for_failure (some unavailable) = response_stream_unavailable
response_error_for_failure (some stream_parse_failed) = response_parse_failed
response_error_for_failure failure = response_stream_failed

-- What `String.prototype.trim` removes, among UTF-16 code units.
is_space : ℕ → Bool
is_space c =
    (leb 9 c && leb c 13)
    || c == 32
    || c == 0xA0
    || c == 0x1680
    || (leb 0x2000 c && leb c 0x200A)
    || c == 0x2028
    || c == 0x2029
    || c == 0x202F
    || c == 0x205F
    || c == 0x3000
    || c == 0xFEFF

-- `text.trim().length === 0`
unfoldable pub is_blank : Text → Bool
unfolding is_space
is_blank [] = true
is_blank (c ∷ s) = is_space c && is_blank s

abbrev with_response : (ResponseDeliveryState → ResponseDeliveryState) → Act (Unit {0})
with_response f = modify λ t. record t { response = f t.response }

abbrev pub set_terminal_error : ErrorCode → Act (Unit {0})
set_terminal_error c = with_response λ r. record r { terminal_error = some c }

abbrev pub or_else : Option ErrorCode → ErrorCode → ErrorCode
or_else none c = c
or_else (some d) c = d

-- `state.deliveryDeferred = false; return true`, which lets the delivery go on
abbrev pub end_deferral : Act Bool
end_deferral = do with_response (λ r. record r { delivery_deferred = false }); pure true

-- `state.terminalError ??= …`
abbrev pub default_terminal_error : ErrorCode → Act (Unit {0})
default_terminal_error c =
    with_response λ r. record r { terminal_error = some (or_else r.terminal_error c) }

abbrev pub complete_semantically : Act (Unit {0})
complete_semantically = with_response λ r. record r { semantic_completed = true }

abbrev pub accumulate : Text → Act (Unit {0})
accumulate s = with_response λ r. record r { accumulated_text = r.accumulated_text ++ s }

abbrev pub has_failed : ResponseDeliveryState → Bool
has_failed r = is_some r.terminal_error

module _ (port : TurnPort) where
  -- A call of the listener: whether it threw.
  unfoldable pub notify : ResponseEvent → Act Bool
  notify e t =
      (record (advance t) { delivered = t.delivered ++ e ∷ [] }, ok (port.listener_throws t.tick e))

  -- Whether the listener threw at a delta, which waits where the delivery is deferred.
  unfoldable pub deliver_delta : ResponseDeliveryState → Text → Act Bool
  deliver_delta r s = if r.delivery_deferred then pure false else notify (delta s)

  -- `state.terminalError = new ResponseStreamFailedError(); return …`
  abbrev pub refuse_response : {A : Type 0} → A → Act A
  refuse_response answer = do set_terminal_error response_stream_failed; pure answer

  -- The deferred text as one delta; whether the delivery goes on.
  unfoldable pub flush_deferred : ResponseDeliveryState → Act Bool
  flush_deferred r = if not r.delivery_deferred then pure true else do
    thrown ← notify (delta r.accumulated_text)
    if thrown then refuse_response false else end_deferral

  unfoldable pub announce_completed : {B : Type 0} → B → Act (Bool × Option B)
  announce_completed left = do
    thrown ← notify response_completed
    if thrown
        then refuse_response (false, some left)
        else do with_response (λ r. record r { finalized = true }); pure (true, some left)

  unfoldable pub announce_final : {B : Type 0} → Act B → Text → Act (Bool × Option B)
  announce_final before_completed accumulated = do
    thrown ← notify (final_text accumulated)
    if thrown
        then refuse_response (false, none)
        else do left ← before_completed; announce_completed left

  -- Whether the delivery is final, with what `beforeCompleted` left behind if it ran.
  unfoldable pub finalize_response_delivery : {B : Type 0} → Act B → Act (Bool × Option B)
  finalize_response_delivery before_completed = do
    r ← gets (λ t. t.response)
    if r.finalized
        then pure (true, none)
        else if not r.semantic_completed || has_failed r
        then pure (false, none)
        else if is_blank r.accumulated_text
        then refuse_response (false, none)
        else do
          flushed ← flush_deferred r
          if flushed then announce_final before_completed r.accumulated_text else pure (false, none)

unfoldable pub exceeds : TurnOptions → ResponseDeliveryState → Text → Bool
exceeds options r s = ltb options.max_accumulated_text_chars (length r.accumulated_text + length s)

module _ (port : TurnPort) (options : TurnOptions) (lease : RuntimeLease) where
  unfoldable pub discard_failed : Bool → Result (Unit {0}) → Act (Unit {0})
  discard_failed cancellation (ok done) = pure tt
  discard_failed cancellation (err e) =
      if is_generation_changed e
      then raise e
      else if is_disconnected e
      then fail_closed lease
      else when (not cancellation) (default_terminal_error response_stream_failed)

  unfoldable pub discard_response : Bool → Act (Unit {0})
  discard_response cancellation = do
    r ← gets (λ t. t.response)
    if r.discarded then pure tt else do
      with_response (λ r. record r { discarded = true })
      if not port.discards_responses
          then when (not cancellation) (default_terminal_error response_stream_unavailable)
          else do
            outcome ← attempt (ask port port.discard_turn_response)
            discard_failed cancellation outcome

  abbrev pub stop_delivery : ErrorCode → Act (Unit {0})
  stop_delivery c = do default_terminal_error c; discard_response false

  unfoldable pub deliver_each : List StreamEvent → Act (Unit {0})
  deliver_each [] = pure tt
  deliver_each (completed_event ∷ events) = do complete_semantically; deliver_each events
  deliver_each (text_delta s ∷ events) = do
    r ← gets (λ t. t.response)
    if exceeds options r s then stop_delivery response_stream_failed else do
      thrown ← deliver_delta port r s
      if thrown then stop_delivery response_stream_failed else do accumulate s; deliver_each events

  unfoldable pub deliver_taken : Result (List StreamEvent) → Act (Unit {0})
  deliver_taken (ok events) = deliver_each events
  deliver_taken (err e) =
      if is_generation_changed e
      then raise e
      else if is_disconnected e
      then fail_closed lease
      else stop_delivery response_stream_failed

  unfoldable pub deliver_normalized_events : Act (Unit {0})
  deliver_normalized_events =
      if not port.takes_response_events
      then stop_delivery response_stream_unavailable
      else do events ← attempt (ask port port.take_turn_response_events); deliver_taken events

  -- `if (state.terminalError === null) { state.terminalError = …; this.discardResponse(…) }`
  abbrev pub fail_response : ErrorCode → Act (Unit {0})
  fail_response c = do
    r ← gets (λ t. t.response)
    if has_failed r then pure tt else do set_terminal_error c; discard_response false

  unfoldable pub follow_response : Lifecycle → Option StreamFailure → Act (Unit {0})
  follow_response completed failure = complete_semantically
  follow_response failed failure = fail_response (response_error_for_failure failure)
  follow_response lifecycle failure = pure tt

  unfoldable pub update_streamed : Option (Lifecycle × Option StreamFailure) → Act (Unit {0})
  update_streamed none = fail_response response_stream_unavailable
  update_streamed (some (lifecycle, failure)) = do
    r ← gets (λ t. t.response)
    when (not r.discarded) deliver_normalized_events
    follow_response lifecycle failure

  unfoldable pub update_response_delivery : Snapshot → Bool → Act (Unit {0})
  update_response_delivery snapshot caller_cancelled =
      if not port.streaming
      then pure tt
      else if caller_cancelled
      then discard_response true
      else update_streamed snapshot.streamed

  unfoldable pub apply_response_deadline : Bool → ℕ → ℕ → Act (Unit {0})
  apply_response_deadline caller_cancelled write_observed_at now = do
    r ← gets (λ t. t.response)
    if not port.streaming
          || caller_cancelled
          || r.semantic_completed
          || has_failed r
          || ltb now (options.response_completion_timeout_ms + write_observed_at)
        then pure tt
        else do set_terminal_error response_stream_failed; discard_response false
