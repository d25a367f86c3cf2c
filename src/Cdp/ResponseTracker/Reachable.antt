-- ===== src/Cdp/ResponseTracker/Reachable.antt =====
-- The lifecycle of a tracked stream: what stays true of the tracker, and where it ends.
use threadwire.Prelude.{
  ◌≡◌, refl, Bool, true, false, not, ◌&&◌, ◌||◌, Option, none, List, [], ◌∷◌, Text, is_some, arith,
  if_cases,
}
use threadwire.Response.Consumer.{Consumer}
use threadwire.Cdp.ResponseTracker.{
  Codec, Lifecycle, pending, streaming, completed, failed, unavailable, activation_failed,
  ResponseTracker, new_response_tracker, is_completed, is_pending, is_current, select, begin,
  call_stream, StreamCall, not_a_function, throws, returns_promise, discard, dispose, drain,
  drain_of, activation_rejected, keep_promise, Call, selects, begins, receives, settles, fails,
  drains, discards, disposes, activates, rejects, after_call, after_calls,
}
use threadwire.Cdp.ResponseTracker.Parts.{Inv, new-Inv, fail-Inv, fail-keeps, with_consumer-Inv}
use threadwire.Cdp.ResponseTracker.Activation.{
  on_data-Inv, on_transport_settled-Inv, keep_promise-Inv, complete_activation-Inv,
}

pending-completed : (l : Lifecycle) → is_pending l ≡ true → is_completed l ≡ false
pending-completed pending p = refl
pending-completed streaming p = cc
pending-completed completed p = cc
pending-completed failed p = cc

module _ {D : Type 0} (codec : Codec D) where
  select-Inv : (request : Text) (t : ResponseTracker D) → Inv t → Inv (select request t)
  unfolding select
  select-Inv request t inv =
      if_cases Inv (not t.disposed && not (is_some t.selected_request_id))
        (λ h. record {
          failure_iff = inv.failure_iff;
          activated_open = inv.activated_open;
          waiting = inv.waiting;
          promised = inv.promised;
          chunks_bounded = inv.chunks_bounded;
          chars_exact = inv.chars_exact;
          chars_bounded = inv.chars_bounded;
        })
        (λ h. inv)

  call_stream-Inv :
      (call : StreamCall) (t : ResponseTracker D)
      → is_pending t.lifecycle ≡ true
      → (t.disposed || is_completed t.lifecycle) ≡ false
      → Inv t
      → Inv (call_stream call t)
  call_stream-Inv not_a_function t p still inv = fail-keeps unavailable t inv
  call_stream-Inv throws t p still inv =
      fail-Inv activation_failed (record t { activation_pending = true }) still
  call_stream-Inv returns_promise t p still inv = record {
    failure_iff = inv.failure_iff;
    activated_open = inv.activated_open;
    waiting = λ h. p;
    promised = λ h. ground arith;
    chunks_bounded = inv.chunks_bounded;
    chars_exact = inv.chars_exact;
    chars_bounded = inv.chars_bounded;
  }

  begin-Inv :
      (request : Text) (call : StreamCall) (t : ResponseTracker D)
      → Inv t
      → Inv (begin request call t)
  unfolding begin
  begin-Inv request call t inv =
      if_cases Inv
        (not (is_current request t)
          || not (is_pending t.lifecycle)
          || t.activation_pending
          || t.activated)
        (λ h. inv)
        (λ here.
          if_cases Inv (not t.data_observation_available) (λ h. fail-keeps unavailable t inv)
            (λ h.
              call_stream-Inv call t (ground arith) (ground (arith, pending-completed t.lifecycle))
                inv))

  emptied-Inv :
      (t : ResponseTracker D) (o : Option (Consumer D))
      → Inv t
      → Inv (record t {
        consumer = o;
        activation_pending = false;
        activated = false;
        live_data = [];
        live_chars = 0;
      })
  emptied-Inv t o inv = record {
    failure_iff = inv.failure_iff;
    activated_open = λ p. cc;
    waiting = λ p. cc;
    promised = inv.promised;
    chunks_bounded = omega arith;
    chars_exact = refl;
    chars_bounded = omega arith;
  }

  discard-Inv : (t : ResponseTracker D) → Inv t → Inv (discard t)
  unfolding discard
  discard-Inv t inv =
      if_cases Inv t.disposed (λ h. inv)
        (λ h.
          if_cases Inv (is_completed t.lifecycle) (λ h. emptied-Inv t none inv)
            (λ h. record {
              failure_iff = refl;
              activated_open = λ p. cc;
              waiting = λ p. cc;
              promised = λ p. refl;
              chunks_bounded = omega arith;
              chars_exact = refl;
              chars_bounded = omega arith;
            }))

  dispose-Inv : (t : ResponseTracker D) → Inv t → Inv (dispose t)
  unfolding dispose
  dispose-Inv t inv = record {
    failure_iff = inv.failure_iff;
    activated_open = λ p. cc;
    waiting = λ p. cc;
    promised = inv.promised;
    chunks_bounded = omega arith;
    chars_exact = refl;
    chars_bounded = omega arith;
  }

  activation_rejected-Inv :
      (request : Text) (t : ResponseTracker D) → Inv t → Inv (activation_rejected request t)
  unfolding activation_rejected
  activation_rejected-Inv request t inv =
      if_cases Inv (is_current request t) (λ h. fail-keeps activation_failed t inv) (λ h. inv)

  pub after_call-Inv : (t : ResponseTracker D) (c : Call) → Inv t → Inv (after_call codec t c)
  unfolding after_call drain
  after_call-Inv t (selects request) inv = select-Inv request t inv
  after_call-Inv t (begins request call) inv = begin-Inv request call t inv
  after_call-Inv t (receives request chunk) inv = on_data-Inv codec request chunk t inv
  after_call-Inv t (settles request has_failed) inv =
      on_transport_settled-Inv codec request has_failed t inv
  after_call-Inv t (fails kind) inv = fail-keeps kind t inv
  after_call-Inv t drains inv = with_consumer-Inv (drain_of t.consumer).0 t inv
  after_call-Inv t discards inv = discard-Inv t inv
  after_call-Inv t disposes inv = dispose-Inv t inv
  after_call-Inv t (activates request buffered) inv =
      if_cases Inv t.promise_outstanding
        (λ h.
          complete_activation-Inv codec request buffered (keep_promise t) refl
            (keep_promise-Inv codec t inv))
        (λ h. inv)
  after_call-Inv t (rejects request) inv =
      if_cases Inv t.promise_outstanding
        (λ h. activation_rejected-Inv request (keep_promise t) (keep_promise-Inv codec t inv))
        (λ h. inv)

  pub after_calls-Inv :
      (t : ResponseTracker D) (cs : List Call) → Inv t → Inv (after_calls codec t cs)
  unfolding after_calls
  after_calls-Inv t [] inv = inv
  after_calls-Inv t (c ∷ cs) inv =
      after_calls-Inv (after_call codec t c) cs (after_call-Inv t c inv)

  -- After any calls on a new tracker, its failure is set exactly when its lifecycle is FAILED, the
  -- chunks that it holds back and their characters are within their limits and counted exactly, and
  -- it is activated only when it is STREAMING or COMPLETED and awaits its activation only when it is
  -- PENDING.
  pub tracker-Inv :
      (available : Bool) (consumer : Consumer D) (cs : List Call)
      → Inv (after_calls codec (new_response_tracker available consumer) cs)
  tracker-Inv available consumer cs =
      after_calls-Inv (new_response_tracker available consumer) cs (new-Inv available consumer)
