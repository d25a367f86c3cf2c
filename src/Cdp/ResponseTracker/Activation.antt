-- ===== src/Cdp/ResponseTracker/Activation.antt =====
-- The end of the activation and of the transport keep what is true of the tracker.
use threadwire.Prelude.{
  ◌≡◌, refl, Bool, true, false, not, ◌||◌, Option, none, some, [], ◌∷◌, Text, arith, if_cases,
}
use threadwire.Cdp.ResponseTracker.{
  Codec, incomplete, ResponseTracker, is_completed, is_failed, is_pending, is_streaming, is_current,
  is_terminal, on_data, on_transport_settled, consume_buffered, activate, complete_activation,
  keep_promise,
}
use threadwire.Cdp.ResponseTracker.Parts.{Inv, fail-keeps}
use threadwire.Cdp.ResponseTracker.Consuming.{
  consume_base64-live, consume_base64-Inv, finish_consumer-Inv, consume_held-Inv, on_chunk-Inv,
}

module _ {D : Type 0} (codec : Codec D) where
  pub on_data-Inv :
      (request : Text) (chunk : Option Text) (t : ResponseTracker D)
      → Inv t
      → Inv (on_data codec request chunk t)
  unfolding on_data
  on_data-Inv request none t inv = inv
  on_data-Inv request (some chunk) t inv = on_chunk-Inv codec request chunk t inv

  pub on_transport_settled-Inv :
      (request : Text) (has_failed : Bool) (t : ResponseTracker D)
      → Inv t
      → Inv (on_transport_settled codec request has_failed t)
  unfolding on_transport_settled
  on_transport_settled-Inv request has_failed t inv =
      if_cases Inv (not (is_current request t) || is_completed t.lifecycle) (λ h. inv)
        (λ here.
          if_cases Inv has_failed (λ h. fail-keeps incomplete t inv)
            (λ fine.
              if_cases Inv t.activation_pending
                (λ h. record {
                  failure_iff = inv.failure_iff;
                  activated_open = inv.activated_open;
                  waiting = inv.waiting;
                  promised = inv.promised;
                  chunks_bounded = inv.chunks_bounded;
                  chars_exact = inv.chars_exact;
                  chars_bounded = inv.chars_bounded;
                })
                (λ h.
                  if_cases Inv (is_streaming t.lifecycle)
                    (λ live. finish_consumer-Inv codec t live inv)
                    (λ h.
                      if_cases Inv (is_pending t.lifecycle) (λ h. fail-keeps incomplete t inv)
                        (λ h. inv)))))

  consume_buffered-Inv :
      (buffered : Option Text) (t : ResponseTracker D)
      → is_streaming t.lifecycle ≡ true
      → Inv t
      → Inv (consume_buffered codec buffered t)
  consume_buffered-Inv none t live inv = inv
  consume_buffered-Inv (some []) t live inv = inv
  consume_buffered-Inv (some (c ∷ chunk)) t live inv =
      consume_base64-Inv codec (c ∷ chunk) t live inv

  consume_buffered-live :
      (buffered : Option Text) (t : ResponseTracker D)
      → is_streaming t.lifecycle ≡ true
      → is_terminal (consume_buffered codec buffered t) ≡ false
      → is_streaming (consume_buffered codec buffered t).lifecycle ≡ true
  consume_buffered-live none t live h = live
  consume_buffered-live (some []) t live h = live
  consume_buffered-live (some (c ∷ chunk)) t live h = consume_base64-live codec (c ∷ chunk) t live h

  -- With its promise kept a tracker that was PENDING may stream.
  activate-Inv :
      (t : ResponseTracker D)
      → t.promise_outstanding ≡ false
      → is_failed t.lifecycle ≡ false
      → Inv t
      → Inv (activate t)
  activate-Inv t kept fine inv = record {
    failure_iff = ground (arith, inv.failure_iff);
    activated_open = λ p. refl;
    waiting = λ p. cc;
    promised = λ p. ground arith;
    chunks_bounded = inv.chunks_bounded;
    chars_exact = inv.chars_exact;
    chars_bounded = inv.chars_bounded;
  }

  pub keep_promise-Inv : (t : ResponseTracker D) → Inv t → Inv (keep_promise t)
  keep_promise-Inv t inv = record {
    failure_iff = inv.failure_iff;
    activated_open = inv.activated_open;
    waiting = inv.waiting;
    promised = λ p. cc;
    chunks_bounded = inv.chunks_bounded;
    chars_exact = inv.chars_exact;
    chars_bounded = inv.chars_bounded;
  }

  pub complete_activation-Inv :
      (request : Text) (buffered : Option Text) (t : ResponseTracker D)
      → t.promise_outstanding ≡ false
      → Inv t
      → Inv (complete_activation codec request buffered t)
  unfolding complete_activation
  complete_activation-Inv request buffered t kept inv =
      if_cases Inv (not (is_current request t)) (λ h. inv)
        (λ here.
          if_cases Inv (is_failed t.lifecycle)
            (λ h. record {
              failure_iff = inv.failure_iff;
              activated_open = inv.activated_open;
              waiting = λ p. cc;
              promised = inv.promised;
              chunks_bounded = inv.chunks_bounded;
              chars_exact = inv.chars_exact;
              chars_bounded = inv.chars_bounded;
            })
            (λ fine.
              consume_held-Inv codec (consume_buffered codec buffered (activate t))
                (consume_buffered-live buffered (activate t) refl)
                (consume_buffered-Inv buffered (activate t) refl (activate-Inv t kept fine inv))))
