-- ===== src/Cdp/ResponseTracker/Terminal.antt =====
-- COMPLETED and FAILED are final.
use threadwire.Prelude.{
  ◌≡◌, refl, Bool, true, false, not, ◌&&◌, ◌||◌, Option, none, some, List, [], ◌∷◌, Text, is_some,
  arith, if_cases, subst, sym, ◌∙◌,
}
use threadwire.Response.Consumer.{Consumer}
use threadwire.Cdp.ResponseTracker.{
  Codec, Lifecycle, pending, streaming, completed, failed, StreamFailure, incomplete,
  activation_failed, ResponseTracker, new_response_tracker, is_completed, is_failed, is_pending,
  is_streaming, is_current, is_terminal, select, fail, begin, StreamCall, discard, dispose, drain,
  on_chunk, on_data, on_transport_settled, complete_activation, activation_rejected, keep_promise,
  Call, selects, begins, receives, settles, fails, drains, discards, disposes, activates, rejects,
  after_call, after_calls,
}
use threadwire.Cdp.ResponseTracker.Parts.{Inv, new-Inv}
use threadwire.Cdp.ResponseTracker.Reachable.{after_call-Inv, after_calls-Inv}

terminal-failed :
    (l : Lifecycle) → (is_failed l || is_completed l) ≡ true → is_completed l ≡ false → failed ≡ l
terminal-failed pending p q = cc
terminal-failed streaming p q = cc
terminal-failed completed p q = cc
terminal-failed failed p q = refl

terminal-streaming :
    (l : Lifecycle) → (is_failed l || is_completed l) ≡ true → is_streaming l ≡ false
terminal-streaming pending p = cc
terminal-streaming streaming p = cc
terminal-streaming completed p = refl
terminal-streaming failed p = refl

terminal-pending : (l : Lifecycle) → (is_failed l || is_completed l) ≡ true → is_pending l ≡ false
terminal-pending pending p = cc
terminal-pending streaming p = cc
terminal-pending completed p = refl
terminal-pending failed p = refl

module _ {D : Type 0} where
  -- The lifecycle is still `l`.
  abbrev At : Lifecycle → ResponseTracker D → Type 0
  At l t = t.lifecycle ≡ l

  fail-At :
      (kind : StreamFailure) (t : ResponseTracker D)
      → is_terminal t ≡ true
      → At t.lifecycle (fail kind t)
  unfolding fail
  fail-At kind t ended =
      if_cases (At t.lifecycle) (t.disposed || is_completed t.lifecycle) (λ h. refl)
        (λ h. terminal-failed t.lifecycle ended (ground arith))

  begin-At :
      (request : Text) (call : StreamCall) (t : ResponseTracker D)
      → is_terminal t ≡ true
      → At t.lifecycle (begin request call t)
  unfolding begin
  begin-At request call t ended =
      if_cases (At t.lifecycle)
        (not (is_current request t)
          || not (is_pending t.lifecycle)
          || t.activation_pending
          || t.activated)
        (λ h. refl) (λ h. absurd (ground (arith, terminal-pending t.lifecycle ended)))

  discard-At : (t : ResponseTracker D) → is_terminal t ≡ true → At t.lifecycle (discard t)
  unfolding discard
  discard-At t ended =
      if_cases (At t.lifecycle) t.disposed (λ h. refl)
        (λ h.
          if_cases (At t.lifecycle) (is_completed t.lifecycle) (λ h. refl)
            (λ h. terminal-failed t.lifecycle ended h))

module _ {D : Type 0} (codec : Codec D) where
  on_data-At :
      (request : Text) (chunk : Option Text) (t : ResponseTracker D)
      → is_terminal t ≡ true
      → At t.lifecycle (on_data codec request chunk t)
  unfolding on_data on_chunk
  on_data-At request none t ended = refl
  on_data-At request (some chunk) t ended =
      if_cases (At t.lifecycle) (not (is_current request t) || is_terminal t) (λ h. refl)
        (λ h. absurd (ground arith))

  on_transport_settled-At :
      (request : Text) (has_failed : Bool) (t : ResponseTracker D)
      → is_terminal t ≡ true
      → At t.lifecycle (on_transport_settled codec request has_failed t)
  unfolding on_transport_settled
  on_transport_settled-At request has_failed t ended =
      if_cases (At t.lifecycle) (not (is_current request t) || is_completed t.lifecycle) (λ h. refl)
        (λ here.
          if_cases (At t.lifecycle) has_failed (λ h. fail-At incomplete t ended)
            (λ h.
              if_cases (At t.lifecycle) t.activation_pending (λ h. refl)
                (λ h.
                  if_cases (At t.lifecycle) (is_streaming t.lifecycle)
                    (λ live. absurd (ground (arith, terminal-streaming t.lifecycle ended)))
                    (λ h.
                      if_cases (At t.lifecycle) (is_pending t.lifecycle)
                        (λ h. fail-At incomplete t ended) (λ h. refl)))))

  complete_activation-At :
      (request : Text) (buffered : Option Text) (t : ResponseTracker D)
      → is_failed t.lifecycle ≡ true
      → At t.lifecycle (complete_activation codec request buffered t)
  unfolding complete_activation
  complete_activation-At request buffered t ended =
      if_cases (At t.lifecycle) (not (is_current request t)) (λ h. refl)
        (λ h.
          if_cases (At t.lifecycle) (is_failed t.lifecycle) (λ h. refl)
            (λ h. absurd (ground arith)))

  after_call-At :
      (t : ResponseTracker D) (c : Call)
      → Inv t
      → is_terminal t ≡ true
      → At t.lifecycle (after_call codec t c)
  unfolding after_call select drain dispose activation_rejected
  after_call-At t (selects request) inv ended =
      if_cases (At t.lifecycle) (not t.disposed && not (is_some t.selected_request_id)) (λ h. refl)
        (λ h. refl)
  after_call-At t (begins request call) inv ended = begin-At request call t ended
  after_call-At t (receives request chunk) inv ended = on_data-At request chunk t ended
  after_call-At t (settles request has_failed) inv ended =
      on_transport_settled-At request has_failed t ended
  after_call-At t (fails kind) inv ended = fail-At kind t ended
  after_call-At t drains inv ended = refl
  after_call-At t discards inv ended = discard-At t ended
  after_call-At t disposes inv ended = refl
  after_call-At t (activates request buffered) inv ended =
      if_cases (At t.lifecycle) t.promise_outstanding
        (λ h.
          complete_activation-At request buffered (keep_promise t)
            (ground (arith, inv.promised h, terminal-pending t.lifecycle ended)))
        (λ h. refl)
  after_call-At t (rejects request) inv ended =
      if_cases (At t.lifecycle) t.promise_outstanding
        (λ h.
          if_cases (At t.lifecycle) (is_current request t)
            (λ h. fail-At activation_failed (keep_promise t) ended) (λ h. refl))
        (λ h. refl)

  after_calls-At :
      (t : ResponseTracker D) (cs : List Call)
      → Inv t
      → is_terminal t ≡ true
      → At t.lifecycle (after_calls codec t cs)
  unfolding after_calls
  after_calls-At t [] inv ended = refl
  after_calls-At t (c ∷ cs) inv ended =
      let same = after_call-At t c inv ended in
      after_calls-At (after_call codec t c) cs (after_call-Inv codec t c inv)
        (subst (λ l. (is_failed l || is_completed l) ≡ true) (sym same) ended)
      ∙ same

  -- Once any calls on a new tracker have brought its stream to COMPLETED or FAILED, no further calls
  -- change the lifecycle.
  pub terminal-final :
      (available : Bool) (consumer : Consumer D) (before after : List Call)
      → is_terminal (after_calls codec (new_response_tracker available consumer) before) ≡ true
      → (after_calls codec
          (after_calls codec (new_response_tracker available consumer) before)
          after).lifecycle
        ≡ (after_calls codec (new_response_tracker available consumer) before).lifecycle
  terminal-final available consumer before after ended =
      after_calls-At (after_calls codec (new_response_tracker available consumer) before) after
        (after_calls-Inv codec (new_response_tracker available consumer) before
          (new-Inv available consumer))
        ended
