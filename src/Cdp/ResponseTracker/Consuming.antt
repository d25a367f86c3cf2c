-- ===== src/Cdp/ResponseTracker/Consuming.antt =====
-- Consuming the data of a stream keeps what is true of its tracker.
use threadwire.Prelude.{
  ◌+◌, ◌≡◌, refl, true, false, not, ◌&&◌, ◌||◌, Option, none, some, List, [], ◌∷◌, Text, ltb, leb,
  length, length-append, arith, if_cases,
}
use threadwire.Response.Consumer as Stream
use threadwire.Response.Consumer.{Consumer, Outcome}
use threadwire.Cdp.ResponseTracker.{
  Codec, Lifecycle, pending, streaming, completed, failed, StreamFailure, incomplete,
  stream_overflow, ResponseTracker, is_completed, is_failed, is_pending, is_streaming, is_current,
  is_terminal, fail, after_push, push, consume_with, consume_base64, finish_with, finish_consumer,
  hold, on_chunk, consume_each, clear_live, consume_held, max_pending_live_chunks,
  max_pending_live_base64_chars, failure_of,
}
use threadwire.Cdp.ResponseTracker.Parts.{
  Inv, total_chars-snoc, fail-Inv, fail-keeps, clear_live-Inv, after_push-Inv, after_finish-Inv,
}

pub still-streaming :
    (l : Lifecycle)
    → is_pending l ≡ false
    → (is_failed l || is_completed l) ≡ false
    → is_streaming l ≡ true
still-streaming pending p q = cc
still-streaming streaming p q = refl
still-streaming completed p q = cc
still-streaming failed p q = cc

pub streaming-NotPending : (l : Lifecycle) → is_streaming l ≡ true → is_pending l ≡ false
streaming-NotPending pending p = cc
streaming-NotPending streaming p = refl
streaming-NotPending completed p = cc
streaming-NotPending failed p = cc

abbrev pub NotPending : {D : Type 0} → ResponseTracker D → Type 0
NotPending t = is_pending t.lifecycle ≡ false

pub fail-NotPending :
    {D : Type 0} (kind : StreamFailure) (t : ResponseTracker D)
    → NotPending t
    → NotPending (fail kind t)
unfolding fail
fail-NotPending kind t p =
    if_cases NotPending (t.disposed || is_completed t.lifecycle) (λ h. p) (λ h. refl)

pub after_push-NotPending :
    {D : Type 0} (r : Outcome D) (t : ResponseTracker D)
    → NotPending t
    → NotPending (after_push r t)
after_push-NotPending (c, none) t p = if_cases NotPending c.completed (λ h. refl) (λ h. p)
after_push-NotPending (c, some f) t p =
    fail-NotPending (failure_of f) (record t { consumer = some c }) p

module _ {D : Type 0} (codec : Codec D) where
  consume_with-Inv :
      (o : Option (Consumer D)) (chunk : Text) (t : ResponseTracker D)
      → is_streaming t.lifecycle ≡ true
      → Inv t
      → Inv (consume_with codec chunk o t)
  unfolding consume_with
  consume_with-Inv none chunk t live inv = inv
  consume_with-Inv (some c) chunk t live inv = after_push-Inv (push codec chunk c) t live inv

  pub consume_base64-Inv :
      (chunk : Text) (t : ResponseTracker D)
      → is_streaming t.lifecycle ≡ true
      → Inv t
      → Inv (consume_base64 codec chunk t)
  unfolding consume_base64
  consume_base64-Inv chunk t live inv = consume_with-Inv t.consumer chunk t live inv

  finish_with-Inv :
      (o : Option (Consumer D)) (t : ResponseTracker D)
      → is_streaming t.lifecycle ≡ true
      → Inv t
      → Inv (finish_with codec o t)
  unfolding finish_with
  finish_with-Inv none t live inv = fail-keeps incomplete t inv
  finish_with-Inv (some c) t live inv =
      after_finish-Inv (Stream.finish codec.parse_json codec.flush c) t live inv

  pub finish_consumer-Inv :
      (t : ResponseTracker D)
      → is_streaming t.lifecycle ≡ true
      → Inv t
      → Inv (finish_consumer codec t)
  unfolding finish_consumer
  finish_consumer-Inv t live inv = finish_with-Inv t.consumer t live inv

  consume_with-NotPending :
      (o : Option (Consumer D)) (chunk : Text) (t : ResponseTracker D)
      → NotPending t
      → NotPending (consume_with codec chunk o t)
  unfolding consume_with
  consume_with-NotPending none chunk t p = p
  consume_with-NotPending (some c) chunk t p = after_push-NotPending (push codec chunk c) t p

  pub consume_base64-live :
      (chunk : Text) (t : ResponseTracker D)
      → is_streaming t.lifecycle ≡ true
      → is_terminal (consume_base64 codec chunk t) ≡ false
      → is_streaming (consume_base64 codec chunk t).lifecycle ≡ true
  unfolding consume_base64
  consume_base64-live chunk t live going =
      still-streaming (consume_with codec chunk t.consumer t).lifecycle
        (consume_with-NotPending t.consumer chunk t (streaming-NotPending t.lifecycle live)) going

  pub consume_each-Inv :
      (chunks : List Text) (t : ResponseTracker D)
      → is_streaming t.lifecycle ≡ true
      → Inv t
      → Inv (consume_each codec chunks t)
  unfolding consume_each
  consume_each-Inv [] t live inv = inv
  consume_each-Inv (chunk ∷ chunks) t live inv =
      let next = consume_base64-Inv chunk t live inv in
      if_cases Inv (is_terminal (consume_base64 codec chunk t)) (λ ended. next)
        (λ going.
          consume_each-Inv chunks (consume_base64 codec chunk t)
            (consume_base64-live chunk t live going) next)

  pub consume_held-Inv :
      (t : ResponseTracker D)
      → (is_terminal t ≡ false → is_streaming t.lifecycle ≡ true)
      → Inv t
      → Inv (consume_held codec t)
  unfolding consume_held
  consume_held-Inv t live inv =
      if_cases Inv (is_terminal t) (λ ended. clear_live-Inv t inv)
        (λ going.
          let each =
            consume_each-Inv t.live_data (clear_live t) (live going) (clear_live-Inv t inv) in
          let done = consume_each codec t.live_data (clear_live t) in
          if_cases Inv (done.settled_while_pending && is_streaming done.lifecycle)
            (λ settled. finish_consumer-Inv done (ground arith) each) (λ waits. each))

  pub hold-Inv :
      (chunk : Text) (t : ResponseTracker D)
      → (t.disposed || is_completed t.lifecycle) ≡ false
      → Inv t
      → Inv (hold chunk t)
  unfolding hold
  hold-Inv chunk t still inv =
      if_cases Inv (leb max_pending_live_chunks (length t.live_data))
        (λ full. fail-Inv stream_overflow t still)
        (λ room.
          if_cases Inv (ltb max_pending_live_base64_chars (t.live_chars + length chunk))
            (λ long.
              fail-Inv stream_overflow (record t { live_chars = t.live_chars + length chunk })
                still)
            (λ fits. record {
              failure_iff = inv.failure_iff;
              activated_open = inv.activated_open;
              waiting = inv.waiting;
              promised = inv.promised;
              chunks_bounded = let h = length-append t.live_data (chunk ∷ []) in ground arith;
              chars_exact =
                  let h = total_chars-snoc t.live_data chunk in
                  let e = inv.chars_exact in omega arith;
              chars_bounded = ground arith;
            }))

  pub on_chunk-Inv :
      (request chunk : Text) (t : ResponseTracker D) → Inv t → Inv (on_chunk codec request chunk t)
  unfolding on_chunk
  on_chunk-Inv request chunk t inv =
      if_cases Inv (not (is_current request t) || is_terminal t) (λ h. inv)
        (λ here.
          if_cases Inv (t.activation_pending && not t.activated)
            (λ h. hold-Inv chunk t (ground arith) inv)
            (λ h.
              if_cases Inv t.activated
                (λ on.
                  consume_base64-Inv chunk t
                    (ground (arith, still-streaming t.lifecycle, inv.activated_open on)) inv)
                (λ off. inv)))
