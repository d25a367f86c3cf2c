-- ===== src/Cdp/ResponseTracker.antt =====
-- cdp/CdpResponseStreamTracker.ts. The text decoder and `JSON.parse` are a `Codec`, and the call of
-- `streamResourceContent` is an event with what it did at once; its promise's end is an event too.
pub mod Parts
pub mod Consuming
pub mod Activation
pub mod Reachable
pub mod Terminal
use threadwire.Prelude.{
  ℕ, ◌+◌, ◌≤◌, Bool, true, false, not, ◌&&◌, ◌||◌, Option, none, some, List, [], ◌∷◌, ◌++◌, Text,
  ◌==◌, text_eq, ltb, leb, if◌then◌else◌, length, is_the, is_some,
}
use threadwire.Response.Json.{Json}
use threadwire.Response.Consumer as Stream
use threadwire.Response.Consumer.{
  Consumer, Outcome, FailureKind, parse_failed, buffer_overflow, StreamEvent,
}

-- What the consumer uses of the platform.
pub record Codec (D : Type 0) : Type 0 where
  pub parse_json : Text → Option Json
  pub decode : D → Text → D × Option Text
  pub flush : D → D × Option Text

pub data Lifecycle : Type 0 where
  pending streaming completed failed : Lifecycle

pub data StreamFailure : Type 0 where
  unavailable activation_failed stream_parse_failed incomplete stream_overflow consumer_stopped :
      StreamFailure

pub record ResponseTracker (D : Type 0) : Type 0 where
  pub data_observation_available : Bool
  pub selected_request_id : Option Text
  pub lifecycle : Lifecycle
  pub failure : Option StreamFailure
  pub consumer : Option (Consumer D)
  pub activation_pending : Bool
  pub activated : Bool
  pub settled_while_pending : Bool
  pub live_data : List Text
  pub live_chars : ℕ
  pub disposed : Bool
  -- whether the promise of `streamResourceContent` has still to end
  pub promise_outstanding : Bool

abbrev pub max_pending_live_base64_chars : ℕ
max_pending_live_base64_chars = 2796204

abbrev pub max_pending_live_chunks : ℕ
max_pending_live_chunks = 1024

abbrev pub new_response_tracker : {D : Type 0} → Bool → Consumer D → ResponseTracker D
new_response_tracker available consumer = record {
  data_observation_available = available;
  selected_request_id = none;
  lifecycle = pending;
  failure = none;
  consumer = some consumer;
  activation_pending = false;
  activated = false;
  settled_while_pending = false;
  live_data = [];
  live_chars = 0;
  disposed = false;
  promise_outstanding = false;
}

-- What `streamResourceContent` does when it is called: it is not there, throws, or returns a promise.
pub data StreamCall : Type 0 where
  not_a_function throws returns_promise : StreamCall

abbrev pub failure_of : FailureKind → StreamFailure
failure_of parse_failed = stream_parse_failed
failure_of buffer_overflow = stream_overflow

abbrev pub is_completed : Lifecycle → Bool
is_completed completed = true
is_completed _ = false

abbrev pub is_failed : Lifecycle → Bool
is_failed failed = true
is_failed _ = false

abbrev pub is_pending : Lifecycle → Bool
is_pending pending = true
is_pending _ = false

abbrev pub is_streaming : Lifecycle → Bool
is_streaming streaming = true
is_streaming _ = false

module _ {D : Type 0} where
  abbrev pub is_current : Text → ResponseTracker D → Bool
  is_current request t = not t.disposed && is_the ◌==◌ t.selected_request_id request

  abbrev pub is_terminal : ResponseTracker D → Bool
  is_terminal t = is_failed t.lifecycle || is_completed t.lifecycle

  abbrev pub stop_consumer : Option (Consumer D) → Option (Consumer D)
  stop_consumer none = none
  stop_consumer (some c) = some (Stream.stop c)

  unfoldable pub select : Text → ResponseTracker D → ResponseTracker D
  select request t =
      if not t.disposed && not (is_some t.selected_request_id)
      then record t { selected_request_id = some request }
      else t

  unfoldable pub fail : StreamFailure → ResponseTracker D → ResponseTracker D
  fail kind t = if t.disposed || is_completed t.lifecycle then t else record t {
    lifecycle = failed;
    failure = some kind;
    consumer = stop_consumer t.consumer;
    activation_pending = false;
    activated = false;
    live_data = [];
    live_chars = 0;
  }

  abbrev pub call_stream : StreamCall → ResponseTracker D → ResponseTracker D
  call_stream not_a_function t = fail unavailable t
  call_stream throws t = fail activation_failed (record t { activation_pending = true })
  call_stream returns_promise t = record t { activation_pending = true; promise_outstanding = true }

  unfoldable pub begin : Text → StreamCall → ResponseTracker D → ResponseTracker D
  unfolding fail
  begin request call t =
      if not (is_current request t)
        || not (is_pending t.lifecycle)
        || t.activation_pending
        || t.activated
      then t
      else if not t.data_observation_available
      then fail unavailable t
      else call_stream call t

  abbrev pub complete : ResponseTracker D → ResponseTracker D
  complete t = record t { lifecycle = completed; failure = none }

  abbrev pub after_push : Outcome D → ResponseTracker D → ResponseTracker D
  after_push (c, none) t =
      if c.completed
      then complete (record t { consumer = some c; live_data = []; live_chars = 0 })
      else record t { consumer = some c }
  after_push (c, some f) t = fail (failure_of f) (record t { consumer = some c })

  abbrev pub after_finish : Outcome D → ResponseTracker D → ResponseTracker D
  after_finish (c, none) t =
      if c.completed
      then complete (record t { consumer = some c })
      else fail incomplete (record t { consumer = some c })
  after_finish (c, some f) t = fail (failure_of f) (record t { consumer = some c })

  unfoldable pub discard : ResponseTracker D → ResponseTracker D
  discard t =
      if t.disposed
      then t
      else let quiet = record t {
        consumer = none;
        activation_pending = false;
        activated = false;
        live_data = [];
        live_chars = 0;
      } in
        if is_completed t.lifecycle
        then quiet
        else record quiet { lifecycle = failed; failure = some consumer_stopped }

  unfoldable pub dispose : ResponseTracker D → ResponseTracker D
  dispose t = record t {
    disposed = true;
    selected_request_id = none;
    consumer = none;
    activation_pending = false;
    activated = false;
    live_data = [];
    live_chars = 0;
  }

  abbrev pub drain_of : Option (Consumer D) → Option (Consumer D) × List StreamEvent
  drain_of none = (none, [])
  drain_of (some c) = (some (Stream.drain c).0, (Stream.drain c).1)

  unfoldable pub drain : ResponseTracker D → ResponseTracker D × List StreamEvent
  drain t = (record t { consumer = (drain_of t.consumer).0 }, (drain_of t.consumer).1)

  unfoldable pub hold : Text → ResponseTracker D → ResponseTracker D
  unfolding fail
  hold chunk t =
      let counted = record t { live_chars = t.live_chars + length chunk } in
      if leb max_pending_live_chunks (length t.live_data)
      then fail stream_overflow t
      else if ltb max_pending_live_base64_chars counted.live_chars
      then fail stream_overflow counted
      else record counted { live_data = t.live_data ++ chunk ∷ [] }

  abbrev pub clear_live : ResponseTracker D → ResponseTracker D
  clear_live t = record t { live_data = []; live_chars = 0 }

  abbrev pub activate : ResponseTracker D → ResponseTracker D
  activate t = record t { activation_pending = false; activated = true; lifecycle = streaming }

  unfoldable pub activation_rejected : Text → ResponseTracker D → ResponseTracker D
  unfolding fail
  activation_rejected request t = if is_current request t then fail activation_failed t else t

  abbrev pub keep_promise : ResponseTracker D → ResponseTracker D
  keep_promise t = record t { promise_outstanding = false }

module _ {D : Type 0} (codec : Codec D) where
  abbrev pub push : Text → Consumer D → Outcome D
  push chunk c = Stream.push_base64 codec.parse_json codec.decode chunk c

  consume_with : Text → Option (Consumer D) → ResponseTracker D → ResponseTracker D
  consume_with chunk none t = t
  consume_with chunk (some c) t = after_push (push chunk c) t

  unfoldable pub consume_base64 : Text → ResponseTracker D → ResponseTracker D
  unfolding consume_with
  consume_base64 chunk t = consume_with chunk t.consumer t

  finish_with : Option (Consumer D) → ResponseTracker D → ResponseTracker D
  finish_with none t = fail incomplete t
  finish_with (some c) t = after_finish (Stream.finish codec.parse_json codec.flush c) t

  unfoldable pub finish_consumer : ResponseTracker D → ResponseTracker D
  unfolding finish_with
  finish_consumer t = finish_with t.consumer t

  unfoldable pub on_chunk : Text → Text → ResponseTracker D → ResponseTracker D
  unfolding hold consume_base64
  on_chunk request chunk t =
      if not (is_current request t) || is_terminal t
      then t
      else if t.activation_pending && not t.activated
      then hold chunk t
      else if t.activated
      then consume_base64 chunk t
      else t

  -- An event whose data is no string is dropped.
  unfoldable pub on_data : Text → Option Text → ResponseTracker D → ResponseTracker D
  unfolding on_chunk
  on_data request none t = t
  on_data request (some chunk) t = on_chunk request chunk t

  unfoldable pub on_transport_settled : Text → Bool → ResponseTracker D → ResponseTracker D
  unfolding finish_consumer
  on_transport_settled request has_failed t =
      if not (is_current request t) || is_completed t.lifecycle
      then t
      else if has_failed
      then fail incomplete t
      else if t.activation_pending
      then record t { settled_while_pending = true }
      else if is_streaming t.lifecycle
      then finish_consumer t
      else if is_pending t.lifecycle
      then fail incomplete t
      else t

  -- The loop over the held chunks, which stops at a terminal lifecycle.
  unfoldable pub consume_each : List Text → ResponseTracker D → ResponseTracker D
  consume_each [] t = t
  consume_each (chunk ∷ chunks) t =
      let next = consume_base64 chunk t in
      let rest = consume_each chunks next in if is_terminal next then next else rest

  -- `completeActivation` from where the buffered data has been consumed
  unfoldable pub consume_held : ResponseTracker D → ResponseTracker D
  consume_held t =
      if is_terminal t
      then clear_live t
      else let done = consume_each t.live_data (clear_live t) in
        if done.settled_while_pending && is_streaming done.lifecycle
        then finish_consumer done
        else done

  abbrev pub consume_buffered : Option Text → ResponseTracker D → ResponseTracker D
  consume_buffered none t = t
  consume_buffered (some []) t = t
  consume_buffered (some (c ∷ chunk)) t = consume_base64 (c ∷ chunk) t

  unfoldable pub complete_activation : Text → Option Text → ResponseTracker D → ResponseTracker D
  complete_activation request buffered t =
      if not (is_current request t)
      then t
      else if is_failed t.lifecycle
      then record t { activation_pending = false }
      else consume_held (consume_buffered buffered (activate t))

-- The calls of the tracker and the end of the promise that it waits for, which comes once.
pub data Call : Type 0 where
  selects : Text → Call
  begins : Text → StreamCall → Call
  receives : Text → Option Text → Call
  settles : Text → Bool → Call
  fails : StreamFailure → Call
  drains discards disposes : Call
  activates : Text → Option Text → Call
  rejects : Text → Call

module _ {D : Type 0} (codec : Codec D) where
  unfoldable pub after_call : ResponseTracker D → Call → ResponseTracker D
  after_call t (selects request) = select request t
  after_call t (begins request call) = begin request call t
  after_call t (receives request chunk) = on_data codec request chunk t
  after_call t (settles request has_failed) = on_transport_settled codec request has_failed t
  after_call t (fails kind) = fail kind t
  after_call t drains = (drain t).0
  after_call t discards = discard t
  after_call t disposes = dispose t
  after_call t (activates request buffered) =
      if t.promise_outstanding
      then complete_activation codec request buffered (keep_promise t)
      else t
  after_call t (rejects request) =
      if t.promise_outstanding then activation_rejected request (keep_promise t) else t

  unfoldable pub after_calls : ResponseTracker D → List Call → ResponseTracker D
  after_calls t [] = t
  after_calls t (c ∷ cs) = after_calls (after_call t c) cs
