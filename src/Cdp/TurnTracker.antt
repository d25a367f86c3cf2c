-- ===== src/Cdp/TurnTracker.antt =====
-- cdp/CdpTurnObservationTracker.ts, with `classifyTurnRequest` and `isSuccessfulHttpStatus` of
-- cdp/ChromeRemoteInterfaceHelpers.ts. A handle is a number that is not given out twice, and the
-- parser of URLs is a parameter.
pub mod Requests
pub mod Write
pub mod Events
pub mod History
pub mod Steps
pub mod Finished
pub mod Handles
use threadwire.Prelude.{
  ℕ, ◌+◌, Bool, true, false, not, ◌&&◌, ◌||◌, Option, none, some, List, [], ◌∷◌, Text, text, ◌==◌,
  nat_eq, text_eq, bool_eq, ltb, leb, if◌then◌else◌, is_the, is_some,
}
use threadwire.Domain.Identity.{Url, chatgpt_origin}
use threadwire.Response.Consumer.{Consumer, StreamEvent}
use threadwire.Cdp.ResponseTracker as Stream
use threadwire.Cdp.ResponseTracker.{
  Codec, Lifecycle, StreamFailure, incomplete, StreamCall, ResponseTracker, new_response_tracker,
}

pub data TurnRequestKind : Type 0 where
  prepare write : TurnRequestKind

abbrev pub kind_of_url : Url → Option TurnRequestKind
kind_of_url url =
    if not (url.origin == chatgpt_origin)
    then none
    else if url.pathname == text "/backend-api/f/conversation/prepare"
    then some prepare
    else if url.pathname == text "/backend-api/f/conversation"
    then some write
    else none

abbrev pub kind_of_parsed : Option Url → Option TurnRequestKind
kind_of_parsed none = none
kind_of_parsed (some url) = kind_of_url url

unfoldable pub classify_turn_request :
    (Text → Option Url) → Text → Option Text → Option TurnRequestKind
classify_turn_request parse_url raw_url method =
    if is_the ◌==◌ method (text "POST") then kind_of_parsed (parse_url raw_url) else none

unfoldable pub is_successful_http_status : ℕ → Bool
is_successful_http_status status = leb 200 status && ltb status 300

pub data WriteLifecycle : Type 0 where
  active finished write_failed : WriteLifecycle

pub record Observation (D : Type 0) : Type 0 where
  pub handle : ℕ
  pub prepare_count : ℕ
  pub write_request_id : Option Text
  pub successful_response_observed : Option Bool
  pub selected_leg_redirected : Bool
  pub write_lifecycle : Option WriteLifecycle
  pub ambiguous_write : Bool
  pub response : Option (ResponseTracker D)

pub record TurnTracker (D : Type 0) : Type 0 where
  pub current : Option (Observation D)
  pub next_handle : ℕ

abbrev pub is_active : Option WriteLifecycle → Bool
is_active (some active) = true
is_active _ = false

pub record Snapshot : Type 0 where
  pub prepared : ℕ
  pub written : Option WriteLifecycle
  pub streamed : Option (Lifecycle × Option StreamFailure)

abbrev pub written_of : Option Text → Option WriteLifecycle → Option WriteLifecycle
written_of none l = none
written_of (some request) l = l

abbrev pub is_write_failed : WriteLifecycle → Bool
is_write_failed write_failed = true
is_write_failed _ = false

module _ {D : Type 0} where
  unfoldable pub new_turn_tracker : TurnTracker D
  new_turn_tracker = record { current = none; next_handle = 0 }

  abbrev pub new_observation : ℕ → Option (ResponseTracker D) → Observation D
  new_observation handle response = record {
    handle = handle;
    prepare_count = 0;
    write_request_id = none;
    successful_response_observed = none;
    selected_leg_redirected = false;
    write_lifecycle = none;
    ambiguous_write = false;
    response = response;
  }

  -- `none` if an observation is active: the source throws.
  unfoldable pub arm_turn_observation :
      Bool → Bool → Consumer D → TurnTracker D → Option (ℕ × TurnTracker D)
  arm_turn_observation response_stream data_available consumer t =
      if is_some t.current
      then none
      else some (
        t.next_handle,
        record {
          current = some (
              new_observation t.next_handle (
                if response_stream
                then some (new_response_tracker data_available consumer)
                else none));
          next_handle = t.next_handle + 1;
        },
      )

  abbrev pub owned : ℕ → Option (Observation D) → Option (Observation D)
  owned handle none = none
  owned handle (some o) = if o.handle == handle then some o else none

  -- `require`, which throws where this is `none`
  unfoldable pub require : ℕ → TurnTracker D → Option (Observation D)
  require handle t = owned handle t.current

  abbrev pub streamed_of : Option (ResponseTracker D) → Option (Lifecycle × Option StreamFailure)
  streamed_of none = none
  streamed_of (some r) = some (r.lifecycle, r.failure)

  abbrev pub snapshot_of : Option (Observation D) → Option Snapshot
  snapshot_of none = none
  snapshot_of (some o) =
      if o.ambiguous_write
      then none
      else some record {
        prepared = o.prepare_count;
        written = written_of o.write_request_id o.write_lifecycle;
        streamed = streamed_of o.response;
      }

  -- `none` if the handle is not active or the write has become ambiguous: the source throws.
  unfoldable pub get_turn_observation : ℕ → TurnTracker D → Option Snapshot
  unfolding require
  get_turn_observation handle t = snapshot_of (require handle t)

  abbrev pub map_response :
      (ResponseTracker D → ResponseTracker D)
      → Option (ResponseTracker D)
      → Option (ResponseTracker D)
  map_response f none = none
  map_response f (some r) = some (f r)

  -- `observation.response?.f()`
  abbrev pub with_response : (ResponseTracker D → ResponseTracker D) → Observation D → Observation D
  with_response f o = record o { response = map_response f o.response }

  abbrev pub map_current :
      (Observation D → Observation D) → Option (Observation D) → Option (Observation D)
  map_current f none = none
  map_current f (some o) = some (f o)

  -- A change of the active observation.
  abbrev pub on_current : (Observation D → Observation D) → TurnTracker D → TurnTracker D
  on_current f t = record t { current = map_current f t.current }

  abbrev pub drain_response :
      Option (ResponseTracker D) → Option (ResponseTracker D) × List StreamEvent
  drain_response none = (none, [])
  drain_response (some r) = (some (Stream.drain r).0, (Stream.drain r).1)

  abbrev pub take_from :
      Option (Observation D) → TurnTracker D → Option (TurnTracker D × List StreamEvent)
  take_from none t = none
  take_from (some o) t = some (
    record t { current = some (record o { response = (drain_response o.response).0 }) },
    (drain_response o.response).1,
  )

  unfoldable pub take_turn_response_events :
      ℕ → TurnTracker D → Option (TurnTracker D × List StreamEvent)
  unfolding require
  take_turn_response_events handle t = take_from (require handle t) t

  abbrev pub discard_from : Option (Observation D) → TurnTracker D → Option (TurnTracker D)
  discard_from none t = none
  discard_from (some o) t = some (record t { current = some (with_response Stream.discard o) })

  unfoldable pub discard_turn_response : ℕ → TurnTracker D → Option (TurnTracker D)
  unfolding require
  discard_turn_response handle t = discard_from (require handle t) t

  -- The response of the released observation is disposed and then out of reach.
  unfoldable pub release_turn_observation : ℕ → TurnTracker D → TurnTracker D
  unfolding require
  release_turn_observation handle t =
      if is_some (require handle t) then record t { current = none } else t

  unfoldable pub dispose : TurnTracker D → TurnTracker D
  dispose t = record t { current = none }

  abbrev pub become_ambiguous : Observation D → Observation D
  become_ambiguous o = with_response Stream.dispose (record o { ambiguous_write = true })

  -- A request with the id of the write: the next leg of a redirect, or a reuse of the id.
  unfoldable pub repeat_write : Bool → Observation D → Observation D
  repeat_write redirected o =
      if not (is_active o.write_lifecycle) || not redirected
      then become_ambiguous o
      else with_response (Stream.fail incomplete)
          (record o { selected_leg_redirected = true; successful_response_observed = some false })

  unfoldable pub first_request : Text → Option TurnRequestKind → Observation D → Observation D
  first_request request none o = o
  first_request request (some prepare) o = record o { prepare_count = o.prepare_count + 1 }
  first_request request (some write) o =
      if is_some o.write_request_id
      then become_ambiguous o
      else with_response (Stream.select request) (record o {
        write_request_id = some request;
        successful_response_observed = none;
        selected_leg_redirected = false;
        write_lifecycle = some active;
      })

  unfoldable pub see_request :
      (Text → Option Url) → Text → Text → Option Text → Bool → Observation D → Observation D
  unfolding repeat_write first_request
  see_request parse_url request raw_url method redirected o =
      if is_the ◌==◌ o.write_request_id request
      then repeat_write redirected o
      else first_request request (classify_turn_request parse_url raw_url method) o

  unfoldable pub see_response : Text → ℕ → StreamCall → Observation D → Observation D
  see_response request status call o =
      if not (is_the ◌==◌ o.write_request_id request)
        || not (is_active o.write_lifecycle)
        || o.selected_leg_redirected
      then o
      else if is_successful_http_status status
      then with_response (Stream.begin request call)
          (record o { successful_response_observed = some true })
      else record o { successful_response_observed = some false }

  abbrev pub settled_lifecycle : Bool → Observation D → WriteLifecycle
  settled_lifecycle has_failed o =
      if has_failed
        || o.selected_leg_redirected
        || not (is_the ◌==◌ o.successful_response_observed true)
      then write_failed
      else finished

module _ {D : Type 0} (codec : Codec D) where
  unfoldable pub see_settled : Text → Bool → Observation D → Observation D
  see_settled request has_failed o =
      let l = settled_lifecycle has_failed o in
      if not (is_the ◌==◌ o.write_request_id request) || not (is_active o.write_lifecycle)
      then o
      else with_response
          (Stream.on_transport_settled codec request (has_failed || is_write_failed l))
          (record o { write_lifecycle = some l })

-- The network events of a session and the end of the stream's promise.
pub data NetworkEvent : Type 0 where
  request_will_be_sent : Text → Text → Option Text → Bool → NetworkEvent
  response_received : Text → ℕ → StreamCall → NetworkEvent
  data_received : Text → Option Text → NetworkEvent
  request_settled : Text → Bool → NetworkEvent
  stream_ended : Stream.Call → NetworkEvent

module _ {D : Type 0} (codec : Codec D) (parse_url : Text → Option Url) where
  unfoldable pub see : NetworkEvent → Observation D → Observation D
  unfolding see_request see_response see_settled
  see (request_will_be_sent request raw_url method redirected) o =
      see_request parse_url request raw_url method redirected o
  see (response_received request status call) o = see_response request status call o
  see (data_received request chunk) o = with_response (Stream.on_data codec request chunk) o
  see (request_settled request has_failed) o = see_settled codec request has_failed o
  see (stream_ended call) o = with_response (λ r. Stream.after_call codec r call) o

  unfoldable pub see_all : List NetworkEvent → Observation D → Observation D
  see_all [] o = o
  see_all (e ∷ es) o = see_all es (see e o)

  -- The handler of an event, which does nothing when no observation is active.
  unfoldable pub on_event : NetworkEvent → TurnTracker D → TurnTracker D
  on_event e t = on_current (see e) t
