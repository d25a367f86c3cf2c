-- ===== src/Tests/Cdp.antt =====
-- The turn observation at concrete network events.
use threadwire.Prelude.{◌≡◌, refl, Option, none, some, List, [], ◌∷◌, Text, text, false, text_beq}
use threadwire.Domain.Identity.{Url, chatgpt_origin}
use threadwire.Response.Json.{null}
use threadwire.Cdp.ResponseTracker.{Codec, returns_promise}
use threadwire.Cdp.TurnTracker.{
  Observation, new_observation, NetworkEvent, request_will_be_sent, response_received,
  request_settled, see, see_all, classify_turn_request, is_successful_http_status, see_request,
  see_response, see_settled, first_request, repeat_write,
}
use threadwire.Cdp.TurnTracker.{
  new_turn_tracker, arm_turn_observation, require, release_turn_observation,
}
use threadwire.Cdp.TurnTracker.Handles.{
  TrackerCall, arms, after_call, after_calls, require-release_turn_observation,
}
use threadwire.Response.Consumer.{Consumer, new_consumer, default_limits}
use threadwire.Cdp.TurnTracker.Requests.{Later}
use threadwire.Cdp.TurnTracker.Write.{observation-Later}
use threadwire.Cdp.TurnTracker.Events.{Succeeded}
use threadwire.Cdp.TurnTracker.Finished.{write-finished}

abbrev plain : Codec (Unit {0})
plain = record {
  parse_json = λ s. some null;
  decode = λ d s. (tt, some s);
  flush = λ d. (tt, some []);
}

abbrev page_url : Text → Option Url
page_url path = some record {
  protocol = text "https:";
  origin = chatgpt_origin;
  username = [];
  password = [];
  hostname = text "chatgpt.com";
  port = [];
  pathname = path;
  search = [];
  hash = [];
  has_query = false;
  has_fragment = false;
}

abbrev write_events : List NetworkEvent
write_events =
    request_will_be_sent (text "p") (text "/backend-api/f/conversation/prepare")
      (some (text "POST")) false
    ∷ request_will_be_sent (text "w") (text "/backend-api/f/conversation") (some (text "POST"))
        false
    ∷ response_received (text "w") 200 returns_promise
    ∷ request_settled (text "w") false
    ∷ []

abbrev watched : Observation (Unit {0})
watched = new_observation 0 none

write-finished_example : Succeeded page_url write_events
unfolding see_all see see_request see_response see_settled first_request repeat_write
    classify_turn_request is_successful_http_status text_beq
write-finished_example = write-finished plain page_url 0 none write_events refl

observation-Later_example :
    Later
      (see_all plain page_url write_events watched)
      (see_all plain page_url write_events (see_all plain page_url write_events watched))
observation-Later_example = observation-Later plain page_url 0 none write_events write_events

abbrev empty_consumer : Consumer (Unit {0})
empty_consumer = new_consumer default_limits tt

-- The next turn gets another handle.
abbrev later_calls : List (TrackerCall (Unit {0}))
later_calls = arms false false empty_consumer ∷ []

require-release_turn_observation_example :
    require 0 (
      after_calls plain page_url
        (release_turn_observation 0 (after_calls plain page_url new_turn_tracker later_calls))
        later_calls)
    ≡ none
unfolding after_calls after_call arm_turn_observation new_turn_tracker require
require-release_turn_observation_example =
    require-release_turn_observation plain page_url later_calls later_calls 0
      (new_observation 0 none) refl
