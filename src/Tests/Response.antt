-- ===== src/Tests/Response.antt =====
-- The stream consumer and its tracker, with a text that decodes to itself.
use threadwire.Prelude.{arith, ◌≡◌, refl, none, some, List, [], ◌∷◌, Text, text, true, false}
use threadwire.Response.Json.{null}
use threadwire.Response.Consumer.{Consumer, default_limits, new_consumer}
use threadwire.Response.Consumer.{
  push_decoded, consume_lines, consume_line, assert_pending_text_bound, split_at, strip_cr,
}
use threadwire.Response.Consumer.Chunks.{with_buffer}
use threadwire.Response.Consumer.Chunks.Fuel.{lines-fuel}
use threadwire.Response.Consumer.Chunks.Split.{push_decoded-cut}
use threadwire.Response.Consumer.Bounds.{Inv}
use threadwire.Response.Consumer.Runs.{
  Method, pushes, finishes, drains, after_methods, after_methods-bounded,
}
use threadwire.Cdp.ResponseTracker.{
  Codec, new_response_tracker, Call, selects, begins, receives, settles, activates, fails,
  returns_promise, after_calls, after_call, select, fail, stream_overflow,
}
use threadwire.Cdp.ResponseTracker.Parts as Parts
use threadwire.Cdp.ResponseTracker.Reachable.{tracker-Inv}
use threadwire.Cdp.ResponseTracker.Terminal.{terminal-final}

abbrev plain : Codec (Unit {0})
plain = record {
  parse_json = λ s. some null;
  decode = λ d s. (tt, some s);
  flush = λ d. (tt, some []);
}

abbrev empty_consumer : Consumer (Unit {0})
empty_consumer = new_consumer default_limits tt

abbrev methods : List Method
methods = pushes (text "data") ∷ drains ∷ finishes ∷ []

after_methods-bounded_example :
    Inv (after_methods plain.parse_json plain.decode plain.flush empty_consumer methods)
after_methods-bounded_example =
    after_methods-bounded plain.parse_json plain.decode plain.flush default_limits tt methods

lines-fuel_example :
    consume_lines plain.parse_json 3 (with_buffer (58 ∷ 10 ∷ []) empty_consumer)
    ≡ consume_lines plain.parse_json 7 (with_buffer (58 ∷ 10 ∷ []) empty_consumer)
lines-fuel_example =
    lines-fuel plain.parse_json 3 7 (58 ∷ 10 ∷ []) empty_consumer refl (omega arith) (omega arith)

-- A comment that is cut in two.
push_decoded-cut_example :
    (e : Consumer (Unit {0})) × (push_decoded plain.parse_json (text ":x") empty_consumer
      ≡ (e, none))
    × (push_decoded plain.parse_json (121 ∷ 10 ∷ []) e ≡ (empty_consumer, none))
unfolding push_decoded consume_lines consume_line assert_pending_text_bound split_at strip_cr
push_decoded-cut_example =
    push_decoded-cut plain.parse_json (text ":x") (121 ∷ 10 ∷ []) empty_consumer empty_consumer refl
      refl

abbrev request : Text
request = text "r"

abbrev calls : List Call
calls =
    selects request
    ∷ begins request returns_promise
    ∷ receives request (some (text "data"))
    ∷ activates request none
    ∷ settles request false
    ∷ []

tracker-Inv_example : Parts.Inv (after_calls plain (new_response_tracker true empty_consumer) calls)
tracker-Inv_example = tracker-Inv plain true empty_consumer calls

abbrev failing : List Call
failing = selects request ∷ fails stream_overflow ∷ []

terminal-final_example :
    (after_calls plain
      (after_calls plain (new_response_tracker true empty_consumer) failing)
      calls).lifecycle
    ≡ (after_calls plain (new_response_tracker true empty_consumer) failing).lifecycle
unfolding after_calls after_call select fail
terminal-final_example = terminal-final plain true empty_consumer failing calls refl
