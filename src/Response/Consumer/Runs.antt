-- ===== src/Response/Consumer/Runs.antt =====
-- The bounds after any sequence of calls.
use threadwire.Prelude.{
  ℕ, zero, suc, refl, Bool, true, false, not, ◌||◌, Option, none, some, List, [], ◌∷◌, ◌++◌, Text,
  text, arith, if_cases, length, ◌==◌, text_eq, ltb,
}
use threadwire.Response.Json.{Json, record_texts}
use threadwire.Response.Consumer.{
  Consumer, Limits, Outcome, parse_failed, StreamEvent, ◌>>=◌, emit_all, assert_pending_text_bound,
  reset_record, stop, dispose, drain, emit_record, dispatch_data, dispatch_record, consume_line,
  consume_lines, push_decoded, finish_buffer, push_result, push_base64, finish, join_lines,
  split_at, strip_cr, is_nil, split_field, new_consumer, event_name_or_message, starts_with_colon,
  is_valid_base64,
}
use threadwire.Response.Consumer.Bounds.{
  Inv, IsOpenStream, Keeps, bind_keeps, new_consumer-Inv, emit_all-open, emit-completed,
  assert_pending-Inv, reset_record-Inv, consume_field-Inv,
}

-- Only the text buffer or the decoder differs.
with_buffer-Inv :
    {D : Type 0} (c : Consumer D) (s : Text) → Inv c → Inv (record c { text_buffer = s })
with_buffer-Inv c s v = record {
  events_bounded = v.events_bounded;
  chars_exact = v.chars_exact;
  chars_bounded = v.chars_bounded;
  lines_bounded = v.lines_bounded;
  pending_exact = v.pending_exact;
  completed_last = v.completed_last;
}

with_decoder-Inv : {D : Type 0} (c : Consumer D) (d : D) → Inv c → Inv (record c { decoder = d })
with_decoder-Inv c d v = record {
  events_bounded = v.events_bounded;
  chars_exact = v.chars_exact;
  chars_bounded = v.chars_bounded;
  lines_bounded = v.lines_bounded;
  pending_exact = v.pending_exact;
  completed_last = v.completed_last;
}

module _ {D : Type 0} (parse_json : Text → Option Json) where
  emit_record-Inv :
      (payload : Text) (c : Consumer D) → IsOpenStream c → Inv (emit_record parse_json payload c).0
  unfolding emit_record
  emit_record-Inv payload c v = go (parse_json payload)
    where
      go :
          (p : Option Json)
          → Inv
              (elim p as (λ _. Outcome D) [
                | none ↦ (c, some parse_failed)
                | some parsed ↦ emit_all (record_texts parsed) c
              ]).0
      go none = v.0
      go (some parsed) = (emit_all-open (record_texts parsed) c v).0

  dispatch_data-Inv :
      (name payload : Text) (c : Consumer D)
      → IsOpenStream c
      → Inv (dispatch_data parse_json name payload c).0
  unfolding dispatch_data
  dispatch_data-Inv name payload c v =
      if_cases (Keeps Inv) (payload == text "[DONE]") (λ _. emit-completed c v)
        λ _.
          if_cases (Keeps Inv) (not (name == text "delta")) (λ _. v.0)
            λ _. emit_record-Inv payload c v

  dispatch_record-Inv : (c : Consumer D) → Inv c → Inv (dispatch_record parse_json c).0
  unfolding dispatch_record
  dispatch_record-Inv c v =
      if_cases (Keeps Inv) (c.completed || is_nil c.data_lines) (λ _. reset_record-Inv c v)
        λ waiting.
          dispatch_data-Inv (event_name_or_message c.event_name) (join_lines c.data_lines)
            (reset_record c) (reset_record-Inv c v, unfold reset_record in ground arith)

  consume_line-Inv : (line : Text) (c : Consumer D) → Inv c → Inv (consume_line parse_json line c).0
  unfolding consume_line
  consume_line-Inv line c v =
      if_cases (Keeps Inv) c.completed (λ _. v)
        λ _.
          if_cases (Keeps Inv) (is_nil line) (λ _. dispatch_record-Inv c v)
            λ _.
              if_cases (Keeps Inv) (starts_with_colon line) (λ _. v)
                λ _. consume_field-Inv (split_field line).0 (split_field line).1 c v

  -- One round of the loop, and the rounds after it.
  consume_lines-Inv : (n : ℕ) (c : Consumer D) → Inv c → Inv (consume_lines parse_json n c).0
  unfolding consume_lines
  consume_lines-Inv zero c v = v
  consume_lines-Inv (suc n) c v = go (consume_lines-Inv n) c.completed (split_at 10 c.text_buffer)
    where
      next :
          ((d : Consumer D) → Inv d → Inv (consume_lines parse_json n d).0)
          → (line rest : Text)
          → Inv
              (consume_line parse_json (strip_cr line) (record c { text_buffer = rest })
                >>= assert_pending_text_bound
                >>= consume_lines parse_json n).0
      next ih line rest =
          bind_keeps Inv
            (consume_line parse_json (strip_cr line) (record c { text_buffer = rest })
              >>= assert_pending_text_bound)
            (consume_lines parse_json n)
            (bind_keeps Inv
              (consume_line parse_json (strip_cr line) (record c { text_buffer = rest }))
              assert_pending_text_bound
              (consume_line-Inv (strip_cr line) (record c { text_buffer = rest })
                (with_buffer-Inv c rest v))
              assert_pending-Inv)
            ih

      go :
          ((d : Consumer D) → Inv d → Inv (consume_lines parse_json n d).0)
          → (done : Bool) (found : Option (Text × Text))
          → Inv
              (elim done as (λ _. Outcome D) [
                | true ↦ (c, none)
                | false ↦ elim found [
                  | none ↦ (c, none)
                  | some (line, rest) ↦
                      consume_line parse_json (strip_cr line) (record c { text_buffer = rest })
                      >>= assert_pending_text_bound
                      >>= consume_lines parse_json n
                ]
              ]).0
      go ih true found = v
      go ih false none = v
      go ih false (some (line, rest)) = next ih line rest

  push_decoded-Inv : (s : Text) (c : Consumer D) → Inv c → Inv (push_decoded parse_json s c).0
  unfolding push_decoded
  push_decoded-Inv s c v =
      if_cases (Keeps Inv) (is_nil s || c.completed) (λ _. v)
        λ _.
          bind_keeps Inv (assert_pending_text_bound (record c { text_buffer = c.text_buffer ++ s }))
            (λ d. consume_lines parse_json (suc (length d.text_buffer)) d)
            (assert_pending-Inv _ (with_buffer-Inv c (c.text_buffer ++ s) v))
            (λ d. consume_lines-Inv (suc (length d.text_buffer)) d)

  finish_buffer-Inv : (c : Consumer D) → Inv c → Inv (finish_buffer parse_json c).0
  unfolding finish_buffer
  finish_buffer-Inv c v =
      bind_keeps Inv _ (dispatch_record parse_json)
        (if_cases (Keeps Inv) (is_nil c.text_buffer) (λ _. v)
          λ _.
            consume_line-Inv (strip_cr c.text_buffer) (record c { text_buffer = [] })
              (with_buffer-Inv c [] v))
        dispatch_record-Inv

  push_result-Inv :
      (r : D × Option Text) (c : Consumer D) → Inv c → Inv (push_result parse_json r c).0
  unfolding push_result
  push_result-Inv (d, none) c v = with_decoder-Inv c d v
  push_result-Inv (d, some s) c v =
      push_decoded-Inv s (record c { decoder = d }) (with_decoder-Inv c d v)

stop-Inv : {D : Type 0} (c : Consumer D) → Inv c → Inv (stop c)
unfolding stop join_lines
stop-Inv c v = record {
  events_bounded = v.events_bounded;
  chars_exact = v.chars_exact;
  chars_bounded = v.chars_bounded;
  lines_bounded = omega arith;
  pending_exact = refl;
  completed_last = v.completed_last;
}

-- Without its events a consumer is within its bounds.
emptied-Inv :
    {D : Type 0} (c : Consumer D) → Inv c → Inv (record c { events = []; queued_text_chars = 0 })
emptied-Inv c v = record {
  events_bounded = omega arith;
  chars_exact = refl;
  chars_bounded = omega arith;
  lines_bounded = v.lines_bounded;
  pending_exact = v.pending_exact;
  completed_last = tt;
}

-- The public methods.
pub data Method : Type 0 where
  pushes : Text → Method
  finishes drains stops disposes : Method

module _ {D : Type 0} (parse_json : Text → Option Json) (decode : D → Text → D × Option Text)
    (flush : D → D × Option Text) where
  -- The consumer after a call, whether it returned or threw.
  pub after_method : Consumer D → Method → Consumer D
  after_method c (pushes s) = (push_base64 parse_json decode s c).0
  after_method c finishes = (finish parse_json flush c).0
  after_method c drains = (drain c).0
  after_method c stops = stop c
  after_method c disposes = dispose c

  pub after_methods : Consumer D → List Method → Consumer D
  after_methods c [] = c
  after_methods c (m ∷ ms) = after_methods (after_method c m) ms

  after_method-Inv : (c : Consumer D) (m : Method) → Inv c → Inv (after_method c m)
  unfolding after_method push_base64 finish drain dispose
  after_method-Inv c (pushes s) v =
      if_cases (Keeps Inv) (c.disposed || c.completed) (λ _. v)
        λ _.
          if_cases (Keeps Inv) (ltb c.limits.max_encoded_chunk_chars (length s)) (λ _. v)
            λ _.
              if_cases (Keeps Inv) (not (is_valid_base64 s)) (λ _. v)
                λ _. push_result-Inv parse_json (decode c.decoder s) c v
  after_method-Inv c finishes v =
      if_cases (Keeps Inv) (c.disposed || c.completed) (λ _. v)
        λ _.
          bind_keeps Inv (push_result parse_json (flush c.decoder) c) (finish_buffer parse_json)
            (push_result-Inv parse_json (flush c.decoder) c v) (finish_buffer-Inv parse_json)
  after_method-Inv c drains v =
      if_cases (λ (q : Consumer D × List StreamEvent). Inv q.0) (is_nil c.events) (λ _. v)
        (λ _. emptied-Inv c v)
  after_method-Inv c stops v = stop-Inv c v
  after_method-Inv c disposes v = emptied-Inv (stop c) (stop-Inv c v)

  after_methods-Inv : (c : Consumer D) (ms : List Method) → Inv c → Inv (after_methods c ms)
  unfolding after_methods
  after_methods-Inv c [] v = v
  after_methods-Inv c (m ∷ ms) v = after_methods-Inv (after_method c m) ms (after_method-Inv c m v)

  -- After any calls on a new consumer, those that threw included, the queued events, their text and
  -- the pending data lines are within their limits, the two character counts are exact, and a
  -- `COMPLETED` event stands last in the queue, and only if the stream is complete.
  pub after_methods-bounded :
      (limits : Limits) (d : D) (ms : List Method) → Inv (after_methods (new_consumer limits d) ms)
  after_methods-bounded limits d ms =
      after_methods-Inv (new_consumer limits d) ms (new_consumer-Inv limits d)
