-- ===== src/Response/Consumer/Bounds.antt =====
-- The memory bounds of the consumer, on every path, those that throw included.
use threadwire.Prelude.{
  ℕ, ◌+◌, ◌≤◌, ◌≡◌, refl, Bool, true, false, ◌||◌, none, some, List, [], ◌∷◌, ◌++◌, Text, text,
  arith, if_cases, if◌then◌else◌, length, length-append, ◌==◌, text_eq, leb, ltb, subst,
}
use threadwire.Response.Consumer.{
  Consumer, Limits, Outcome, StreamEvent, text_delta, completed_event, ◌>>=◌, emit, emit_all,
  assert_pending_text_bound, reset_record, finish_stream, consume_field, push_data, join_lines,
  is_nil, new_consumer,
}

abbrev pub delta_chars : List StreamEvent → ℕ
delta_chars [] = 0
delta_chars (completed_event ∷ es) = delta_chars es
delta_chars (text_delta t ∷ es) = length t + delta_chars es

-- `COMPLETED` stands last, and only if the stream is complete.
abbrev pub CompletedLast : Bool → List StreamEvent → Type 0
CompletedLast b [] = Unit {0}
CompletedLast b (completed_event ∷ es) = (es ≡ []) × (b ≡ true)
CompletedLast b (text_delta t ∷ es) = CompletedLast b es

delta_chars-append :
    (xs ys : List StreamEvent) → delta_chars (xs ++ ys) ≡ delta_chars xs + delta_chars ys
delta_chars-append [] ys = omega arith
delta_chars-append (completed_event ∷ xs) ys = delta_chars-append xs ys
delta_chars-append (text_delta t ∷ xs) ys = omega (arith, delta_chars-append xs ys)

-- Events of an open stream are deltas, and take one more event of any kind.
CompletedLast-delta :
    (es : List StreamEvent) (t : Text)
    → CompletedLast false es
    → CompletedLast false (es ++ text_delta t ∷ [])
CompletedLast-delta [] t h = tt
CompletedLast-delta (completed_event ∷ es) t h = cc
CompletedLast-delta (text_delta s ∷ es) t h = CompletedLast-delta es t h

CompletedLast-completed :
    (es : List StreamEvent)
    → CompletedLast false es
    → CompletedLast true (es ++ completed_event ∷ [])
CompletedLast-completed [] h = (refl, refl)
CompletedLast-completed (completed_event ∷ es) h = cc
CompletedLast-completed (text_delta s ∷ es) h = CompletedLast-completed es h

length-join_lines :
    (ls : List Text) (v : Text)
    → length (join_lines (ls ++ v ∷ []))
      ≡ length (join_lines ls) + (length v + (if is_nil ls then 0 else 1))
unfolding join_lines
length-join_lines [] v = omega arith
length-join_lines (l ∷ []) v = omega (arith, length-append l (10 ∷ v))
length-join_lines (l ∷ m ∷ ls) v = omega (
  arith,
  length-join_lines (m ∷ ls) v,
  length-append l (10 ∷ join_lines ((m ∷ ls) ++ v ∷ [])),
  length-append l (10 ∷ join_lines (m ∷ ls)),
)

module _ {D : Type 0} where
  pub record Inv (c : Consumer D) : Type 0 where
    pub events_bounded : length c.events ≤ c.limits.max_queued_events
    pub chars_exact : c.queued_text_chars ≡ delta_chars c.events
    pub chars_bounded : c.queued_text_chars ≤ c.limits.max_queued_text_chars
    pub lines_bounded : length c.data_lines ≤ c.limits.max_pending_data_lines
    pub pending_exact : c.pending_data_chars ≡ length (join_lines c.data_lines)
    pub completed_last : CompletedLast c.completed c.events

  pub new_consumer-Inv : (limits : Limits) (d : D) → Inv (new_consumer limits d)
  unfolding join_lines
  new_consumer-Inv limits d = record {
    events_bounded = omega arith;
    chars_exact = refl;
    chars_bounded = omega arith;
    lines_bounded = omega arith;
    pending_exact = refl;
    completed_last = tt;
  }

  -- A property that the first call and the rest of the chain keep.
  pub bind_keeps :
      (P : Consumer D → Type 0) (m : Outcome D) (k : Consumer D → Outcome D)
      → P m.0
      → ((c : Consumer D) → P c → P (k c).0)
      → P (m >>= k).0
  bind_keeps P (c, none) k h f = f c h
  bind_keeps P (c, some x) k h f = h

  abbrev pub Keeps : (Consumer D → Type 0) → Outcome D → Type 0
  Keeps P q = P q.0

  -- The invariant of a stream that is not complete.
  abbrev pub IsOpenStream : Consumer D → Type 0
  IsOpenStream c = Inv c × (c.completed ≡ false)

  emit-delta_open :
      (t : Text) (c : Consumer D) → IsOpenStream c → IsOpenStream (emit (text_delta t) c).0
  unfolding emit
  emit-delta_open t c (v, o) =
      if_cases (Keeps IsOpenStream)
        (leb c.limits.max_queued_events (length c.events)
          || ltb c.limits.max_queued_text_chars (length t + c.queued_text_chars))
        (λ _. (v, o))
        λ fits. (
          record {
            events_bounded = ground (arith, length-append c.events (text_delta t ∷ []));
            chars_exact =
                ground (arith, v.chars_exact, delta_chars-append c.events (text_delta t ∷ []));
            chars_bounded = ground arith;
            lines_bounded = v.lines_bounded;
            pending_exact = v.pending_exact;
            completed_last = rw o (
                CompletedLast-delta c.events t
                  (subst (λ b. CompletedLast b c.events) o v.completed_last));
          },
          o,
        )

  pub emit_all-open :
      (ts : List Text) (c : Consumer D) → IsOpenStream c → IsOpenStream (emit_all ts c).0
  unfolding emit_all
  emit_all-open [] c v = v
  emit_all-open (t ∷ ts) c v =
      bind_keeps IsOpenStream (emit (text_delta t) c) (emit_all ts) (emit-delta_open t c v)
        (emit_all-open ts)

  -- The completion is emitted and recorded, or neither.
  pub emit-completed :
      (c : Consumer D) → IsOpenStream c → Inv (emit completed_event c >>= finish_stream).0
  unfolding emit finish_stream
  emit-completed c (v, o) =
      if_cases (λ q. Inv (q >>= finish_stream).0) (leb c.limits.max_queued_events (length c.events))
        (λ _. v)
        λ fits. record {
          events_bounded = ground (arith, length-append c.events (completed_event ∷ []));
          chars_exact =
              ground (arith, v.chars_exact, delta_chars-append c.events (completed_event ∷ []));
          chars_bounded = v.chars_bounded;
          lines_bounded = v.lines_bounded;
          pending_exact = v.pending_exact;
          completed_last =
              CompletedLast-completed c.events
                (subst (λ b. CompletedLast b c.events) o v.completed_last);
        }

  -- The fields of the pending record and the buffer do not matter to the events.
  pub assert_pending-Inv : (c : Consumer D) → Inv c → Inv (assert_pending_text_bound c).0
  unfolding assert_pending_text_bound
  assert_pending-Inv c v = v

  pub reset_record-Inv : (c : Consumer D) → Inv c → Inv (reset_record c)
  unfolding reset_record join_lines
  reset_record-Inv c v = record {
    events_bounded = v.events_bounded;
    chars_exact = v.chars_exact;
    chars_bounded = v.chars_bounded;
    lines_bounded = omega arith;
    pending_exact = refl;
    completed_last = v.completed_last;
  }

  pub consume_field-Inv :
      (name value : Text) (c : Consumer D) → Inv c → Inv (consume_field name value c).0
  unfolding consume_field push_data assert_pending_text_bound
  consume_field-Inv name value c v =
      if_cases (Keeps Inv) (name == text "event")
        (λ _. record {
          events_bounded = v.events_bounded;
          chars_exact = v.chars_exact;
          chars_bounded = v.chars_bounded;
          lines_bounded = v.lines_bounded;
          pending_exact = v.pending_exact;
          completed_last = v.completed_last;
        })
        λ _.
          if_cases (Keeps Inv) (name == text "data")
            (λ _.
              if_cases (Keeps Inv) (leb c.limits.max_pending_data_lines (length c.data_lines))
                (λ _. v)
                λ fits. record {
                  events_bounded = v.events_bounded;
                  chars_exact = v.chars_exact;
                  chars_bounded = v.chars_bounded;
                  lines_bounded = ground (arith, length-append c.data_lines (value ∷ []));
                  pending_exact = rw (length-join_lines c.data_lines value, v.pending_exact);
                  completed_last = v.completed_last;
                })
            (λ _. v)
