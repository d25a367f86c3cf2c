-- ===== src/Response/Consumer/Chunks.antt =====
-- How the consumer depends on its text buffer: hardly at all.
pub mod Lines
pub mod Rounds
pub mod Fuel
pub mod Split
use threadwire.Prelude.{
  ◌+◌, ◌≤◌, ◌≡◌, refl, inl, inr, true, false, ◌||◌, none, some, List, [], ◌∷◌, ◌++◌, Text, text,
  arith, length, ◌==◌, text_eq, Bool-cases, leb, ltb,
}
use threadwire.Response.Consumer.{
  Consumer, Outcome, FailureKind, text_delta, completed_event, ◌>>=◌, emit, emit_all,
  assert_pending_text_bound, finish_stream, consume_field, push_data, buffer_overflow, name_length,
}

module _ {D : Type 0} where
  abbrev pub with_buffer : Text → Consumer D → Consumer D
  with_buffer s c = record c { text_buffer = s }

  -- Two runs of one call, with buffers `s` and `t`: the first throws, or both go on with their
  -- buffers.
  pub data Runs (s t : Text) (q r : Outcome D) : Type 0 where
    threw : (d : Consumer D) (f : FailureKind) → q ≡ (d, some f) → Runs s t q r
    went :
        (d : Consumer D)
        → q ≡ (with_buffer s d, none)
        → r ≡ (with_buffer t d, none)
        → d.completed ≡ false
        → Runs s t q r

  -- Or both complete the stream and empty their buffers.
  pub data Follows (s t : Text) (q r : Outcome D) : Type 0 where
    runs : Runs s t q r → Follows s t q r
    ended :
        (d : Consumer D)
        → q ≡ (d, none)
        → r ≡ (d, none)
        → d.completed ≡ true
        → d.text_buffer ≡ []
        → Follows s t q r

  module _ (s t : Text) where
    emit-delta_Runs :
        (x : Text) (c : Consumer D)
        → c.completed ≡ false
        → Runs s t (emit (text_delta x) (with_buffer s c)) (emit (text_delta x) (with_buffer t c))
    unfolding emit
    emit-delta_Runs x c o =
        elim (Bool-cases (
          leb c.limits.max_queued_events (length c.events)
          || ltb c.limits.max_queued_text_chars (length x + c.queued_text_chars))) [
            | inl full ↦ threw (with_buffer s c) buffer_overflow (rw full)
            | inr fits ↦
                went
                  (record c {
                    events = c.events ++ text_delta x ∷ [];
                    queued_text_chars = c.queued_text_chars + length x;
                  })
                  (rw fits) (rw fits) o
          ]

    bind-Runs :
        (q r : Outcome D) (k : Consumer D → Outcome D)
        → Runs s t q r
        → ((d : Consumer D)
            → d.completed ≡ false
            → Runs s t (k (with_buffer s d)) (k (with_buffer t d)))
        → Runs s t (q >>= k) (r >>= k)
    bind-Runs q r k (threw d f p) next = threw d f (rw p)
    bind-Runs q r k (went d p p' o) next = rw (p, p') (next d o)

    emit_all-Runs :
        (ts : List Text) (c : Consumer D)
        → c.completed ≡ false
        → Runs s t (emit_all ts (with_buffer s c)) (emit_all ts (with_buffer t c))
    unfolding emit_all
    emit_all-Runs [] c o = went c refl refl o
    emit_all-Runs (x ∷ ts) c o =
        bind-Runs (emit (text_delta x) (with_buffer s c)) (emit (text_delta x) (with_buffer t c))
          (emit_all ts) (emit-delta_Runs x c o) (emit_all-Runs ts)

    emit-completed_Follows :
        (c : Consumer D)
        → Follows s t
            (emit completed_event (with_buffer s c) >>= finish_stream)
            (emit completed_event (with_buffer t c) >>= finish_stream)
    unfolding emit finish_stream
    emit-completed_Follows c =
        elim (Bool-cases (leb c.limits.max_queued_events (length c.events))) [
          | inl full ↦ runs (threw (with_buffer s c) buffer_overflow (rw full))
          | inr fits ↦
              ended
                (record c {
                  events = c.events ++ completed_event ∷ [];
                  completed = true;
                  text_buffer = [];
                })
                (rw fits) (rw fits) refl refl
        ]

    -- The bound that holds with the longer buffer holds with the shorter one.
    assert_pending-Runs :
        (c : Consumer D)
        → length t ≤ length s
        → c.completed ≡ false
        → Runs s t
            (assert_pending_text_bound (with_buffer s c))
            (assert_pending_text_bound (with_buffer t c))
    unfolding assert_pending_text_bound
    assert_pending-Runs c h o =
        elim (Bool-cases (
          ltb c.limits.max_pending_text_chars
            (length s + name_length c.event_name + c.pending_data_chars))) [
              | inl full ↦ threw (with_buffer s c) buffer_overflow (rw full)
              | inr fits ↦ went c (rw fits) (ground arith) o
            ]

    consume_field-Runs :
        (name value : Text) (c : Consumer D)
        → length t ≤ length s
        → c.completed ≡ false
        → Runs s t
            (consume_field name value (with_buffer s c))
            (consume_field name value (with_buffer t c))
    unfolding consume_field push_data
    consume_field-Runs name value c h o = elim (Bool-cases (name == text "event")) [
      | inl event ↦ rw event (assert_pending-Runs (record c { event_name = some value }) h o)
      | inr other ↦ elim (Bool-cases (name == text "data")) [
        | inl payload ↦
            elim (Bool-cases (leb c.limits.max_pending_data_lines (length c.data_lines))) [
              | inl full ↦ threw (with_buffer s c) buffer_overflow (rw (other, payload, full))
              | inr fits ↦ rw (other, payload, fits) (assert_pending-Runs (push_data value c) h o)
            ]
        | inr neither ↦ went c (rw (other, neither)) (rw (other, neither)) o
      ]
    ]
