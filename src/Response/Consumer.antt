-- ===== src/Response/Consumer.antt =====
-- response/ResponseStreamConsumer.ts. A method takes the consumer and returns it with the failure
-- that it throws, if any; what it had changed before it threw stays changed. `Buffer.from` with the
-- streaming `TextDecoder`, and `JSON.parse`, are parameters: `decode` reads a Base64 chunk and
-- `flush` the decoder's end, each with the decoder's new state and the text or an error.
pub mod Bounds
pub mod Runs
pub mod Chunks
use threadwire.Prelude.{
  ℕ, zero, suc, ◌+◌, ◌%◌, Bool, true, false, not, ◌&&◌, ◌||◌, Option, none, some, List, [], ◌∷◌,
  ◌++◌, Text, text, ◌==◌, nat_eq, text_eq, ltb, leb, if◌then◌else◌, length,
}
use threadwire.Response.Json.{Json, record_texts}

pub data FailureKind : Type 0 where
  parse_failed buffer_overflow : FailureKind

pub data StreamEvent : Type 0 where
  text_delta : Text → StreamEvent
  completed_event : StreamEvent

pub record Limits : Type 0 where
  pub max_encoded_chunk_chars : ℕ
  pub max_queued_events : ℕ
  pub max_queued_text_chars : ℕ
  pub max_pending_text_chars : ℕ
  pub max_pending_data_lines : ℕ

abbrev pub default_limits : Limits
default_limits = record {
  max_encoded_chunk_chars = 1398104;
  max_queued_events = 1024;
  max_queued_text_chars = 1048576;
  max_pending_text_chars = 1048576;
  max_pending_data_lines = 4096;
}

pub record Consumer (D : Type 0) : Type 0 where
  pub limits : Limits
  pub decoder : D
  pub events : List StreamEvent
  pub queued_text_chars : ℕ
  pub text_buffer : Text
  pub event_name : Option Text
  pub data_lines : List Text
  pub pending_data_chars : ℕ
  pub completed : Bool
  pub disposed : Bool

abbrev pub new_consumer : {D : Type 0} → Limits → D → Consumer D
new_consumer limits decoder = record {
  limits = limits;
  decoder = decoder;
  events = [];
  queued_text_chars = 0;
  text_buffer = [];
  event_name = none;
  data_lines = [];
  pending_data_chars = 0;
  completed = false;
  disposed = false;
}

-- A call's effect: the consumer after it, and what it threw.
abbrev pub Outcome : Type 0 → Type 0
Outcome D = Consumer D × Option FailureKind

infixl 5 ◌>>=◌
abbrev pub ◌>>=◌ : {D : Type 0} → Outcome D → (Consumer D → Outcome D) → Outcome D
(c, none) >>= k = k c
(c, some f) >>= k = (c, some f)

is_base64_char : ℕ → Bool
is_base64_char c =
    (leb b'A' c && leb c b'Z')
    || (leb b'a' c && leb c b'z')
    || (leb b'0' c && leb c b'9')
    || c == b'+'
    || c == b'/'

-- ^[A-Za-z0-9+/]*={0,2}$, which also keeps the padding in the last two places
base64_shape : Text → Bool
unfolding is_base64_char
base64_shape [] = true
base64_shape (c ∷ s) =
    let rest = base64_shape s in
    if c == b'=' then s == [] || s == text "=" else is_base64_char c && rest

unfoldable pub is_valid_base64 : Text → Bool
unfolding base64_shape
is_valid_base64 value = length value % 4 == 0 && base64_shape value

-- The text before the first `mark` and the text behind it.
unfoldable pub split_at : ℕ → Text → Option (Text × Text)
split_at mark [] = none
split_at mark (c ∷ s) =
    let rest = split_at mark s in
    if c == mark
    then some ([], s)
    else elim rest [ none ↦ none | some (before, after) ↦ some (c ∷ before, after) ]

-- `line.endsWith("\r") ? line.slice(0, -1) : line`
unfoldable pub strip_cr : Text → Text
strip_cr [] = []
strip_cr (c ∷ []) = if c == 13 then [] else c ∷ []
strip_cr (c ∷ d ∷ s) = c ∷ strip_cr (d ∷ s)

-- lines.join("\n")
unfoldable pub join_lines : List Text → Text
join_lines [] = []
join_lines (l ∷ []) = l
join_lines (l ∷ m ∷ ls) = l ++ 10 ∷ join_lines (m ∷ ls)

abbrev pub name_length : Option Text → ℕ
name_length none = 0
name_length (some s) = length s

strip_space : Text → Text
strip_space [] = []
strip_space (c ∷ s) = if c == b' ' then s else c ∷ s

-- The field of a line and its value.
unfoldable pub split_field : Text → Text × Text
unfolding strip_space
split_field line = elim (split_at b':' line) [
  | none ↦ (line, [])
  | some (name, value) ↦ (name, strip_space value)
]

abbrev pub is_nil {ℓ} : {A : Type ℓ} → List A → Bool
is_nil [] = true
is_nil (x ∷ xs) = false

module _ {D : Type 0} where
  unfoldable pub emit : StreamEvent → Consumer D → Outcome D
  emit completed_event c =
      if leb c.limits.max_queued_events (length c.events)
      then (c, some buffer_overflow)
      else (record c { events = c.events ++ completed_event ∷ [] }, none)
  emit (text_delta t) c =
      if leb c.limits.max_queued_events (length c.events)
        || ltb c.limits.max_queued_text_chars (length t + c.queued_text_chars)
      then (c, some buffer_overflow)
      else (
        record c {
          events = c.events ++ text_delta t ∷ [];
          queued_text_chars = c.queued_text_chars + length t;
        },
        none,
      )

  unfoldable pub emit_all : List Text → Consumer D → Outcome D
  emit_all [] c = (c, none)
  emit_all (t ∷ ts) c = emit (text_delta t) c >>= emit_all ts

  unfoldable pub assert_pending_text_bound : Consumer D → Outcome D
  assert_pending_text_bound c = (
    c,
    if ltb c.limits.max_pending_text_chars
          (length c.text_buffer + name_length c.event_name + c.pending_data_chars)
        then some buffer_overflow
        else none,
  )

  unfoldable pub reset_record : Consumer D → Consumer D
  reset_record c = record c { event_name = none; data_lines = []; pending_data_chars = 0 }

  unfoldable pub stop : Consumer D → Consumer D
  stop c = record c {
    disposed = true;
    text_buffer = [];
    event_name = none;
    data_lines = [];
    pending_data_chars = 0;
  }

  unfoldable pub dispose : Consumer D → Consumer D
  unfolding stop
  dispose c = record (stop c) { events = []; queued_text_chars = 0 }

  unfoldable pub drain : Consumer D → Consumer D × List StreamEvent
  drain c =
      if is_nil c.events
      then (c, [])
      else (record c { events = []; queued_text_chars = 0 }, c.events)

  unfoldable pub finish_stream : Consumer D → Outcome D
  finish_stream c = (record c { completed = true; text_buffer = [] }, none)

  push_data : Text → Consumer D → Consumer D
  push_data value c = record c {
    pending_data_chars =
        c.pending_data_chars + (length value + (if is_nil c.data_lines then 0 else 1));
    data_lines = c.data_lines ++ value ∷ [];
  }

  unfoldable pub consume_field : Text → Text → Consumer D → Outcome D
  unfolding push_data
  consume_field name value c =
      if name == text "event"
      then assert_pending_text_bound (record c { event_name = some value })
      else if name == text "data"
      then if leb c.limits.max_pending_data_lines (length c.data_lines)
        then (c, some buffer_overflow)
        else assert_pending_text_bound (push_data value c)
      else (c, none)

-- `this.eventName ?? "message"`
abbrev event_name_or_message : Option Text → Text
event_name_or_message none = text "message"
event_name_or_message (some name) = name

abbrev starts_with_colon : Text → Bool
starts_with_colon [] = false
starts_with_colon (c ∷ s) = c == b':'

module _ {D : Type 0} (parse_json : Text → Option Json) where
  emit_record : Text → Consumer D → Outcome D
  emit_record payload c = elim (parse_json payload) [
    | none ↦ (c, some parse_failed)
    | some parsed ↦ emit_all (record_texts parsed) c
  ]

  -- A record with this name and this text, once the fields are reset.
  unfoldable pub dispatch_data : Text → Text → Consumer D → Outcome D
  unfolding emit_record
  dispatch_data name payload c =
      if payload == text "[DONE]"
      then emit completed_event c >>= finish_stream
      else if not (name == text "delta")
      then (c, none)
      else emit_record payload c

  unfoldable pub dispatch_record : Consumer D → Outcome D
  dispatch_record c =
      if c.completed || is_nil c.data_lines
      then (reset_record c, none)
      else dispatch_data (event_name_or_message c.event_name) (join_lines c.data_lines)
          (reset_record c)

  unfoldable pub consume_line : Text → Consumer D → Outcome D
  consume_line line c =
      if c.completed
      then (c, none)
      else if is_nil line
      then dispatch_record c
      else if starts_with_colon line
      then (c, none)
      else consume_field (split_field line).0 (split_field line).1 c

  -- The loop of `pushDecoded`, on fuel.
  unfoldable pub consume_lines : ℕ → Consumer D → Outcome D
  consume_lines zero c = (c, none)
  consume_lines (suc n) c = elim c.completed [
    | true ↦ (c, none)
    | false ↦ elim (split_at 10 c.text_buffer) [
      | none ↦ (c, none)
      | some (line, rest) ↦
          consume_line (strip_cr line) (record c { text_buffer = rest })
          >>= assert_pending_text_bound
          >>= consume_lines n
    ]
  ]

  -- Each round takes a line break from the buffer, so its length and one is fuel enough.
  unfoldable pub push_decoded : Text → Consumer D → Outcome D
  push_decoded decoded c =
      if is_nil decoded || c.completed
      then (c, none)
      else assert_pending_text_bound (record c { text_buffer = c.text_buffer ++ decoded }) >>= λ d.
          consume_lines (suc (length d.text_buffer)) d

  -- The rest of `finish` after the decoder's last text: a line with no line break, and the record.
  unfoldable pub finish_buffer : Consumer D → Outcome D
  finish_buffer c =
      (if is_nil c.text_buffer
        then (c, none)
        else consume_line (strip_cr c.text_buffer) (record c { text_buffer = [] }))
      >>= dispatch_record

  push_result : D × Option Text → Consumer D → Outcome D
  push_result (d, none) c = (record c { decoder = d }, some parse_failed)
  push_result (d, some decoded) c = push_decoded decoded (record c { decoder = d })

  unfoldable pub push_base64 : (D → Text → D × Option Text) → Text → Consumer D → Outcome D
  unfolding push_result
  push_base64 decode encoded c =
      if c.disposed || c.completed
      then (c, none)
      else if ltb c.limits.max_encoded_chunk_chars (length encoded)
      then (c, some buffer_overflow)
      else if not (is_valid_base64 encoded)
      then (c, some parse_failed)
      else push_result (decode c.decoder encoded) c

  unfoldable pub finish : (D → D × Option Text) → Consumer D → Outcome D
  unfolding push_result
  finish flush c =
      if c.disposed || c.completed
      then (c, none)
      else push_result (flush c.decoder) c >>= finish_buffer
