-- ===== src/Response/Consumer/Chunks/Lines.antt =====
-- A line is consumed alike whatever text stands behind it.
use threadwire.Prelude.{
  ◌≤◌, ◌≡◌, refl, false, not, ◌||◌, Option, none, some, Text, text, ◌==◌, text_eq, both_cases,
  length,
}
use threadwire.Response.Json.{Json, record_texts}
use threadwire.Response.Consumer.{
  Consumer, Outcome, parse_failed, reset_record, emit_record, dispatch_data, dispatch_record,
  consume_line, join_lines, is_nil, split_field, event_name_or_message, starts_with_colon, emit_all,
}
use threadwire.Response.Consumer.Chunks.{
  with_buffer, Runs, threw, went, Follows, runs, emit_all-Runs, emit-completed_Follows,
  consume_field-Runs,
}

module _ {D : Type 0} (parse_json : Text → Option Json) (s t : Text) where
  emit_record-Runs :
      (payload : Text) (c : Consumer D)
      → c.completed ≡ false
      → Runs s t
          (emit_record parse_json payload (with_buffer s c))
          (emit_record parse_json payload (with_buffer t c))
  unfolding emit_record
  emit_record-Runs payload c o = go (parse_json payload)
    where
      go :
          (p : Option Json)
          → Runs s t
              (elim p as (λ _. Outcome D) [
                | none ↦ (with_buffer s c, some parse_failed)
                | some parsed ↦ emit_all (record_texts parsed) (with_buffer s c)
              ])
              (elim p as (λ _. Outcome D) [
                | none ↦ (with_buffer t c, some parse_failed)
                | some parsed ↦ emit_all (record_texts parsed) (with_buffer t c)
              ])
      go none = threw (with_buffer s c) parse_failed refl
      go (some parsed) = emit_all-Runs s t (record_texts parsed) c o

  dispatch_data-Follows :
      (name payload : Text) (c : Consumer D)
      → c.completed ≡ false
      → Follows s t
          (dispatch_data parse_json name payload (with_buffer s c))
          (dispatch_data parse_json name payload (with_buffer t c))
  unfolding dispatch_data
  dispatch_data-Follows name payload c o =
      both_cases (Follows s t) (payload == text "[DONE]") (λ done. emit-completed_Follows s t c)
        (λ data_record.
          both_cases (Follows s t) (not (name == text "delta")) (λ other. runs (went c refl refl o))
            (λ delta. runs (emit_record-Runs payload c o)))

  dispatch_record-Follows :
      (c : Consumer D)
      → c.completed ≡ false
      → Follows s t
          (dispatch_record parse_json (with_buffer s c))
          (dispatch_record parse_json (with_buffer t c))
  unfolding dispatch_record reset_record
  dispatch_record-Follows c o =
      both_cases (Follows s t) (c.completed || is_nil c.data_lines)
        (λ nothing. runs (went (reset_record c) refl refl o))
        (λ lines.
          dispatch_data-Follows (event_name_or_message c.event_name) (join_lines c.data_lines)
            (reset_record c) o)

  pub consume_line-Follows :
      (line : Text) (c : Consumer D)
      → length t ≤ length s
      → c.completed ≡ false
      → Follows s t
          (consume_line parse_json line (with_buffer s c))
          (consume_line parse_json line (with_buffer t c))
  unfolding consume_line
  consume_line-Follows line c h o =
      both_cases (Follows s t) c.completed (λ done. runs (went c refl refl o))
        (λ going.
          both_cases (Follows s t) (is_nil line) (λ blank. dispatch_record-Follows c o)
            (λ full.
              both_cases (Follows s t) (starts_with_colon line)
                (λ remark. runs (went c refl refl o))
                (λ field.
                  runs (consume_field-Runs s t (split_field line).0 (split_field line).1 c h o))))
