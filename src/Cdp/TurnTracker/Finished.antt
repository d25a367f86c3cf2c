-- ===== src/Cdp/TurnTracker/Finished.antt =====
-- What the network has shown of a turn's write request once the write is FINISHED.
use threadwire.Prelude.{
  ℕ, ◌≡◌, refl, sym, ap, subst, ◌∙◌, Bool, true, false, not, ◌||◌, Option, none, some, List, [],
  ◌∷◌, ◌++◌, Text, ◌==◌, text_eq, bool_eq, is_the, is_the-some, is_some, arith, if_cases,
}
use threadwire.Domain.Identity.{Url}
use threadwire.Cdp.ResponseTracker.{Codec, StreamCall, ResponseTracker}
use threadwire.Cdp.TurnTracker.{
  TurnRequestKind, prepare, write, classify_turn_request, is_successful_http_status, finished,
  write_failed, Observation, new_observation, is_active, repeat_write, first_request, see_request,
  see_response, see_settled, NetworkEvent, request_will_be_sent, response_received, data_received,
  request_settled, stream_ended, see, see_all,
}
use threadwire.Cdp.TurnTracker.Events.{
  append_assoc, none-some, true-false, some-injective, not-finished, other-request, or-true,
  successful, unanswered, prepare-write, failed-finished, append_nil, NotRedirect, no_redirect,
  NotResponse, NotWrite, Succeeded,
}
use threadwire.Cdp.TurnTracker.History.{History, idle, going, settled_well, settled_badly}
use threadwire.Cdp.TurnTracker.Steps.{
  Same, History-Same, History-answered, History-settled, History-redirected, History-selected,
}

module _ (parse_url : Text → Option Url) {D : Type 0} where
  see_response-History :
      (es : List NetworkEvent) (r : Text) (status : ℕ) (call : StreamCall) (o : Observation D)
      → History parse_url es o
      → History parse_url
          (es ++ response_received r status call ∷ [])
          (see_response r status call o)
  unfolding see_response Same NotRedirect NotResponse NotWrite
  see_response-History es r status call o h =
      let e = response_received r status call in
      if_cases (History parse_url (es ++ e ∷ []))
        (not (is_the ◌==◌ o.write_request_id r)
          || not (is_active o.write_lifecycle)
          || o.selected_leg_redirected)
        (λ left.
          History-Same parse_url es e o o (λ unnamed. tt)
            (λ request named goes direct. (
              other-request o.write_request_id request r named
                  (unanswered _ _ _ left (ap is_active goes) direct),
              tt,
            ))
            (refl, refl, refl, refl) h)
        (λ told.
          let named = is_the-some o.write_request_id r (ground arith) in
          if_cases (History parse_url (es ++ e ∷ [])) (is_successful_http_status status)
            (λ good.
              History-answered parse_url es r status call true o _ named (ground arith)
                (λ p. successful status good) refl refl refl refl h)
            (λ bad.
              History-answered parse_url es r status call false o _ named (ground arith)
                (λ p. absurd (true-false (sym p))) refl refl refl refl h))

  see_settled-History :
      (codec : Codec D) (es : List NetworkEvent) (r : Text) (has_failed : Bool) (o : Observation D)
      → History parse_url es o
      → History parse_url
          (es ++ request_settled r has_failed ∷ [])
          (see_settled codec r has_failed o)
  unfolding see_settled Same NotRedirect NotResponse NotWrite
  see_settled-History codec es r has_failed o h =
      let e = request_settled r has_failed in
      if_cases (History parse_url (es ++ e ∷ []))
        (not (is_the ◌==◌ o.write_request_id r) || not (is_active o.write_lifecycle))
        (λ left.
          History-Same parse_url es e o o (λ unnamed. tt) (λ request named goes direct. (tt, tt))
            (refl, refl, refl, refl) h)
        (λ told.
          History-settled parse_url es r has_failed o _
            (is_the-some o.write_request_id r (ground arith)) (ground arith) refl refl h)

  repeat_write-History :
      (es : List NetworkEvent) (r raw_url : Text) (method : Option Text) (redirected : Bool)
      (o : Observation D)
      → o.write_request_id ≡ some r
      → History parse_url es o
      → History parse_url
          (es ++ request_will_be_sent r raw_url method redirected ∷ [])
          (repeat_write redirected o)
  unfolding repeat_write Same NotRedirect NotResponse NotWrite
  repeat_write-History es r raw_url method true o named h =
      let e = request_will_be_sent r raw_url method true in
      if_cases (History parse_url (es ++ e ∷ [])) (not (is_active o.write_lifecycle) || not true)
        (λ ended.
          History-Same parse_url es e o _ (λ unnamed. absurd (none-some (sym unnamed ∙ named)))
            (λ request id goes direct. absurd (true-false (sym (ap is_active goes) ∙ ground arith)))
            (refl, refl, refl, refl) h)
        (λ goes.
          History-redirected parse_url es e o _ (ap is_some named) (ground arith) refl refl refl h)
  repeat_write-History es r raw_url method false o named h =
      let e = request_will_be_sent r raw_url method false in
      if_cases (History parse_url (es ++ e ∷ [])) (not (is_active o.write_lifecycle) || not false)
        (λ reused.
          History-Same parse_url es e o _ (λ unnamed. absurd (none-some (sym unnamed ∙ named)))
            (λ request id goes direct. (tt, tt)) (refl, refl, refl, refl) h)
        (λ never. absurd (or-true (not (is_active o.write_lifecycle)) never))

  first_request-History :
      (es : List NetworkEvent) (r raw_url : Text) (method : Option Text) (redirected : Bool)
      (o : Observation D) (kind : Option TurnRequestKind)
      → classify_turn_request parse_url raw_url method ≡ kind
      → is_the ◌==◌ o.write_request_id r ≡ false
      → History parse_url es o
      → History parse_url
          (es ++ request_will_be_sent r raw_url method redirected ∷ [])
          (first_request r kind o)
  unfolding first_request Same NotResponse NotWrite
  first_request-History es r raw_url method redirected o none is_kind other h =
      History-Same parse_url es (request_will_be_sent r raw_url method redirected) o _
        (λ unnamed p. none-some (sym is_kind ∙ p))
        (λ request named goes direct. (
          tt,
          no_redirect request r raw_url method redirected
              (other-request o.write_request_id request r named other),
        ))
        (refl, refl, refl, refl) h
  first_request-History es r raw_url method redirected o (some prepare) is_kind other h =
      History-Same parse_url es (request_will_be_sent r raw_url method redirected) o _
        (λ unnamed p. prepare-write (some-injective prepare write (sym is_kind ∙ p)))
        (λ request named goes direct. (
          tt,
          no_redirect request r raw_url method redirected
              (other-request o.write_request_id request r named other),
        ))
        (refl, refl, refl, refl) h
  first_request-History es r raw_url method redirected o (some write) is_kind other h =
      let e = request_will_be_sent r raw_url method redirected in
      if_cases (History parse_url (es ++ e ∷ [])) (is_some o.write_request_id)
        (λ taken.
          History-Same parse_url es e o _
            (λ unnamed. absurd (true-false (sym taken ∙ ap is_some unnamed)))
            (λ request named goes direct. (
              tt,
              no_redirect request r raw_url method redirected
                  (other-request o.write_request_id request r named other),
            ))
            (refl, refl, refl, refl) h)
        (λ free.
          History-selected parse_url es r raw_url method redirected o _ is_kind free refl refl refl
            h)

  see_request-History :
      (es : List NetworkEvent) (r raw_url : Text) (method : Option Text) (redirected : Bool)
      (o : Observation D)
      → History parse_url es o
      → History parse_url
          (es ++ request_will_be_sent r raw_url method redirected ∷ [])
          (see_request parse_url r raw_url method redirected o)
  unfolding see_request
  see_request-History es r raw_url method redirected o h =
      if_cases (History parse_url (es ++ request_will_be_sent r raw_url method redirected ∷ []))
        (is_the ◌==◌ o.write_request_id r)
        (λ same.
          repeat_write-History es r raw_url method redirected o
            (is_the-some o.write_request_id r same) h)
        (λ other. first_request-History es r raw_url method redirected o _ refl other h)

module _ {D : Type 0} (codec : Codec D) (parse_url : Text → Option Url) where
  see-History :
      (es : List NetworkEvent) (e : NetworkEvent) (o : Observation D)
      → History parse_url es o
      → History parse_url (es ++ e ∷ []) (see codec parse_url e o)
  unfolding see Same NotRedirect NotResponse NotWrite
  see-History es (request_will_be_sent r raw_url method redirected) o h =
      see_request-History parse_url es r raw_url method redirected o h
  see-History es (response_received r status call) o h =
      see_response-History parse_url es r status call o h
  see-History es (data_received r chunk) o h =
      History-Same parse_url es (data_received r chunk) o _ (λ unnamed. tt)
        (λ request named goes direct. (tt, tt)) (refl, refl, refl, refl) h
  see-History es (request_settled r has_failed) o h =
      see_settled-History parse_url codec es r has_failed o h
  see-History es (stream_ended call) o h =
      History-Same parse_url es (stream_ended call) o _ (λ unnamed. tt)
        (λ request named goes direct. (tt, tt)) (refl, refl, refl, refl) h

  see_all-History :
      (seen es : List NetworkEvent) (o : Observation D)
      → History parse_url seen o
      → History parse_url (seen ++ es) (see_all codec parse_url es o)
  unfolding see_all
  see_all-History seen [] o h = subst (λ l. History parse_url l o) (sym (append_nil seen)) h
  see_all-History seen (e ∷ es) o h =
      subst (λ l. History parse_url l (see_all codec parse_url (e ∷ es) o))
        (append_assoc seen (e ∷ []) es)
        (see_all-History (seen ++ e ∷ []) es (see codec parse_url e o) (see-History seen e o h))

  History-Succeeded :
      (es : List NetworkEvent) (o : Observation D)
      → History parse_url es o
      → o.write_lifecycle ≡ some finished
      → Succeeded parse_url es
  History-Succeeded es o (idle unnamed unset none_seen) p = absurd (none-some (sym unset ∙ p))
  History-Succeeded es o (going request is_going g) p =
      absurd (not-finished o.write_lifecycle p (ap is_active is_going))
  History-Succeeded es o (settled_well request named done s) p = s
  History-Succeeded es o (settled_badly request named done) p =
      absurd (failed-finished (some-injective write_failed finished (sym done ∙ p)))

  -- When the write of a new observation is FINISHED after any network events, these are, in order:
  -- events without a request that writes a turn; the request that the source classifies as the write;
  -- events among which no redirect of that request is, and in which the last response to it has a
  -- status from 200 to 299; the end of that request without a failure; and any others.
  pub write-finished :
      (handle : ℕ) (response : Option (ResponseTracker D)) (es : List NetworkEvent)
      → (see_all codec parse_url es (new_observation handle response)).write_lifecycle
        ≡ some finished
      → Succeeded parse_url es
  write-finished handle response es p =
      History-Succeeded es (see_all codec parse_url es (new_observation handle response))
        (see_all-History [] es (new_observation handle response) (idle refl refl tt)) p
