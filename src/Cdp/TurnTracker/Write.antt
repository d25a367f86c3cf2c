-- ===== src/Cdp/TurnTracker/Write.antt =====
-- The one write of an observed turn: what it means that it has finished, and what is never undone.
use threadwire.Prelude.{
  ℕ, ◌≡◌, refl, ap, ◌∙◌, Bool, true, false, not, ◌||◌, Option, some, List, [], ◌∷◌, Text, ◌==◌,
  text_eq, bool_eq, if◌then◌else◌, is_the, is_the-some, is_some, arith, if_cases,
}
use threadwire.Domain.Identity.{Url}
use threadwire.Cdp.ResponseTracker as Stream
use threadwire.Cdp.ResponseTracker.{Codec, incomplete, StreamCall, ResponseTracker}
use threadwire.Cdp.TurnTracker.{
  is_successful_http_status, finished, write_failed, Observation, new_observation, is_active,
  is_write_failed, see_response, settled_lifecycle, see_settled, NetworkEvent, request_will_be_sent,
  response_received, data_received, request_settled, stream_ended, see, see_all,
}
use threadwire.Cdp.TurnTracker.Requests.{
  Inv, Later, Good, active-finished, stay, with_response-Good, see_request-Good,
}

failed-if : (b : Bool) → some (if b then write_failed else finished) ≡ some finished → b ≡ false
failed-if true p = cc
failed-if false p = refl

module _ {D : Type 0} where
  -- The status of the response is noted only while the write is ACTIVE.
  noted-Good :
      (seen : Bool) (o : Observation D)
      → is_active o.write_lifecycle ≡ true
      → Inv o
      → Good o (record o { successful_response_observed = some seen })
  noted-Good seen o going inv = record {
    inv = record {
      named = inv.named;
      successful = λ p. absurd (active-finished o.write_lifecycle going p);
      direct = inv.direct;
    };
    later = record {
      same_handle = refl;
      prepares = omega arith;
      same_write = λ p. refl;
      still_ambiguous = λ p. p;
      ended = λ p q. refl;
    };
  }

  see_response-Good :
      (request : Text) (status : ℕ) (call : StreamCall) (o : Observation D)
      → Inv o
      → Good o (see_response request status call o)
  unfolding see_response
  see_response-Good request status call o inv =
      if_cases (Good o)
        (not (is_the ◌==◌ o.write_request_id request)
          || not (is_active o.write_lifecycle)
          || o.selected_leg_redirected)
        (λ h. stay o inv)
        (λ h.
          if_cases (Good o) (is_successful_http_status status)
            (λ fine.
              with_response-Good (Stream.begin request call) o
                (record o { successful_response_observed = some true })
                (noted-Good true o (ground arith) inv))
            (λ bad. noted-Good false o (ground arith) inv))

  settled-finished :
      (has_failed : Bool) (o : Observation D)
      → some (settled_lifecycle has_failed o) ≡ some finished
      → (is_the ◌==◌ o.successful_response_observed true ≡ true)
        × (o.selected_leg_redirected ≡ false)
  settled-finished has_failed o p =
      let b =
        failed-if
          (has_failed
            || o.selected_leg_redirected
            || not (is_the ◌==◌ o.successful_response_observed true))
          p in
      (ground arith, ground arith)

  see_settled-Good :
      (codec : Codec D) (request : Text) (has_failed : Bool) (o : Observation D)
      → Inv o
      → Good o (see_settled codec request has_failed o)
  unfolding see_settled
  see_settled-Good codec request has_failed o inv =
      let l = settled_lifecycle has_failed o in
      if_cases (Good o)
        (not (is_the ◌==◌ o.write_request_id request) || not (is_active o.write_lifecycle))
        (λ h. stay o inv)
        (λ here.
          with_response-Good
            (Stream.on_transport_settled codec request (has_failed || is_write_failed l)) o
            (record o { write_lifecycle = some l })
            (record {
              inv = record {
                named = ap is_some (is_the-some o.write_request_id request (ground arith));
                successful = λ p.
                    is_the-some o.successful_response_observed true
                      (settled-finished has_failed o p).0;
                direct = λ p. (settled-finished has_failed o p).1;
              };
              later = record {
                same_handle = refl;
                prepares = omega arith;
                same_write = λ p. refl;
                still_ambiguous = λ p. p;
                ended = λ p q. absurd (ground arith);
              };
            }))

module _ {D : Type 0} (codec : Codec D) (parse_url : Text → Option Url) where
  pub see-Good : (e : NetworkEvent) (o : Observation D) → Inv o → Good o (see codec parse_url e o)
  unfolding see
  see-Good (request_will_be_sent request raw_url method redirected) o inv =
      see_request-Good parse_url request raw_url method redirected o inv
  see-Good (response_received request status call) o inv =
      see_response-Good request status call o inv
  see-Good (data_received request chunk) o inv =
      with_response-Good (Stream.on_data codec request chunk) o o (stay o inv)
  see-Good (request_settled request has_failed) o inv =
      see_settled-Good codec request has_failed o inv
  see-Good (stream_ended call) o inv =
      with_response-Good (λ r. Stream.after_call codec r call) o o (stay o inv)

  Later-trans : (o o1 o2 : Observation D) → Later o o1 → Later o1 o2 → Later o o2
  Later-trans o o1 o2 a b = record {
    same_handle = b.same_handle ∙ a.same_handle;
    prepares = ground (arith, a.prepares, b.prepares);
    same_write = λ p. b.same_write (ap is_some (a.same_write p) ∙ p) ∙ a.same_write p;
    still_ambiguous = λ p. b.still_ambiguous (a.still_ambiguous p);
    ended = λ p q.
        b.ended (ap is_some (a.ended p q) ∙ p) (ap is_active (a.ended p q) ∙ q) ∙ a.ended p q;
  }

  see_all-Good :
      (es : List NetworkEvent) (o : Observation D) → Inv o → Good o (see_all codec parse_url es o)
  unfolding see_all
  see_all-Good [] o inv = stay o inv
  see_all-Good (e ∷ es) o inv =
      let now = see-Good e o inv in
      let rest = see_all-Good es (see codec parse_url e o) now.inv in
      record {
        inv = rest.inv;
        later =
            Later-trans o (see codec parse_url e o)
              (see_all codec parse_url es (see codec parse_url e o)) now.later rest.later;
      }

  pub new-Inv :
      (handle : ℕ) (response : Option (ResponseTracker D)) → Inv (new_observation handle response)
  new-Inv handle response = record { named = refl; successful = λ p. cc; direct = λ p. refl }

  -- Network events never change an observation's handle nor lower its count of prepare requests; once
  -- they have selected its write request they never select another, once its write is ambiguous it
  -- stays so, and once its write is FINISHED or FAILED it stays what it is.
  pub observation-Later :
      (handle : ℕ) (response : Option (ResponseTracker D)) (before after : List NetworkEvent)
      → Later (see_all codec parse_url before (new_observation handle response)) (
          see_all codec parse_url after
            (see_all codec parse_url before (new_observation handle response)))
  observation-Later handle response before after =
      let o = see_all codec parse_url before (new_observation handle response) in
      let good = see_all-Good before (new_observation handle response) (new-Inv handle response) in
      (see_all-Good after o good.inv).later
