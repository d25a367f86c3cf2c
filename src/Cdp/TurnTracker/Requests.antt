-- ===== src/Cdp/TurnTracker/Requests.antt =====
-- What is true of an observation and what it keeps, through the requests that it sees.
use threadwire.Prelude.{
  ◌≤◌, ◌≡◌, refl, Bool, true, false, not, ◌||◌, Option, none, some, Text, ◌==◌, text_eq, bool_eq,
  is_the, is_some, arith, if_cases,
}
use threadwire.Domain.Identity.{Url}
use threadwire.Cdp.ResponseTracker as Stream
use threadwire.Cdp.ResponseTracker.{Codec, incomplete, StreamCall, ResponseTracker}
use threadwire.Cdp.TurnTracker.{
  TurnRequestKind, prepare, write, classify_turn_request, WriteLifecycle, active, finished,
  write_failed, Observation, is_active, with_response, become_ambiguous, repeat_write,
  first_request, see_request,
}

-- A write that has an id has a lifecycle, and has finished only after a response with a successful
-- status and no redirect.
pub record Inv {D : Type 0} (o : Observation D) : Type 0 where
  pub named : is_some o.write_request_id ≡ is_some o.write_lifecycle
  pub successful : o.write_lifecycle ≡ some finished → o.successful_response_observed ≡ some true
  pub direct : o.write_lifecycle ≡ some finished → o.selected_leg_redirected ≡ false

-- What a later state `o1` of an observation `o` has kept.
pub record Later {D : Type 0} (o o1 : Observation D) : Type 0 where
  pub same_handle : o1.handle ≡ o.handle
  pub prepares : o.prepare_count ≤ o1.prepare_count
  pub same_write : is_some o.write_request_id ≡ true → o1.write_request_id ≡ o.write_request_id
  pub still_ambiguous : o.ambiguous_write ≡ true → o1.ambiguous_write ≡ true
  pub ended :
      is_some o.write_lifecycle ≡ true
      → is_active o.write_lifecycle ≡ false
      → o1.write_lifecycle ≡ o.write_lifecycle

-- A step to `o1` keeps both.
pub record Good {D : Type 0} (o o1 : Observation D) : Type 0 where
  pub inv : Inv o1
  pub later : Later o o1

pub active-finished : (l : Option WriteLifecycle) → is_active l ≡ true → l ≡ some finished → ⊥
active-finished none p q = cc
active-finished (some active) p q = cc
active-finished (some finished) p q = cc
active-finished (some write_failed) p q = cc

module _ {D : Type 0} where
  pub Later-refl : (o : Observation D) → Later o o
  Later-refl o = record {
    same_handle = refl;
    prepares = omega arith;
    same_write = λ p. refl;
    still_ambiguous = λ p. p;
    ended = λ p q. refl;
  }

  pub stay : (o : Observation D) → Inv o → Good o o
  stay o inv = record { inv = inv; later = Later-refl o }

  pub with_response-Good :
      (f : ResponseTracker D → ResponseTracker D) (o o1 : Observation D)
      → Good o o1
      → Good o (with_response f o1)
  with_response-Good f o o1 g = record {
    inv = record { named = g.inv.named; successful = g.inv.successful; direct = g.inv.direct };
    later = record {
      same_handle = g.later.same_handle;
      prepares = g.later.prepares;
      same_write = g.later.same_write;
      still_ambiguous = g.later.still_ambiguous;
      ended = g.later.ended;
    };
  }

  become_ambiguous-Good : (o : Observation D) → Inv o → Good o (become_ambiguous o)
  become_ambiguous-Good o inv =
      with_response-Good Stream.dispose o (record o { ambiguous_write = true })
        (record {
          inv = record { named = inv.named; successful = inv.successful; direct = inv.direct };
          later = record {
            same_handle = refl;
            prepares = omega arith;
            same_write = λ p. refl;
            still_ambiguous = λ p. refl;
            ended = λ p q. refl;
          };
        })

  repeat_write-Good :
      (redirected : Bool) (o : Observation D) → Inv o → Good o (repeat_write redirected o)
  unfolding repeat_write
  repeat_write-Good redirected o inv =
      if_cases (Good o) (not (is_active o.write_lifecycle) || not redirected)
        (λ h. become_ambiguous-Good o inv)
        (λ next.
          with_response-Good (Stream.fail incomplete) o
            (record o { selected_leg_redirected = true; successful_response_observed = some false })
            (record {
              inv = record {
                named = inv.named;
                successful = λ p. absurd (active-finished o.write_lifecycle (ground arith) p);
                direct = λ p. absurd (active-finished o.write_lifecycle (ground arith) p);
              };
              later = record {
                same_handle = refl;
                prepares = omega arith;
                same_write = λ p. refl;
                still_ambiguous = λ p. p;
                ended = λ p q. refl;
              };
            }))

  first_request-Good :
      (request : Text) (kind : Option TurnRequestKind) (o : Observation D)
      → Inv o
      → Good o (first_request request kind o)
  unfolding first_request
  first_request-Good request none o inv = stay o inv
  first_request-Good request (some prepare) o inv = record {
    inv = record { named = inv.named; successful = inv.successful; direct = inv.direct };
    later = record {
      same_handle = refl;
      prepares = omega arith;
      same_write = λ p. refl;
      still_ambiguous = λ p. p;
      ended = λ p q. refl;
    };
  }
  first_request-Good request (some write) o inv =
      if_cases (Good o) (is_some o.write_request_id) (λ h. become_ambiguous-Good o inv)
        (λ unnamed.
          with_response-Good (Stream.select request) o
            (record o {
              write_request_id = some request;
              successful_response_observed = none;
              selected_leg_redirected = false;
              write_lifecycle = some active;
            })
            (record {
              inv = record { named = refl; successful = λ p. cc; direct = λ p. refl };
              later = record {
                same_handle = refl;
                prepares = omega arith;
                same_write = λ p. absurd (ground arith);
                still_ambiguous = λ p. p;
                ended = λ p q. absurd (ground (arith, inv.named));
              };
            }))

  pub see_request-Good :
      (parse_url : Text → Option Url) (request raw_url : Text) (method : Option Text)
      (redirected : Bool) (o : Observation D)
      → Inv o
      → Good o (see_request parse_url request raw_url method redirected o)
  unfolding see_request
  see_request-Good parse_url request raw_url method redirected o inv =
      if_cases (Good o) (is_the ◌==◌ o.write_request_id request)
        (λ h. repeat_write-Good redirected o inv)
        (λ h. first_request-Good request (classify_turn_request parse_url raw_url method) o inv)
