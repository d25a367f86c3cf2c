-- ===== src/Cdp/TurnTracker/History.antt =====
-- What an observation of a turn knows of the network events that it has seen.
use threadwire.Prelude.{
  ◌≡◌, ap, ◌∙◌, true, false, Option, none, some, List, [], ◌∷◌, ◌++◌, Text, text_eq, bool_eq, All,
  All-append,
}
use threadwire.Domain.Identity.{Url}
use threadwire.Cdp.TurnTracker.{active, finished, write_failed, Observation, NetworkEvent}
use threadwire.Cdp.TurnTracker.Events.{
  append_assoc, NotRedirect, NotResponse, NotWrite, Selected, Answered, Succeeded,
}

module _ (parse_url : Text → Option Url) where
  -- What an observation has kept of the events `es`, while its write is ACTIVE.
  pub record Going {D : Type 0} (request : Text) (es : List NetworkEvent) (o : Observation D)
      : Type 0 where
    pub named : o.write_request_id ≡ some request
    pub since : List NetworkEvent
    pub selected : Selected parse_url request since es
    pub direct : o.selected_leg_redirected ≡ false → All (NotRedirect request) since
    pub answered :
        o.selected_leg_redirected ≡ false
        → o.successful_response_observed ≡ some true
        → Answered request since

  pub data History {D : Type 0} (es : List NetworkEvent) (o : Observation D) : Type 0 where
    idle :
        o.write_request_id ≡ none
        → o.write_lifecycle ≡ none
        → All (NotWrite parse_url) es
        → History es o
    going : (request : Text) → o.write_lifecycle ≡ some active → Going request es o → History es o
    settled_well :
        (request : Text)
        → o.write_request_id ≡ some request
        → o.write_lifecycle ≡ some finished
        → Succeeded parse_url es
        → History es o
    settled_badly :
        (request : Text)
        → o.write_request_id ≡ some request
        → o.write_lifecycle ≡ some write_failed
        → History es o

  -- One event more.
  pub Selected-more :
      (request : Text) (since es : List NetworkEvent) (e : NetworkEvent)
      → Selected parse_url request since es
      → Selected parse_url request (since ++ e ∷ []) (es ++ e ∷ [])
  Selected-more request since es e s = record {
    before = s.before;
    raw_url = s.raw_url;
    method = s.method;
    redirected = s.redirected;
    split = ap (λ l. l ++ e ∷ []) s.split ∙ append_assoc s.before _ (e ∷ []);
    none_before = s.none_before;
    is_write = s.is_write;
  }

  pub Answered-more :
      (request : Text) (since : List NetworkEvent) (e : NetworkEvent)
      → NotResponse request e
      → Answered request since
      → Answered request (since ++ e ∷ [])
  Answered-more request since e other a = record {
    before = a.before;
    status = a.status;
    call = a.call;
    after = a.after ++ e ∷ [];
    split = ap (λ l. l ++ e ∷ []) a.split ∙ append_assoc a.before _ (e ∷ []);
    last = All-append (NotResponse request) a.after (e ∷ []) a.last (other, tt);
    lower = a.lower;
    upper = a.upper;
  }

  pub Succeeded-more :
      (es : List NetworkEvent) (e : NetworkEvent)
      → Succeeded parse_url es
      → Succeeded parse_url (es ++ e ∷ [])
  Succeeded-more es e s = record {
    request = s.request;
    shown = s.shown;
    since = s.since;
    rest = s.rest ++ e ∷ [];
    split = ap (λ l. l ++ e ∷ []) s.split ∙ append_assoc s.shown _ (e ∷ []);
    selected = s.selected;
    direct = s.direct;
    answered = s.answered;
  }
