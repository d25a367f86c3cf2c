-- ===== src/Cdp/TurnTracker/Steps.antt =====
-- How one more event changes what an observation of a turn knows.
use threadwire.Prelude.{
  ℕ, ◌≡◌, ◌≤◌, ◌<◌, inl, inr, refl, sym, ap, ◌∙◌, Bool, true, false, not, ◌||◌, Option, none, some,
  List, [], ◌∷◌, ◌++◌, Text, ◌==◌, text_eq, bool_eq, if◌then◌else◌, is_the, is_the-some, is_some,
  arith, Bool-cases, All-append,
}
use threadwire.Domain.Identity.{Url}
use threadwire.Cdp.ResponseTracker.{StreamCall}
use threadwire.Cdp.TurnTracker.{
  write, classify_turn_request, active, finished, write_failed, Observation, is_active,
  settled_lifecycle, NetworkEvent, request_will_be_sent, response_received, request_settled,
}
use threadwire.Cdp.TurnTracker.Events.{
  none-some, true-false, some-injective, not-finished, not-write_failed, NotRedirect, NotResponse,
  NotWrite,
}
use threadwire.Cdp.TurnTracker.History.{
  History, idle, going, settled_well, settled_badly, Selected-more, Answered-more, Succeeded-more,
}

module _ (parse_url : Text → Option Url) {D : Type 0} where
  -- An event that leaves the write as it is.
  unfoldable pub Same : Observation D → Observation D → Type 0
  Same o o1 =
      (o1.write_request_id ≡ o.write_request_id)
      × (o1.write_lifecycle ≡ o.write_lifecycle)
      × (o1.selected_leg_redirected ≡ o.selected_leg_redirected)
      × (o1.successful_response_observed ≡ o.successful_response_observed)

  -- An event that neither selects a write nor tells of the one selected.
  pub History-Same :
      (es : List NetworkEvent) (e : NetworkEvent) (o o1 : Observation D)
      → (o.write_request_id ≡ none → NotWrite parse_url e)
      → ((request : Text)
          → o.write_request_id ≡ some request
          → o.write_lifecycle ≡ some active
          → o.selected_leg_redirected ≡ false
          → NotResponse request e × NotRedirect request e)
      → Same o o1
      → History parse_url es o
      → History parse_url (es ++ e ∷ []) o1
  unfolding Same
  History-Same es e o o1 quiet told same (idle unnamed unset none_seen) =
      idle (same.0 ∙ unnamed) (same.1 ∙ unset)
        (All-append (NotWrite parse_url) es (e ∷ []) none_seen (quiet unnamed, tt))
  History-Same es e o o1 quiet told same (going request is_going g) =
      going request (same.1 ∙ is_going) (record {
        named = same.0 ∙ g.named;
        since = g.since ++ e ∷ [];
        selected = Selected-more parse_url request g.since es e g.selected;
        direct = λ p.
            let was = sym same.2 ∙ p in
            All-append (NotRedirect request) g.since (e ∷ []) (g.direct was)
              ((told request g.named is_going was).1, tt);
        answered = λ p q.
            let was = sym same.2 ∙ p in
            Answered-more parse_url request g.since e (told request g.named is_going was).0
              (g.answered was (sym same.3 ∙ q));
      })
  History-Same es e o o1 quiet told same (settled_well request named done s) =
      settled_well request (same.0 ∙ named) (same.1 ∙ done) (Succeeded-more parse_url es e s)
  History-Same es e o o1 quiet told same (settled_badly request named done) =
      settled_badly request (same.0 ∙ named) (same.1 ∙ done)

  -- A response to the write, whose success or failure is noted.
  pub History-answered :
      (es : List NetworkEvent) (r : Text) (status : ℕ) (call : StreamCall) (fine : Bool)
      (o o1 : Observation D)
      → o.write_request_id ≡ some r
      → is_active o.write_lifecycle ≡ true
      → (fine ≡ true → (200 ≤ status) × (status < 300))
      → o1.write_request_id ≡ o.write_request_id
      → o1.write_lifecycle ≡ o.write_lifecycle
      → o1.selected_leg_redirected ≡ o.selected_leg_redirected
      → o1.successful_response_observed ≡ some fine
      → History parse_url es o
      → History parse_url (es ++ response_received r status call ∷ []) o1
  unfolding NotRedirect
  History-answered es r status call fine o o1 named goes range same_id same_life same_leg noted
        (idle unnamed unset none_seen) =
      absurd (none-some (sym unnamed ∙ named))
  History-answered es r status call fine o o1 named goes range same_id same_life same_leg noted
        (settled_well request id done s) =
      absurd (not-finished o.write_lifecycle done goes)
  History-answered es r status call fine o o1 named goes range same_id same_life same_leg noted
        (settled_badly request id done) =
      absurd (not-write_failed o.write_lifecycle done goes)
  History-answered es r status call fine o o1 named goes range same_id same_life same_leg noted
        (going request is_going g) =
      let e = response_received r status call in
      going request (same_life ∙ is_going) (record {
        named = same_id ∙ g.named;
        since = g.since ++ e ∷ [];
        selected = Selected-more parse_url request g.since es e g.selected;
        direct = λ p.
            All-append (NotRedirect request) g.since (e ∷ []) (g.direct (sym same_leg ∙ p))
              (tt, tt);
        answered = λ p q.
            let (lower, upper) = range (some-injective fine true (sym noted ∙ q)) in
            record {
              before = g.since;
              status = status;
              call = call;
              after = [];
              split =
                  ap (λ k. g.since ++ response_received k status call ∷ [])
                    (some-injective r request (sym named ∙ g.named));
              last = tt;
              lower = lower;
              upper = upper;
            };
      })

  -- The end of the write.
  pub History-settled :
      (es : List NetworkEvent) (r : Text) (has_failed : Bool) (o o1 : Observation D)
      → o.write_request_id ≡ some r
      → is_active o.write_lifecycle ≡ true
      → o1.write_request_id ≡ o.write_request_id
      → o1.write_lifecycle ≡ some (settled_lifecycle has_failed o)
      → History parse_url es o
      → History parse_url (es ++ request_settled r has_failed ∷ []) o1
  History-settled es r has_failed o o1 named goes same_id ended (idle unnamed unset none_seen) =
      absurd (none-some (sym unnamed ∙ named))
  History-settled es r has_failed o o1 named goes same_id ended (settled_well request id done s) =
      absurd (not-finished o.write_lifecycle done goes)
  History-settled es r has_failed o o1 named goes same_id ended (settled_badly request id done) =
      absurd (not-write_failed o.write_lifecycle done goes)
  History-settled es r has_failed o o1 named goes same_id ended (going request is_going g) =
      let failed =
        has_failed
        || o.selected_leg_redirected
        || not (is_the ◌==◌ o.successful_response_observed true) in
      let id = same_id ∙ g.named in
      elim (Bool-cases failed) [
        | inl bad ↦
            settled_badly request id
              (ended ∙ ap (λ b. some (if b then write_failed else finished)) bad)
        | inr good ↦
            let fine = is_the-some o.successful_response_observed true (ground arith) in
            let direct : o.selected_leg_redirected ≡ false = ground arith in
            let whole : has_failed ≡ false = ground arith in
            settled_well request id
              (ended ∙ ap (λ b. some (if b then write_failed else finished)) good)
              (record {
                request = request;
                shown = es;
                since = g.since;
                rest = [];
                split =
                    ap (λ b. es ++ request_settled r b ∷ []) whole
                    ∙ ap (λ k. es ++ request_settled k false ∷ [])
                        (some-injective r request (sym named ∙ g.named));
                selected = g.selected;
                direct = g.direct direct;
                answered = g.answered direct fine;
              })
      ]

  -- A redirect of the write.
  pub History-redirected :
      (es : List NetworkEvent) (e : NetworkEvent) (o o1 : Observation D)
      → is_some o.write_request_id ≡ true
      → is_active o.write_lifecycle ≡ true
      → o1.write_request_id ≡ o.write_request_id
      → o1.write_lifecycle ≡ o.write_lifecycle
      → o1.selected_leg_redirected ≡ true
      → History parse_url es o
      → History parse_url (es ++ e ∷ []) o1
  History-redirected es e o o1 named goes same_id same_life redirected
        (idle unnamed unset none_seen) =
      absurd (true-false (sym named ∙ ap is_some unnamed))
  History-redirected es e o o1 named goes same_id same_life redirected
        (settled_well request id done s) =
      absurd (not-finished o.write_lifecycle done goes)
  History-redirected es e o o1 named goes same_id same_life redirected
        (settled_badly request id done) =
      absurd (not-write_failed o.write_lifecycle done goes)
  History-redirected es e o o1 named goes same_id same_life redirected (going request is_going g) =
      going request (same_life ∙ is_going) (record {
        named = same_id ∙ g.named;
        since = g.since ++ e ∷ [];
        selected = Selected-more parse_url request g.since es e g.selected;
        direct = λ p. absurd (true-false (sym redirected ∙ p));
        answered = λ p q. absurd (true-false (sym redirected ∙ p));
      })

  -- The selection of the write.
  pub History-selected :
      (es : List NetworkEvent) (r raw_url : Text) (method : Option Text) (redirected : Bool)
      (o o1 : Observation D)
      → classify_turn_request parse_url raw_url method ≡ some write
      → is_some o.write_request_id ≡ false
      → o1.write_request_id ≡ some r
      → o1.write_lifecycle ≡ some active
      → o1.successful_response_observed ≡ none
      → History parse_url es o
      → History parse_url (es ++ request_will_be_sent r raw_url method redirected ∷ []) o1
  History-selected es r raw_url method redirected o o1 is_write free id life unseen
        (idle unnamed unset none_seen) =
      going r life (record {
        named = id;
        since = [];
        selected = record {
          before = es;
          raw_url = raw_url;
          method = method;
          redirected = redirected;
          split = refl;
          none_before = none_seen;
          is_write = is_write;
        };
        direct = λ p. tt;
        answered = λ p q. absurd (none-some (sym unseen ∙ q));
      })
  History-selected es r raw_url method redirected o o1 is_write free id life unseen
        (going request is_going g) =
      absurd (true-false (sym (ap is_some g.named) ∙ free))
  History-selected es r raw_url method redirected o o1 is_write free id life unseen
        (settled_well request named done s) =
      absurd (true-false (sym (ap is_some named) ∙ free))
  History-selected es r raw_url method redirected o o1 is_write free id life unseen
        (settled_badly request named done) =
      absurd (true-false (sym (ap is_some named) ∙ free))
