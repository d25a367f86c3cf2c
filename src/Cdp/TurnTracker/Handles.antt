-- ===== src/Cdp/TurnTracker/Handles.antt =====
-- A handle that has been released is never accepted again.
use threadwire.Prelude.{
  ℕ, suc, ◌≤◌, ◌<◌, ◌≡◌, ◌≢◌, refl, sym, subst, Bool, Option, none, some, List, [], ◌∷◌, Text, ◌==◌,
  nat_eq, nat_beq_iff, is_some, arith, if_cases, if_some,
}
use threadwire.Domain.Identity.{Url}
use threadwire.Response.Consumer.{Consumer}
use threadwire.Cdp.ResponseTracker as Stream
use threadwire.Cdp.ResponseTracker.{Codec, ResponseTracker, new_response_tracker}
use threadwire.Cdp.TurnTracker.{
  Observation, TurnTracker, new_turn_tracker, arm_turn_observation, require, owned,
  take_turn_response_events, take_from, discard_turn_response, discard_from,
  release_turn_observation, dispose, drain_response, map_response, map_current, NetworkEvent,
  on_event, see,
}
use threadwire.Cdp.TurnTracker.Requests.{Inv}
use threadwire.Cdp.TurnTracker.Write.{see-Good, new-Inv}

pub data TrackerCall (D : Type 0) : Type 0 where
  arms : Bool → Bool → Consumer D → TrackerCall D
  takes discards releases : ℕ → TrackerCall D
  sees : NetworkEvent → TrackerCall D
  disposes : TrackerCall D

-- A call that throws leaves the tracker alone.
abbrev kept {ℓ} : {A : Type 0} {B : Type ℓ} → (B → A) → Option B → A → A
kept f none a = a
kept f (some b) a = f b

module _ {D : Type 0} (codec : Codec D) (parse_url : Text → Option Url) where
  unfoldable pub after_call : TurnTracker D → TrackerCall D → TurnTracker D
  after_call t (arms stream available consumer) =
      kept (λ r. r.1) (arm_turn_observation stream available consumer t) t
  after_call t (takes h) = kept (λ r. r.0) (take_turn_response_events h t) t
  after_call t (discards h) = kept (λ r. r) (discard_turn_response h t) t
  after_call t (releases h) = release_turn_observation h t
  after_call t (sees e) = on_event codec parse_url e t
  after_call t disposes = dispose t

  unfoldable pub after_calls : TurnTracker D → List (TrackerCall D) → TurnTracker D
  after_calls t [] = t
  after_calls t (c ∷ cs) = after_calls (after_call t c) cs

-- The active observation, if there is one, has a handle with `Q` that has been given out.
module _ {D : Type 0} (Q : ℕ → Type 0) (base : ℕ) where
  Current : ℕ → Option (Observation D) → Type 0
  Current next none = Unit
  Current next (some o) = Q o.handle × (o.handle < next) × Inv o

  record Held (t : TurnTracker D) : Type 0 where
    pub based : base ≤ t.next_handle
    pub current : Current t.next_handle t.current

  owned-Current :
      (h next : ℕ) (o : Option (Observation D)) → Current next o → Current next (owned h o)
  unfolding Current
  owned-Current h next none c = tt
  owned-Current h next (some o) c = if_cases (Current next) (o.handle == h) (λ p. c) (λ p. tt)

  with_response-Current :
      (next : ℕ) (r : Option (ResponseTracker D)) (o : Observation D)
      → Current next (some o)
      → Current next (some (record o { response = r }))
  unfolding Current
  with_response-Current next r o (q, below, inv) =
      (q, below, record { named = inv.named; successful = inv.successful; direct = inv.direct })

  take-Held :
      (t : TurnTracker D) (o : Option (Observation D))
      → Current t.next_handle o
      → Held t
      → Held (kept (λ r. r.0) (take_from o t) t)
  unfolding Current
  take-Held t none c held = held
  take-Held t (some o) c held = record {
    based = held.based;
    current = with_response-Current t.next_handle (drain_response o.response).0 o c;
  }

  discard-Held :
      (t : TurnTracker D) (o : Option (Observation D))
      → Current t.next_handle o
      → Held t
      → Held (kept (λ r. r) (discard_from o t) t)
  unfolding Current
  discard-Held t none c held = held
  discard-Held t (some o) c held = record {
    based = held.based;
    current = with_response-Current t.next_handle (map_response Stream.discard o.response) o c;
  }

  see-Current :
      (codec : Codec D) (parse_url : Text → Option Url) (e : NetworkEvent) (next : ℕ)
      (o : Option (Observation D))
      → Current next o
      → Current next (map_current (see codec parse_url e) o)
  unfolding Current
  see-Current codec parse_url e next none c = tt
  see-Current codec parse_url e next (some o) (q, below, inv) =
      let good = see-Good codec parse_url e o inv in
      (
        subst Q (sym good.later.same_handle) q,
        subst (λ k. k < next) (sym good.later.same_handle) below,
        good.inv,
      )

  abbrev Tried : TurnTracker D → Option (ℕ × TurnTracker D) → Type 0
  Tried t r = Held (kept (λ r. r.1) r t)

  module _ (fresh : (k : ℕ) → base ≤ k → Q k) (codec : Codec D)
      (parse_url : Text → Option Url) where
    after_call-Held :
        (t : TurnTracker D) (c : TrackerCall D) → Held t → Held (after_call codec parse_url t c)
    unfolding after_call Current arm_turn_observation take_turn_response_events
        discard_turn_response release_turn_observation require on_event dispose
    after_call-Held t (arms stream available consumer) held =
        if_cases (Tried t) (is_some t.current) (λ busy. held)
          (λ idle. record {
            based = ground (arith, held.based);
            current = (
              fresh t.next_handle held.based,
              omega arith,
              new-Inv codec parse_url t.next_handle _,
            );
          })
    after_call-Held t (takes h) held =
        take-Held t (owned h t.current) (owned-Current h t.next_handle t.current held.current) held
    after_call-Held t (discards h) held =
        discard-Held t (owned h t.current) (owned-Current h t.next_handle t.current held.current)
          held
    after_call-Held t (releases h) held =
        if_cases Held (is_some (owned h t.current))
          (λ p. record { based = held.based; current = tt }) (λ p. held)
    after_call-Held t (sees e) held = record {
      based = held.based;
      current = see-Current codec parse_url e t.next_handle t.current held.current;
    }
    after_call-Held t disposes held = record { based = held.based; current = tt }

    after_calls-Held :
        (t : TurnTracker D) (cs : List (TrackerCall D))
        → Held t
        → Held (after_calls codec parse_url t cs)
    unfolding after_calls
    after_calls-Held t [] held = held
    after_calls-Held t (c ∷ cs) held =
        after_calls-Held (after_call codec parse_url t c) cs (after_call-Held t c held)

-- Any handle, and any handle but `h`.
abbrev Any : ℕ → Type 0
Any k = Unit {0}

abbrev But : ℕ → ℕ → Type 0
But h k = k ≢ h

module _ {D : Type 0} where
  owned-below :
      (h next : ℕ) (c : Option (Observation D)) (o : Observation D)
      → Current Any 0 next c
      → owned h c ≡ some o
      → h < next
  unfolding Current
  owned-below h next none o held p = cc
  owned-below h next (some o') o (_, below, inv) p =
      let (same, _) = if_some (o'.handle == h) p in
      subst (λ k. k < next) ((nat_beq_iff o'.handle h).0 same) below

  owned-none :
      (h next base : ℕ) (c : Option (Observation D))
      → Current (But h) base next c
      → owned h c ≡ none
  unfolding Current
  owned-none h next base none held = refl
  owned-none h next base (some o) (other, below, inv) =
      if_cases (λ r. r ≡ none) (o.handle == h)
        (λ same. absurd (other ((nat_beq_iff o.handle h).0 same))) (λ p. refl)

module _ {D : Type 0} (codec : Codec D) (parse_url : Text → Option Url) where
  -- A handle that is active after any calls on a new tracker is refused once it has been released,
  -- whatever calls follow.
  pub require-release_turn_observation :
      (before after : List (TrackerCall D)) (h : ℕ) (o : Observation D)
      → require h (after_calls codec parse_url new_turn_tracker before) ≡ some o
      → require h (
          after_calls codec parse_url
            (release_turn_observation h (after_calls codec parse_url new_turn_tracker before))
            after)
        ≡ none
  unfolding require release_turn_observation new_turn_tracker Current
  require-release_turn_observation before after h o active =
      let t = after_calls codec parse_url new_turn_tracker before in
      let held : Held Any 0 t =
        after_calls-Held Any 0 (λ k p. tt) codec parse_url new_turn_tracker before
          (record { based = omega arith; current = tt }) in
      let below = owned-below h t.next_handle t.current o held.current active in
      let released : Held (But h) (suc h) (release_turn_observation h t) =
        if_cases (Held (But h) (suc h)) (is_some (owned h t.current))
          (λ p. record { based = omega arith; current = tt })
          (λ p. absurd (ground (arith, active))) in
      owned-none h _ (suc h) _
        (after_calls-Held (But h) (suc h) (λ k p same. omega arith) codec parse_url
          (release_turn_observation h t) after released).current
