-- ===== src/Turn/Protocol/Finish.antt =====
-- `finalizeResponseDelivery` delivers the rest of the sequence, or leaves an error behind.
use threadwire.Prelude.{
  ◌≤◌, ◌≡◌, ◌⊎◌, refl, sym, ap, ◌∙◌, subst, inl, inr, Bool, true, false, not, ◌||◌, Option, none,
  some, List, [], ◌∷◌, ◌++◌, Text, length, map, if◌then◌else◌,
}
use mathlib.Core.List.{append-nil, append_assoc}
use threadwire.Domain.Errors.{response_stream_failed}
use threadwire.Exec.{pure, modify, ◌>>=◌}
use threadwire.Exec.Rules.{Triple, Triple-bind, Triple-if, Triple-fact}
use threadwire.Turn.{
  Turn, Act, TurnPort, TurnOptions, ResponseDeliveryState, ResponseEvent, delta, final_text,
  response_completed,
}
use threadwire.Turn.Delivery.{
  has_failed, is_blank, notify, refuse_response, flush_deferred, end_deferral, announce_completed,
  announce_final, finalize_response_delivery,
}
use threadwire.Turn.Protocol.{joined, Begins, Completes, Stage, Stage-Begins}
use threadwire.Turn.Protocol.Rules.{On, Quiet, Quiet-Triple}
use threadwire.Turn.Protocol.Delivery.{Started, true-false, read_response}

pub not-true : (b : Bool) → not b ≡ true → b ≡ false
not-true true p = cc
not-true false p = refl

not-false : (b : Bool) → not b ≡ false → b ≡ true
not-false true p = refl
not-false false p = cc

or-false : (a b : Bool) → a || b ≡ false → b ≡ false
or-false true b p = cc
or-false false b p = p

-- The deltas delivered join to the text.
abbrev Joins : Text → List ResponseEvent → Type 0
Joins text l = (ds : List Text) × (l ≡ map delta ds) × (text ≡ joined ds)

-- An error is left behind, which the turn throws.
abbrev pub Refused : ResponseDeliveryState → List ResponseEvent → Type 0
Refused r l = (has_failed r ≡ true) × Begins l

module _ (options : TurnOptions) where
  -- What `finalizeResponseDelivery` leaves with its answer.
  abbrev pub Settled : Bool → ResponseDeliveryState → List ResponseEvent → Type 0
  Settled b r l =
      ((b ≡ true) × Completes options l) ⊎ ((b ≡ false) × Stage options r l) ⊎ Refused r l

  abbrev pub Answer : {B : Type 0} → Bool × Option B → Turn → Type 0
  Answer (b, left) = On (Settled b)

  -- The events of a delivery that has begun, and one more.
  Joins-final :
      (text : Text) (l : List ResponseEvent) → Joins text l → Begins (l ++ final_text text ∷ [])
  Joins-final text l (ds, p, same) = (ds, inr (inl (rw p (rw same refl))))

  Joins-all :
      (text : Text) (l : List ResponseEvent)
      → Joins text l
      → (l ++ final_text text ∷ []) ++ response_completed ∷ []
        ≡ l ++ final_text text ∷ response_completed ∷ []
  Joins-all text l joins = append_assoc l (final_text text ∷ []) (response_completed ∷ [])

  failed-with : Turn → Turn
  failed-with t = record t {
    response = record t.response { terminal_error = some response_stream_failed };
  }

  module _ (port : TurnPort) where
    refuse-Triple :
        {A : Type 0} {P : Turn → Type 0} {Q : A → Turn → Type 0} (a : A)
        → ((t : Turn) → P t → Q a (failed-with t))
        → Triple P (refuse_response port a) Q Started
    unfolding ◌>>=◌ failed-with
    refuse-Triple a h = record { at = h }

    notify-Triple :
        (P Q : ResponseDeliveryState → List ResponseEvent → Type 0) (e : ResponseEvent)
        → ((r : ResponseDeliveryState) (l : List ResponseEvent) → P r l → Q r (l ++ e ∷ []))
        → Triple (On P) (notify port e) (λ thrown. On Q) Started
    unfolding notify
    notify-Triple P Q e h = record { at = λ t p. h t.response t.delivered p }

    module _ (text : Text) (solid : is_blank text ≡ false)
        (fits : length text ≤ options.max_accumulated_text_chars) where
      -- All but the end of the sequence.
      abbrev Final : ResponseDeliveryState → List ResponseEvent → Type 0
      Final r l =
          (ds : List Text) × (l ≡ map delta ds ++ final_text (joined ds) ∷ []) × (text ≡ joined ds)

      Final-ends :
          (r : ResponseDeliveryState) (l : List ResponseEvent)
          → Final r l
          → Completes options (l ++ response_completed ∷ [])
      Final-ends r l (ds, p, same) = (
        ds,
        ap (λ l. l ++ response_completed ∷ []) p
            ∙ append_assoc (map delta ds) (final_text (joined ds) ∷ []) (response_completed ∷ []),
        subst (λ w. is_blank w ≡ false) same solid,
        subst (λ w. length w ≤ options.max_accumulated_text_chars) same fits,
      )

      completed-Triple :
          {B : Type 0} (left : B) → Triple (On Final) (announce_completed port left) Answer Started
      unfolding announce_completed modify ◌>>=◌ failed-with
      completed-Triple left =
          Triple-bind (λ thrown. On (λ r l. Completes options l))
            (notify-Triple Final (λ r l. Completes options l) response_completed Final-ends)
            λ thrown.
              Triple-if thrown
                (λ p.
                  refuse-Triple (false, some left)
                    λ t (ds, whole, solid, fits). inr (inr (refl, (ds, inr (inr whole)))))
                (λ p. record { at = λ t whole. inl (refl, whole) })

      final-Triple :
          {B : Type 0} (m : Act B)
          → Quiet m
          → Triple (On (λ r l. Joins text l)) (announce_final port m text) Answer Started
      unfolding announce_final failed-with
      final-Triple m quiet =
          Triple-bind (λ thrown. On Final)
            (notify-Triple (λ r l. Joins text l) Final (final_text text)
              λ r l (ds, p, same). (ds, rw p (rw same refl), same))
            λ thrown.
              Triple-if thrown
                (λ p.
                  refuse-Triple (false, none)
                    λ t (ds, whole, same). inr (inr (refl, (ds, inr (inl whole)))))
                (λ p.
                  Triple-bind (λ left. On Final)
                    (Quiet-Triple Final (λ r l. Begins l) m quiet
                      λ r l (ds, whole, same). (ds, inr (inl whole)))
                    completed-Triple)

    -- What the deferred text leaves: the deltas join to the text, or an error is left behind.
    abbrev Flushed : Text → Bool → Turn → Type 0
    Flushed text true = On (λ r l. Joins text l)
    Flushed text false = On Refused

    abbrev At : ResponseDeliveryState → Turn → Type 0
    At r t = (t.response ≡ r) × Stage options r t.delivered

    joined-one : (s : Text) → s ≡ joined (s ∷ [])
    unfolding joined
    joined-one s = sym (append-nil s)

    module _ (r : ResponseDeliveryState) (sound : has_failed r ≡ false) where
      Stage-Joins :
          (l : List ResponseEvent)
          → r.delivery_deferred ≡ false
          → Stage options r l
          → Joins r.accumulated_text l
      Stage-Joins l d (ds, p, inl broke, fits) = absurd (true-false (sym broke ∙ sound))
      Stage-Joins l d (ds, p, inr (open_, inl (direct, same)), fits) = (ds, p, same)
      Stage-Joins l d (ds, p, inr (open_, inr (waits, e)), fits) =
          absurd (true-false (sym waits ∙ d))

      Stage-empty :
          (l : List ResponseEvent) → r.delivery_deferred ≡ true → Stage options r l → l ≡ []
      Stage-empty l d (ds, p, inl broke, fits) = absurd (true-false (sym broke ∙ sound))
      Stage-empty l d (ds, p, inr (open_, inl (direct, same)), fits) =
          absurd (true-false (sym d ∙ direct))
      Stage-empty l d (ds, p, inr (open_, inr (waits, e)), fits) = p ∙ ap (map delta) e

      notify-deferred :
          r.delivery_deferred ≡ true
          → Triple
              (At r)
              (notify port (delta r.accumulated_text))
              (λ thrown. On (λ s l. Joins r.accumulated_text l))
              Started
      unfolding notify
      notify-deferred waits = record {
        at = λ t (same, stage). (
          r.accumulated_text ∷ [],
          ap (λ l. l ++ delta r.accumulated_text ∷ []) (Stage-empty t.delivered waits stage),
          joined-one r.accumulated_text,
        );
      }

      end-deferral :
          Triple
            (On (λ s l. Joins r.accumulated_text l))
            end_deferral
            (Flushed r.accumulated_text)
            Started
      unfolding ◌>>=◌
      end-deferral = record { at = λ t joins. joins }

      flush-Triple : Triple (At r) (flush_deferred port r) (Flushed r.accumulated_text) Started
      unfolding flush_deferred pure failed-with
      flush-Triple =
          Triple-if (not r.delivery_deferred)
            (λ direct. record {
              at = λ t (same, stage). Stage-Joins t.delivered (not-true _ direct) stage;
            })
            (λ waits.
              Triple-bind (λ thrown. On (λ s l. Joins r.accumulated_text l))
                (notify-deferred (not-false _ waits))
                λ thrown.
                  Triple-if thrown
                    (λ p. refuse-Triple false λ t (ds, whole, same). (refl, (ds, inl whole)))
                    (λ p. end-deferral))

    At-Settled :
        (r : ResponseDeliveryState) (t : Turn) → At r t → Settled false t.response t.delivered
    At-Settled r t (same, stage) = inr (inl (refl, rw same stage))

    -- A delivery is not final between the rounds.
    finalized-Refused :
        (r : ResponseDeliveryState) (l : List ResponseEvent)
        → r.finalized ≡ true
        → Stage options r l
        → Refused r l
    finalized-Refused r l f (ds, p, inl broke, fits) = (broke, (ds, inl p))
    finalized-Refused r l f (ds, p, inr (open_, ways), fits) = absurd (true-false (sym f ∙ open_))

    Stage-fits :
        (r : ResponseDeliveryState) (l : List ResponseEvent)
        → Stage options r l
        → length r.accumulated_text ≤ options.max_accumulated_text_chars
    Stage-fits r l (ds, p, follows, fits) = fits

    Flushed-Triple :
        {B : Type 0} (m : Act B)
        → Quiet m
        → (text : Text) → is_blank text ≡ false
        → length text ≤ options.max_accumulated_text_chars
        → (b : Bool)
        → Triple
            (Flushed text b)
            (if b then announce_final port m text else pure (false, none))
            Answer
            Started
    unfolding pure
    Flushed-Triple m quiet text solid fits true = final-Triple text solid fits m quiet
    Flushed-Triple m quiet text solid fits false = record { at = λ t refused. inr (inr refused) }

    pub finalize-Triple :
        {B : Type 0} (m : Act B)
        → Quiet m
        → Triple (On (Stage options)) (finalize_response_delivery port m) Answer Started
    unfolding finalize_response_delivery pure failed-with
    finalize-Triple m quiet = Triple-bind At (read_response options) λ r.
        Triple-if r.finalized
          (λ f. record {
            at = λ t (same, stage). inr (inr (rw same (finalized-Refused r t.delivered f stage)));
          })
          (λ f.
            Triple-if (not r.semantic_completed || has_failed r) (λ b. record { at = At-Settled r })
              (λ b.
                Triple-if (is_blank r.accumulated_text)
                  (λ c.
                    refuse-Triple (false, none)
                      λ t (same, stage).
                        inr
                          (inr (refl, Stage-Begins options t.response t.delivered (rw same stage))))
                  (λ c.
                    Triple-fact (λ t (same, stage). Stage-fits r t.delivered stage)
                      λ fits.
                        Triple-bind (Flushed r.accumulated_text) (flush-Triple r (or-false _ _ b))
                          (Flushed-Triple m quiet r.accumulated_text c fits))))
