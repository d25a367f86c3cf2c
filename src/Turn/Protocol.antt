-- ===== src/Turn/Protocol.antt =====
-- What the caller's listener may be given: deltas, then one text that joins them, then the end.
pub mod Rules
pub mod Quiet
pub mod Delivery
pub mod Finish
pub mod Round
pub mod Completion
pub mod Outcome
pub mod Execution
use threadwire.Prelude.{
  ℕ, ◌+◌, ◌≤◌, ◌≡◌, refl, sym, ap, ◌∙◌, ◌⊎◌, inl, inr, Bool, true, false, List, [], ◌∷◌, ◌++◌, Text,
  map, length, arith,
}
use mathlib.Core.List.{append-nil, append_assoc, map-append}
use threadwire.Turn.{
  ResponseEvent, delta, final_text, response_completed, TurnOptions, ResponseDeliveryState, Turn,
}
use threadwire.Turn.Delivery.{has_failed, is_blank}

unfoldable pub joined : List Text → Text
joined [] = []
joined (s ∷ ds) = s ++ joined ds

-- A part of such a sequence of events, from its start on.
abbrev pub Begins : List ResponseEvent → Type 0
Begins l =
    (ds : List Text) × ((l ≡ map delta ds)
      ⊎ (l ≡ map delta ds ++ final_text (joined ds) ∷ [])
      ⊎ (l ≡ map delta ds ++ final_text (joined ds) ∷ response_completed ∷ []))

-- All of it, for a text that is not blank and not too long.
abbrev pub Completes : TurnOptions → List ResponseEvent → Type 0
Completes options l =
    (ds : List Text) × (l ≡ map delta ds ++ final_text (joined ds) ∷ response_completed ∷ [])
    × (is_blank (joined ds) ≡ false)
    × (length (joined ds) ≤ options.max_accumulated_text_chars)

pub joined-snoc : (ds : List Text) (s : Text) → joined (ds ++ s ∷ []) ≡ joined ds ++ s
unfolding joined
joined-snoc [] s = append-nil s
joined-snoc (d ∷ ds) s = ap (λ w. d ++ w) (joined-snoc ds s) ∙ sym (append_assoc d (joined ds) s)

pub snoc-delta :
    (ds : List Text) (s : Text) (l : List ResponseEvent)
    → l ≡ map delta ds
    → l ++ delta s ∷ [] ≡ map delta (ds ++ s ∷ [])
snoc-delta ds s l p = ap (λ l. l ++ delta s ∷ []) p ∙ sym (map-append delta ds (s ∷ []))

pub Completes-Begins :
    (options : TurnOptions) (l : List ResponseEvent) → Completes options l → Begins l
Completes-Begins options l (ds, p, blank, fits) = (ds, inr (inr p))

-- How the accumulated text stands to the deltas so far, while no error has been met.
abbrev pub Follows : ResponseDeliveryState → Text → List Text → Type 0
Follows r text ds =
    (has_failed r ≡ true)
    ⊎ ((r.finalized ≡ false)
        × (((r.delivery_deferred ≡ false) × (text ≡ joined ds))
            ⊎ ((r.delivery_deferred ≡ true) × (ds ≡ []))))

-- Deltas only, where `more` has still to be accumulated.
abbrev pub Streams : TurnOptions → Text → ResponseDeliveryState → List ResponseEvent → Type 0
Streams options more r l =
    (ds : List Text) × (l ≡ map delta ds)
    × Follows r (r.accumulated_text ++ more) ds
    × (length r.accumulated_text + length more ≤ options.max_accumulated_text_chars)

abbrev pub Stage : TurnOptions → ResponseDeliveryState → List ResponseEvent → Type 0
Stage options r l =
    (ds : List Text) × (l ≡ map delta ds)
    × Follows r r.accumulated_text ds
    × (length r.accumulated_text ≤ options.max_accumulated_text_chars)

pub Stage-Begins :
    (options : TurnOptions) (r : ResponseDeliveryState) (l : List ResponseEvent)
    → Stage options r l
    → Begins l
Stage-Begins options r l (ds, p, follows, fits) = (ds, inl p)
