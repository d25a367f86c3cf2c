-- ===== src/Readiness/Gate/Counts.antt =====
-- The snapshots that a gate's counters count.
use threadwire.Prelude.{
  ℕ, zero, suc, ◌+◌, ◌≤◌, ◌<◌, ◌≡◌, refl, sym, subst, Bool, true, false, Option, none, some, List,
  [], ◌∷◌, Text, arith, nat_eq, text_eq, if◌then◌else◌,
}
use native.Mathlib.Numerals.{unary_clauses}
use threadwire.Readiness.Gate.{Snapshot, Gate, wait, ready, frame_key_of}

-- The newest `n` snapshots exist and satisfy `P`.
unfoldable pub Recent : (Snapshot → Type 0) → ℕ → List Snapshot → Type 0
Recent P zero ss = Unit
Recent P (suc n) [] = ⊥
Recent P (suc n) (s ∷ ss) = P s × Recent P n ss

unfoldable pub InFrame : Text → Snapshot → Type 0
InFrame key s = (s.main_frame.expected_route ≡ true) × (frame_key_of s ≡ key)

unfoldable pub Focused : ℕ → ℕ → Snapshot → Type 0
Focused target epoch s =
    (s.eligible_editables ≡ record { backend_dom_node_id = target; focused = true } ∷ [])
    × (s.backend_activity.activity_epoch ≡ epoch)

unfoldable pub FrameCounted : Option Text → ℕ → List Snapshot → Type 0
FrameCounted none n ss = Unit
FrameCounted (some key) n ss = Recent (InFrame key) n ss

unfoldable pub FocusCounted : Option ℕ → Option ℕ → ℕ → List Snapshot → Type 0
FocusCounted _ none n ss = Unit
FocusCounted none (some epoch) n ss = ⊥
FocusCounted (some target) (some epoch) n ss = Recent (Focused target epoch) n ss

pub record Inv (g : Gate) (ss : List Snapshot) : Type 0 where
  pub frames : FrameCounted g.frame_key g.frame_stable_count ss
  pub focuses : FocusCounted g.focus_target_id g.ready_activity_epoch g.focus_stable_count ss
  pub young : g.frame_stable_count < g.required_frame → g.ready_activity_epoch ≡ none

pub Recent-le :
    (P : Snapshot → Type 0) (m n : ℕ) (ss : List Snapshot) → m ≤ n → Recent P n ss → Recent P m ss
unfolding Recent
Recent-le P zero n ss h r = tt
Recent-le P (suc m) zero ss h r = ground arith
Recent-le P (suc m) (suc n) [] h r = r
Recent-le P (suc m) (suc n) (s ∷ ss) h (p, r) = (p, Recent-le P m n ss (ground arith) r)

pub Recent-suc :
    (P : Snapshot → Type 0) (n : ℕ) (s : Snapshot) (ss : List Snapshot)
    → P s
    → Recent P n ss
    → Recent P (n + 1) (s ∷ ss)
unfolding Recent
Recent-suc P n s ss p r = simp unary_clauses (p, r)

pub FrameCounted-key :
    (o : Option Text) (n : ℕ) (ss : List Snapshot) (key : Text)
    → o ≡ some key
    → FrameCounted o n ss
    → Recent (InFrame key) n ss
unfolding FrameCounted
FrameCounted-key o n ss key p h = subst (λ o. FrameCounted o n ss) p h

pub FrameCounted-of :
    (o : Option Text) (n : ℕ) (ss : List Snapshot) (key : Text)
    → o ≡ some key
    → Recent (InFrame key) n ss
    → FrameCounted o n ss
unfolding FrameCounted
FrameCounted-of o n ss key p h = subst (λ o. FrameCounted o n ss) (sym p) h

pub FocusCounted-keys :
    (o : Option ℕ) (e : Option ℕ) (n : ℕ) (ss : List Snapshot) (target epoch : ℕ)
    → o ≡ some target
    → e ≡ some epoch
    → FocusCounted o e n ss
    → Recent (Focused target epoch) n ss
unfolding FocusCounted
FocusCounted-keys o e n ss target epoch p q h =
    subst (λ e. FocusCounted (some target) e n ss) q (subst (λ o. FocusCounted o e n ss) p h)

pub FocusCounted-of :
    (o : Option ℕ) (e : Option ℕ) (n : ℕ) (ss : List Snapshot) (target epoch : ℕ)
    → o ≡ some target
    → e ≡ some epoch
    → Recent (Focused target epoch) n ss
    → FocusCounted o e n ss
unfolding FocusCounted
FocusCounted-of o e n ss target epoch p q h =
    subst (λ o. FocusCounted o e n ss) (sym p)
      (subst (λ e. FocusCounted (some target) e n ss) (sym q) h)

pub FocusCounted-none : (o : Option ℕ) (n : ℕ) (ss : List Snapshot) → FocusCounted o none n ss
unfolding FocusCounted
FocusCounted-none none n ss = tt
FocusCounted-none (some target) n ss = tt

pub if-ready : (b : Bool) → (if b then wait else ready) ≡ ready → b ≡ false
if-ready true p = ground arith
if-ready false p = refl
