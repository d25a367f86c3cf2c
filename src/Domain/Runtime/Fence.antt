-- ===== src/Domain/Runtime/Fence.antt =====
-- A lease fences its holder: once another process has been seen, it never becomes current again.
use threadwire.Prelude.{
  ℕ, ◌+◌, ◌≤◌, ◌<◌, ◌≡◌, refl, ◌≢◌, Bool, is_some, Option-cases, ◌⊎◌, inl, inr, ◌↔◌, Option, none,
  some, List, [], ◌∷◌, arith, true, text_beq_iff, All,
}
use threadwire.Domain.Errors.{ok}
use threadwire.Domain.Runtime.{
  RuntimeIdentity, RuntimeLease, RuntimeGenerationTracker, same_runtime_identity,
  same_runtime_lease, observe, observe_all, get_current_runtime_lease, assert_runtime_lease_current,
  new_tracker, next_generation,
}

pub same_runtime_identity_iff :
    (i j : RuntimeIdentity) → (same_runtime_identity i j ≡ true) ↔ (i ≡ j)
unfolding same_runtime_identity
same_runtime_identity_iff i j = ground (arith, text_beq_iff i.creation_time j.creation_time)

pub same_runtime_lease_iff : (l m : RuntimeLease) → (same_runtime_lease l m ≡ true) ↔ (l ≡ m)
unfolding same_runtime_lease
same_runtime_lease_iff l m = ground (arith, same_runtime_identity_iff l.identity m.identity)

-- The identity that is current was the last one seen, and generation 0 has seen none.
pub record Inv (t : RuntimeGenerationTracker) : Type 0 where
  pub current_last : (t.current_identity ≡ none) ⊎ (t.current_identity ≡ t.last_identity)
  pub unobserved : t.generation ≡ 0 → t.last_identity ≡ none

pub new_tracker-Inv : Inv new_tracker
new_tracker-Inv = ground arith

pub observe-Inv :
    (t : RuntimeGenerationTracker) (o : Option RuntimeIdentity) → Inv t → Inv (observe t o)
unfolding observe
observe-Inv t none v = ground arith
observe-Inv t (some i) v = ground arith

-- The lease was current when the tracker stood at its generation.
pub record IsIssued (t : RuntimeGenerationTracker) (l : RuntimeLease) : Type 0 where
  pub past : l.generation ≤ t.generation
  pub latest : l.generation ≡ t.generation → t.last_identity ≡ some l.identity

pub get_current-IsIssued :
    (t : RuntimeGenerationTracker) (l : RuntimeLease)
    → Inv t
    → get_current_runtime_lease t ≡ ok l
    → IsIssued t l
unfolding get_current_runtime_lease
get_current-IsIssued t l v h = ground arith

next_generation_cases :
    (g : ℕ) (last : Option RuntimeIdentity) (i : RuntimeIdentity)
    → ((last ≡ some i) × (next_generation g last i ≡ g)) ⊎ (next_generation g last i ≡ g + 1)
unfolding next_generation
next_generation_cases g none i = inr refl
next_generation_cases g (some j) i = ground (arith, same_runtime_identity_iff j i)

pub observe-IsIssued :
    (t : RuntimeGenerationTracker) (o : Option RuntimeIdentity) (l : RuntimeLease)
    → IsIssued t l
    → IsIssued (observe t o) l
unfolding observe
observe-IsIssued t none l v = ground arith
observe-IsIssued t (some i) l v =
    ground (arith, next_generation_cases t.generation t.last_identity i)

-- An observation that does not end the lease.
abbrev pub IsSame : RuntimeLease → Option RuntimeIdentity → Type 0
IsSame l o = (o ≡ none) ⊎ (o ≡ some l.identity)

-- The process of the lease is the last one seen.
pub record IsHeld (t : RuntimeGenerationTracker) (l : RuntimeLease) : Type 0 where
  pub started : 0 < l.generation
  pub same_generation : l.generation ≡ t.generation
  pub same_last : t.last_identity ≡ some l.identity
  pub current_last : (t.current_identity ≡ none) ⊎ (t.current_identity ≡ some l.identity)

pub get_current-IsHeld :
    (t : RuntimeGenerationTracker) (l : RuntimeLease)
    → Inv t
    → get_current_runtime_lease t ≡ ok l
    → IsHeld t l
unfolding get_current_runtime_lease
get_current-IsHeld t l v h = ground arith

-- One observation keeps the lease, or ends its generation.
observe-IsHeld :
    (t : RuntimeGenerationTracker) (o : Option RuntimeIdentity) (l : RuntimeLease)
    → IsHeld t l
    → (IsSame l o × IsHeld (observe t o) l) ⊎ (l.generation < (observe t o).generation)
unfolding observe
observe-IsHeld t none l v = ground arith
observe-IsHeld t (some i) l v = ground (arith, next_generation_cases t.generation t.last_identity i)

observe-IsSame :
    (t : RuntimeGenerationTracker) (o : Option RuntimeIdentity) (l : RuntimeLease)
    → IsHeld t l
    → IsSame l o
    → IsHeld (observe t o) l × (is_some (observe t o).current_identity ≡ is_some o)
unfolding observe next_generation
observe-IsSame t none l v h = ground arith
observe-IsSame t (some i) l v h = ground (arith, same_runtime_identity_iff l.identity i)

pub observe_all-IsStale :
    (t : RuntimeGenerationTracker) (os : List (Option RuntimeIdentity)) (l : RuntimeLease)
    → l.generation < t.generation
    → l.generation < (observe_all t os).generation
unfolding observe_all observe
observe_all-IsStale t [] l h = h
observe_all-IsStale t (none ∷ os) l h = observe_all-IsStale (observe t none) os l h
observe_all-IsStale t (some i ∷ os) l h =
    observe_all-IsStale (observe t (some i)) os l
      (ground (arith, next_generation_cases t.generation t.last_identity i))

-- A lease is refused once its generation is over.
pub assert-IsStale :
    (t : RuntimeGenerationTracker) (l : RuntimeLease)
    → l.generation < t.generation
    → assert_runtime_lease_current t l ≢ ok tt
unfolding assert_runtime_lease_current get_current_runtime_lease same_runtime_lease
assert-IsStale t l h e = ground arith

pub assert-IsHeld :
    (t : RuntimeGenerationTracker) (l : RuntimeLease)
    → IsHeld t l
    → (assert_runtime_lease_current t l ≡ ok tt) ↔ (is_some t.current_identity ≡ true)
unfolding assert_runtime_lease_current get_current_runtime_lease
assert-IsHeld t l h =
    ground (
      arith,
      same_runtime_lease_iff (record { generation = t.generation; identity = l.identity }) l,
    )

-- Whether a process runs after the observations, given whether one ran before.
abbrev pub is_present : Bool → List (Option RuntimeIdentity) → Bool
is_present before [] = before
is_present before (o ∷ os) = is_present (is_some o) os

held_fence :
    (t : RuntimeGenerationTracker) (os : List (Option RuntimeIdentity)) (l : RuntimeLease)
    → IsHeld t l
    → (assert_runtime_lease_current (observe_all t os) l ≡ ok tt)
      ↔ (All (IsSame l) os × (is_present (is_some t.current_identity) os ≡ true))
unfolding observe_all
held_fence t [] l v = ground (arith, assert-IsHeld t l v)
held_fence t (o ∷ os) l v = (
  λ h. elim (observe-IsHeld t o l v) [
    | inl same ↦ ground (arith, held_fence (observe t o) os l same.1, observe-IsSame t o l v same.0)
    | inr over ↦ absurd (
        assert-IsStale (observe_all (observe t o) os) l
          (observe_all-IsStale (observe t o) os l over) h)
  ],
  λ h.
      let (held, present) = observe-IsSame t o l v h.0.0 in
      (held_fence (observe t o) os l held).1 (h.0.1, rw present h.1),
)

-- A lease that was current is accepted after further observations exactly when none of them
-- showed another process and the last of them, if there is one, showed a process.
pub lease_fence :
    (t : RuntimeGenerationTracker) (os : List (Option RuntimeIdentity)) (l : RuntimeLease)
    → Inv t
    → get_current_runtime_lease t ≡ ok l
    → (assert_runtime_lease_current (observe_all t os) l ≡ ok tt)
      ↔ (All (IsSame l) os × (is_present true os ≡ true))
unfolding get_current_runtime_lease
lease_fence t os l v issued =
    let present : is_some t.current_identity ≡ true = ground arith in
    rw present at (held_fence t os l (get_current-IsHeld t l v issued))

pub assert-eq_current :
    (t : RuntimeGenerationTracker) (l : RuntimeLease)
    → assert_runtime_lease_current t l ≡ ok tt
    → get_current_runtime_lease t ≡ ok l
unfolding assert_runtime_lease_current get_current_runtime_lease
assert-eq_current t l h = elim (Option-cases t.current_identity) [
  | inl gone ↦ ground arith
  | inr (i, here) ↦
      ground (arith, same_runtime_lease_iff (record { generation = t.generation; identity = i }) l)
]

-- Once another lease is current, an issued lease is of an earlier generation.
pub current_other-IsStale :
    (t : RuntimeGenerationTracker) (l m : RuntimeLease)
    → Inv t
    → IsIssued t l
    → get_current_runtime_lease t ≡ ok m
    → l ≢ m
    → l.generation < t.generation
unfolding get_current_runtime_lease
current_other-IsStale t l m v issued h other = ground arith

pub observe-generation_le :
    (t : RuntimeGenerationTracker) (o : Option RuntimeIdentity)
    → t.generation ≤ (observe t o).generation
unfolding observe
observe-generation_le t none = omega arith
observe-generation_le t (some i) =
    ground (arith, next_generation_cases t.generation t.last_identity i)

pub current-generation :
    (t : RuntimeGenerationTracker) (m : RuntimeLease)
    → get_current_runtime_lease t ≡ ok m
    → m.generation ≡ t.generation
unfolding get_current_runtime_lease
current-generation t m h = ground arith
