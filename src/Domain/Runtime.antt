-- ===== src/Domain/Runtime.antt =====
-- domain/RuntimeGeneration.ts: which incarnation of the Classic process a lease was issued for.
-- A process identifier is a natural number, and a creation time is compared as a string.
pub mod Fence
use threadwire.Prelude.{
  ℕ, ◌+◌, Bool, ◌&&◌, Option, none, some, List, [], ◌∷◌, Text, ◌==◌, nat_eq, text_eq, if◌then◌else◌,
  not,
}
use threadwire.Domain.Errors.{
  Result, ok, err, throw, runtime_not_observed, runtime_generation_changed, ◌>>=◌,
}

abbrev pub initial_runtime_generation : ℕ
initial_runtime_generation = 0

pub record RuntimeIdentity : Type 0 where
  pub pid : ℕ
  pub creation_time : Text

pub record RuntimeLease : Type 0 where
  pub generation : ℕ
  pub identity : RuntimeIdentity

unfoldable pub same_runtime_identity : RuntimeIdentity → RuntimeIdentity → Bool
same_runtime_identity left right =
    left.pid == right.pid && left.creation_time == right.creation_time

unfoldable pub same_runtime_lease : RuntimeLease → RuntimeLease → Bool
same_runtime_lease left right =
    left.generation == right.generation && same_runtime_identity left.identity right.identity

pub record RuntimeGenerationTracker : Type 0 where
  pub generation : ℕ
  pub current_identity : Option RuntimeIdentity
  pub last_identity : Option RuntimeIdentity

abbrev pub new_tracker : RuntimeGenerationTracker
new_tracker = record {
  generation = initial_runtime_generation;
  current_identity = none;
  last_identity = none;
}

-- The generation after an identity is seen.
next_generation : ℕ → Option RuntimeIdentity → RuntimeIdentity → ℕ
next_generation g none identity = g + 1
next_generation g (some last) identity =
    if not (same_runtime_identity last identity) then g + 1 else g

-- `observe`; its result is the new state's generation
unfoldable pub observe :
    RuntimeGenerationTracker → Option RuntimeIdentity → RuntimeGenerationTracker
unfolding next_generation
observe t none = record t { current_identity = none }
observe t (some identity) = record {
  generation = next_generation t.generation t.last_identity identity;
  current_identity = some identity;
  last_identity = some identity;
}

lease_of : ℕ → Option RuntimeIdentity → Result RuntimeLease
lease_of g none = throw runtime_not_observed
lease_of g (some identity) =
    if g == initial_runtime_generation
    then throw runtime_not_observed
    else ok (record { generation = g; identity = identity })

unfoldable pub get_current_runtime_lease : RuntimeGenerationTracker → Result RuntimeLease
unfolding lease_of
get_current_runtime_lease t = lease_of t.generation t.current_identity

unfoldable pub assert_runtime_lease_current :
    RuntimeGenerationTracker → RuntimeLease → Result (Unit {0})
assert_runtime_lease_current t lease = do
  current ← get_current_runtime_lease t
  if not (same_runtime_lease current lease) then throw runtime_generation_changed else ok tt

-- Successive observations.
unfoldable pub observe_all :
    RuntimeGenerationTracker → List (Option RuntimeIdentity) → RuntimeGenerationTracker
observe_all t [] = t
observe_all t (o ∷ os) = observe_all (observe t o) os
