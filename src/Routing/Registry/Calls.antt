-- ===== src/Routing/Registry/Calls.antt =====
-- How the calls of the registry end, as families that later proofs match on.
use threadwire.Prelude.{
  ℕ, zero, suc, ◌+◌, ◌≡◌, refl, ◌⊎◌, inl, inr, true, false, none, some, Text, arith, nat_eq,
  text_eq, nat_beq, nat_beq_iff, Option-cases, Bool-cases,
}
use threadwire.Prelude.Dict.{get}
use threadwire.Domain.Errors.{Result, Failure, ok, err}
use threadwire.Domain.Identity.{create_opaque_thread_handle}
use threadwire.Routing.Registry.{
  ThreadRegistry, ThreadRegistrationResult, handle_exists, add_committed, add_provisional,
  allocate_handle, existing_with_status, ProvisionalThreadRegistrationResult, register_normalized,
  reserve_normalized, reserved, existing, owned_entry,
}
use threadwire.Routing.Registry.Invariant.{Inv, IsOpen}

abbrev pub with_calls : ThreadRegistry → ℕ → ThreadRegistry
with_calls r k = record r { factory_calls = k }

pub with_calls-Inv : (r : ThreadRegistry) (k : ℕ) → Inv r → Inv (with_calls r k)
with_calls-Inv r k v = record {
  committed_listed = v.committed_listed;
  provisional_listed = v.provisional_listed;
  provisional_owned = v.provisional_owned;
  disjoint = v.disjoint;
  listed = v.listed;
  owned = v.owned;
  fresh = v.fresh;
}

-- The search for a handle changes the count of the factory's calls only, and finds an unused one.
data Allocates (r : ThreadRegistry) (q : ThreadRegistry × Result Text) : Type 0 where
  found :
      (k : ℕ) (h : Text) → q ≡ (with_calls r k, ok h) → handle_exists r h ≡ false → Allocates r q
  failed : (k : ℕ) (e : Failure) → q ≡ (with_calls r k, err e) → Allocates r q

handle_exists-with_calls :
    (r : ThreadRegistry) (k : ℕ) (h : Text) → handle_exists (with_calls r k) h ≡ handle_exists r h
unfolding handle_exists
handle_exists-with_calls r k h = refl

allocate_handle-Allocates :
    (factory : ℕ → Text) (n : ℕ) (r : ThreadRegistry) → Allocates r (allocate_handle factory n r)
unfolding allocate_handle
allocate_handle-Allocates factory zero r = failed r.factory_calls _ refl
allocate_handle-Allocates factory (suc n) r =
    try (create_opaque_thread_handle (factory r.factory_calls)) refl
      (allocate_handle-Allocates factory n (with_calls r (r.factory_calls + 1)))
  where
    weaken :
        (q : ThreadRegistry × Result Text)
        → Allocates (with_calls r (r.factory_calls + 1)) q
        → Allocates r q
    weaken q (found k h e u) =
        found k h e (rw (← handle_exists-with_calls r (r.factory_calls + 1) h) u)
    weaken q (failed k e p) = failed k e p

    try :
        (c : Result Text)
        → create_opaque_thread_handle (factory r.factory_calls) ≡ c
        → Allocates
            (with_calls r (r.factory_calls + 1))
            (allocate_handle factory n (with_calls r (r.factory_calls + 1)))
        → Allocates r (allocate_handle factory (suc n) r)
    try (err x) e rest = failed (r.factory_calls + 1) x (rw (e, allocate_handle))
    try (ok h) e rest = elim (Bool-cases (handle_exists r h)) [
      | inl used ↦ rw (e, used, allocate_handle) (weaken _ rest)
      | inr unused ↦ found (r.factory_calls + 1) h (rw (e, unused, allocate_handle)) unused
    ]

-- The three ways in which a registration ends.
pub data Registers (r : ThreadRegistry) (n : Text)
    (q : ThreadRegistry × Result ThreadRegistrationResult) : Type 0 where
  listed :
      (h : Text)
      → get r.locator_to_handle n ≡ some h
      → q ≡ (r, existing_with_status r h)
      → Registers r n q
  failed :
      (k : ℕ) (e : Failure)
      → get r.locator_to_handle n ≡ none
      → q ≡ (with_calls r k, err e)
      → Registers r n q
  added :
      (k : ℕ) (h : Text)
      → get r.locator_to_handle n ≡ none
      → handle_exists (with_calls r k) h ≡ false
      → q ≡ (add_committed (with_calls r k) h n, ok (record { thread_handle = h; created = true }))
      → Registers r n q

pub register-Registers :
    (factory : ℕ → Text) (r : ThreadRegistry) (n : Text)
    → Registers r n (register_normalized factory r n)
unfolding register_normalized
register-Registers factory r n = elim (Option-cases (get r.locator_to_handle n)) [
  | inr (h, e) ↦ listed h e (rw (e, register_normalized))
  | inl e ↦ search_result e (allocate_handle-Allocates factory 8 r)
]
  where
    search_result :
        get r.locator_to_handle n ≡ none
        → Allocates r (allocate_handle factory 8 r)
        → Registers r n (register_normalized factory r n)
    search_result e (found k h q u) =
        added k h e (rw (handle_exists-with_calls r k h) u) (rw (e, q, register_normalized))
    search_result e (failed k x q) = failed k x e (rw (e, q, register_normalized))

pub data Reserves (r : ThreadRegistry) (n : Text)
    (q : ThreadRegistry × Result ProvisionalThreadRegistrationResult) : Type 0 where
  listed :
      (h : Text) → get r.locator_to_handle n ≡ some h → q ≡ (r, ok (existing h)) → Reserves r n q
  failed :
      (k : ℕ) (e : Failure)
      → get r.locator_to_handle n ≡ none
      → q ≡ (with_calls r k, err e)
      → Reserves r n q
  added :
      (k : ℕ) (h : Text)
      → get r.locator_to_handle n ≡ none
      → handle_exists (with_calls r k) h ≡ false
      → q ≡ (add_provisional (with_calls r k) h n, ok (reserved h r.next_transaction))
      → Reserves r n q

pub reserve-Reserves :
    (factory : ℕ → Text) (r : ThreadRegistry) (n : Text)
    → Reserves r n (reserve_normalized factory r n)
unfolding reserve_normalized
reserve-Reserves factory r n = elim (Option-cases (get r.locator_to_handle n)) [
  | inr (h, e) ↦ listed h e (rw (e, reserve_normalized))
  | inl e ↦ search_result e (allocate_handle-Allocates factory 8 r)
]
  where
    search_result :
        get r.locator_to_handle n ≡ none
        → Allocates r (allocate_handle factory 8 r)
        → Reserves r n (reserve_normalized factory r n)
    search_result e (found k h q u) =
        added k h e (rw (handle_exists-with_calls r k h) u) (rw (e, q, reserve_normalized))
    search_result e (failed k x q) = failed k x e (rw (e, q, reserve_normalized))

-- A transaction is settled already or unknown, or it is open.
pub owned_entry-cases :
    (r : ThreadRegistry) (x : ℕ)
    → (owned_entry r x ≡ none)
      ⊎ ((h : Text) × (l : Text) × (owned_entry r x
            ≡ some (h, record { locator = l; transaction = x }))
          × IsOpen r x h l)
unfolding owned_entry
owned_entry-cases r x = elim (Option-cases (get r.provisional_transaction_to_handle x)) [
  | inl e ↦ inl (rw (e, owned_entry))
  | inr (h, e) ↦ elim (Option-cases (get r.provisional_handle_to_entry h)) [
    | inl p ↦ inl (rw (e, p, owned_entry))
    | inr (entry, p) ↦ elim (Bool-cases (nat_beq entry.transaction x)) [
      | inl s ↦ inr (
        h,
        entry.locator,
        ground (arith, nat_beq_iff entry.transaction x),
        ground (arith, nat_beq_iff entry.transaction x),
      )
      | inr s ↦ inl (rw (e, p, s, owned_entry))
    ]
  ]
]

pub owned_entry-IsOpen :
    (r : ThreadRegistry) (x : ℕ) (h l : Text)
    → IsOpen r x h l
    → owned_entry r x ≡ some (h, record { locator = l; transaction = x })
unfolding owned_entry
owned_entry-IsOpen r x h l o = ground (arith, nat_beq_iff x x)
