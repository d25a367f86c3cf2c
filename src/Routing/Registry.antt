-- ===== src/Routing/Registry.antt =====
-- routing/ThreadRegistry.ts. A call takes the registry and returns the new one with its result.
-- The n-th value of the handle factory is `factory n`; the identity of a transaction token (a fresh
-- frozen object) is a number that is never used again; a settled promise is an entry of
-- `settlements`. `WeakMap` entries live as long as their token, so it is a map. A handle or locator
-- is never the empty string, so the source's truthiness tests are tests for `undefined`.
pub mod Invariant
mod Calls
pub mod Reachable
pub mod Lifecycle
pub mod Contract
use threadwire.Prelude.{
  ℕ, zero, suc, ◌+◌, Bool, true, false, not, ◌||◌, Option, none, some, List, [], ◌∷◌, Text, ◌==◌,
  nat_eq, text_eq, if◌then◌else◌,
}
use threadwire.Prelude.Dict
use threadwire.Prelude.Dict.{Dict, get, put, delete, has}
use threadwire.Domain.Errors.{
  Result, ok, err, throw, or_throw, ◌>>=◌, thread_handle_collision, thread_not_found,
  operation_aborted,
}
use threadwire.Domain.Identity.{Url, create_conversation_locator, create_opaque_thread_handle}

abbrev pub default_thread_handle_collision_attempts : ℕ
default_thread_handle_collision_attempts = 8

pub record ProvisionalThreadEntry : Type 0 where
  pub locator : Text
  pub transaction : ℕ

pub record ThreadRegistry : Type 0 where
  pub committed_handle_to_locator : Dict Text Text
  pub locator_to_handle : Dict Text Text
  pub provisional_handle_to_entry : Dict Text ProvisionalThreadEntry
  pub provisional_transaction_to_handle : Dict ℕ Text
  pub factory_calls : ℕ
  pub next_transaction : ℕ
  pub settlements : List (ℕ × Bool)

abbrev pub new_registry : ThreadRegistry
new_registry = record {
  committed_handle_to_locator = [];
  locator_to_handle = [];
  provisional_handle_to_entry = [];
  provisional_transaction_to_handle = [];
  factory_calls = 0;
  next_transaction = 0;
  settlements = [];
}

pub record ThreadRegistrationResult : Type 0 where
  pub thread_handle : Text
  pub created : Bool

pub data ProvisionalThreadRegistrationResult : Type 0 where
  existing : Text → ProvisionalThreadRegistrationResult
  reserved : Text → ℕ → ProvisionalThreadRegistrationResult

pub data ThreadRegistrationState : Type 0 where
  committed provisional : ThreadRegistrationState

unfoldable pub handle_exists : ThreadRegistry → Text → Bool
handle_exists r handle =
    has r.committed_handle_to_locator handle || has r.provisional_handle_to_entry handle

-- The first handle of the factory that is not in use, within the attempts left.
unfoldable pub allocate_handle : (ℕ → Text) → ℕ → ThreadRegistry → ThreadRegistry × Result Text
allocate_handle factory zero r = (r, throw thread_handle_collision)
allocate_handle factory (suc attempts) r =
    let called = record r { factory_calls = r.factory_calls + 1 } in
    let next = allocate_handle factory attempts called in
    elim (create_opaque_thread_handle (factory r.factory_calls)) [
      | err e ↦ (called, err e)
      | ok handle ↦ if handle_exists r handle then next else (called, ok handle)
    ]

unfoldable pub add_committed : ThreadRegistry → Text → Text → ThreadRegistry
add_committed r handle locator = record r {
  committed_handle_to_locator = put r.committed_handle_to_locator handle locator;
  locator_to_handle = put r.locator_to_handle locator handle;
}

unfoldable pub add_provisional : ThreadRegistry → Text → Text → ThreadRegistry
add_provisional r handle locator = record r {
  provisional_handle_to_entry =
      put r.provisional_handle_to_entry handle
        (record { locator = locator; transaction = r.next_transaction });
  provisional_transaction_to_handle =
      put r.provisional_transaction_to_handle r.next_transaction handle;
  locator_to_handle = put r.locator_to_handle locator handle;
  next_transaction = r.next_transaction + 1;
}

unfoldable pub existing_with_status : ThreadRegistry → Text → Result ThreadRegistrationResult
existing_with_status r handle =
    if not (has r.committed_handle_to_locator handle)
    then throw thread_not_found
    else ok (record { thread_handle = handle; created = false })

-- What follows the search for a handle.
finish_register :
    Text → ThreadRegistry × Result Text → ThreadRegistry × Result ThreadRegistrationResult
finish_register locator (r, err e) = (r, err e)
finish_register locator (r, ok handle) =
    (add_committed r handle locator, ok (record { thread_handle = handle; created = true }))

finish_reserve :
    Text
    → ThreadRegistry × Result Text
    → ThreadRegistry × Result ProvisionalThreadRegistrationResult
finish_reserve locator (r, err e) = (r, err e)
finish_reserve locator (r, ok handle) =
    (add_provisional r handle locator, ok (reserved handle r.next_transaction))

-- The registration of a locator that `createConversationLocator` returned.
unfoldable pub register_normalized :
    (ℕ → Text) → ThreadRegistry → Text → ThreadRegistry × Result ThreadRegistrationResult
unfolding existing_with_status finish_register
register_normalized factory r locator = elim (get r.locator_to_handle locator) [
  | some handle ↦ (r, existing_with_status r handle)
  | none ↦
      finish_register locator (allocate_handle factory default_thread_handle_collision_attempts r)
]

unfoldable pub reserve_normalized :
    (ℕ → Text) → ThreadRegistry → Text → ThreadRegistry × Result ProvisionalThreadRegistrationResult
unfolding finish_reserve
reserve_normalized factory r locator = elim (get r.locator_to_handle locator) [
  | some handle ↦ (r, ok (existing handle))
  | none ↦
      finish_reserve locator (allocate_handle factory default_thread_handle_collision_attempts r)
]

-- The provisional handle and entry that a transaction owns.
unfoldable pub owned_entry : ThreadRegistry → ℕ → Option (Text × ProvisionalThreadEntry)
owned_entry r transaction = elim (get r.provisional_transaction_to_handle transaction) [
  | none ↦ none
  | some handle ↦ elim (get r.provisional_handle_to_entry handle) [
    | none ↦ none
    | some entry ↦ if entry.transaction == transaction then some (handle, entry) else none
  ]
]

unfoldable pub commit_entry : ThreadRegistry → ℕ → Text → ProvisionalThreadEntry → ThreadRegistry
commit_entry r transaction handle entry = record r {
  provisional_transaction_to_handle = delete r.provisional_transaction_to_handle transaction;
  provisional_handle_to_entry = delete r.provisional_handle_to_entry handle;
  committed_handle_to_locator = put r.committed_handle_to_locator handle entry.locator;
  settlements = (entry.transaction, true) ∷ r.settlements;
}

-- `if (this.locatorToHandle.get(locator) === handle) this.locatorToHandle.delete(locator)`
unfoldable pub forget_locator : Dict Text Text → Text → Text → Dict Text Text
forget_locator m locator handle = elim (get m locator) [
  | none ↦ m
  | some h ↦ if h == handle then delete m locator else m
]

unfoldable pub rollback_entry : ThreadRegistry → ℕ → Text → ProvisionalThreadEntry → ThreadRegistry
unfolding forget_locator
rollback_entry r transaction handle entry = record r {
  provisional_transaction_to_handle = delete r.provisional_transaction_to_handle transaction;
  provisional_handle_to_entry = delete r.provisional_handle_to_entry handle;
  locator_to_handle = forget_locator r.locator_to_handle entry.locator handle;
  settlements = (entry.transaction, false) ∷ r.settlements;
}

unfoldable pub commit_provisional : ThreadRegistry → ℕ → ThreadRegistry × Bool
commit_provisional r transaction = elim (owned_entry r transaction) [
  | none ↦ (r, false)
  | some (handle, entry) ↦ (commit_entry r transaction handle entry, true)
]

unfoldable pub rollback_provisional : ThreadRegistry → ℕ → ThreadRegistry × Bool
rollback_provisional r transaction = elim (owned_entry r transaction) [
  | none ↦ (r, false)
  | some (handle, entry) ↦ (rollback_entry r transaction handle entry, true)
]

unfoldable pub registration_state : ThreadRegistry → Text → Result ThreadRegistrationState
registration_state r handle =
    if has r.committed_handle_to_locator handle
    then ok committed
    else if has r.provisional_handle_to_entry handle
    then ok provisional
    else throw thread_not_found

unfoldable pub resolve : ThreadRegistry → Text → Result Text
resolve r handle = or_throw (get r.committed_handle_to_locator handle) thread_not_found

unfoldable pub known_threads : ThreadRegistry → List Text
known_threads r = Dict.keys r.committed_handle_to_locator

-- `waitForCommit` up to its `await`: it has returned, or it waits for a transaction to settle.
pub data Wait : Type 0 where
  returned : Wait
  waiting : ℕ → Wait

await_entry : Bool → Option ProvisionalThreadEntry → Result Wait
await_entry aborted none = throw thread_not_found
await_entry aborted (some entry) =
    if aborted then throw operation_aborted else ok (waiting entry.transaction)

await_state : Bool → Option ProvisionalThreadEntry → ThreadRegistrationState → Result Wait
unfolding await_entry
await_state aborted entry committed = ok returned
await_state aborted entry provisional = await_entry aborted entry

unfoldable pub wait_for_commit : ThreadRegistry → Text → Bool → Result Wait
unfolding await_state
wait_for_commit r handle aborted = do
  state ← registration_state r handle
  await_state aborted (get r.provisional_handle_to_entry handle) state

-- What wins the race of `waitForCommit`: the settlement, or the caller's abort.
pub data Race : Type 0 where
  settlement : Bool → Race
  abort : Race

unfoldable pub settle_wait : Race → Result (Unit {0})
settle_wait (settlement true) = ok tt
settle_wait (settlement false) = throw thread_not_found
settle_wait abort = throw operation_aborted

module _ (parse_url : Text → Option Url) (factory : ℕ → Text) where
  unfoldable pub register_with_status :
      ThreadRegistry → Text → ThreadRegistry × Result ThreadRegistrationResult
  register_with_status r locator = elim (create_conversation_locator parse_url locator) [
    | err e ↦ (r, err e)
    | ok normalized ↦ register_normalized factory r normalized
  ]

  unfoldable pub register : ThreadRegistry → Text → ThreadRegistry × Result Text
  register r locator =
      let (next, result) = register_with_status r locator in
      (next, do registered ← result; ok registered.thread_handle)

  unfoldable pub reserve_provisional_with_status :
      ThreadRegistry → Text → ThreadRegistry × Result ProvisionalThreadRegistrationResult
  reserve_provisional_with_status r locator = elim (create_conversation_locator parse_url locator) [
    | err e ↦ (r, err e)
    | ok normalized ↦ reserve_normalized factory r normalized
  ]

unfoldable pub has_locator : (Text → Option Url) → ThreadRegistry → Text → Result Bool
has_locator parse_url r locator = do
  normalized ← create_conversation_locator parse_url locator
  ok (has r.locator_to_handle normalized)
