-- ===== src/Routing/Registry/Contract.antt =====
-- What the registry promises to the router and the turn executor.
use threadwire.Prelude.{
  ℕ, ◌≡◌, refl, List, ◌∙◌, true, false, Option, none, Text, arith, nat_eq, text_eq, text_beq_iff,
  nat_beq_iff,
}
use threadwire.Prelude.Dict.{get, get-put, has}
use threadwire.Domain.Errors.{Result, ok, throw, thread_not_found}
use threadwire.Domain.Identity.{Url, create_conversation_locator}
use threadwire.Routing.Registry.{
  ThreadRegistry, new_registry, ThreadRegistrationResult, ProvisionalThreadRegistrationResult,
  add_provisional, register_normalized, reserve_normalized, reserved, commit_provisional,
  rollback_provisional, resolve, registration_state, provisional, committed, existing_with_status,
  register_with_status, reserve_provisional_with_status, handle_exists, rollback_entry,
}
use threadwire.Routing.Registry.Invariant.{Inv, IsOpen}
use threadwire.Routing.Registry.Reachable.{reserve_normalized-Inv, Call, after_calls, reachable-Inv}
use threadwire.Routing.Registry.Lifecycle.{
  IsRegistered, IsSpent, register_normalized-IsRegistered, commit-IsOpen, rollback-IsOpen,
}
use threadwire.Routing.Registry.Calls.{with_calls, Reserves, reserve-Reserves}

-- After any registrations, reservations, commits and rollbacks on a new registry, two handles that
-- resolve to one locator are the same handle.
pub resolve-injective :
    (parse_url : Text → Option Url) (factory : ℕ → Text) (cs : List Call) (h k l : Text)
    → resolve (after_calls parse_url factory new_registry cs) h ≡ ok l
    → resolve (after_calls parse_url factory new_registry cs) k ≡ ok l
    → h ≡ k
unfolding resolve
resolve-injective parse_url factory cs h k l p q =
    let v = reachable-Inv parse_url factory cs in
    ground (arith, v.committed_listed h l, v.committed_listed k l)

known-register :
    (factory : ℕ → Text) (r : ThreadRegistry) (h n : Text)
    → IsRegistered r h n
    → register_normalized factory r n ≡ (r, ok (record { thread_handle = h; created = false }))
unfolding register_normalized existing_with_status
known-register factory r h n i =
    rw (i.is_listed, register_normalized) (rw (i.resolves, existing_with_status))

module _ (parse_url : Text → Option Url) (factory : ℕ → Text) (r : ThreadRegistry) (l n : Text)
    (v : Inv r) (normal : create_conversation_locator parse_url l ≡ ok n) where
  register-eq :
      (r' : ThreadRegistry)
      → register_with_status parse_url factory r' l ≡ register_normalized factory r' n
  unfolding register_with_status
  register-eq r' = rw (normal, register_with_status)

  reserve-eq :
      reserve_provisional_with_status parse_url factory r l ≡ reserve_normalized factory r n
  unfolding reserve_provisional_with_status
  reserve-eq = rw (normal, reserve_provisional_with_status)

  -- In a registry whose maps agree, a registration of a locator with a normal form, if it returns,
  -- gives a handle that resolves to the normal form, and registering the locator again returns that
  -- handle, creates nothing and changes nothing.
  pub register-resolve :
      (res : ThreadRegistrationResult)
      → (register_with_status parse_url factory r l).1 ≡ ok res
      → let q = register_with_status parse_url factory r l in
        (resolve q.0 res.thread_handle ≡ ok n)
        × (register_with_status parse_url factory q.0 l
            ≡ (q.0, ok (record { thread_handle = res.thread_handle; created = false })))
  unfolding resolve
  register-resolve res = rw (register-eq r) λ e.
      let i = register_normalized-IsRegistered factory r n res v e in
      (
        rw (i.resolves),
        rw (register-eq (register_normalized factory r n).0)
            (known-register factory _ res.thread_handle n i),
      )

-- A handle that is reserved and not yet public.
record IsReserved (r : ThreadRegistry) (x : ℕ) (h n : Text) : Type 0 where
  open_now : IsOpen r x h n
  hidden : get r.committed_handle_to_locator h ≡ none

add_provisional-IsReserved :
    (r : ThreadRegistry) (h n : Text)
    → handle_exists r h ≡ false
    → IsReserved (add_provisional r h n) r.next_transaction h n
unfolding add_provisional handle_exists
add_provisional-IsReserved r h n u = record {
  open_now = (
    simp get-put (ground (arith, nat_beq_iff r.next_transaction r.next_transaction)),
    simp get-put (ground (arith, text_beq_iff h h)),
  );
  hidden = ground arith;
}

reserve_normalized-IsReserved :
    (factory : ℕ → Text) (r : ThreadRegistry) (h n : Text) (x : ℕ)
    → (reserve_normalized factory r n).1 ≡ ok (reserved h x)
    → IsReserved (reserve_normalized factory r n).0 x h n
reserve_normalized-IsReserved factory r h n x =
    go (reserve_normalized factory r n) (reserve-Reserves factory r n)
  where
    go :
        (q : ThreadRegistry × Result ProvisionalThreadRegistrationResult)
        → Reserves r n q
        → q.1 ≡ ok (reserved h x)
        → IsReserved q.0 x h n
    go q (Reserves.listed k e p) s = cc
    go q (Reserves.failed c e f p) s = cc
    go q (Reserves.added c k e u p) s =
        let same : k ≡ h = cc in
        let token : r.next_transaction ≡ x = cc in
        rw (p, ← same, ← token) (add_provisional-IsReserved (with_calls r c) k n u)

-- Neither a reservation nor its rollback touches what is committed.
reserve_normalized-committed :
    (factory : ℕ → Text) (r : ThreadRegistry) (n : Text)
    → (reserve_normalized factory r n).0.committed_handle_to_locator ≡ r.committed_handle_to_locator
reserve_normalized-committed factory r n =
    go (reserve_normalized factory r n) (reserve-Reserves factory r n)
  where
    go :
        (q : ThreadRegistry × Result ProvisionalThreadRegistrationResult)
        → Reserves r n q
        → q.0.committed_handle_to_locator ≡ r.committed_handle_to_locator
    go q (Reserves.listed k e p) = rw p
    go q (Reserves.failed c e f p) = rw p
    go q (Reserves.added c k e u p) = rw p (unfold add_provisional in refl)

rollback-committed :
    (r : ThreadRegistry) (x : ℕ)
    → (rollback_provisional r x).0.committed_handle_to_locator ≡ r.committed_handle_to_locator
unfolding rollback_provisional rollback_entry
rollback-committed r x = ground arith

module _ (parse_url : Text → Option Url) (factory : ℕ → Text) (r : ThreadRegistry) (l n h : Text)
    (x : ℕ) (v : Inv r) (normal : create_conversation_locator parse_url l ≡ ok n) where
  abbrev reservation : ThreadRegistry × Result ProvisionalThreadRegistrationResult
  reservation = reserve_provisional_with_status parse_url factory r l

  -- In a registry whose maps agree, a handle that a reservation of a locator with a normal form
  -- returns is provisional and does not resolve; a commit of its transaction then makes it
  -- committed and resolve to the normal form, once.
  pub reserve-commit :
      reservation.1 ≡ ok (reserved h x)
      → let q = commit_provisional reservation.0 x in
        (registration_state reservation.0 h ≡ ok provisional)
        × (resolve reservation.0 h ≡ throw thread_not_found)
        × (q.1 ≡ true)
        × (resolve q.0 h ≡ ok n)
        × (registration_state q.0 h ≡ ok committed)
        × IsSpent q.0 x
  unfolding registration_state resolve
  reserve-commit = rw (reserve-eq parse_url factory r l n v normal) λ e.
      let i = reserve_normalized-IsReserved factory r h n x e in
      let (done, found, state, spent) = commit-IsOpen _ x h n i.open_now in
      (rw (i.hidden, i.open_now.1), rw (i.hidden), done, found, state, spent)

  -- In a registry whose maps agree, the rollback of a reservation of a locator with a normal form
  -- frees the handle and the locator, leaves the committed handles as they were before the
  -- reservation, and happens once.
  pub reserve-rollback :
      reservation.1 ≡ ok (reserved h x)
      → let q = rollback_provisional reservation.0 x in
        (q.1 ≡ true)
        × (has q.0.locator_to_handle n ≡ false)
        × (registration_state q.0 h ≡ throw thread_not_found)
        × (q.0.committed_handle_to_locator ≡ r.committed_handle_to_locator)
        × IsSpent q.0 x
  reserve-rollback = rw (reserve-eq parse_url factory r l n v normal) λ e.
      let i = reserve_normalized-IsReserved factory r h n x e in
      let (done, freed, state, spent) =
        rollback-IsOpen _ x h n (reserve_normalized-Inv factory r n v) i.open_now in
      (done, freed, state, rollback-committed _ x ∙ reserve_normalized-committed factory r n, spent)
