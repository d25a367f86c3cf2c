-- ===== src/Routing/Registry/Lifecycle.antt =====
-- The life of a handle: registered, or reserved and then committed or rolled back.
use threadwire.Prelude.{
  ℕ, ◌≡◌, refl, sym, ap, subst, ◌∙◌, Option-cases, inl, inr, true, false, none, some, Text, arith,
  nat_eq, text_eq, text_beq_iff, nat_beq_iff,
}
use threadwire.Prelude.Dict.{get, get-put, get-delete, has}
use threadwire.Domain.Errors.{Result, ok, throw, thread_not_found}
use threadwire.Routing.Registry.{
  ThreadRegistry, ThreadRegistrationResult, add_committed, commit_entry, rollback_entry,
  register_normalized, owned_entry, commit_provisional, rollback_provisional, resolve,
  registration_state, committed, existing_with_status,
}
use threadwire.Routing.Registry.Invariant.{Inv, IsOpen, forget_locator-listed}
use threadwire.Routing.Registry.Calls.{
  with_calls, Registers, register-Registers, owned_entry-IsOpen,
}

-- The handle resolves to the locator and is listed under it.
pub record IsRegistered (r : ThreadRegistry) (h n : Text) : Type 0 where
  pub resolves : get r.committed_handle_to_locator h ≡ some n
  pub is_listed : get r.locator_to_handle n ≡ some h

add_committed-IsRegistered :
    (r : ThreadRegistry) (h n : Text) → IsRegistered (add_committed r h n) h n
unfolding add_committed
add_committed-IsRegistered r h n = record {
  resolves = simp get-put (ground (arith, text_beq_iff h h));
  is_listed = simp get-put (ground (arith, text_beq_iff n n));
}

existing-IsRegistered :
    (r : ThreadRegistry) (h n : Text) (res : ThreadRegistrationResult)
    → Inv r
    → get r.locator_to_handle n ≡ some h
    → existing_with_status r h ≡ ok res
    → IsRegistered r res.thread_handle n
unfolding existing_with_status
existing-IsRegistered r h n res v e k = elim (Option-cases (get r.committed_handle_to_locator h)) [
  | inl missing ↦ ground arith
  | inr (l, found) ↦ ground (arith, v.listed n h e, v.disjoint h l found)
]

-- A registration that returned: its handle resolves to the locator and is listed under it.
pub register_normalized-IsRegistered :
    (factory : ℕ → Text) (r : ThreadRegistry) (n : Text) (res : ThreadRegistrationResult)
    → Inv r
    → (register_normalized factory r n).1 ≡ ok res
    → IsRegistered (register_normalized factory r n).0 res.thread_handle n
register_normalized-IsRegistered factory r n res v =
    go (register_normalized factory r n) (register-Registers factory r n)
  where
    go :
        (q : ThreadRegistry × Result ThreadRegistrationResult)
        → Registers r n q
        → q.1 ≡ ok res
        → IsRegistered q.0 res.thread_handle n
    go q (Registers.listed h e p) k = rw p (
        existing-IsRegistered r h n res v e
          (sym (ap (λ (q : ThreadRegistry × Result ThreadRegistrationResult). q.1) p) ∙ k))
    go q (Registers.failed c x e p) k = cc
    go q (Registers.added c h e u p) k =
        let same : h ≡ res.thread_handle = cc in
        rw p (
          subst (λ g. IsRegistered (add_committed (with_calls r c) h n) g n) same
            (add_committed-IsRegistered (with_calls r c) h n))

-- A settled transaction is spent: neither call finds it again.
abbrev pub IsSpent : ThreadRegistry → ℕ → Type 0
IsSpent r x = (commit_provisional r x ≡ (r, false)) × (rollback_provisional r x ≡ (r, false))

unowned-IsSpent :
    (r : ThreadRegistry) (x : ℕ) → get r.provisional_transaction_to_handle x ≡ none → IsSpent r x
unfolding commit_provisional rollback_provisional
unowned-IsSpent r x e = (rw (spent, commit_provisional), rw (spent, rollback_provisional))
  where
    spent : owned_entry r x ≡ none
    spent = unfold owned_entry in rw (e, owned_entry)

commit-eq :
    (r : ThreadRegistry) (x : ℕ) (h n : Text)
    → IsOpen r x h n
    → commit_provisional r x ≡ (commit_entry r x h (record { locator = n; transaction = x }), true)
unfolding commit_provisional
commit-eq r x h n o = rw (owned_entry-IsOpen r x h n o, commit_provisional)

rollback-eq :
    (r : ThreadRegistry) (x : ℕ) (h n : Text)
    → IsOpen r x h n
    → rollback_provisional r x
      ≡ (rollback_entry r x h (record { locator = n; transaction = x }), true)
unfolding rollback_provisional
rollback-eq r x h n o = rw (owned_entry-IsOpen r x h n o, rollback_provisional)

-- `commitProvisional` on an open transaction returns true, publishes its handle with the locator
-- that it reserved, and spends the transaction.
pub commit-IsOpen :
    (r : ThreadRegistry) (x : ℕ) (h n : Text)
    → IsOpen r x h n
    → let q = commit_provisional r x in
      (q.1 ≡ true)
      × (resolve q.0 h ≡ ok n)
      × (registration_state q.0 h ≡ ok committed)
      × IsSpent q.0 x
unfolding commit_entry resolve registration_state
commit-IsOpen r x h n o = rw (commit-eq r x h n o) (
  refl,
  simp get-put (ground (arith, text_beq_iff h h)),
  simp get-put (ground (arith, text_beq_iff h h)),
  unowned-IsSpent _ x (simp get-delete (ground (arith, nat_beq_iff x x))),
)

-- `rollbackProvisional` on an open transaction returns true, frees its handle and its locator, and
-- spends the transaction.
pub rollback-IsOpen :
    (r : ThreadRegistry) (x : ℕ) (h n : Text)
    → Inv r
    → IsOpen r x h n
    → let q = rollback_provisional r x in
      (q.1 ≡ true)
      × (has q.0.locator_to_handle n ≡ false)
      × (registration_state q.0 h ≡ throw thread_not_found)
      × IsSpent q.0 x
unfolding rollback_entry registration_state
rollback-IsOpen r x h n v o =
    let here = v.provisional_listed h (record { locator = n; transaction = x }) o.1 in
    rw (rollback-eq r x h n o) (
      refl,
      rw (forget_locator-listed r.locator_to_handle n h here)
          (simp get-delete (ground (arith, text_beq_iff n n))),
      simp get-delete (
          ground (
            arith,
            text_beq_iff h h,
            v.disjoint h n,
            Option-cases (get r.committed_handle_to_locator h),
            gone,
          )),
      unowned-IsSpent _ x (simp get-delete (ground (arith, nat_beq_iff x x))),
    )
  where
    gone : get r.committed_handle_to_locator h ≡ none
    gone = elim (Option-cases (get r.committed_handle_to_locator h)) [
      | inl e ↦ e
      | inr (l, e) ↦ ground (arith, v.disjoint h l e)
    ]
