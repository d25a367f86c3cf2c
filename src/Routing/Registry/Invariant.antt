-- ===== src/Routing/Registry/Invariant.antt =====
-- The four maps of the registry agree, after every operation.
use threadwire.Prelude.{
  ℕ, ◌<◌, ◌≡◌, ◌⊎◌, false, Option, none, some, Text, arith, nat_eq, text_eq, text_beq_iff,
  nat_beq_iff,
}
use threadwire.Prelude.Dict.{Dict, get, get-put, get-delete, delete}
use threadwire.Routing.Registry.{
  ThreadRegistry, ProvisionalThreadEntry, new_registry, handle_exists, add_committed,
  add_provisional, commit_entry, rollback_entry, forget_locator,
}

abbrev pub locator_of : Option ProvisionalThreadEntry → Option Text
locator_of none = none
locator_of (some e) = some e.locator

abbrev pub transaction_of : Option ProvisionalThreadEntry → Option ℕ
transaction_of none = none
transaction_of (some e) = some e.transaction

pub record Inv (r : ThreadRegistry) : Type 0 where
  pub committed_listed :
      (h l : Text)
      → get r.committed_handle_to_locator h ≡ some l
      → get r.locator_to_handle l ≡ some h
  pub provisional_listed :
      (h : Text) (e : ProvisionalThreadEntry)
      → get r.provisional_handle_to_entry h ≡ some e
      → get r.locator_to_handle e.locator ≡ some h
  pub provisional_owned :
      (h : Text) (e : ProvisionalThreadEntry)
      → get r.provisional_handle_to_entry h ≡ some e
      → get r.provisional_transaction_to_handle e.transaction ≡ some h
  pub disjoint :
      (h l : Text)
      → get r.committed_handle_to_locator h ≡ some l
      → get r.provisional_handle_to_entry h ≡ none
  pub listed :
      (l h : Text)
      → get r.locator_to_handle l ≡ some h
      → (get r.committed_handle_to_locator h ≡ some l)
        ⊎ (locator_of (get r.provisional_handle_to_entry h) ≡ some l)
  pub owned :
      (x : ℕ) (h : Text)
      → get r.provisional_transaction_to_handle x ≡ some h
      → transaction_of (get r.provisional_handle_to_entry h) ≡ some x
  pub fresh :
      (x : ℕ) (h : Text)
      → get r.provisional_transaction_to_handle x ≡ some h
      → x < r.next_transaction

pub new_registry-Inv : Inv new_registry
unfolding get
new_registry-Inv = record {
  committed_listed = λ h l p. cc;
  provisional_listed = λ h e p. cc;
  provisional_owned = λ h e p. cc;
  disjoint = λ h l p. cc;
  listed = λ h l p. cc;
  owned = λ x h p. cc;
  fresh = λ x h p. cc;
}

module _ (r : ThreadRegistry) (v : Inv r) (h₀ l₀ : Text) (unused : handle_exists r h₀ ≡ false)
    (unlisted : get r.locator_to_handle l₀ ≡ none) where
  pub add_committed-Inv : Inv (add_committed r h₀ l₀)
  unfolding add_committed handle_exists
  add_committed-Inv = record {
    committed_listed = λ h l.
        simp get-put (ground (arith, text_beq_iff h₀ h, text_beq_iff l₀ l, v.committed_listed h l));
    provisional_listed =
        λ h e. simp get-put (ground (arith, text_beq_iff l₀ e.locator, v.provisional_listed h e));
    provisional_owned = λ h e. v.provisional_owned h e;
    disjoint = λ h l. simp get-put (ground (arith, text_beq_iff h₀ h, v.disjoint h l));
    listed =
        λ l h. simp get-put (ground (arith, text_beq_iff h₀ h, text_beq_iff l₀ l, v.listed l h));
    owned = v.owned;
    fresh = v.fresh;
  }

  pub add_provisional-Inv : Inv (add_provisional r h₀ l₀)
  unfolding add_provisional handle_exists
  add_provisional-Inv = record {
    committed_listed =
        λ h l. simp get-put (ground (arith, text_beq_iff l₀ l, v.committed_listed h l));
    provisional_listed = λ h e.
        simp get-put
          (ground (arith, text_beq_iff h₀ h, text_beq_iff l₀ e.locator, v.provisional_listed h e));
    provisional_owned = λ h e. simp get-put (
        ground (
          arith,
          text_beq_iff h₀ h,
          nat_beq_iff r.next_transaction e.transaction,
          v.provisional_owned h e,
          v.fresh e.transaction h,
        ));
    disjoint = λ h l. simp get-put (ground (arith, text_beq_iff h₀ h, v.disjoint h l));
    listed =
        λ l h. simp get-put (ground (arith, text_beq_iff h₀ h, text_beq_iff l₀ l, v.listed l h));
    owned = λ x h.
        simp get-put
          (ground (arith, text_beq_iff h₀ h, nat_beq_iff r.next_transaction x, v.owned x h));
    fresh = λ x h. simp get-put (ground (arith, nat_beq_iff r.next_transaction x, v.fresh x h));
  }

-- A transaction that is open, with the handle and the locator that it reserves.
abbrev pub IsOpen : ThreadRegistry → ℕ → Text → Text → Type 0
IsOpen r x h l =
    (get r.provisional_transaction_to_handle x ≡ some h)
    × (get r.provisional_handle_to_entry h ≡ some (record { locator = l; transaction = x }))

pub forget_locator-listed :
    (m : Dict Text Text) (l h : Text) → get m l ≡ some h → forget_locator m l h ≡ delete m l
unfolding forget_locator
forget_locator-listed m l h e = ground (arith, text_beq_iff h h)

module _ (r : ThreadRegistry) (v : Inv r) (x₀ : ℕ) (h₀ l₀ : Text) (owns : IsOpen r x₀ h₀ l₀) where
  pub commit_entry-Inv : Inv (commit_entry r x₀ h₀ (record { locator = l₀; transaction = x₀ }))
  unfolding commit_entry
  commit_entry-Inv = record {
    committed_listed = λ h l. simp get-put (
        ground (
          arith,
          text_beq_iff h₀ h,
          v.committed_listed h l,
          v.provisional_listed h₀ (record { locator = l₀; transaction = x₀ }),
        ));
    provisional_listed =
        λ h e. simp get-delete (ground (arith, text_beq_iff h₀ h, v.provisional_listed h e));
    provisional_owned = λ h e.
        simp get-delete (
          ground (arith, text_beq_iff h₀ h, nat_beq_iff x₀ e.transaction, v.provisional_owned h e));
    disjoint =
        λ h l. simp (get-put, get-delete) (ground (arith, text_beq_iff h₀ h, v.disjoint h l));
    listed = λ l h.
        simp (get-put, get-delete)
          (ground (arith, text_beq_iff h₀ h, v.listed l h, v.disjoint h l));
    owned =
        λ x h. simp get-delete (ground (arith, text_beq_iff h₀ h, nat_beq_iff x₀ x, v.owned x h));
    fresh = λ x h. simp get-delete (ground (arith, nat_beq_iff x₀ x, v.fresh x h));
  }

  pub rollback_entry-Inv : Inv (rollback_entry r x₀ h₀ (record { locator = l₀; transaction = x₀ }))
  unfolding rollback_entry
  rollback_entry-Inv =
      let here = v.provisional_listed h₀ (record { locator = l₀; transaction = x₀ }) owns.1 in
      let forgets = forget_locator-listed r.locator_to_handle l₀ h₀ here in
      record {
        committed_listed = λ h l.
            simp (forgets, get-delete)
              (ground (arith, here, text_beq_iff l₀ l, v.committed_listed h l, v.disjoint h l));
        provisional_listed = λ h e.
            simp (forgets, get-delete)
              (ground (
                arith,
                here,
                text_beq_iff h₀ h,
                text_beq_iff l₀ e.locator,
                v.provisional_listed h e,
              ));
        provisional_owned = λ h e. simp get-delete (
            ground
              (arith, text_beq_iff h₀ h, nat_beq_iff x₀ e.transaction, v.provisional_owned h e));
        disjoint = λ h l. simp get-delete (ground (arith, text_beq_iff h₀ h, v.disjoint h l));
        listed = λ l h.
            simp (forgets, get-delete)
              (ground (arith, text_beq_iff h₀ h, text_beq_iff l₀ l, v.listed l h));
        owned = λ x h.
            simp get-delete (ground (arith, text_beq_iff h₀ h, nat_beq_iff x₀ x, v.owned x h));
        fresh = λ x h. simp get-delete (ground (arith, nat_beq_iff x₀ x, v.fresh x h));
      }
